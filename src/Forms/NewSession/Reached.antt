-- ===== src/Forms/NewSession/Reached.antt =====
-- The states of the form that its keys reach.
use wosm.Base.{
  String, true, ◌≡◌, ◌≢◌, refl, List, [], ◌∷◌, map, some, contains, get_elem?, string_eq, subst,
}
use wosm.Base.All.{All, contains_own}
use wosm.Base.Text.{Text}
use wosm.Contracts.Snapshot.{ProjectView, WosmSnapshot}
use wosm.Names.{NameMethods}
use wosm.Forms.TextInput.Cursor.{InText}
use wosm.Forms.Choices.{NewSessionHarnessOption, select_new_session_harness_options}
use wosm.Forms.NewSession.{
  NewSessionFields, review, NewSessionNameSource, generated, custom, NewSessionFlowState,
  review_state, edit_name_state, pick_project_state, pick_agent_state, generated_session_branch,
  first_harness_option, named, branch_for,
}

-- The steps behind the one that is shown.
abbrev pub IsOnWay : NewSessionFlowState → Type 0
IsOnWay (review_state h f) = h ≡ []
IsOnWay (edit_name_state h f draft) = h ≡ review ∷ []
IsOnWay (pick_project_state h f) = h ≡ review ∷ []
IsOnWay (pick_agent_state h f) = h ≡ review ∷ []

abbrev pub IsDrafted : NewSessionFlowState → Type 0
IsDrafted (edit_name_state h f draft) = InText draft
IsDrafted _ = Unit

abbrev pub fields_of : NewSessionFlowState → NewSessionFields
fields_of (review_state h f) = f
fields_of (edit_name_state h f draft) = f
fields_of (pick_project_state h f) = f
fields_of (pick_agent_state h f) = f

abbrev pub option_ids : WosmSnapshot → List String
option_ids snapshot = map (λ option. option.id) (select_new_session_harness_options snapshot)

abbrev pub project_ids : WosmSnapshot → List String
project_ids snapshot = map (λ project. project.id) snapshot.projects

module _ (methods : NameMethods) (snapshot : WosmSnapshot) where
  -- A generated name is one of the project that is selected, and another is not empty.
  abbrev pub NameFits : NewSessionNameSource → String → Text → Type 0
  NameFits generated project_id branch =
      (token : Text) × (branch ≡ generated_session_branch methods project_id token)
  NameFits custom project_id branch = branch ≢ []

  pub record Selected (f : NewSessionFields) : Type 0 where
    pub project : contains (project_ids snapshot) f.selected_project_id ≡ true
    pub harness : contains (option_ids snapshot) f.selected_harness ≡ true
    pub name : NameFits f.name_source f.selected_project_id f.branch

  pub record Reached (s : NewSessionFlowState) : Type 0 where
    pub way : IsOnWay s
    pub draft : IsDrafted s
    pub fields : Selected (fields_of s)

  module _ {ℓ} {T : Type ℓ} where
    All-unmap :
        (P : String → Type 0) (f : T → String) (xs : List T)
        → All P (map f xs)
        → All (λ x. P (f x)) xs
    All-unmap P f [] h = tt
    All-unmap P f (x ∷ xs) h = (h.0, All-unmap P f xs h.1)

    pub All-first :
        (P : T → Type 0) (xs : List T) (x : T) → All P xs → get_elem? xs 0 ≡ some x → P x
    All-first P [] x h e = cc
    All-first P (y ∷ ys) x h e = subst P (cc e) h.0

  abbrev pub OptionKnown : NewSessionHarnessOption → Type 0
  OptionKnown option = contains (option_ids snapshot) option.id ≡ true

  pub options_known : All OptionKnown (select_new_session_harness_options snapshot)
  options_known =
      All-unmap (λ id. contains (option_ids snapshot) id ≡ true) (λ option. option.id)
        (select_new_session_harness_options snapshot) (contains_own (option_ids snapshot))

  abbrev pub ProjectKnown : ProjectView → Type 0
  ProjectKnown project = contains (project_ids snapshot) project.id ≡ true

  pub projects_known : All ProjectKnown snapshot.projects
  projects_known =
      All-unmap (λ id. contains (project_ids snapshot) id ≡ true) (λ project. project.id)
        snapshot.projects (contains_own (project_ids snapshot))

  pub first_known :
      (option : NewSessionHarnessOption)
      → first_harness_option snapshot ≡ some option
      → OptionKnown option
  unfolding first_harness_option
  first_known option e =
      All-first OptionKnown (select_new_session_harness_options snapshot) option options_known e

  pub branch-NameFits :
      (source : NewSessionNameSource) (f : NewSessionFields) (project_id : String) (token : Text)
      → f.name_source ≡ source
      → NameFits f.name_source f.selected_project_id f.branch
      → NameFits f.name_source project_id (branch_for methods f project_id token)
  branch-NameFits generated f project_id token e h = rw e (token, refl)
  branch-NameFits custom f project_id token e h =
      rw e (subst (λ s. NameFits s f.selected_project_id f.branch) e h)

  pub named-Selected : (f : NewSessionFields) (t : Text) → Selected f → Selected (named f t)
  named-Selected f [] h = h
  named-Selected f (c ∷ cs) h = record {
    project = h.project;
    harness = h.harness;
    name = λ e. cc e;
  }
