-- ===== src/Forms/NewSession.antt =====
-- packages/dashboard-core/src/flows/newSession.ts: the form for a new session. The name of a branch is a
-- text of code units, which the input edits; the identifiers are strings. The random token is an
-- argument.
pub mod Reached
pub mod Steps
pub mod Validation
mod Tests
use wosm.Base.{
  ℕ, String, Bool, true, false, ◌||◌, List, [], ◌∷◌, Option, none, some, get_elem?, find, ◌==◌,
  string_eq, if◌then◌else◌,
}
use wosm.Base.Text.{Text, code_points, code_units}
use wosm.Contracts.Status.{SafeError}
use wosm.Contracts.Snapshot.{ProjectView, unavailable, WosmSnapshot}
use wosm.Names.{StableNameInput, NameMethods, path_segment, stable_name, stable_name_hash}
use wosm.Forms.TextInput.{
  EditableTextInputState, EditableTextInputKey, EditableTextEditAction, EditableTextInputIntent,
  edit, no_edit, create_editable_text_input_state, editable_text_input_intent_for_input,
  transition_editable_text_input,
}
use wosm.Forms.Choices.{
  NewSessionHarnessOption, choice_value_by_key, is_selection_key, select_new_session_project,
  select_new_session_project_choices, select_new_session_harness_options,
  select_new_session_harness_choices,
}
use wosm.Forms.Wizard.{
  StepWizardState, create_step_wizard_state, enter_wizard_step, reset_wizard_step, back_wizard_step,
}

pub data NewSessionNameSource : Type 0 where
  generated custom : NewSessionNameSource

pub data NewSessionStep : Type 0 where
  review edit_name pick_project pick_agent : NewSessionStep

pub record NewSessionFields : Type 0 where
  pub selected_project_id : String
  pub selected_harness : String
  pub branch : Text
  pub name_source : NewSessionNameSource

-- `mode`, `stepHistory` and the fields.
abbrev pub NewSessionBaseState : Type 0
NewSessionBaseState = StepWizardState NewSessionStep NewSessionFields

-- The states tell their modes; each has the history and the fields of the base, and one a draft.
pub data NewSessionFlowState : Type 0 where
  review_state pick_project_state pick_agent_state :
      List NewSessionStep → NewSessionFields → NewSessionFlowState
  edit_name_state :
      List NewSessionStep → NewSessionFields → EditableTextInputState → NewSessionFlowState

pub data NewSessionFlowAction : Type 0 where
  start_edit_name commit_name start_pick_project start_pick_agent cancel : NewSessionFlowAction
  edit_name_input : EditableTextEditAction → NewSessionFlowAction
  choose_project : (key : String) → (token : Text) → NewSessionFlowAction
  choose_agent : (key : String) → NewSessionFlowAction

pub record NewSessionInput : Type 0 where
  pub input : String
  pub return : Bool
  pub escape : Bool
  pub key : EditableTextInputKey
  pub token : Text

pub data NewSessionInputIntent : Type 0 where
  transition : NewSessionFlowAction → NewSessionInputIntent
  submit no_intent : NewSessionInputIntent

pub data NewSessionCreateValidation : Type 0 where
  valid : ProjectView → (branch : Text) → (harness : String) → NewSessionCreateValidation
  invalid : SafeError → NewSessionCreateValidation

unfoldable pub base_state : NewSessionFlowState → NewSessionBaseState
base_state (review_state h f) = record { mode = review; step_history = h; rest = f }
base_state (edit_name_state h f _) = record { mode = edit_name; step_history = h; rest = f }
base_state (pick_project_state h f) = record { mode = pick_project; step_history = h; rest = f }
base_state (pick_agent_state h f) = record { mode = pick_agent; step_history = h; rest = f }

unfoldable pub generated_session_branch : NameMethods → String → Text → Text
generated_session_branch methods project_id token = stable_name methods (record {
  prefix = none;
  profile = path_segment;
  display = code_points project_id ∷ token ∷ [];
  unique = code_points project_id ∷ token ∷ [];
  max_length = none;
  hash_length = none;
  hash = none;
})

unfoldable pub create_new_session_name_token : NameMethods → Text → Text
create_new_session_name_token methods unique =
    stable_name_hash methods (code_points "new-session" ∷ unique ∷ []) 6

unfoldable pub first_harness_option : WosmSnapshot → Option NewSessionHarnessOption
first_harness_option snapshot = get_elem? (select_new_session_harness_options snapshot) 0

abbrev pub review_of : NewSessionBaseState → NewSessionFlowState
review_of s = review_state s.step_history s.rest

unfoldable pub create_new_session_flow :
    NameMethods → WosmSnapshot → Text → Option NewSessionFlowState
unfolding first_harness_option create_step_wizard_state generated_session_branch
create_new_session_flow methods snapshot token = elim (get_elem? snapshot.projects 0) [
  | none ↦ none
  | some project ↦ elim (first_harness_option snapshot) [
    | none ↦ none
    | some harness ↦ some (
        review_of (
          create_step_wizard_state review (record {
            selected_project_id = project.id;
            selected_harness = harness.id;
            branch = generated_session_branch methods project.id token;
            name_source = generated;
          })))
  ]
]

unfoldable pub to_review_state : NewSessionBaseState → NewSessionFlowState
unfolding reset_wizard_step
to_review_state s = review_of (reset_wizard_step s review)

unfoldable pub cancel_new_session_step : NewSessionFlowState → Option NewSessionFlowState
unfolding back_wizard_step to_review_state base_state
cancel_new_session_step s = elim (back_wizard_step (base_state s)) [
  | none ↦ none
  | some previous ↦ some (to_review_state previous)
]

-- `resetWizardStep(baseState(state), "review")` with other fields.
abbrev pub review_with : NewSessionFlowState → NewSessionFields → NewSessionFlowState
review_with s fields = to_review_state (record (base_state s) { rest = fields })

-- `draftName.value.trim()`, and the fields with it where it is not empty.
abbrev pub named : NewSessionFields → Text → NewSessionFields
named f [] = f
named f (c ∷ cs) = record f { branch = c ∷ cs; name_source = custom }

unfoldable pub commit_edited_name :
    NameMethods
    → NewSessionFlowState
    → NewSessionFields
    → EditableTextInputState
    → NewSessionFlowState
unfolding to_review_state base_state
commit_edited_name methods s f draft = review_with s (named f (methods.trim draft.value))

abbrev pub branch_for : NameMethods → NewSessionFields → String → Text → Text
branch_for methods f project_id token = elim (f.name_source) [
  | generated ↦ generated_session_branch methods project_id token
  | custom ↦ f.branch
]

unfoldable pub select_project_by_key :
    NameMethods
    → NewSessionFlowState
    → NewSessionFields
    → WosmSnapshot
    → String
    → Text
    → NewSessionFlowState
unfolding to_review_state base_state first_harness_option
select_project_by_key methods s f snapshot key token =
    elim (choice_value_by_key (select_new_session_project_choices snapshot) key) [
      | none ↦ s
      | some project ↦ elim (first_harness_option snapshot) [
        | none ↦ s
        | some harness ↦ review_with s (record f {
          selected_project_id = project.id;
          selected_harness = harness.id;
          branch = branch_for methods f project.id token;
        })
      ]
    ]

unfoldable pub selected_project : WosmSnapshot → NewSessionFields → Option ProjectView
selected_project snapshot f = select_new_session_project snapshot f.selected_project_id

unfoldable pub select_agent_by_key :
    NewSessionFlowState → NewSessionFields → WosmSnapshot → String → NewSessionFlowState
unfolding to_review_state base_state selected_project
select_agent_by_key s f snapshot key = elim (selected_project snapshot f) [
  | none ↦ s
  | some project ↦ elim (choice_value_by_key (select_new_session_harness_choices snapshot) key) [
    | none ↦ s
    | some option ↦ review_with s (record f { selected_harness = option.id })
  ]
]

abbrev pub entered : NewSessionFlowState → NewSessionStep → NewSessionBaseState
entered s step = enter_wizard_step (base_state s) step

unfoldable pub transition_new_session_flow :
    NameMethods
    → NewSessionFlowState
    → WosmSnapshot
    → NewSessionFlowAction
    → Option NewSessionFlowState
unfolding cancel_new_session_step enter_wizard_step base_state commit_edited_name
    select_project_by_key select_agent_by_key
transition_new_session_flow methods s snapshot cancel = cancel_new_session_step s
transition_new_session_flow methods s snapshot start_edit_name =
    let next = entered s edit_name in
    some (edit_name_state next.step_history next.rest (create_editable_text_input_state []))
transition_new_session_flow methods (edit_name_state h f draft) snapshot (edit_name_input action) =
    some (edit_name_state h f (transition_editable_text_input draft action))
transition_new_session_flow methods s snapshot (edit_name_input action) = some s
transition_new_session_flow methods (edit_name_state h f draft) snapshot commit_name =
    some (commit_edited_name methods (edit_name_state h f draft) f draft)
transition_new_session_flow methods s snapshot commit_name = some s
transition_new_session_flow methods s snapshot start_pick_project =
    let next = entered s pick_project in some (pick_project_state next.step_history next.rest)
transition_new_session_flow methods (pick_project_state h f) snapshot (choose_project key token) =
    some (select_project_by_key methods (pick_project_state h f) f snapshot key token)
transition_new_session_flow methods s snapshot (choose_project key token) = some s
transition_new_session_flow methods s snapshot start_pick_agent =
    let next = entered s pick_agent in some (pick_agent_state next.step_history next.rest)
transition_new_session_flow methods (pick_agent_state h f) snapshot (choose_agent key) =
    some (select_agent_by_key (pick_agent_state h f) f snapshot key)
transition_new_session_flow methods s snapshot (choose_agent key) = some s

unfoldable pub is_return : NewSessionInput → Bool
is_return i = i.return || ((i.input == "\r") || (i.input == "\n"))

-- `reviewKeyIntents[input.input] ?? { type: "none" }`.
unfoldable pub review_input_intent : NewSessionInput → NewSessionInputIntent
unfolding is_return
review_input_intent i =
    if is_return i
    then submit
    else if i.input == "N"
    then transition start_edit_name
    else if i.input == "P"
    then transition start_pick_project
    else if i.input == "A"
    then transition start_pick_agent
    else no_intent

abbrev pub intent_of_edit : EditableTextInputIntent → NewSessionInputIntent
intent_of_edit (edit action) = transition (edit_name_input action)
intent_of_edit no_edit = no_intent

unfoldable pub edit_name_input_intent : NewSessionInput → NewSessionInputIntent
unfolding is_return
edit_name_input_intent i =
    if is_return i
    then transition commit_name
    else intent_of_edit
        (editable_text_input_intent_for_input (record { input = code_units i.input; key = i.key }))

unfoldable pub picker_input_intent :
    NewSessionInput → (String → NewSessionFlowAction) → NewSessionInputIntent
picker_input_intent i choose =
    if is_selection_key i.input then transition (choose i.input) else no_intent

unfoldable pub mode_intent : NewSessionFlowState → NewSessionInput → NewSessionInputIntent
unfolding review_input_intent edit_name_input_intent picker_input_intent
mode_intent (review_state h f) i = review_input_intent i
mode_intent (edit_name_state h f draft) i = edit_name_input_intent i
mode_intent (pick_project_state h f) i = picker_input_intent i (λ key. choose_project key i.token)
mode_intent (pick_agent_state h f) i = picker_input_intent i choose_agent

unfoldable pub new_session_intent_for_input :
    NewSessionFlowState → NewSessionInput → NewSessionInputIntent
unfolding mode_intent
new_session_intent_for_input s i =
    let intent = mode_intent s i in if i.escape then transition cancel else intent
