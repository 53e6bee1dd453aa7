-- ===== src/Forms/NewSession/Steps.antt =====
-- The keys of the form, and the states that it reaches.
use wosm.Base.{
  String, ◌≡◌, refl, List, [], none, some, get_elem?, ◌==◌, string_eq, arith, Bool-cases,
  Option-cases, inl, inr, subst, ◌⊎◌,
}
use wosm.Base.Text.{Text, code_units}
use wosm.Contracts.Snapshot.{WosmSnapshot}
use wosm.Names.{NameMethods}
use wosm.Forms.TextInput.{
  EditableTextInputState, editable_text_input_intent_for_input, edit, no_edit,
  create_editable_text_input_state, EditableTextInputIntent,
}
use wosm.Forms.TextInput.Cursor.{transition-InText}
use wosm.Forms.Choices.{
  is_selection_key, choice_value_by_key, key_choices, select_new_session_project_choices,
  select_new_session_harness_options, select_new_session_harness_choices,
}
use wosm.Forms.Choices.Keys.{key_choices-All, choice-All}
use wosm.Forms.Wizard.{
  back_wizard_step, create_step_wizard_state, enter_wizard_step, reset_wizard_step,
}
use wosm.Forms.NewSession.Reached.{
  Reached, Selected, IsOnWay, fields_of, OptionKnown, ProjectKnown, options_known, projects_known,
  first_known, branch-NameFits, named-Selected, All-first,
}
use wosm.Forms.NewSession.{
  NewSessionFields, NewSessionStep, generated, NewSessionFlowState, review_state, edit_name_state,
  pick_project_state, pick_agent_state, NewSessionFlowAction, start_edit_name, edit_name_input,
  commit_name, start_pick_project, start_pick_agent, choose_project, choose_agent, cancel,
  NewSessionInput, transition, generated_session_branch, create_new_session_flow,
  transition_new_session_flow, new_session_intent_for_input, mode_intent, first_harness_option,
  cancel_new_session_step, commit_edited_name, select_project_by_key, select_agent_by_key,
  selected_project, to_review_state, base_state, review_input_intent, edit_name_input_intent,
  intent_of_edit, picker_input_intent, is_return,
}

module _ (methods : NameMethods) (snapshot : WosmSnapshot) where
  in_review :
      (f : NewSessionFields)
      → Selected methods snapshot f
      → Reached methods snapshot (review_state [] f)
  in_review f h = record { way = refl; draft = tt; fields = h }

  project-Reached :
      (s : NewSessionFlowState) (f : NewSessionFields) (key : String) (token : Text)
      → Reached methods snapshot s
      → Selected methods snapshot f
      → Reached methods snapshot (select_project_by_key methods s f snapshot key token)
  unfolding select_project_by_key to_review_state reset_wizard_step key_choices
      select_new_session_project_choices
  project-Reached s f key token r h =
      elim (Option-cases (choice_value_by_key (select_new_session_project_choices snapshot) key)) [
        | inl unknown ↦ rw (select_project_by_key, unknown) r
        | inr (project, known) ↦ elim (Option-cases (first_harness_option snapshot)) [
          | inl bare ↦ rw (select_project_by_key, known, bare) r
          | inr (option, first) ↦
              rw (select_project_by_key, known, first)
                (in_review _ (record {
                  project =
                      choice-All (ProjectKnown methods snapshot) _ key project
                        (key_choices-All (ProjectKnown methods snapshot) snapshot.projects
                          (projects_known methods snapshot))
                        known;
                  harness = first_known methods snapshot option first;
                  name =
                      branch-NameFits methods snapshot f.name_source f project.id token refl h.name;
                }))
        ]
      ]

  agent-Reached :
      (s : NewSessionFlowState) (f : NewSessionFields) (key : String)
      → Reached methods snapshot s
      → Selected methods snapshot f
      → Reached methods snapshot (select_agent_by_key s f snapshot key)
  unfolding select_agent_by_key to_review_state reset_wizard_step key_choices
      select_new_session_harness_choices
  agent-Reached s f key r h = elim (Option-cases (selected_project snapshot f)) [
    | inl gone ↦ rw (select_agent_by_key, gone) r
    | inr (project, there) ↦
        elim (Option-cases
          (choice_value_by_key (select_new_session_harness_choices snapshot) key)) [
            | inl unknown ↦ rw (select_agent_by_key, there, unknown) r
            | inr (option, known) ↦
                rw (select_agent_by_key, there, known)
                  (in_review _ (record {
                    project = h.project;
                    harness =
                        choice-All (OptionKnown methods snapshot) _ key option
                          (key_choices-All (OptionKnown methods snapshot)
                            (select_new_session_harness_options snapshot)
                            (options_known methods snapshot))
                          known;
                    name = h.name;
                  }))
          ]
  ]

  -- What the intents of a state can ask for.
  Offered : NewSessionFlowState → NewSessionFlowAction → Type 0
  Offered s cancel = Unit
  Offered (review_state h f) start_edit_name = Unit
  Offered (review_state h f) start_pick_project = Unit
  Offered (review_state h f) start_pick_agent = Unit
  Offered (edit_name_state h f draft) (edit_name_input action) = Unit
  Offered (edit_name_state h f draft) commit_name = Unit
  Offered (pick_project_state h f) (choose_project key token) = Unit
  Offered (pick_agent_state h f) (choose_agent key) = Unit
  Offered _ _ = ⊥

  -- Escape leads from the review out of the form, and from any other step to the review.
  back_to_review :
      (s : NewSessionFlowState)
      → IsOnWay s
      → (cancel_new_session_step s ≡ none)
        ⊎ (cancel_new_session_step s ≡ some (review_state [] (fields_of s)))
  unfolding cancel_new_session_step back_wizard_step base_state to_review_state reset_wizard_step
  back_to_review (review_state h f) way = inl (rw (cancel_new_session_step, way) refl)
  back_to_review (edit_name_state h f draft) way = inr (rw (cancel_new_session_step, way) refl)
  back_to_review (pick_project_state h f) way = inr (rw (cancel_new_session_step, way) refl)
  back_to_review (pick_agent_state h f) way = inr (rw (cancel_new_session_step, way) refl)

  cancel-Reached :
      (s next : NewSessionFlowState)
      → Reached methods snapshot s
      → cancel_new_session_step s ≡ some next
      → Reached methods snapshot next
  cancel-Reached s next r e = elim (back_to_review s r.way) [
    | inl out ↦ absurd (ground (arith, out, e))
    | inr back ↦ subst (Reached methods snapshot) (cc (back, e)) (in_review (fields_of s) r.fields)
  ]

  same_state :
      (s next : NewSessionFlowState)
      → Reached methods snapshot s
      → some s ≡ some next
      → Reached methods snapshot next
  same_state s next r e = subst (Reached methods snapshot) (cc e) r

  step-Reached :
      (s next : NewSessionFlowState) (a : NewSessionFlowAction)
      → Reached methods snapshot s
      → Offered s a
      → transition_new_session_flow methods s snapshot a ≡ some next
      → Reached methods snapshot next
  unfolding transition_new_session_flow Offered enter_wizard_step base_state commit_edited_name
      to_review_state reset_wizard_step create_editable_text_input_state
  step-Reached s next cancel r o e = cancel-Reached s next r e
  step-Reached (review_state h f) next start_edit_name r o e =
      same_state _ next
        (record { way = rw r.way refl; draft = (0, refl, omega arith); fields = r.fields }) e
  step-Reached (review_state h f) next start_pick_project r o e =
      same_state _ next (record { way = rw r.way refl; draft = tt; fields = r.fields }) e
  step-Reached (review_state h f) next start_pick_agent r o e =
      same_state _ next (record { way = rw r.way refl; draft = tt; fields = r.fields }) e
  step-Reached (edit_name_state h f draft) next (edit_name_input action) r o e =
      same_state _ next
        (record { way = r.way; draft = transition-InText draft action; fields = r.fields }) e
  step-Reached (edit_name_state h f draft) next commit_name r o e =
      same_state _ next
        (in_review _ (named-Selected methods snapshot f (methods.trim draft.value) r.fields)) e
  step-Reached (pick_project_state h f) next (choose_project key token) r o e =
      same_state _ next (project-Reached (pick_project_state h f) f key token r r.fields) e
  step-Reached (pick_agent_state h f) next (choose_agent key) r o e =
      same_state _ next (agent-Reached (pick_agent_state h f) f key r r.fields) e
  step-Reached _ next _ r o e = absurd o

  offered :
      (s : NewSessionFlowState) (a b : NewSessionFlowAction)
      → transition a ≡ transition b
      → Offered s a
      → Offered s b
  offered s a b e o = subst (Offered s) (cc e) o

  review-Offered :
      (h : List NewSessionStep) (f : NewSessionFields) (i : NewSessionInput)
      (a : NewSessionFlowAction)
      → review_input_intent i ≡ transition a
      → Offered (review_state h f) a
  unfolding review_input_intent Offered
  review-Offered h f i a e = elim (Bool-cases (is_return i)) [
    | inl r ↦ absurd (ground (arith, e, r))
    | inr r ↦ elim (Bool-cases (i.input == "N")) [
      | inl n ↦ offered (review_state h f) start_edit_name a (ground (arith, e, r, n)) tt
      | inr n ↦ elim (Bool-cases (i.input == "P")) [
        | inl p ↦ offered (review_state h f) start_pick_project a (ground (arith, e, r, n, p)) tt
        | inr p ↦ elim (Bool-cases (i.input == "A")) [
          | inl q ↦ offered (review_state h f) start_pick_agent a (ground (arith, e, r, n, p, q)) tt
          | inr q ↦ absurd (ground (arith, e, r, n, p, q))
        ]
      ]
    ]
  ]

  edited-Offered :
      (h : List NewSessionStep) (f : NewSessionFields) (draft : EditableTextInputState)
      (typed : EditableTextInputIntent) (a : NewSessionFlowAction)
      → intent_of_edit typed ≡ transition a
      → Offered (edit_name_state h f draft) a
  unfolding Offered
  edited-Offered h f draft (edit action) a e =
      offered (edit_name_state h f draft) (edit_name_input action) a e tt
  edited-Offered h f draft no_edit a e = absurd (ground (arith, e))

  intent-Offered :
      (s : NewSessionFlowState) (i : NewSessionInput) (a : NewSessionFlowAction)
      → mode_intent s i ≡ transition a
      → Offered s a
  unfolding mode_intent edit_name_input_intent picker_input_intent Offered
  intent-Offered (review_state h f) i a e = review-Offered h f i a e
  intent-Offered (edit_name_state h f draft) i a e = elim (Bool-cases (is_return i)) [
    | inl r ↦ offered (edit_name_state h f draft) commit_name a (ground (arith, e, r)) tt
    | inr r ↦
        edited-Offered h f draft
          (editable_text_input_intent_for_input
            (record { input = code_units i.input; key = i.key }))
          a (ground (arith, e, r))
  ]
  intent-Offered (pick_project_state h f) i a e = elim (Bool-cases (is_selection_key i.input)) [
    | inl k ↦
        offered (pick_project_state h f) (choose_project i.input i.token) a (ground (arith, e, k))
          tt
    | inr k ↦ absurd (ground (arith, e, k))
  ]
  intent-Offered (pick_agent_state h f) i a e = elim (Bool-cases (is_selection_key i.input)) [
    | inl k ↦ offered (pick_agent_state h f) (choose_agent i.input) a (ground (arith, e, k)) tt
    | inr k ↦ absurd (ground (arith, e, k))
  ]

  -- Any key keeps the form in a reached state, as long as the snapshot stays: the way back leads to the
  -- review, the cursor of a draft is in its text, the project and the harness are ones that the
  -- snapshot offers, and a generated name is one of the project that is selected.
  pub key-Reached :
      (s next : NewSessionFlowState) (i : NewSessionInput) (a : NewSessionFlowAction)
      → Reached methods snapshot s
      → new_session_intent_for_input s i ≡ transition a
      → transition_new_session_flow methods s snapshot a ≡ some next
      → Reached methods snapshot next
  unfolding new_session_intent_for_input Offered
  key-Reached s next i a r e k = elim (Bool-cases i.escape) [
    | inl esc ↦ step-Reached s next a r (offered s cancel a (ground (arith, e, esc)) tt) k
    | inr other ↦ step-Reached s next a r (intent-Offered s i a (ground (arith, e, other))) k
  ]

  -- The form opens in a reached state.
  pub create-Reached :
      (token : Text) (s : NewSessionFlowState)
      → create_new_session_flow methods snapshot token ≡ some s
      → Reached methods snapshot s
  unfolding create_new_session_flow create_step_wizard_state
  create-Reached token s e = elim (Option-cases (get_elem? snapshot.projects 0)) [
    | inl bare ↦ absurd (ground (arith, e, bare))
    | inr (project, first) ↦ elim (Option-cases (first_harness_option snapshot)) [
      | inl none_set ↦ absurd (ground (arith, e, first, none_set))
      | inr (option, offers) ↦
          same_state _ s
            (in_review
              (record {
                selected_project_id = project.id;
                selected_harness = option.id;
                branch = generated_session_branch methods project.id token;
                name_source = generated;
              })
              (record {
                project =
                    All-first methods snapshot (ProjectKnown methods snapshot) snapshot.projects
                      project (projects_known methods snapshot) first;
                harness = first_known methods snapshot option offers;
                name = (token, refl);
              }))
            (ground (arith, e, first, offers))
    ]
  ]
