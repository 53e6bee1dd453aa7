-- ===== src/Forms/NewSession/Tests.antt =====
-- The form of a new session on the shared snapshot, by its keys.
use wosm.Base.{false, ◌≡◌, refl, [], ◌∷◌, some}
use wosm.Base.Int
use wosm.Base.Text.{code_points}
use wosm.Contracts.Snapshot.{WosmSnapshot}
use wosm.Contracts.Status.{idle}
use wosm.Samples
use wosm.Names.{NameMethods}
use wosm.Forms.TextInput.{EditableTextInputKey, create_editable_text_input_state}
use wosm.Forms.NewSession.{
  NewSessionFields, NewSessionFlowState, review_state, edit_name_state, review, generated,
  NewSessionInput, start_edit_name, create_new_session_flow, transition_new_session_flow,
  transition, new_session_intent_for_input, generated_session_branch, selected_project, valid,
}
use wosm.Forms.NewSession.Reached.{Reached}
use wosm.Forms.NewSession.Steps.{create-Reached, key-Reached}
use wosm.Forms.NewSession.Validation.{validate_new_session_create}
use wosm.Forms.Choices.{select_new_session_project, select_new_session_harness_options}

abbrev methods : NameMethods
methods = record { trim = λ s. s; to_lower_case = λ s. s; hex_digest = λ parts. [] }

abbrev offers : WosmSnapshot
offers = record (Samples.snapshot idle) {
  harnesses = some (record { id = "codex"; label = "Codex" } ∷ []);
}

abbrev no_key : EditableTextInputKey
no_key = record { backspace = false; delete = false; left_arrow = false; right_arrow = false }

abbrev press_n : NewSessionInput
press_n = record { input = "N"; return = false; escape = false; key = no_key; token = [] }

abbrev fields : NewSessionFields
fields = record {
  selected_project_id = "p";
  selected_harness = "codex";
  branch = generated_session_branch methods "p" (code_points "x1");
  name_source = generated;
}

opened : create_new_session_flow methods offers (code_points "x1") ≡ some (review_state [] fields)
unfolding create_new_session_flow select_new_session_harness_options
opened = refl

create-Reached_example : Reached methods offers (review_state [] fields)
create-Reached_example =
    create-Reached methods offers (code_points "x1") (review_state [] fields) opened

abbrev draft_state : NewSessionFlowState
draft_state = edit_name_state (review ∷ []) fields (record { value = []; cursor = Int.pos 0 })

asked : new_session_intent_for_input (review_state [] fields) press_n ≡ transition start_edit_name
unfolding new_session_intent_for_input
asked = refl

entered_draft :
    transition_new_session_flow methods (review_state [] fields) offers start_edit_name
    ≡ some draft_state
unfolding transition_new_session_flow create_editable_text_input_state
entered_draft = refl

key-Reached_example : Reached methods offers draft_state
key-Reached_example =
    key-Reached methods offers (review_state [] fields) draft_state press_n start_edit_name
      (create-Reached methods offers (code_points "x1") (review_state [] fields) opened) asked
      entered_draft

accepted_form :
    validate_new_session_create offers fields ≡ valid Samples.project fields.branch "codex"
unfolding validate_new_session_create selected_project select_new_session_project
    select_new_session_harness_options
accepted_form = refl
