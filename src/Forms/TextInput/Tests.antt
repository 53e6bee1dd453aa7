-- ===== src/Forms/TextInput/Tests.antt =====
-- The text input with "ab" and the cursor between its letters.
use wosm.Base.{true, false, ◌≡◌, refl, [], ◌∷◌}
use wosm.Base.Int.{pos}
use wosm.Forms.TextInput.{
  EditableTextInputState, EditableTextInputInput, editable_text_input_intent_for_input,
  transition_editable_text_input,
}
use wosm.Forms.TextInput.Cursor.{Cut, Shows, press, run_intent, press-Shows}

abbrev ab : EditableTextInputState
ab = record { value = 97 ∷ 98 ∷ []; cursor = pos 1 }

abbrev between : Cut
between = record { left = 97 ∷ []; right = 98 ∷ [] }

abbrev backspace_key : EditableTextInputInput
backspace_key = record {
  input = [];
  key = record { backspace = true; delete = false; left_arrow = false; right_arrow = false };
}

erased :
    run_intent ab (editable_text_input_intent_for_input backspace_key)
    ≡ record { value = 98 ∷ []; cursor = pos 0 }
unfolding editable_text_input_intent_for_input transition_editable_text_input
erased = refl

press-Shows_example :
    Shows
      (run_intent ab (editable_text_input_intent_for_input backspace_key))
      (press between backspace_key)
press-Shows_example = press-Shows ab between backspace_key (refl, refl)
