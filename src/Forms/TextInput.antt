-- ===== src/Forms/TextInput.antt =====
-- packages/dashboard-core/src/components/EditableTextInput/editing.ts: the text input of the dashboard.
-- A text is the list of its UTF-16 code units, and the cursor is a whole number, which need not be in
-- the text.
pub mod Cursor
mod Tests
use wosm.Base.{
  ℕ, suc, ◌+◌, ◌-◌, Bool, true, false, List, [], ◌∷◌, ◌++◌, length, take, drop, min, leb, nat_beq,
  if◌then◌else◌,
}
use wosm.Base.Text.{Text}
use wosm.Base.Int.{ℤ, pos, negsuc, ◌+ℤ◌, max_zero, int_beq}

pub record EditableTextInputState : Type 0 where
  pub value : Text
  pub cursor : ℤ

-- A key that is `undefined` counts as one that is not pressed.
pub record EditableTextInputKey : Type 0 where
  pub backspace : Bool
  pub delete : Bool
  pub left_arrow : Bool
  pub right_arrow : Bool

pub record EditableTextInputInput : Type 0 where
  pub input : Text
  pub key : EditableTextInputKey

pub data EditableTextEditAction : Type 0 where
  insert : Text → EditableTextEditAction
  backspace delete : EditableTextEditAction
  move_cursor : (delta : ℤ) → EditableTextEditAction

pub data EditableTextInputIntent : Type 0 where
  edit : EditableTextEditAction → EditableTextInputIntent
  no_edit : EditableTextInputIntent

unfoldable pub create_editable_text_input_state : Text → EditableTextInputState
create_editable_text_input_state value = record { value = value; cursor = pos (length value) }

-- `input.length > 0`.
abbrev pub typed : Text → EditableTextInputIntent
typed [] = no_edit
typed (c ∷ cs) = edit (insert (c ∷ cs))

unfoldable pub editable_text_input_intent_for_input :
    EditableTextInputInput → EditableTextInputIntent
editable_text_input_intent_for_input i =
    if i.key.left_arrow
    then edit (move_cursor (negsuc 0))
    else if i.key.right_arrow
    then edit (move_cursor (pos 1))
    else if i.key.backspace
    then edit backspace
    else if i.key.delete
    then edit delete
    else typed i.input

unfoldable pub clamp_editable_text_cursor : ℤ → Text → ℕ
clamp_editable_text_cursor cursor value = min (max_zero cursor) (length value)

-- `{ ...state, cursor }`, or the same state where the cursor stays.
abbrev pub with_cursor : EditableTextInputState → ℕ → EditableTextInputState
with_cursor s cursor = if int_beq (pos cursor) s.cursor then s else record s { cursor = pos cursor }

unfoldable pub insert_editable_text : EditableTextInputState → Text → EditableTextInputState
unfolding clamp_editable_text_cursor
insert_editable_text s input =
    let cursor = clamp_editable_text_cursor s.cursor s.value in
    record {
      value = take cursor s.value ++ input ++ drop cursor s.value;
      cursor = pos (cursor + length input);
    }

unfoldable pub backspace_editable_text : EditableTextInputState → EditableTextInputState
unfolding clamp_editable_text_cursor
backspace_editable_text s =
    let cursor = clamp_editable_text_cursor s.cursor s.value in
    if nat_beq cursor 0 then with_cursor s cursor else record {
      value = take (cursor - 1) s.value ++ drop cursor s.value;
      cursor = pos (cursor - 1);
    }

unfoldable pub delete_editable_text : EditableTextInputState → EditableTextInputState
unfolding clamp_editable_text_cursor
delete_editable_text s =
    let cursor = clamp_editable_text_cursor s.cursor s.value in
    if leb (length s.value) cursor
    then with_cursor s cursor
    else record { value = take cursor s.value ++ drop (cursor + 1) s.value; cursor = pos cursor }

unfoldable pub move_editable_text_cursor : EditableTextInputState → ℤ → EditableTextInputState
unfolding clamp_editable_text_cursor
move_editable_text_cursor s delta = record s {
  cursor = pos (clamp_editable_text_cursor (s.cursor +ℤ delta) s.value);
}

unfoldable pub transition_editable_text_input :
    EditableTextInputState → EditableTextEditAction → EditableTextInputState
unfolding insert_editable_text backspace_editable_text delete_editable_text
    move_editable_text_cursor
transition_editable_text_input s (insert input) = insert_editable_text s input
transition_editable_text_input s backspace = backspace_editable_text s
transition_editable_text_input s delete = delete_editable_text s
transition_editable_text_input s (move_cursor delta) = move_editable_text_cursor s delta
