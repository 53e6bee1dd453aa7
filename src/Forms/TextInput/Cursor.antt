-- ===== src/Forms/TextInput/Cursor.antt =====
-- The text input as a stack of what stands before the cursor and a list of what stands behind it.
use mathlib.Core.List.{reverse, reverse-cons, reverse-append, reverse-reverse}
use native.Mathlib.Nat.{add_comm}
use wosm.Base.{
  ℕ, suc, ◌+◌, ◌-◌, ◌≤◌, ◌≡◌, refl, true, [], ◌∷◌, ◌++◌, append_assoc, length, length-append, take,
  drop, length-take, nat_beq, leb, if◌then◌else◌, arith, ap, sym, ◌∙◌, subst, Bool-cases, inl, inr,
}
use wosm.Base.Text.{Text}
use wosm.Base.Int.{ℤ, pos, negsuc, ◌+ℤ◌, int_beq, int_beq_pos}
use wosm.Forms.TextInput.{
  EditableTextInputState, EditableTextInputInput, EditableTextEditAction, insert, backspace, delete,
  move_cursor, EditableTextInputIntent, typed, edit, no_edit, transition_editable_text_input,
  editable_text_input_intent_for_input, insert_editable_text, backspace_editable_text,
  delete_editable_text, move_editable_text_cursor, clamp_editable_text_cursor, with_cursor,
}

-- The text before the cursor, the last unit first, and the text behind it.
pub record Cut : Type 0 where
  pub left : Text
  pub right : Text

abbrev cut : Text → Text → Cut
cut l r = record { left = l; right = r }

abbrev pub type_text : Cut → Text → Cut
type_text z t = cut (reverse t ++ z.left) z.right

erase_left : Text → Text → Cut
erase_left [] r = cut [] r
erase_left (x ∷ l) r = cut l r

erase_right : Text → Text → Cut
erase_right l [] = cut l []
erase_right l (x ∷ r) = cut l r

go_left : Text → Text → Cut
go_left [] r = cut [] r
go_left (x ∷ l) r = cut l (x ∷ r)

go_right : Text → Text → Cut
go_right l [] = cut l []
go_right l (x ∷ r) = cut (x ∷ l) r

-- What a key does: an arrow moves the cursor by one unit, and so on.
unfoldable pub press : Cut → EditableTextInputInput → Cut
unfolding erase_left erase_right go_left go_right
press z i =
    if i.key.left_arrow
    then go_left z.left z.right
    else if i.key.right_arrow
    then go_right z.left z.right
    else if i.key.backspace
    then erase_left z.left z.right
    else if i.key.delete
    then erase_right z.left z.right
    else type_text z i.input

abbrev pub Shows : EditableTextInputState → Cut → Type 0
Shows s z = (s.value ≡ reverse z.left ++ z.right) × (s.cursor ≡ pos (length z.left))

-- `s.value` and `s.cursor` after an intent.
abbrev pub run_intent : EditableTextInputState → EditableTextInputIntent → EditableTextInputState
run_intent s (edit action) = transition_editable_text_input s action
run_intent s no_edit = s

length-reverse : (xs : Text) → length (reverse xs) ≡ length xs
length-reverse [] = refl
length-reverse (x ∷ xs) =
    ap length (reverse-cons x xs)
    ∙ length-append (reverse xs) (x ∷ [])
    ∙ omega (arith, length-reverse xs)

take-append : (xs ys : Text) → take (length xs) (xs ++ ys) ≡ xs
take-append [] ys = refl
take-append (x ∷ xs) ys = ap (x ∷◌) (take-append xs ys)

drop-append : (xs ys : Text) → drop (length xs) (xs ++ ys) ≡ ys
drop-append [] ys = refl
drop-append (x ∷ xs) ys = drop-append xs ys

module _ (l r : Text) where
  abbrev shown : EditableTextInputState
  shown = record { value = reverse l ++ r; cursor = pos (length l) }

  clamp_shown : clamp_editable_text_cursor (pos (length l)) (reverse l ++ r) ≡ length l
  unfolding clamp_editable_text_cursor
  clamp_shown = omega (arith, length-append (reverse l) r, length-reverse l)

  take_shown : take (length l) (reverse l ++ r) ≡ reverse l
  take_shown =
      subst (λ n. take n (reverse l ++ r) ≡ reverse l) (length-reverse l)
        (take-append (reverse l) r)

  drop_shown : drop (length l) (reverse l ++ r) ≡ r
  drop_shown =
      subst (λ n. drop n (reverse l ++ r) ≡ r) (length-reverse l) (drop-append (reverse l) r)

  length_shown : length (reverse l ++ r) ≡ length l + length r
  length_shown = omega (arith, length-append (reverse l) r, length-reverse l)

insert-Shows : (l r t : Text) → Shows (insert_editable_text (shown l r) t) (type_text (cut l r) t)
unfolding insert_editable_text
insert-Shows l r t =
    simp
      (
        clamp_shown l r,
        take_shown l r,
        drop_shown l r,
        reverse-append (reverse t) l,
        reverse-reverse t,
        append_assoc,
        length-append (reverse t) l,
        length-reverse t,
        add_comm,
      )
      (refl, refl)

-- The unit before the cursor, seen as the first one behind it.
step_over : (x : ℕ) (l r : Text) → reverse (x ∷ l) ++ r ≡ reverse l ++ x ∷ r
step_over x l r = simp (reverse-cons x l, append_assoc)

drop_over : (x : ℕ) (l r : Text) → drop (suc (length l)) (reverse l ++ x ∷ r) ≡ r
drop_over x l r =
    subst (λ text. drop (suc (length l)) text ≡ r) (step_over x l r) (drop_shown (x ∷ l) r)

take_over : (x : ℕ) (l r : Text) → take (length l) (reverse (x ∷ l) ++ r) ≡ reverse l
take_over x l r =
    subst (λ text. take (length l) text ≡ reverse l) (sym (step_over x l r)) (take_shown l (x ∷ r))

backspace-Shows : (l r : Text) → Shows (backspace_editable_text (shown l r)) (erase_left l r)
unfolding backspace_editable_text erase_left
backspace-Shows [] r = ground (arith, clamp_shown [] r)
backspace-Shows (x ∷ l) r =
    ground (arith, clamp_shown (x ∷ l) r, take_over x l r, drop_shown (x ∷ l) r)

delete-Shows : (l r : Text) → Shows (delete_editable_text (shown l r)) (erase_right l r)
unfolding delete_editable_text erase_right
delete-Shows l [] = ground (arith, clamp_shown l [], length_shown l [])
delete-Shows l (x ∷ r) =
    ground
      (arith, clamp_shown l (x ∷ r), take_shown l (x ∷ r), drop_over x l r, length_shown l (x ∷ r))

left-Shows : (l r : Text) → Shows (move_editable_text_cursor (shown l r) (negsuc 0)) (go_left l r)
unfolding move_editable_text_cursor clamp_editable_text_cursor go_left
left-Shows [] r = (refl, ground arith)
left-Shows (x ∷ l) r = (step_over x l r, ground (arith, length_shown (x ∷ l) r))

right-Shows : (l r : Text) → Shows (move_editable_text_cursor (shown l r) (pos 1)) (go_right l r)
unfolding move_editable_text_cursor clamp_editable_text_cursor go_right
right-Shows l [] = (refl, ground (arith, length_shown l []))
right-Shows l (x ∷ r) = (sym (step_over x l r), ground (arith, length_shown l (x ∷ r)))

typed-shown : (l r t : Text) → Shows (run_intent (shown l r) (typed t)) (type_text (cut l r) t)
unfolding transition_editable_text_input
typed-shown l r [] = (refl, refl)
typed-shown l r (c ∷ cs) = insert-Shows l r (c ∷ cs)

press-shown :
    (l r : Text) (i : EditableTextInputInput)
    → Shows (run_intent (shown l r) (editable_text_input_intent_for_input i)) (press (cut l r) i)
unfolding editable_text_input_intent_for_input transition_editable_text_input press
press-shown l r i = elim (Bool-cases i.key.left_arrow) [
  | inl h ↦ rw h (left-Shows l r)
  | inr h₁ ↦ elim (Bool-cases i.key.right_arrow) [
    | inl h ↦ rw (h₁, h) (right-Shows l r)
    | inr h₂ ↦ elim (Bool-cases i.key.backspace) [
      | inl h ↦ rw (h₁, h₂, h) (backspace-Shows l r)
      | inr h₃ ↦ elim (Bool-cases i.key.delete) [
        | inl h ↦ rw (h₁, h₂, h₃, h) (delete-Shows l r)
        | inr h ↦ rw (h₁, h₂, h₃, h) (typed-shown l r i.input)
      ]
    ]
  ]
]

-- Where the input shows a text with the cursor in it, the intent of any key leaves it showing that text
-- with the change of the key at the cursor: an arrow moves over one unit, backspace and delete take
-- away the unit before and behind the cursor, and other input is put in before it.
pub press-Shows :
    (s : EditableTextInputState) (z : Cut) (i : EditableTextInputInput)
    → Shows s z
    → Shows (run_intent s (editable_text_input_intent_for_input i)) (press z i)
press-Shows s z i h =
    let same : s ≡ shown z.left z.right = λ j. record { value = h.0 j; cursor = h.1 j } in
    subst (λ t. Shows (run_intent t (editable_text_input_intent_for_input i)) (press z i))
      (sym same) (press-shown z.left z.right i)

-- The cursor is in the text or at its end.
abbrev pub InText : EditableTextInputState → Type 0
InText s = (n : ℕ) × (s.cursor ≡ pos n) × (n ≤ length s.value)

same_pos : (c : ℤ) (n : ℕ) → int_beq (pos n) c ≡ true → c ≡ pos n
same_pos (pos m) n h = ap pos (sym (int_beq_pos n m h))
same_pos (negsuc m) n h = cc

with_cursor-InText :
    (s : EditableTextInputState) (n : ℕ) → n ≤ length s.value → InText (with_cursor s n)
with_cursor-InText s n h = elim (Bool-cases (int_beq (pos n) s.cursor)) [
  | inl same ↦ (n, rw same (same_pos s.cursor n same), rw same h)
  | inr other ↦ (n, rw other refl, rw other h)
]

-- Every edit, also of a state whose cursor is out of its text, leaves the cursor in the text.
pub transition-InText :
    (s : EditableTextInputState) (a : EditableTextEditAction)
    → InText (transition_editable_text_input s a)
unfolding transition_editable_text_input insert_editable_text backspace_editable_text
    delete_editable_text move_editable_text_cursor clamp_editable_text_cursor
transition-InText s (insert t) =
    let n = clamp_editable_text_cursor s.cursor s.value in
    (
      n + length t,
      refl,
      ground (
        arith,
        length-append (take n s.value ++ t) (drop n s.value),
        length-append (take n s.value) t,
        length-take n s.value,
      ),
    )
transition-InText s backspace =
    let n = clamp_editable_text_cursor s.cursor s.value in
    elim (Bool-cases (nat_beq n 0)) [
      | inl h ↦ rw h (with_cursor-InText s n (omega arith))
      | inr h ↦ rw h (
        n - 1,
        refl,
        ground (
          arith,
          length-append (take (n - 1) s.value) (drop n s.value),
          length-take (n - 1) s.value,
        ),
      )
    ]
transition-InText s delete =
    let n = clamp_editable_text_cursor s.cursor s.value in
    elim (Bool-cases (leb (length s.value) n)) [
      | inl h ↦ rw h (with_cursor-InText s n (omega arith))
      | inr h ↦ rw h (
        n,
        refl,
        ground
            (arith, length-append (take n s.value) (drop (n + 1) s.value), length-take n s.value),
      )
    ]
transition-InText s (move_cursor d) =
    (clamp_editable_text_cursor (s.cursor +ℤ d) s.value, refl, omega arith)
