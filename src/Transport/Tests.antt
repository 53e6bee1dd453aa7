-- ===== src/Transport/Tests.antt =====
-- A socket that carries numbers as strokes, cut at places of no meaning.
use wosm.Base.{
  ◌++◌, ℕ, zero, suc, ◌≡◌, refl, ap, false, List, [], ◌∷◌, Option, none, some, length, nat_beq,
  contains, nat_eq, if◌then◌else◌,
}
use wosm.Transport.{
  Json, Connection, newline, open_connection, deliver, deliver_all, on_data, is_blank, is_space,
  send_all, invalid_frame,
}
use wosm.Transport.Bytes.{IsPartial, IsPartial-nil, on_data-read_units}
use wosm.Transport.Delivery.{IsJson, sent_received, malformed_poisons}

-- `n` is written as n + 1 strokes.
strokes : ℕ → List ℕ
strokes zero = b'a' ∷ []
strokes (suc n) = b'a' ∷ strokes n

-- Whatever does not begin with a stroke throws.
count_strokes : List ℕ → Option ℕ
count_strokes [] = none
count_strokes (c ∷ line) = if nat_beq c b'a' then some (length line) else none

abbrev numbers : Json ℕ
numbers = record { parse = count_strokes; stringify = strokes }

length-strokes : (n : ℕ) → length (strokes n) ≡ suc n
unfolding strokes
length-strokes zero = refl
length-strokes (suc n) = ap suc (length-strokes n)

count-strokes : (n : ℕ) → count_strokes (strokes n) ≡ some n
unfolding count_strokes strokes
count-strokes zero = refl
count-strokes (suc n) = ap some (length-strokes n)

strokes_one_line : (n : ℕ) → contains (strokes n) newline ≡ false
unfolding strokes
strokes_one_line zero = refl
strokes_one_line (suc n) = strokes_one_line n

strokes_solid : (n : ℕ) → is_blank (strokes n) ≡ false
unfolding strokes is_blank is_space
strokes_solid zero = refl
strokes_solid (suc n) = refl

numbers-IsJson : IsJson numbers
numbers-IsJson = record {
  parse-stringify = count-strokes;
  one_line = strokes_one_line;
  not_blank = strokes_solid;
}

-- "aaa\na\n" in three chunks.
abbrev cut : List (List ℕ)
cut = (b'a' ∷ b'a' ∷ []) ∷ (b'a' ∷ 10 ∷ b'a' ∷ []) ∷ (10 ∷ []) ∷ []

sent_received_example : (deliver_all numbers open_connection cut).messages ≡ 2 ∷ 0 ∷ []
unfolding send_all strokes
sent_received_example = (sent_received numbers (2 ∷ 0 ∷ []) cut numbers-IsJson refl).0

on_data-read_units_example :
    IsPartial (on_data numbers open_connection (b'a' ∷ 10 ∷ b'a' ∷ [])).buffer
on_data-read_units_example =
    (on_data-read_units numbers open_connection (b'a' ∷ 10 ∷ b'a' ∷ []) IsPartial-nil).1

-- The frame "b" between those of 2 and of 0.
malformed_poisons_example :
    let d =
      deliver numbers open_connection
        (send_all numbers (2 ∷ []) ++ (b'b' ∷ newline ∷ send_all numbers (0 ∷ []))) in
    (d.messages ≡ 2 ∷ 0 ∷ [])
    × (d.stream_error ≡ some (invalid_frame (b'b' ∷ [])))
    × (deliver_all numbers d cut ≡ d)
unfolding is_blank is_space count_strokes
malformed_poisons_example =
    malformed_poisons numbers open_connection (2 ∷ []) (0 ∷ []) (b'b' ∷ []) cut numbers-IsJson refl
      refl refl refl refl

abbrev two_messages : Connection ℕ
two_messages = record (open_connection {M = ℕ}) { messages = 7 ∷ 8 ∷ [] }
