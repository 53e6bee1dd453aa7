-- ===== src/Names/Shape.antt =====
-- What trimming and cutting leave of a text: its length, and that it does not begin with a separator.
use wosm.Base.{
  ℕ, suc, ◌≤◌, ◌≡◌, false, [], ◌∷◌, length, take, length-take, nat_beq, leb, arith, Bool-cases, inl,
  inr,
}
use wosm.Base.Text.{Text}
use wosm.Names.{trim_start, trim_end, keep_before, trim_separators, truncate_name, or_text}

length-keep_before :
    (separator c : ℕ) (cs : Text) → length (keep_before separator c cs) ≤ suc (length cs)
length-keep_before separator c [] = ground arith
length-keep_before separator c (d ∷ ds) = omega arith

length-trim_end : (separator : ℕ) (cs : Text) → length (trim_end separator cs) ≤ length cs
unfolding trim_end
length-trim_end separator [] = omega arith
length-trim_end separator (c ∷ cs) =
    omega
      (arith, length-keep_before separator c (trim_end separator cs), length-trim_end separator cs)

length-trim_start : (separator : ℕ) (cs : Text) → length (trim_start separator cs) ≤ length cs
unfolding trim_start
length-trim_start separator [] = omega arith
length-trim_start separator (c ∷ cs) = ground (arith, length-trim_start separator cs)

pub length-trim_separators :
    (separator : ℕ) (cs : Text) → length (trim_separators separator cs) ≤ length cs
unfolding trim_separators
length-trim_separators separator cs =
    omega
      (arith, length-trim_end separator (trim_start separator cs), length-trim_start separator cs)

pub length-truncate_name :
    (value : Text) (max_length separator : ℕ)
    → length (truncate_name value max_length separator) ≤ max_length
unfolding truncate_name
length-truncate_name value max_length separator =
    ground (
      arith,
      length-trim_separators separator (take max_length value),
      length-take max_length value,
    )

-- A text with an entry, the first of which is no separator.
abbrev pub Begins : ℕ → Text → Type 0
Begins separator [] = ⊥
Begins separator (c ∷ cs) = nat_beq c separator ≡ false

keep_before-Begins :
    (separator c : ℕ) (cs : Text)
    → nat_beq c separator ≡ false
    → Begins separator (keep_before separator c cs)
keep_before-Begins separator c [] h = rw h h
keep_before-Begins separator c (d ∷ ds) h = h

trim_end-Begins :
    (separator : ℕ) (cs : Text) → Begins separator cs → Begins separator (trim_end separator cs)
unfolding trim_end
trim_end-Begins separator [] h = absurd h
trim_end-Begins separator (c ∷ cs) h = keep_before-Begins separator c (trim_end separator cs) h

pub trim_separators-Begins :
    (separator : ℕ) (cs : Text)
    → Begins separator cs
    → Begins separator (trim_separators separator cs)
unfolding trim_separators trim_start
trim_separators-Begins separator [] h = absurd h
trim_separators-Begins separator (c ∷ cs) h = rw h (trim_end-Begins separator (c ∷ cs) h)

-- A trimmed text begins well, or there is the text that stands in for an empty one.
pub trimmed-Begins :
    (separator : ℕ) (cs other : Text)
    → Begins separator other
    → Begins separator (or_text (trim_separators separator cs) other)
unfolding trim_separators trim_start trim_end
trimmed-Begins separator [] other h = h
trimmed-Begins separator (c ∷ cs) other h = elim (Bool-cases (nat_beq c separator)) [
  | inl skip ↦ rw skip (trimmed-Begins separator cs other h)
  | inr keep ↦ rw keep (kept c (trim_end separator cs) keep)
]
  where
    kept :
        (d : ℕ) (rest : Text)
        → nat_beq d separator ≡ false
        → Begins separator (or_text (keep_before separator d rest) other)
    kept d [] k = rw k k
    kept d (e ∷ es) k = k

pub truncate_name-Begins :
    (value : Text) (max_length separator : ℕ)
    → Begins separator value
    → Begins separator (truncate_name value (suc max_length) separator)
unfolding truncate_name
truncate_name-Begins [] max_length separator h = absurd h
truncate_name-Begins (c ∷ cs) max_length separator h =
    elim (Bool-cases (leb (suc (length cs)) (suc max_length))) [
      | inl fits ↦ rw fits h
      | inr cut ↦ rw cut (trim_separators-Begins separator (c ∷ take max_length cs) h)
    ]
