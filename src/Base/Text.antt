-- ===== src/Base/Text.antt =====
-- Texts as lists: of their code points, which `Array.from` goes through, and of their UTF-16 code units,
-- which `length` and `slice` count.
use Prim.Native.Char.{code}
use Prim.Native.Nat.{ℕ, ◌+◌, ◌-◌, ◌/◌, ◌%◌, compare, Ordering, lt, eq, gt}
use Prim.Native.String.{String}
use Prim.Native.String.{[] as nil, ◌∷◌ as ◌◂◌}
use mathlib.Core.List.{List, [], ◌∷◌}
use mathlib.Core.Path.{◌≡◌, refl}
use mathlib.Core.Logic.{◌↔◌}
use mathlib.Core.Bool.{Bool, true, false, ◌&&◌}
use native.Mathlib.Omega.{arith}
use wosm.Base.Tests.{Equality, ltb, nat_beq, if◌then◌else◌}

abbrev pub Text : Type 0
Text = List ℕ

abbrev pub code_points : String → Text
code_points nil = []
code_points (c ◂ s) = code c ∷ code_points s

-- A code point from 0x10000 on is a pair of surrogates.
abbrev pub units_before : ℕ → Text → Text
units_before c rest =
    if ltb c 0x10000
    then c ∷ rest
    else (0xd800 + (c - 0x10000) / 0x400) ∷ (0xdc00 + (c - 0x10000) % 0x400) ∷ rest

abbrev pub code_units : String → Text
code_units nil = []
code_units (c ◂ s) = units_before (code c) (code_units s)

-- `===` of texts.
abbrev pub text_beq : Text → Text → Bool
text_beq [] [] = true
text_beq (c ∷ cs) (d ∷ ds) = nat_beq c d && text_beq cs ds
text_beq _ _ = false

pub text_beq_iff : (a b : Text) → (text_beq a b ≡ true) ↔ (a ≡ b)
text_beq_iff [] [] = (λ _. refl, λ _. refl)
text_beq_iff [] (d ∷ ds) = (λ h. cc, λ h. cc)
text_beq_iff (c ∷ cs) [] = (λ h. cc, λ h. cc)
text_beq_iff (c ∷ cs) (d ∷ ds) = ground (arith, text_beq_iff cs ds)

instance abbrev pub text_eq : Equality Text
text_eq = record { same_iff = text_beq_iff; same = text_beq }

-- The order of two texts by their code units, which `sort()` goes by.
unfoldable pub compare_units : Text → Text → Ordering
compare_units [] [] = eq
compare_units [] (d ∷ ds) = lt
compare_units (c ∷ cs) [] = gt
compare_units (c ∷ cs) (d ∷ ds) =
    let rest = compare_units cs ds in elim (compare c d) [ eq ↦ rest | lt ↦ lt | gt ↦ gt ]
