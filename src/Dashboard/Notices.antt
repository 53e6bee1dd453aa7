-- ===== src/Dashboard/Notices.antt =====
-- toasts.ts: which notice is active, how many are kept, and when the next of them expires.
use wosm.Base.{
  length-drop, length-append, length-map, sym, ap, ◌∙◌, subst, ◌⊎◌, inl, inr, Option-cases,
  Bool-cases, ℕ, zero, suc, ◌+◌, ◌-◌, ◌≤◌, ◌<◌, Bool, true, false, ◌&&◌, List, [], ◌∷◌, ◌++◌, map,
  Option, none, some, filter, length, drop, ltb, ◌≡◌, refl, string_eq, nat_eq, option_eq, arith,
  if◌then◌else◌,
}
use wosm.Client.Notices.{ClientNotice}
use wosm.Dashboard.{TuiToastEntry, TuiState}
use wosm.Dashboard.Toasts.{
  same_toast, same_toast_refl, toast_expiry_ms, same_id, last, active_tui_toast, is_shown,
  expire_tui_toasts, fresh_entry, refreshed_entry, last_three, with_toast, with_refreshed,
  add_tui_toast, sooner, soonest, next_tui_toast_expiry,
}

length-expired : (now : ℕ) (xs : List TuiToastEntry) → length (filter (is_shown now) xs) ≤ length xs
length-expired now [] = omega arith
length-expired now (x ∷ xs) = ground (arith, length-expired now xs)

same_id_refl : (e : TuiToastEntry) → same_id e e ≡ true
same_id_refl e = ground (arith, same_toast_refl e.id.1)

last-map :
    (f : TuiToastEntry → TuiToastEntry) (xs : List TuiToastEntry) (e : TuiToastEntry)
    → last xs ≡ some e
    → last (map f xs) ≡ some (f e)
last-map f [] e h = ground arith
last-map f (x ∷ []) e h = ground arith
last-map f (x ∷ y ∷ xs) e h = last-map f (y ∷ xs) e h

last-snoc :
    (n : ℕ) (xs : List TuiToastEntry) (e : TuiToastEntry)
    → n ≤ length xs
    → last (drop n (xs ++ e ∷ [])) ≡ some e
last-snoc zero [] e h = refl
last-snoc zero (x ∷ []) e h = refl
last-snoc zero (x ∷ y ∷ xs) e h = last-snoc zero (y ∷ xs) e (omega arith)
last-snoc (suc n) [] e h = absurd (omega arith)
last-snoc (suc n) (x ∷ xs) e h = last-snoc n xs e (omega arith)

length-last_three : (xs : List TuiToastEntry) → length (last_three xs) ≤ 3
length-last_three xs = omega (arith, length-drop (length xs - 3) xs)

abbrev pub Shows : TuiState → ClientNotice → ℕ → Type 0
Shows s toast now =
    (e : TuiToastEntry) × (active_tui_toast s ≡ some e)
    × (e.toast ≡ toast)
    × (e.updated_at ≡ now)
    × (e.expires_at ≡ some (now + toast_expiry_ms toast.kind))

with_toast-Shows :
    (s : TuiState) (toast : ClientNotice) (now : ℕ) → Shows (with_toast s toast now) toast now
unfolding active_tui_toast
with_toast-Shows s toast now = (
  fresh_entry toast now,
  last-snoc (length (s.toasts ++ fresh_entry toast now ∷ []) - 3) s.toasts (fresh_entry toast now)
      (omega (arith, length-append s.toasts (fresh_entry toast now ∷ []))),
  refl,
  refl,
  refl,
)

with_refreshed-Shows :
    (s : TuiState) (active : TuiToastEntry) (toast : ClientNotice) (now : ℕ)
    → active_tui_toast s ≡ some active
    → Shows (with_refreshed s active toast now) toast now
unfolding active_tui_toast
with_refreshed-Shows s active toast now h = (
  refreshed_entry toast now active,
  last-map (λ entry. if same_id entry active then refreshed_entry toast now entry else entry)
        s.toasts active h
      ∙ ground (arith, same_id_refl active),
  refl,
  refl,
  refl,
)

length-expire : (s : TuiState) (now : ℕ) → length (expire_tui_toasts s now).toasts ≤ length s.toasts
unfolding expire_tui_toasts
length-expire s now = ground (arith, length-expired now s.toasts)

add_cases :
    (s : TuiState) (toast : ClientNotice) (now : ℕ)
    → let current = expire_tui_toasts s now in
      (add_tui_toast s toast now ≡ with_toast current toast now)
      ⊎ ((active : TuiToastEntry) × (active_tui_toast current ≡ some active)
          × (add_tui_toast s toast now ≡ with_refreshed current active toast now))
unfolding add_tui_toast
add_cases s toast now = elim (Option-cases (active_tui_toast (expire_tui_toasts s now))) [
  | inl nothing ↦ inl (ground (arith, nothing))
  | inr (active, h) ↦ elim (Bool-cases (same_toast active.toast toast)) [
    | inl same ↦ inr (active, h, ground (arith, h))
    | inr other ↦ inl (ground (arith, h))
  ]
]

-- A notice that is added is the active one, whether it is new or repeats the active one, and expires
-- its kind's time from now; and no more than three are kept.
pub add-Shows :
    (s : TuiState) (toast : ClientNotice) (now : ℕ)
    → length s.toasts ≤ 3
    → Shows (add_tui_toast s toast now) toast now × (length (add_tui_toast s toast now).toasts ≤ 3)
add-Shows s toast now few = elim (add_cases s toast now) [
  | inl h ↦
      subst (λ r. Shows r toast now × (length r.toasts ≤ 3)) (sym h)
        (
          with_toast-Shows (expire_tui_toasts s now) toast now,
          length-last_three ((expire_tui_toasts s now).toasts ++ fresh_entry toast now ∷ []),
        )
  | inr (active, shown, h) ↦
      subst (λ r. Shows r toast now × (length r.toasts ≤ 3)) (sym h)
        (
          with_refreshed-Shows (expire_tui_toasts s now) active toast now shown,
          omega (
            arith,
            length-expire s now,
            length-map
                (λ entry. if same_id entry active then refreshed_entry toast now entry else entry)
                (expire_tui_toasts s now).toasts,
          ),
        )
]

abbrev pub not_due : ℕ → Option ℕ → Bool
not_due now none = true
not_due now (some at) = ltb now at

abbrev pub all_shown : ℕ → List TuiToastEntry → Bool
all_shown now [] = true
all_shown now (x ∷ xs) = is_shown now x && all_shown now xs

not_due-sooner :
    (now : ℕ) (next : Option ℕ) (x : TuiToastEntry)
    → not_due now (sooner next x) ≡ (not_due now next && is_shown now x)
not_due-sooner now next x = ground arith

not_due-soonest :
    (now : ℕ) (next : Option ℕ) (xs : List TuiToastEntry)
    → not_due now (soonest next xs) ≡ (not_due now next && all_shown now xs)
not_due-soonest now next [] = ground arith
not_due-soonest now next (x ∷ xs) =
    ground (arith, not_due-soonest now (sooner next x) xs, not_due-sooner now next x)

kept_shown :
    (now : ℕ) (xs : List TuiToastEntry) → all_shown now xs ≡ true → filter (is_shown now) xs ≡ xs
kept_shown now [] h = refl
kept_shown now (x ∷ xs) h = ground (arith, kept_shown now xs)

length-due :
    (now : ℕ) (xs : List TuiToastEntry)
    → all_shown now xs ≡ false
    → length (filter (is_shown now) xs) < length xs
length-due now [] h = ground arith
length-due now (x ∷ xs) h = ground (arith, length-due now xs, length-expired now xs)

-- The time of the next expiry is exact: before it nothing expires, and from it on something does.
pub next_expiry_exact :
    (s : TuiState) (now : ℕ)
    → (not_due now (next_tui_toast_expiry s) ≡ true → expire_tui_toasts s now ≡ s)
      × (not_due now (next_tui_toast_expiry s) ≡ false
          → length (expire_tui_toasts s now).toasts < length s.toasts)
unfolding next_tui_toast_expiry expire_tui_toasts
next_expiry_exact s now = (
  λ early. ground (
    arith,
    not_due-soonest now none s.toasts,
    ap length (kept_shown now s.toasts (ground (arith, not_due-soonest now none s.toasts))),
  ),
  λ late. ground (
    arith,
    not_due-soonest now none s.toasts,
    length-due now s.toasts (ground (arith, not_due-soonest now none s.toasts)),
  ),
)
