-- ===== src/Dashboard/Toasts.antt =====
-- packages/dashboard-core/src/state/toasts.ts: the notices that the dashboard shows for a while.
use wosm.Base.{
  ℕ, ◌+◌, ◌-◌, min, Bool, true, ◌&&◌, List, [], ◌∷◌, ◌++◌, map, Option, none, some, filter, length,
  drop, ltb, nat_beq, dec_beq, dec_beq_iff, ◌==◌, Equality, ==-refl, ◌≡◌, string_eq, nat_eq,
  option_eq, arith, if◌then◌else◌,
}
use wosm.Client.Notices.{ClientNotice, NoticeKind, info, success, error}
use wosm.Dashboard.{TuiToastEntry, TuiState}

abbrev NoticeKind-discrete : Discrete NoticeKind
NoticeKind-discrete = hlevel

instance abbrev pub kind_eq : Equality NoticeKind
kind_eq = record { same = dec_beq NoticeKind-discrete; same_iff = dec_beq_iff NoticeKind-discrete }

-- `toastKey`: the JSON text of a toast's six fields, which tells toasts apart as its fields do.
abbrev pub same_toast : ClientNotice → ClientNotice → Bool
same_toast a b =
    (a.kind == b.kind)
    && ((a.message == b.message)
        && ((a.hint == b.hint)
            && ((a.command_id == b.command_id)
                && ((a.trace_id == b.trace_id) && (a.diagnostic_id == b.diagnostic_id)))))

pub same_toast_refl : (a : ClientNotice) → same_toast a a ≡ true
same_toast_refl a = ground (
  arith,
  ==-refl a.kind,
  ==-refl a.message,
  ==-refl a.hint,
  ==-refl a.command_id,
  ==-refl a.trace_id,
  ==-refl a.diagnostic_id,
)

-- timing.ts.
unfoldable pub toast_expiry_ms : NoticeKind → ℕ
toast_expiry_ms success = 2400
toast_expiry_ms info = 3200
toast_expiry_ms error = 8000

abbrev pub same_id : TuiToastEntry → TuiToastEntry → Bool
same_id a b = nat_beq a.id.0 b.id.0 && same_toast a.id.1 b.id.1

-- `toasts.at(-1)`.
abbrev pub last : List TuiToastEntry → Option TuiToastEntry
last [] = none
last (x ∷ []) = some x
last (x ∷ y ∷ xs) = last (y ∷ xs)

unfoldable pub active_tui_toast : TuiState → Option TuiToastEntry
active_tui_toast s = last s.toasts

abbrev pub is_shown : ℕ → TuiToastEntry → Bool
is_shown now entry = elim (entry.expires_at) [ none ↦ true | some at ↦ ltb now at ]

unfoldable pub expire_tui_toasts : TuiState → ℕ → TuiState
expire_tui_toasts s now =
    let toasts = filter (is_shown now) s.toasts in
    if nat_beq (length toasts) (length s.toasts) then s else record s { toasts = toasts }

abbrev pub fresh_entry : ClientNotice → ℕ → TuiToastEntry
fresh_entry toast now = record {
  id = (now, toast);
  toast = toast;
  created_at = now;
  updated_at = now;
  expires_at = some (now + toast_expiry_ms toast.kind);
}

abbrev pub refreshed_entry : ClientNotice → ℕ → TuiToastEntry → TuiToastEntry
refreshed_entry toast now entry = record entry {
  toast = toast;
  updated_at = now;
  expires_at = some (now + toast_expiry_ms toast.kind);
}

-- `slice(-3)`.
abbrev pub last_three : List TuiToastEntry → List TuiToastEntry
last_three xs = drop (length xs - 3) xs

abbrev pub with_toast : TuiState → ClientNotice → ℕ → TuiState
with_toast s toast now = record s { toasts = last_three (s.toasts ++ fresh_entry toast now ∷ []) }

abbrev pub with_refreshed : TuiState → TuiToastEntry → ClientNotice → ℕ → TuiState
with_refreshed s active toast now = record s {
  toasts =
      map (λ entry. if same_id entry active then refreshed_entry toast now entry else entry)
        s.toasts;
}

unfoldable pub add_tui_toast : TuiState → ClientNotice → ℕ → TuiState
unfolding expire_tui_toasts active_tui_toast
add_tui_toast s toast now =
    let current = expire_tui_toasts s now in
    elim (active_tui_toast current) [
      | none ↦ with_toast current toast now
      | some active ↦
          if same_toast active.toast toast
          then with_refreshed current active toast now
          else with_toast current toast now
    ]

unfoldable pub add_tui_toasts : TuiState → List ClientNotice → ℕ → TuiState
unfolding add_tui_toast
add_tui_toasts s [] now = s
add_tui_toasts s (toast ∷ toasts) now = add_tui_toasts (add_tui_toast s toast now) toasts now

unfoldable pub refresh_active_tui_toast_expiry : TuiState → ℕ → TuiState
unfolding active_tui_toast
refresh_active_tui_toast_expiry s now = elim (active_tui_toast s) [
  | none ↦ s
  | some active ↦ elim (active.expires_at) [
    | none ↦ s
    | some at ↦ record s {
      toasts =
          map
            (λ entry.
              if same_id entry active
              then record entry { expires_at = some (now + toast_expiry_ms active.toast.kind) }
              else entry)
            s.toasts;
    }
  ]
]

abbrev pub sooner : Option ℕ → TuiToastEntry → Option ℕ
sooner next entry = elim (entry.expires_at) [
  | none ↦ next
  | some at ↦ elim next [ none ↦ some at | some n ↦ some (min n at) ]
]

abbrev pub soonest : Option ℕ → List TuiToastEntry → Option ℕ
soonest next [] = next
soonest next (entry ∷ entries) = soonest (sooner next entry) entries

unfoldable pub next_tui_toast_expiry : TuiState → Option ℕ
next_tui_toast_expiry s = soonest none s.toasts
