-- ===== src/Dashboard/Connection.antt =====
-- packages/dashboard-core/src/state/observerBridge.ts: what the dashboard shows of its connection.
use wosm.Base.{
  ℕ, ◌-◌, Bool, true, false, List, [], ◌∷◌, Option, none, some, ltb, ◌≡◌, refl, arith,
  if◌then◌else◌,
}
use wosm.Contracts.Status.{SafeError}
use wosm.Contracts.Snapshot.{WosmSnapshot}
use wosm.Client.Notices.{ClientNotice, success}
use wosm.Dashboard.{TuiState, TuiObserverConnectionStatus, connected, reconnecting, display_only}
use wosm.Dashboard.LocalRows.{replace_snapshot}
use wosm.Dashboard.Toasts.{active_tui_toast, expire_tui_toasts, add_tui_toast}

-- timing.ts.
abbrev pub observer_recovery_toast_threshold_ms : ℕ
observer_recovery_toast_threshold_ms = 1500

abbrev pub reconnected_toast : ClientNotice
reconnected_toast = record {
  kind = success;
  message = "Observer reconnected.";
  hint = none;
  command_id = none;
  trace_id = none;
  diagnostic_id = none;
}

-- Since when the observer is not connected.
abbrev pub lost_since : TuiObserverConnectionStatus → Option ℕ
lost_since connected = none
lost_since (reconnecting since last_error) = some since
lost_since (display_only since last_error) = some since

unfoldable pub observer_connected_state : TuiState → Bool → ℕ → TuiState
observer_connected_state s recovery_toast now =
    let next = record s { connection = connected } in
    elim (lost_since s.connection) [
      | none ↦ next
      | some since ↦
          if recovery_toast
          then if ltb observer_recovery_toast_threshold_ms (now - since)
            then add_tui_toast next reconnected_toast now
            else next
          else next
    ]

unfoldable pub snapshot_loaded_state : TuiState → WosmSnapshot → ℕ → TuiState
unfolding observer_connected_state
snapshot_loaded_state s snapshot now =
    observer_connected_state (replace_snapshot s snapshot) true now

-- `previous.since` if the status is the same as before.
abbrev pub reconnecting_since : TuiObserverConnectionStatus → ℕ → ℕ
reconnecting_since (reconnecting since last_error) now = since
reconnecting_since _ now = now

abbrev pub display_only_since : TuiObserverConnectionStatus → ℕ → ℕ
display_only_since (display_only since last_error) now = since
display_only_since _ now = now

unfoldable pub observer_connection_failure_state : TuiState → SafeError → ℕ → TuiState
observer_connection_failure_state s error now = elim (s.snapshot) [
  | none ↦ record s { connection = reconnecting (reconnecting_since s.connection now) (some error) }
  | some snapshot ↦ record s {
    loading = false;
    connection = display_only (display_only_since s.connection now) (some error);
  }
]

unfoldable pub fail_times : TuiState → List (SafeError × ℕ) → TuiState
unfolding observer_connection_failure_state
fail_times s [] = s
fail_times s ((error, now) ∷ failures) =
    fail_times (observer_connection_failure_state s error now) failures

abbrev pub last_error : SafeError → List (SafeError × ℕ) → SafeError
last_error error [] = error
last_error error ((later, now) ∷ failures) = last_error later failures

abbrev pub lost : TuiState → SafeError → ℕ → TuiObserverConnectionStatus
lost s error since = elim (s.snapshot) [
  | none ↦ reconnecting since (some error)
  | some snapshot ↦ display_only since (some error)
]

still_lost :
    (s : TuiState) (error : SafeError) (since : ℕ) (failures : List (SafeError × ℕ))
    → s.connection ≡ lost s error since
    → ((fail_times s failures).connection ≡ lost s (last_error error failures) since)
      × ((fail_times s failures).snapshot ≡ s.snapshot)
unfolding fail_times
still_lost s error since [] h = (h, refl)
still_lost s error since ((later, now) ∷ failures) h =
    ground (arith, still_lost (observer_connection_failure_state s later now) later since failures)

add_keeps :
    (s : TuiState) (toast : ClientNotice) (now : ℕ)
    → ((add_tui_toast s toast now).connection ≡ s.connection)
      × ((add_tui_toast s toast now).snapshot ≡ s.snapshot)
unfolding add_tui_toast
add_keeps s toast now = ground arith

loaded_keeps :
    (s : TuiState) (snapshot : WosmSnapshot) (now : ℕ)
    → ((snapshot_loaded_state s snapshot now).connection ≡ connected)
      × ((snapshot_loaded_state s snapshot now).snapshot ≡ some snapshot)
unfolding snapshot_loaded_state replace_snapshot observer_connected_state
loaded_keeps s snapshot now = ground (
  arith,
  add_keeps (record (replace_snapshot s snapshot) { connection = connected }) reconnected_toast now,
)

-- A notice is added to the toasts whatever the rest of the state is.
toasts-add :
    (s r : TuiState) (toast : ClientNotice) (now : ℕ)
    → s.toasts ≡ r.toasts
    → (add_tui_toast s toast now).toasts ≡ (add_tui_toast r toast now).toasts
unfolding add_tui_toast active_tui_toast expire_tui_toasts
toasts-add s r toast now h = ground arith

recovery_toasts :
    (s : TuiState) (snapshot : WosmSnapshot) (since now : ℕ)
    → lost_since s.connection ≡ some since
    → (snapshot_loaded_state s snapshot now).toasts ≡ (
        if ltb observer_recovery_toast_threshold_ms (now - since)
        then (add_tui_toast s reconnected_toast now).toasts
        else s.toasts)
unfolding snapshot_loaded_state replace_snapshot observer_connected_state
recovery_toasts s snapshot since now h = ground (
  arith,
  toasts-add (record (replace_snapshot s snapshot) { connection = connected }) s reconnected_toast
      now,
)

first_lost :
    (s : TuiState) (error : SafeError) (now : ℕ)
    → s.connection ≡ connected
    → ((observer_connection_failure_state s error now).connection ≡ lost s error now)
      × ((observer_connection_failure_state s error now).snapshot ≡ s.snapshot)
unfolding observer_connection_failure_state
first_lost s error now h = ground arith

-- An outage of a connected dashboard counts from its first failure, however many follow; while a
-- snapshot is there it is shown on, and its error is the latest. The next loaded snapshot ends it, and
-- is announced exactly where it lasted longer than the threshold.
pub outage_lem :
    (s : TuiState) (error : SafeError) (since : ℕ) (failures : List (SafeError × ℕ))
    (snapshot : WosmSnapshot) (now : ℕ)
    → s.connection ≡ connected
    → let down = fail_times s ((error, since) ∷ failures) in
      let back = snapshot_loaded_state down snapshot now in
      (down.connection ≡ lost s (last_error error failures) since)
      × (back.connection ≡ connected)
      × (back.snapshot ≡ some snapshot)
      × (back.toasts ≡ (
          if ltb observer_recovery_toast_threshold_ms (now - since)
          then (add_tui_toast down reconnected_toast now).toasts
          else down.toasts))
unfolding fail_times
outage_lem s error since failures snapshot now h =
    let step = observer_connection_failure_state s error since in
    let down = fail_times step failures in
    let first = first_lost s error since h in
    let still = still_lost step error since failures (ground (arith, first)) in
    let gone : down.connection ≡ lost s (last_error error failures) since =
      ground (arith, still, first) in
    let loaded = loaded_keeps down snapshot now in
    (gone, loaded.0, loaded.1, recovery_toasts down snapshot since now (ground (arith, gone)))
