-- ===== src/Client/Notices.antt =====
-- packages/client/src/errors.ts and connectionState.ts: notices and the connection's state.
use wosm.Base.{String, Bool, [], ◌∷◌, Option, none, some, contains, string_eq, if◌then◌else◌}
use wosm.Contracts.Status.{SafeError}

pub data NoticeKind : Type 0 where
  info success error : NoticeKind

pub record ClientNotice : Type 0 where
  pub kind : NoticeKind
  pub message : String
  pub hint : Option String
  pub command_id : Option String
  pub trace_id : Option String
  pub diagnostic_id : Option String

unfoldable pub is_observer_connect_error : SafeError → Bool
is_observer_connect_error e =
    contains ("PROTOCOL_CONNECT_FAILED" ∷ "PROTOCOL_CONNECT_TIMEOUT" ∷ []) e.code

unfoldable pub observer_connect_notice : ClientNotice
observer_connect_notice = record {
  kind = error;
  message = "Observer is reconnecting.";
  hint = some "Try the command again when the observer is ready.";
  command_id = none;
  trace_id = none;
  diagnostic_id = none;
}

unfoldable pub safe_error_to_notice : SafeError → ClientNotice
unfolding is_observer_connect_error observer_connect_notice
safe_error_to_notice e = if is_observer_connect_error e then observer_connect_notice else record {
  kind = error;
  message = e.message;
  hint = e.hint;
  command_id = e.command_id;
  trace_id = e.trace_id;
  diagnostic_id = e.diagnostic_id;
}
