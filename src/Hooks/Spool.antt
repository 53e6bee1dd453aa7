-- ===== src/Hooks/Spool.antt =====
-- apps/observer/src/hooks/spool.ts: the events and reports that wait in files, and the loop that hands them
-- in. A file is what `parseSpoolRecord` makes of it, `invalid` where it cannot be read or parsed. The
-- spool is a `Map` from names to files, so a name stands for its path; a directory that cannot be read
-- is an empty one. Removing a file and writing one back may fail: what they come to is `SpoolDisk`. A
-- write that fails may leave the file as it was, or torn, which is invalid.
use wosm.Base.{
  ℕ, ◌+◌, String, Bool, true, false, List, [], ◌∷◌, Option, none, some, filter, length,
  if◌then◌else◌, string_eq,
}
use wosm.Base.Sort.{sort}
use wosm.Base.Text.{code_units, compare_units}
use wosm.Base.Dict.{Dict, keys, get, set, delete}
use wosm.Contracts.Status.{SafeError, safe_error}
use wosm.Contracts.Events.{WosmEvent, provider_hook_spool_drained}
use wosm.Contracts.Hooks.{
  ProviderHookEvent, ProviderHookReceipt, HookReceiptStatus, hook_ingested, HarnessEventReport,
  HarnessEventReportReceipt, ReceiptStatus, accepted, ProviderHookSpoolRecord,
  HarnessEventReportSpoolRecord,
}
use wosm.Hooks.{Attempt, done, threw}

pub data SpoolFile : Type 0 where
  invalid : SpoolFile
  hook_file : ProviderHookSpoolRecord → SpoolFile
  report_file : HarnessEventReportSpoolRecord → SpoolFile

abbrev pub SpoolDir : Type 0
SpoolDir = Dict String SpoolFile

-- What `writeFile` comes to.
pub data Write : Type 0 where
  written : Write
  untouched torn : SafeError → Write

-- The second write of a name is the one in the `catch`.
pub record SpoolDisk : Type 0 where
  pub unlink : String → Option SafeError
  pub write_file : String → Write
  pub write_file_again : String → Write

-- What a drain hands records to, with a state of its own.
pub record SpoolIngress (S : Type 0) : Type 0 where
  pub ingest : S → ProviderHookEvent → S × Attempt ProviderHookReceipt
  pub report : Option (S → HarnessEventReport → S × Attempt HarnessEventReportReceipt)

pub record DrainState (S : Type 0) : Type 0 where
  pub files : SpoolDir
  pub ingress : S
  pub drained : ℕ
  pub failed : ℕ
  pub rejected : Option SafeError

pub record SpoolDrainResult (S : Type 0) : Type 0 where
  pub state : DrainState S
  pub scanned : ℕ
  pub event : Option WosmEvent

unfoldable pub json_names : (String → Bool) → SpoolDir → List String
json_names is_json files =
    sort (λ a b. compare_units (code_units a) (code_units b)) (filter is_json (keys files))

unfoldable pub provider_ingress_spool_depth : (String → Bool) → SpoolDir → ℕ
provider_ingress_spool_depth is_json files = length (filter is_json (keys files))

abbrev pub with_record : String → SpoolFile → List (String × SpoolFile) → List (String × SpoolFile)
with_record name invalid rest = rest
with_record name file rest = (name, file) ∷ rest

abbrev pub valid_records : SpoolDir → List String → List (String × SpoolFile)
valid_records files [] = []
valid_records files (name ∷ names) =
    let rest = valid_records files names in
    elim (get files name) [ none ↦ rest | some file ↦ with_record name file rest ]

unfoldable pub list_provider_ingress_spool_records :
    (String → Bool) → SpoolDir → List (String × SpoolFile)
unfolding json_names
list_provider_ingress_spool_records is_json files = valid_records files (json_names is_json files)

abbrev pub or_last : Option SafeError → Option SafeError → Option SafeError
or_last none old = old
or_last (some e) old = some e

abbrev pub updated : SpoolFile → Option SafeError → SpoolFile
updated invalid error = invalid
updated (hook_file r) error =
    hook_file (record r { attempts = r.attempts + 1; last_error = or_last error r.last_error })
updated (report_file r) error =
    report_file (record r { attempts = r.attempts + 1; last_error = or_last error r.last_error })

-- The files, and the error that it throws.
unfoldable pub update_failed_spool_record :
    Write → SpoolDir → String → SpoolFile → Option SafeError → SpoolDir × Option SafeError
update_failed_spool_record written files name file error =
    (set files name (updated file error), none)
update_failed_spool_record (untouched e) files name file error = (files, some e)
update_failed_spool_record (torn e) files name file error = (set files name invalid, some e)

abbrev pub is_ingested : HookReceiptStatus → Bool
is_ingested hook_ingested = true
is_ingested _ = false

abbrev pub is_accepted_status : ReceiptStatus → Bool
is_accepted_status accepted = true
is_accepted_status _ = false

-- What became of a record: it is drained, it failed with an error or none, or the call threw.
pub data Drain : Type 0 where
  gone : Drain
  kept : Option SafeError → Drain
  caught : SafeError → Drain

abbrev pub hook_drain : Attempt ProviderHookReceipt → Drain
hook_drain (threw error) = caught error
hook_drain (done receipt) = if is_ingested receipt.status then gone else kept receipt.error

abbrev pub report_drain : Attempt HarnessEventReportReceipt → Drain
report_drain (threw error) = caught error
report_drain (done receipt) = if is_accepted_status receipt.status then gone else kept receipt.error

unfoldable pub unsupported_report : HarnessEventReportSpoolRecord → SafeError
unsupported_report r =
    safe_error "HookIngestionError" "HOOK_REPORT_SPOOL_UNSUPPORTED"
      "Harness event report spool records are not supported by this drain path."
      (some r.report.provider)

module _ {S : Type 0} (i : SpoolIngress S) (disk : SpoolDisk) where
  unfoldable pub drain_spool_record : S → SpoolFile → S × Drain
  unfolding unsupported_report
  drain_spool_record s invalid = (s, kept none)
  drain_spool_record s (hook_file r) =
      let answer = i.ingest s r.event in (answer.0, hook_drain (answer.1))
  drain_spool_record s (report_file r) = elim (i.report) [
    | none ↦ (s, kept (some (unsupported_report r)))
    | some report ↦ let answer = report s r.report in (answer.0, report_drain (answer.1))
  ]

  -- The `catch`, whose own error ends the drain.
  abbrev pub settle_caught : DrainState S → String → SpoolFile → SafeError → DrainState S
  settle_caught d name file error =
      let update =
        update_failed_spool_record (disk.write_file_again name) d.files name file (some error) in
      elim (update.1) [
        | none ↦ record d { files = update.0; failed = d.failed + 1 }
        | some e ↦ record d { files = update.0; rejected = some e }
      ]

  -- The file is removed, or written back with one more attempt.
  abbrev pub settle : DrainState S → String → SpoolFile → S × Drain → DrainState S
  settle d name file (s, caught error) = settle_caught (record d { ingress = s }) name file error
  settle d name file (s, kept error) =
      let update = update_failed_spool_record (disk.write_file name) d.files name file error in
      elim (update.1) [
        | none ↦ record d { files = update.0; ingress = s; failed = d.failed + 1 }
        | some e ↦ settle_caught (record d { files = update.0; ingress = s }) name file e
      ]
  settle d name file (s, gone) = elim (disk.unlink name) [
    | none ↦ record d { files = delete d.files name; ingress = s; drained = d.drained + 1 }
    | some error ↦ settle_caught (record d { ingress = s }) name file error
  ]

  abbrev pub drain_file : DrainState S → String → SpoolFile → DrainState S
  drain_file d name invalid = record d { failed = d.failed + 1 }
  drain_file d name (hook_file r) =
      settle d name (hook_file r) (drain_spool_record d.ingress (hook_file r))
  drain_file d name (report_file r) =
      settle d name (report_file r) (drain_spool_record d.ingress (report_file r))

  unfoldable pub drain_name : DrainState S → String → DrainState S
  unfolding drain_spool_record update_failed_spool_record
  drain_name d name = elim (get d.files name) [
    | none ↦ record d { failed = d.failed + 1 }
    | some file ↦ drain_file d name file
  ]

  unfoldable pub drain_names : DrainState S → List String → DrainState S
  unfolding drain_name
  drain_names d [] = d
  drain_names d (name ∷ names) =
      let next = drain_name d name in
      elim (next.rejected) [ none ↦ drain_names next names | some error ↦ next ]

  abbrev pub announced : String → List String → DrainState S → Option WosmEvent
  announced now [] d = none
  announced now (name ∷ names) d = elim (d.rejected) [
    | none ↦ some (provider_hook_spool_drained now d.drained d.failed)
    | some error ↦ none
  ]

  unfoldable pub drain_provider_ingress_spool :
      (String → Bool) → String → SpoolDir → S → SpoolDrainResult S
  unfolding drain_names json_names
  drain_provider_ingress_spool is_json now files s =
      let names = json_names is_json files in
      let start : DrainState S = record {
        files = files;
        ingress = s;
        drained = 0;
        failed = 0;
        rejected = none;
      } in
      let end = drain_names start names in
      record { state = end; scanned = length names; event = announced now names end }
