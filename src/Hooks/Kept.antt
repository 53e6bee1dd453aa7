-- ===== src/Hooks/Kept.antt =====
-- The drain of hooks/spool.ts as runtime/api.ts runs it, with the ingestion of hooks/ingestion.ts.
use wosm.Base.{
  String, true, false, Option, none, some, ◌≡◌, refl, sym, ap, ◌∙◌, arith, inl, inr, ◌⊎◌,
  Bool-cases, Option-cases, subst, contains, IsDistinct, ◌==◌, string_eq, ==-refl, add-IsDistinct,
  erase-IsDistinct,
}
use wosm.Base.Dict.{Dict, keys, get, set, delete, get-set, get-delete, keys-set, keys-delete}
use wosm.Contracts.Status.{SafeError}
use wosm.Contracts.Hooks.{ProviderHookEvent, ProviderHookSpoolRecord}
use wosm.Hooks.{Store, key_eq}
use wosm.Hooks.Ingestion.{HookCall, hook_key, or_id, ingest_hook}
use wosm.Hooks.Spool.{
  SpoolFile, invalid, hook_file, SpoolDir, SpoolIngress, SpoolDisk, Write, written, untouched, torn,
  DrainState, gone, kept, caught, Drain, updated, update_failed_spool_record, hook_drain, settle,
  settle_caught,
}
use wosm.Hooks.Repeats.{hook_claims}
use wosm.Hooks.Process.{request_reason}

abbrev IsGone : Drain → Type 0
IsGone gone = Unit
IsGone (kept e) = ⊥
IsGone (caught e) = ⊥

rejected_hook_waits :
    (call : HookCall) (s : Store) (e : ProviderHookEvent) (error : SafeError)
    → call.transaction ≡ some error
    → hook_drain (ingest_hook call s e).1 ≡ kept (some error)
unfolding ingest_hook
rejected_hook_waits call s e error failed = rw failed refl

pub accepted_hook_claims :
    (call : HookCall) (s : Store) (e : ProviderHookEvent) (id : String)
    → e.hook_id ≡ some id
    → hook_drain (ingest_hook call s e).1 ≡ gone
    → contains (ingest_hook call s e).0.dedupe (hook_key id) ≡ true
unfolding ingest_hook
accepted_hook_claims call s e id own drained = elim (Option-cases call.transaction) [
  | inr (error, failed) ↦
      absurd (subst IsGone (sym drained ∙ rejected_hook_waits call s e error failed) tt)
  | inl works ↦
      subst (λ i. contains (ingest_hook call s e).0.dedupe (hook_key i) ≡ true)
        (ap (λ o. or_id o call.fresh_id) own) (hook_claims call s e works)
]

pub request_reason-dedupe : (s : Store) (r : Option String) → (request_reason s r).dedupe ≡ s.dedupe
request_reason-dedupe s none = refl
request_reason-dedupe s (some r) = refl

-- A hook of the spool waits in its file.
abbrev pub Waits : SpoolDir → String → ProviderHookEvent → Type 0
Waits files name e =
    (r : ProviderHookSpoolRecord) × (get files name ≡ some (hook_file r)) × (r.event ≡ e)

-- The drain rejected, as writing the file back failed, in the `catch` too.
abbrev pub IsCutOff : SpoolDisk → DrainState Store → String → Type 0
IsCutOff disk d name =
    (error : SafeError) × (d.rejected ≡ some error)
    × ((disk.write_file_again name ≡ untouched error) ⊎ (disk.write_file_again name ≡ torn error))

-- It was claimed, or it waits, or the drain was cut off at its file.
abbrev pub Kept : SpoolDisk → DrainState Store → String → ProviderHookEvent → String → Type 0
Kept disk d name e id =
    (contains d.ingress.dedupe (hook_key id) ≡ true) ⊎ Waits d.files name e ⊎ IsCutOff disk d name

some_inj : {V : Type 0} (a b : V) → some a ≡ some b → a ≡ b
some_inj a b h = cc

get-set_own : {V : Type 0} (m : Dict String V) (k : String) (v : V) → get (set m k v) k ≡ some v
get-set_own m k v = get-set m k k v ∙ rw (==-refl k) refl

-- The files are still one for a name, and those of other names stay.
abbrev pub Touched : SpoolDir → String → SpoolDir → Type 0
Touched m n m' =
    IsDistinct (keys m)
    → IsDistinct (keys m') × ((other : String) → (n == other) ≡ false → get m' other ≡ get m other)

set-Touched : (m : SpoolDir) (n : String) (file : SpoolFile) → Touched m n (set m n file)
set-Touched m n file distinct = (
  subst IsDistinct (sym (keys-set m n file)) (add-IsDistinct (keys m) n distinct),
  λ other apart. get-set m n other file ∙ rw apart refl,
)

delete-Touched : (m : SpoolDir) (n : String) → Touched m n (delete m n)
delete-Touched m n distinct = (
  subst IsDistinct (sym (keys-delete m n)) (erase-IsDistinct (keys m) n distinct),
  λ other apart. get-delete m n other distinct ∙ rw apart refl,
)

both-Touched : (a b c : SpoolDir) (n : String) → Touched a n b → Touched b n c → Touched a n c
both-Touched a b c n f g distinct =
    let one = f distinct in
    let two = g one.0 in (two.0, λ other apart. two.1 other apart ∙ one.1 other apart)

update-Touched :
    (w : Write) (m : SpoolDir) (n : String) (file : SpoolFile) (error : Option SafeError)
    → Touched m n (update_failed_spool_record w m n file error).0
unfolding update_failed_spool_record
update-Touched written m n file error = set-Touched m n (updated file error)
update-Touched (untouched e) m n file error = λ distinct. (distinct, λ other apart. refl)
update-Touched (torn e) m n file error = set-Touched m n invalid

module _ (i : SpoolIngress Store) (disk : SpoolDisk) where
  caught-ingress :
      (d : DrainState Store) (name : String) (file : SpoolFile) (error : SafeError)
      → (settle_caught i disk d name file error).ingress ≡ d.ingress
  caught-ingress d name file error = ground arith

  caught-files :
      (d : DrainState Store) (name : String) (file : SpoolFile) (error : SafeError)
      → (settle_caught i disk d name file error).files
        ≡ (update_failed_spool_record (disk.write_file_again name) d.files name file (some error)).0
  caught-files d name file error = ground arith

  caught-Touched :
      (d : DrainState Store) (name : String) (file : SpoolFile) (error : SafeError)
      → Touched d.files name (settle_caught i disk d name file error).files
  caught-Touched d name file error =
      subst (Touched d.files name) (sym (caught-files d name file error))
        (update-Touched (disk.write_file_again name) d.files name file (some error))

  settle-ingress :
      (d : DrainState Store) (name : String) (file : SpoolFile) (a : Store × Drain)
      → (settle i disk d name file a).ingress ≡ a.0
  settle-ingress d name file (s, caught e) = caught-ingress (record d { ingress = s }) name file e
  settle-ingress d name file (s, kept e) = ground arith
  settle-ingress d name file (s, gone) = ground arith

  pub settle-Touched :
      (d : DrainState Store) (name : String) (file : SpoolFile) (a : Store × Drain)
      → Touched d.files name (settle i disk d name file a).files
  settle-Touched d name file (s, caught e) = caught-Touched (record d { ingress = s }) name file e
  settle-Touched d name file (s, kept e) =
      let u = update_failed_spool_record (disk.write_file name) d.files name file e in
      let one = update-Touched (disk.write_file name) d.files name file e in
      elim (Option-cases u.1) [
        | inl works ↦ rw (settle, works) one
        | inr (x, fails) ↦
            rw (settle, fails)
              (both-Touched d.files _ _ name one
                (caught-Touched (record d { files = u.0; ingress = s }) name file x))
      ]
  settle-Touched d name file (s, gone) = elim (Option-cases (disk.unlink name)) [
    | inl works ↦ rw (settle, works) (delete-Touched d.files name)
    | inr (e, fails) ↦ rw (settle, fails) (caught-Touched (record d { ingress = s }) name file e)
  ]

  caught_own :
      (d : DrainState Store) (name : String) (r : ProviderHookSpoolRecord) (id : String)
      (error : SafeError) (w : Write)
      → disk.write_file_again name ≡ w
      → Kept disk (settle_caught i disk d name (hook_file r) error) name r.event id
  unfolding update_failed_spool_record
  caught_own d name r id error written h =
      let stored : (settle_caught i disk d name (hook_file r) error).files
          ≡ set d.files name (updated (hook_file r) (some error)) =
        ground (arith, h) in
      inr (
        inl (
          _,
          ap (λ m. get m name) stored
              ∙ get-set_own d.files name (updated (hook_file r) (some error)),
          refl,
        ))
  caught_own d name r id error (untouched e) h = inr (inr (e, ground (arith, h), inl h))
  caught_own d name r id error (torn e) h = inr (inr (e, ground (arith, h), inr h))

  kept_own :
      (d : DrainState Store) (name : String) (r : ProviderHookSpoolRecord) (id : String) (s : Store)
      (error : Option SafeError) (w : Write)
      → disk.write_file name ≡ w
      → Kept disk (settle i disk d name (hook_file r) (s, kept error)) name r.event id
  unfolding update_failed_spool_record
  kept_own d name r id s error written h =
      let stored : (settle i disk d name (hook_file r) (s, kept error)).files
          ≡ set d.files name (updated (hook_file r) error) =
        ground (arith, h) in
      inr (
        inl (
          _,
          ap (λ m. get m name) stored ∙ get-set_own d.files name (updated (hook_file r) error),
          refl,
        ))
  kept_own d name r id s error (untouched e) h =
      let same : settle i disk d name (hook_file r) (s, kept error)
          ≡ settle_caught i disk (record d { ingress = s }) name (hook_file r) e =
        ground (arith, h) in
      subst (λ t. Kept disk t name r.event id) (sym same)
        (caught_own (record d { ingress = s }) name r id e (disk.write_file_again name) refl)
  kept_own d name r id s error (torn e) h =
      let now : DrainState Store = record d { files = set d.files name invalid; ingress = s } in
      let same : settle i disk d name (hook_file r) (s, kept error)
          ≡ settle_caught i disk now name (hook_file r) e =
        ground (arith, h) in
      subst (λ t. Kept disk t name r.event id) (sym same)
        (caught_own now name r id e (disk.write_file_again name) refl)

  settle_own :
      (d : DrainState Store) (name : String) (r : ProviderHookSpoolRecord) (id : String)
      (a : Store × Drain)
      → (a.1 ≡ gone → contains a.0.dedupe (hook_key id) ≡ true)
      → Kept disk (settle i disk d name (hook_file r) a) name r.event id
  settle_own d name r id (s, caught error) claimed =
      caught_own (record d { ingress = s }) name r id error (disk.write_file_again name) refl
  settle_own d name r id (s, kept error) claimed =
      kept_own d name r id s error (disk.write_file name) refl
  settle_own d name r id (s, gone) claimed = inl (
      ap (λ t. contains t.dedupe (hook_key id)) (settle-ingress d name (hook_file r) (s, gone))
      ∙ claimed refl)

  pub settle-Kept :
      (d : DrainState Store) (n : String) (file : SpoolFile) (a : Store × Drain) (name : String)
      (e : ProviderHookEvent) (id : String)
      → IsDistinct (keys d.files)
      → d.rejected ≡ none
      → get d.files n ≡ some file
      → (contains d.ingress.dedupe (hook_key id) ≡ true → contains a.0.dedupe (hook_key id) ≡ true)
      → ((r : ProviderHookSpoolRecord)
          → file ≡ hook_file r
          → r.event ≡ e
          → a.1 ≡ gone
          → contains a.0.dedupe (hook_key id) ≡ true)
      → Kept disk d name e id
      → Kept disk (settle i disk d n file a) name e id
  settle-Kept d n file a name e id distinct on found mono claim (inl has) =
      inl (ap (λ t. contains t.dedupe (hook_key id)) (settle-ingress d n file a) ∙ mono has)
  settle-Kept d n file a name e id distinct on found mono claim (inr (inr (error, off, why))) =
      absurd (ground (arith, on, off))
  settle-Kept d n file a name e id distinct on found mono claim (inr (inl (r, at, event))) =
      elim (Bool-cases (n == name)) [
        | inr apart ↦ inr (inl (r, (settle-Touched d n file a distinct).1 name apart ∙ at, event))
        | inl same ↦
            let here = (string_eq.same_iff n name).0 same in
            let own : file ≡ hook_file r =
              some_inj file (hook_file r) (sym found ∙ ap (λ m. get d.files m) here ∙ at) in
            let settled = settle_own d name r id a (λ g. claim r own event g) in
            subst (λ m. Kept disk (settle i disk d m file a) name e id) (sym here)
              (subst (λ f. Kept disk (settle i disk d name f a) name e id) (sym own)
                (subst (λ x. Kept disk (settle i disk d name (hook_file r) a) name x id) event
                  settled))
      ]
