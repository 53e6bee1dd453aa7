-- ===== src/Hooks/Drained.antt =====
-- The drain of hooks/spool.ts: its counts, and what it leaves of a hook that waits.
use wosm.Base.{
  ℕ, ◌+◌, String, Bool, true, List, [], ◌∷◌, Option, none, some, length, ◌≡◌, ap, refl, ◌∙◌, arith,
  inl, inr, Bool-cases, Option-cases, string_eq,
}
use wosm.Base.Dict.{Dict, size, has, get, size-set, size-delete, keys-set_old, get-none}
use wosm.Contracts.Status.{SafeError}
use wosm.Hooks.Spool.{
  SpoolFile, invalid, hook_file, report_file, SpoolDir, SpoolDisk, SpoolIngress, Write, written,
  untouched, torn, updated, caught, settle_caught, DrainState, gone, kept, Drain, json_names,
  update_failed_spool_record, drain_spool_record, drain_name, drain_names,
  drain_provider_ingress_spool, settle, drain_file,
}

-- A name of the spool has a file.
found_has :
    {V : Type 0} (m : Dict String V) (name : String) (v : V)
    → get m name ≡ some v
    → has m name ≡ true
found_has m name v h = elim (Bool-cases (has m name)) [
  | inl yes_there ↦ yes_there
  | inr missing ↦ ground (arith, get-none m name missing, h)
]

module _ {S : Type 0} (i : SpoolIngress S) (disk : SpoolDisk) where
  -- One record adds one to one count, and a file goes with a drained one only.
  abbrev Counted : DrainState S → DrainState S → ℕ → Type 0
  Counted before after n =
      (after.rejected ≡ none → after.drained + after.failed ≡ before.drained + before.failed + n)
      × (size after.files + after.drained ≡ size before.files + before.drained)

  update_size :
      (w : Write) (m : SpoolDir) (name : String) (file : SpoolFile) (error : Option SafeError)
      → has m name ≡ true
      → let u = update_failed_spool_record w m name file error in
        (size u.0 ≡ size m) × (has u.0 name ≡ true)
  unfolding update_failed_spool_record
  update_size written m name file error there = ground (
    arith,
    size-set m name (updated file error),
    keys-set_old m name (updated file error) there,
    there,
  )
  update_size (untouched e) m name file error there = (refl, there)
  update_size (torn e) m name file error there =
      ground (arith, size-set m name invalid, keys-set_old m name invalid there, there)

  caught-Counted :
      (d : DrainState S) (name : String) (file : SpoolFile) (error : SafeError)
      → has d.files name ≡ true
      → Counted d (settle_caught i disk d name file error) 1
  caught-Counted d name file error there =
      ground (arith, update_size (disk.write_file_again name) d.files name file (some error) there)

  settle-Counted :
      (d : DrainState S) (name : String) (file : SpoolFile) (a : S × Drain)
      → has d.files name ≡ true
      → Counted d (settle i disk d name file a) 1
  settle-Counted d name file (s, caught error) there =
      caught-Counted (record d { ingress = s }) name file error there
  settle-Counted d name file (s, kept error) there =
      let u = update_failed_spool_record (disk.write_file name) d.files name file error in
      let sizes = update_size (disk.write_file name) d.files name file error there in
      elim (Option-cases u.1) [
        | inl works ↦ rw (settle, works) (λ h. omega arith, ap (λ n. n + d.drained) sizes.0)
        | inr (e, fails) ↦
            let c = caught-Counted (record d { files = u.0; ingress = s }) name file e sizes.1 in
            rw (settle, fails) (c.0, c.1 ∙ ap (λ n. n + d.drained) sizes.0)
      ]
  settle-Counted d name file (s, gone) there = elim (Option-cases (disk.unlink name)) [
    | inl works ↦ rw (settle, works) (ground (arith, size-delete d.files name, there))
    | inr (e, fails) ↦
        rw (settle, fails) (caught-Counted (record d { ingress = s }) name file e there)
  ]

  file-Counted :
      (d : DrainState S) (name : String) (file : SpoolFile)
      → has d.files name ≡ true
      → Counted d (drain_file i disk d name file) 1
  file-Counted d name invalid there = (λ h. omega arith, refl)
  file-Counted d name (hook_file r) there =
      settle-Counted d name (hook_file r) (drain_spool_record i disk d.ingress (hook_file r)) there
  file-Counted d name (report_file r) there =
      settle-Counted d name (report_file r) (drain_spool_record i disk d.ingress (report_file r))
        there

  name-Counted : (d : DrainState S) (name : String) → Counted d (drain_name i disk d name) 1
  unfolding drain_name
  name-Counted d name = elim (Option-cases (get d.files name)) [
    | inl missing ↦ rw (drain_name, missing) (λ h. omega arith, refl)
    | inr (file, found) ↦
        rw (drain_name, found) (file-Counted d name file (found_has d.files name file found))
  ]

  names-Counted :
      (names : List String) (d : DrainState S)
      → Counted d (drain_names i disk d names) (length names)
  unfolding drain_names
  names-Counted [] d = (λ h. omega arith, refl)
  names-Counted (name ∷ names) d =
      let next = drain_name i disk d name in
      let one = name-Counted d name in
      let rest = names-Counted names next in
      elim (Option-cases next.rejected) [
        | inl still ↦
            rw (drain_names, still) (λ h. omega (arith, one.0 still, rest.0 h), rest.1 ∙ one.1)
        | inr (error, off) ↦ rw (drain_names, off) (λ h. absurd (ground (arith, h, off)), one.1)
      ]

  -- Every file that a drain scans to its end is counted as drained or failed, and the spool is shorter
  -- by the drained ones.
  pub drain-counts :
      (is_json : String → Bool) (now : String) (files : SpoolDir) (s : S)
      → let result = drain_provider_ingress_spool i disk is_json now files s in
        (result.state.rejected ≡ none → result.state.drained + result.state.failed ≡ result.scanned)
        × (size result.state.files + result.state.drained ≡ size files)
  unfolding drain_provider_ingress_spool
  drain-counts is_json now files s =
      let counted =
        names-Counted (json_names is_json files)
          (record { files = files; ingress = s; drained = 0; failed = 0; rejected = none }) in
      (λ h. omega (arith, counted.0 h), omega (arith, counted.1))
