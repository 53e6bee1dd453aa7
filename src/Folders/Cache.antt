-- ===== src/Folders/Cache.antt =====
-- The folders that `readDirectory` of folderService.ts remembers.
use wosm.Base.{
  ◌≤◌, String, [], ◌∷◌, Option, none, some, ◌≡◌, refl, ap, ◌∙◌, arith, inl, inr, Bool-cases,
  Option-cases, ltb, ==-refl, ◌==◌, string_eq,
}
use wosm.Base.Dict.{Dict, get, set, size, size-set, get-set}
use wosm.Folders.{
  TuiFolderReadResult, Machine, resolve_path, visible_directory_entries, remember, read_result,
  read_directory,
}

module _ (m : Machine) where
  remembered :
      (cache : Dict String TuiFolderReadResult) (path : String) (result : TuiFolderReadResult)
      → size cache ≤ 50
      → get cache path ≡ none
      → (size (remember m cache path result) ≤ 50)
        × (get (remember m cache path result) path ≡ some result)
  remembered [] path result small new = (omega arith, ground (arith, ==-refl path))
  remembered ((other, old) ∷ cache) path result small new = elim (Bool-cases (other == path)) [
    | inl hit ↦ ground (arith, hit, new)
    | inr miss ↦ elim (Bool-cases (ltb 50 (size (set ((other, old) ∷ cache) path result)))) [
      | inl full ↦ (
        ground (arith, full, miss, size-set cache path result),
        ground (arith, full, miss, get-set cache path path result, ==-refl path),
      )
      | inr room ↦ (
        ground (arith, room, miss),
        ground (arith, room, miss, get-set cache path path result, ==-refl path),
      )
    ]
  ]

  -- A folder that was read is read again from the cache: with the same result, whatever the file system
  -- holds.
  abbrev pub Remembers :
      String → Dict String TuiFolderReadResult × Option TuiFolderReadResult → Type 0
  Remembers path (after, none) = size after ≤ 50
  Remembers path (after, some result) =
      (size after ≤ 50)
      × ((entry : String)
          → resolve_path m entry ≡ resolve_path m path
          → read_directory m after entry ≡ (after, some result))

  reads_cached :
      (cache : Dict String TuiFolderReadResult) (path : String) (result : TuiFolderReadResult)
      → get cache (resolve_path m path) ≡ some result
      → read_directory m cache path ≡ (cache, some result)
  unfolding read_directory
  reads_cached cache path result known = rw (read_directory, known) refl

  known-Remembers :
      (after : Dict String TuiFolderReadResult) (path : String) (result : TuiFolderReadResult)
      → size after ≤ 50
      → get after (resolve_path m path) ≡ some result
      → Remembers path (after, some result)
  known-Remembers after path result small known =
      (small, λ entry same. reads_cached after entry result (ap (λ p. get after p) same ∙ known))

  -- A cache of at most 50 folders stays one, and a folder that was read is read again from it.
  pub read_directory-Remembers :
      (cache : Dict String TuiFolderReadResult) (path : String)
      → size cache ≤ 50
      → Remembers path (read_directory m cache path)
  unfolding read_directory
  read_directory-Remembers cache path small =
      let resolved_path = resolve_path m path in
      elim (Option-cases (get cache resolved_path)) [
        | inr (result, known) ↦
            rw (read_directory, known) (known-Remembers cache path result small known)
        | inl new ↦ elim (Option-cases (visible_directory_entries m resolved_path)) [
          | inl thrown ↦ rw (read_directory, new, thrown) small
          | inr (entries, read) ↦
              let result = read_result m resolved_path entries in
              let kept = remembered cache resolved_path result small new in
              rw (read_directory, new, read)
                (known-Remembers (remember m cache resolved_path result) path result kept.0 kept.1)
        ]
      ]
