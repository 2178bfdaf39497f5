-- ===== src/Manifest/RoundTrip.antt =====
-- From `build_manifest` to `validate_manifest`: a built manifest that is stored and read back.
use netbox_scripts.Base.{
  ℕ, suc, ◌≡◌, refl, sym, ◌∙◌, Bool, true, false, ◌||◌, List, [], ◌∷◌, some, map, arith, text_eq,
  contains, any_of, All, ok, ==-refl,
}
use netbox_scripts.Text.{Text}
use netbox_scripts.Text.Order.{sort_by}
use netbox_scripts.Unicode.{Unicode, IsLawful}
use netbox_scripts.Paths.{normalize_source_path}
use netbox_scripts.Paths.Keys.{is_sha256}
use netbox_scripts.Paths.Recheck.{Settled, recheck-Settled, normalize-accepted}
use netbox_scripts.Paths.Nodes.{ancestors}
use netbox_scripts.Paths.Nodes.Collisions.{
  NoCollision-ext, NoCollision-collisions_none, contains-ordered,
}
use netbox_scripts.Json.{get, listed-items}
use netbox_scripts.Manifest.{
  Bytes, Limits, Entry, Files, paths_of, entry_value, manifest_value, compute_digest,
  build_manifest,
}
use netbox_scripts.Manifest.Build.{IsBuilt, IsTree, NodupPaths}
use netbox_scripts.Manifest.Build.Tree.{build_manifest-IsTree, build_manifest-IsBuilt}
use netbox_scripts.Manifest.Validate.{
  validate_entry, validate_entries, blocked_paths, conflicting_paths, validate_manifest,
}

-- An entry that the return trip finds sound.
abbrev IsSound : Unicode → Entry → Type 0
IsSound u e = (normalize_source_path u e.path ≡ ok e.path) × (is_sha256 e.sha256 ≡ true)

module _ (u : Unicode) where
  validate_entry_sound :
      (index : ℕ) (e : Entry) (paths : List Text)
      → IsSound u e
      → contains paths e.path ≡ false
      → validate_entry u index (entry_value e) paths ≡ ([], e.path ∷ paths)
  unfolding validate_entry get text_eq
  validate_entry_sound index e paths h fresh = ground arith

  -- The paths that a sound manifest claims, the last first.
  claimed : List Entry → List Text → List Text
  claimed [] paths = paths
  claimed (e ∷ entries) paths = claimed entries (e.path ∷ paths)

  contains-claimed :
      (entries : List Entry) (paths : List Text) (a : Text)
      → contains (claimed entries paths) a ≡ (contains (paths_of entries) a || contains paths a)
  unfolding claimed
  contains-claimed [] paths a = refl
  contains-claimed (e ∷ entries) paths a =
      ground (arith, contains-claimed entries (e.path ∷ paths) a)

  validate_entries_sound :
      (index : ℕ) (entries : List Entry) (paths : List Text)
      → All (IsSound u) entries
      → NodupPaths entries
      → ((a : Text) → contains (paths_of entries) a ≡ true → contains paths a ≡ false)
      → validate_entries u index (map entry_value entries) paths ≡ ([], claimed entries paths)
  unfolding validate_entries claimed
  validate_entries_sound index [] paths h n d = refl
  validate_entries_sound index (e ∷ entries) paths h n d = ground (
    arith,
    d e.path,
    validate_entry_sound index e paths h.0,
    validate_entries_sound (suc index) entries (e.path ∷ paths) h.1 n.1,
  )

All-of_contains {κ} :
    (P : Text → Type κ) (xs : List Text) → ((a : Text) → contains xs a ≡ true → P a) → All P xs
All-of_contains P [] f = tt
All-of_contains P (x ∷ xs) f =
    (f x (ground arith), All-of_contains P xs (λ a c. f a (ground arith)))

unblocked_at :
    (files : List Text) (entries : List Entry) (a : Text)
    → All (λ (e : Entry). any_of (contains files) (ancestors e.path) ≡ false) entries
    → contains (paths_of entries) a ≡ true
    → any_of (contains files) (ancestors a) ≡ false
unblocked_at files [] a h c = cc
unblocked_at files (e ∷ entries) a h c = ground (arith, unblocked_at files entries a h.1)

any_of_same :
    (p q : Text → Bool) (xs : List Text) → ((x : Text) → q x ≡ p x) → any_of q xs ≡ any_of p xs
any_of_same p q [] f = refl
any_of_same p q (x ∷ xs) f = ground (arith, f x, any_of_same p q xs f)

blocked_none :
    (paths ps : List Text)
    → All (λ p. any_of (contains paths) (ancestors p) ≡ false) ps
    → blocked_paths paths ps ≡ []
unfolding blocked_paths
blocked_none paths [] h = refl
blocked_none paths (p ∷ ps) h = ground (arith, blocked_none paths ps h.1)

module _ (u : Unicode) where
  -- Paths that can stand in one tree conflict with none.
  conflicting_none :
      (paths : List Text) (entries : List Entry)
      → ((a : Text) → contains paths a ≡ contains (paths_of entries) a)
      → IsTree u entries
      → conflicting_paths u paths ≡ []
  unfolding conflicting_paths sort_by
  conflicting_none paths entries same t = rw (
    blocked_none paths (sort_by (λ p. p) paths) (
        All-of_contains _ (sort_by (λ p. p) paths) (λ a c.
          any_of_same (contains (paths_of entries)) (contains paths) (ancestors a) same
          ∙ unblocked_at (paths_of entries) entries a t.unblocked
              (sym (same a) ∙ (sym (contains-ordered u paths a) ∙ c)))),
    NoCollision-collisions_none u paths
        (NoCollision-ext u paths (paths_of entries) same t.uncollided),
  )

  module _ (sha256 : Bytes → Text) where
    sound-validates :
        (entries : List Entry)
        → All (IsSound u) entries
        → IsTree u entries
        → validate_manifest u sha256
            (manifest_value entries)
            (some (compute_digest sha256 (map entry_value entries)))
          ≡ ok tt
    unfolding validate_manifest
    sound-validates entries h t =
        let stored = map entry_value entries in
        ground (
          arith,
          listed-items stored,
          validate_entries_sound u 0 entries [] h t.distinct (λ a c. refl),
          conflicting_none (claimed u entries []) entries
              (λ a. ground (arith, contains-claimed u entries [] a)) t,
          ==-refl (compute_digest sha256 stored),
        )

    IsBuilt-IsSound :
        IsLawful u
        → ((b : Bytes) → is_sha256 (sha256 b) ≡ true)
        → (files : Files) (limit : ℕ) (e : Entry) → IsBuilt u sha256 files limit e
        → Settled e.path
        → IsSound u e
    IsBuilt-IsSound law hex files limit e b settled = (
      normalize-accepted u law b.original e.path b.canonical ∙ recheck-Settled e.path settled,
      rw b.hashed (hex b.content),
    )

    All-IsSound :
        IsLawful u
        → ((b : Bytes) → is_sha256 (sha256 b) ≡ true)
        → (files : Files) (limit : ℕ) (entries : List Entry)
        → All (IsBuilt u sha256 files limit) entries
        → All (λ (e : Entry). Settled e.path) entries
        → All (IsSound u) entries
    All-IsSound law hex files limit [] b s = tt
    All-IsSound law hex files limit (e ∷ entries) b s = (
      IsBuilt-IsSound law hex files limit e b.0 s.0,
      All-IsSound law hex files limit entries b.1 s.1,
    )

    -- A built manifest, stored and read back under its own digest, is accepted, provided that the
    -- Unicode data is lawful, that checksums are 64 hex digits and that no entry's path has white
    -- space at an edge or a drive letter in front.
    pub build-validates :
        IsLawful u
        → ((b : Bytes) → is_sha256 (sha256 b) ≡ true)
        → (files : Files) (limits : Limits)
        → All (λ (e : Entry). Settled e.path) (build_manifest u sha256 files limits).0
        → let entries = (build_manifest u sha256 files limits).0 in
          validate_manifest u sha256
            (manifest_value entries)
            (some (compute_digest sha256 (map entry_value entries)))
          ≡ ok tt
    build-validates law hex files limits settled =
        sound-validates (build_manifest u sha256 files limits).0
          (All-IsSound law hex files limits.max_file_size (build_manifest u sha256 files limits).0
            (build_manifest-IsBuilt u sha256 files limits) settled)
          (build_manifest-IsTree u sha256 files limits)
