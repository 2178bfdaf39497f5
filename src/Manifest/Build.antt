-- ===== src/Manifest/Build.antt =====
-- What `build_manifest` collects: every entry is sound, and the entries form one source tree.
pub mod Tree
use netbox_scripts.Base.{
  ℕ, ◌≡◌, ◌≤◌, ◌+◌, refl, sym, ap, ◌∙◌, inl, inr, Bool, true, false, ◌||◌, List, [], ◌∷◌, ◌++◌,
  Option, none, some, map, arith, ltb, if◌then◌else◌, ◌==◌, text_eq, contains, any_of, first_where,
  length, length-append, All, Memᴰ, Result, ok, err, Result-cases, Option-cases, Bool-cases,
}
use netbox_scripts.Base.Dict
use netbox_scripts.Base.Dict.{Dict}
use netbox_scripts.Text.{Text}
use netbox_scripts.Text.Order.{
  sort_by, NodupKeys, NodupKeys-sort_by, All-sort_by, contains-sort_by, length-sort_by,
}
use netbox_scripts.Unicode.{Unicode}
use netbox_scripts.Paths.{normalize_source_path}
use netbox_scripts.Paths.Nodes.{ancestors, case_insensitive_collisions}
use netbox_scripts.Paths.Nodes.Collisions.{NoCollision, kept-NoCollision, NoCollision-ext}
use netbox_scripts.Manifest.{
  Bytes, Limits, Entry, ContentError, ErrorCode, path_conflict, case_fold_conflict, Files, Outcome,
  with_error, with_entry, paths_of, sort_entries, reject_below_files, reject_collisions,
  limit_errors, build_entry, walk, reject_path_conflicts, build_manifest,
}

-- An entry that came from one of the files: its path is the canonical form of that file's path, and
-- its size and checksum are those of that file's content.
pub record IsBuilt (u : Unicode) (sha256 : Bytes → Text) (files : Files) (limit : ℕ) (e : Entry)
    : Type 0 where
  pub original : Text
  pub content : Bytes
  pub listed : Memᴰ (original, content) files
  pub canonical : normalize_source_path u original ≡ ok e.path
  pub measured : e.size ≡ length content
  pub hashed : e.sha256 ≡ sha256 content
  pub fits : e.size ≤ limit

abbrev pub NodupPaths : List Entry → Type 0
NodupPaths = NodupKeys (λ (e : Entry). e.path)

-- Entries that can stand in one tree: no path twice, none below a file, no case collision.
pub record IsTree (u : Unicode) (entries : List Entry) : Type 0 where
  pub distinct : NodupPaths entries
  pub unblocked : All (λ e. any_of (contains (paths_of entries)) (ancestors e.path) ≡ false) entries
  pub uncollided : NoCollision u (paths_of entries)

module _ (u : Unicode) (sha256 : Bytes → Text) (limit : ℕ) where
  build_entry-IsBuilt :
      (all_files : Files) (p c : Text) (content : Bytes) (e : Entry)
      → Memᴰ (p, content) all_files
      → normalize_source_path u p ≡ ok c
      → build_entry u sha256 c content limit ≡ ok e
      → IsBuilt u sha256 all_files limit e
  unfolding build_entry
  build_entry-IsBuilt all_files p c content e listed accepted built = record {
    original = p;
    content = content;
    listed = listed;
    canonical = ground arith;
    measured = ground arith;
    hashed = ground arith;
    fits = ground arith;
  }

  -- A property of the entries holds if every entry that one of the files adds has it.
  All-walk :
      (Q : Text × Bytes → Type 0) (P : Entry → Type 0)
      → ((p c : Text) (content : Bytes) (e : Entry)
          → Q (p, content)
          → normalize_source_path u p ≡ ok c
          → build_entry u sha256 c content limit ≡ ok e
          → P e)
      → (files : Files) (seen : List Text) → All Q files
      → All P (walk u sha256 limit files seen).0
  unfolding walk
  All-walk Q P f [] seen h = tt
  All-walk Q P f ((p, content) ∷ files) seen h = elim (Result-cases (normalize_source_path u p)) [
    | inr (e, refused) ↦ rw (refused, walk) (All-walk Q P f files seen h.1)
    | inl (c, accepted) ↦ elim (Bool-cases (contains seen c)) [
      | inl old ↦ rw (accepted, walk, old) (All-walk Q P f files seen h.1)
      | inr new ↦ elim (Result-cases (build_entry u sha256 c content limit)) [
        | inl (e, built) ↦
            rw (accepted, walk, new, built)
              (f p c content e h.0 accepted built, All-walk Q P f files (c ∷ seen) h.1)
        | inr (e, large) ↦ rw (accepted, walk, new, large) (All-walk Q P f files (c ∷ seen) h.1)
      ]
    ]
  ]

  walk-IsBuilt :
      (all_files files : Files) (seen : List Text)
      → All (λ f. Memᴰ f all_files) files
      → All (IsBuilt u sha256 all_files limit) (walk u sha256 limit files seen).0
  walk-IsBuilt all_files = All-walk (λ f. Memᴰ f all_files) _ (build_entry-IsBuilt all_files)

  build_entry-path :
      (c : Text) (content : Bytes) (e : Entry)
      → build_entry u sha256 c content limit ≡ ok e
      → e.path ≡ c
  unfolding build_entry
  build_entry-path c content e h = ground arith

  -- No entry has a path that was seen before, and none has the path of another.
  walk-fresh :
      (files : Files) (seen : List Text) (a : Text)
      → contains seen a ≡ true
      → contains (paths_of (walk u sha256 limit files seen).0) a ≡ false
  unfolding walk
  walk-fresh [] seen a h = refl
  walk-fresh ((p, content) ∷ files) seen a h = elim (Result-cases (normalize_source_path u p)) [
    | inr (e, refused) ↦ rw (refused, walk) (walk-fresh files seen a h)
    | inl (c, accepted) ↦ elim (Bool-cases (contains seen c)) [
      | inl old ↦ rw (accepted, walk, old) (walk-fresh files seen a h)
      | inr new ↦ elim (Result-cases (build_entry u sha256 c content limit)) [
        | inl (e, built) ↦
            rw (accepted, walk, new, built)
              (ground
                (arith, new, build_entry-path c content e built, walk-fresh files (c ∷ seen) a))
        | inr (e, large) ↦
            rw (accepted, walk, new, large) (walk-fresh files (c ∷ seen) a (ground arith))
      ]
    ]
  ]

  walk-NodupPaths :
      (files : Files) (seen : List Text) → NodupPaths (walk u sha256 limit files seen).0
  unfolding walk
  walk-NodupPaths [] seen = tt
  walk-NodupPaths ((p, content) ∷ files) seen = elim (Result-cases (normalize_source_path u p)) [
    | inr (e, refused) ↦ rw (refused, walk) (walk-NodupPaths files seen)
    | inl (c, accepted) ↦ elim (Bool-cases (contains seen c)) [
      | inl old ↦ rw (accepted, walk, old) (walk-NodupPaths files seen)
      | inr new ↦ elim (Result-cases (build_entry u sha256 c content limit)) [
        | inl (e, built) ↦
            rw (accepted, walk, new, built)
              (
                walk-fresh files (c ∷ seen) e.path
                    (ground (arith, build_entry-path c content e built)),
                walk-NodupPaths files (c ∷ seen),
              )
        | inr (e, large) ↦ rw (accepted, walk, new, large) (walk-NodupPaths files (c ∷ seen))
      ]
    ]
  ]

  -- Every file gives one entry or one error record.
  walk_counts :
      (files : Files) (seen : List Text)
      → length (walk u sha256 limit files seen).0 + length (walk u sha256 limit files seen).1
        ≡ length files
  unfolding walk
  walk_counts [] seen = refl
  walk_counts ((p, content) ∷ files) seen = elim (Result-cases (normalize_source_path u p)) [
    | inl (c, accepted) ↦
        ground (arith, accepted, walk_counts files seen, walk_counts files (c ∷ seen))
    | inr (e, refused) ↦ ground (arith, refused, walk_counts files seen)
  ]
