-- ===== src/Manifest/Build/Tree.antt =====
-- The entries that `build_manifest` keeps can stand in one source tree, whatever it rejects.
use netbox_scripts.Base.{
  ◌≡◌, ◌+◌, refl, sym, ap, ◌∙◌, inl, inr, Bool, true, false, List, [], ◌∷◌, ◌++◌, none, some, arith,
  text_eq, contains, keep_if, keep_if_holds, any_of, first_where, length, length-append, All, Memᴰ,
  All-Memᴰ, All-keep_if, All-map_into, Option-cases,
}
use netbox_scripts.Base.Dict
use netbox_scripts.Base.Dict.{Dict}
use netbox_scripts.Text.{Text}
use netbox_scripts.Text.Order.{
  sort_by, NodupKeys-sort_by, NodupKeys-keep_if, contains-keep_if, All-sort_by, contains-sort_by,
  length-sort_by,
}
use netbox_scripts.Unicode.{Unicode}
use netbox_scripts.Paths.Nodes.{ancestors, case_insensitive_collisions}
use netbox_scripts.Paths.Nodes.Collisions.{kept-NoCollision, NoCollision-ext}
use netbox_scripts.Manifest.{
  Bytes, Limits, Entry, Files, Outcome, paths_of, sort_entries, reject_below_files,
  reject_collisions, limit_errors, walk, reject_path_conflicts, build_manifest,
}
use netbox_scripts.Manifest.Build.{
  IsBuilt, IsTree, NodupPaths, walk-IsBuilt, walk-NodupPaths, walk_counts,
}

abbrev unblocked_by : List Text → Entry → Bool
unblocked_by files e = elim (first_where (contains files) (ancestors e.path)) [
  | none ↦ true
  | some blocking ↦ false
]

abbrev untouched_by : Dict Text (Text × Text) → Entry → Bool
untouched_by collisions e = elim (Dict.lookup e.path collisions) [ none ↦ true | some pair ↦ false ]

below-eq-keep_if :
    (files : List Text) (entries : List Entry)
    → (reject_below_files files entries).0 ≡ keep_if (unblocked_by files) entries
unfolding reject_below_files
below-eq-keep_if files [] = refl
below-eq-keep_if files (e ∷ entries) = ground (arith, below-eq-keep_if files entries)

collisions-eq-keep_if :
    (d : Dict Text (Text × Text)) (entries : List Entry)
    → (reject_collisions d entries).0 ≡ keep_if (untouched_by d) entries
unfolding reject_collisions
collisions-eq-keep_if d [] = refl
collisions-eq-keep_if d (e ∷ entries) = ground (arith, collisions-eq-keep_if d entries)

below_counts :
    (files : List Text) (entries : List Entry)
    → length (reject_below_files files entries).0 + length (reject_below_files files entries).1
      ≡ length entries
unfolding reject_below_files
below_counts files [] = refl
below_counts files (e ∷ entries) = ground (arith, below_counts files entries)

collisions_counts :
    (d : Dict Text (Text × Text)) (entries : List Entry)
    → length (reject_collisions d entries).0 + length (reject_collisions d entries).1
      ≡ length entries
unfolding reject_collisions
collisions_counts d [] = refl
collisions_counts d (e ∷ entries) = ground (arith, collisions_counts d entries)

first_where-any_of :
    (p : Text → Bool) (xs : List Text) → first_where p xs ≡ none → any_of p xs ≡ false
first_where-any_of p [] h = refl
first_where-any_of p (x ∷ xs) h = ground (arith, first_where-any_of p xs)

any_of_fewer :
    (p q : Text → Bool) (xs : List Text)
    → ((x : Text) → q x ≡ true → p x ≡ true)
    → any_of p xs ≡ false
    → any_of q xs ≡ false
any_of_fewer p q [] f h = refl
any_of_fewer p q (x ∷ xs) f h = ground (arith, f x, any_of_fewer p q xs f)

lookup_untouched :
    (d : Dict Text (Text × Text)) (entries : List Entry) (p : Text)
    → All (λ e. untouched_by d e ≡ true) entries
    → contains (paths_of entries) p ≡ true
    → Dict.lookup p d ≡ none
lookup_untouched d [] p h c = cc
lookup_untouched d (e ∷ entries) p h c = elim (Option-cases (Dict.lookup e.path d)) [
  | inl free ↦ ground (arith, free, lookup_untouched d entries p h.1)
  | inr (pair, hit) ↦ cc (h.0, hit)
]

unblocked_by-any_of :
    (files : List Text) (e : Entry)
    → unblocked_by files e ≡ true
    → any_of (contains files) (ancestors e.path) ≡ false
unblocked_by-any_of files e h =
    first_where-any_of (contains files) (ancestors e.path) (ground arith)

path_of : Entry → Text
path_of e = e.path

module _ (u : Unicode) where
  abbrev kept : List Entry → List Entry
  kept entries = keep_if (unblocked_by (paths_of entries)) entries

  abbrev remaining : List Entry → List Entry
  remaining entries =
      keep_if (untouched_by (case_insensitive_collisions u (paths_of (kept entries))))
        (kept entries)

  conflicts-eq-remaining :
      (entries : List Entry) → (reject_path_conflicts u entries).0 ≡ remaining entries
  unfolding reject_path_conflicts
  conflicts-eq-remaining entries = rw (below-eq-keep_if, collisions-eq-keep_if)

  conflicts_counts :
      (entries : List Entry)
      → length (reject_path_conflicts u entries).0 + length (reject_path_conflicts u entries).1
        ≡ length entries
  unfolding reject_path_conflicts
  conflicts_counts entries =
      let (below, errors) = reject_below_files (paths_of entries) entries in
      let d = case_insensitive_collisions u (paths_of below) in
      omega (
        arith,
        below_counts (paths_of entries) entries,
        collisions_counts d below,
        length-append errors (reject_collisions d below).1,
      )

  within_kept :
      (entries : List Entry) (p : Text)
      → contains (paths_of (remaining entries)) p ≡ true
      → contains (paths_of (kept entries)) p ≡ true
  within_kept entries p =
      contains-keep_if (λ (e : Entry). e.path)
        (untouched_by (case_insensitive_collisions u (paths_of (kept entries)))) (kept entries) p

  within_all :
      (entries : List Entry) (p : Text)
      → contains (paths_of (remaining entries)) p ≡ true
      → contains (paths_of entries) p ≡ true
  within_all entries p c =
      contains-keep_if (λ (e : Entry). e.path) (unblocked_by (paths_of entries)) entries p
        (within_kept entries p c)

  remaining-IsTree : (entries : List Entry) → NodupPaths entries → IsTree u (remaining entries)
  remaining-IsTree entries nodup = record {
    distinct =
        NodupKeys-keep_if _ _ (kept entries)
          (NodupKeys-keep_if _ (unblocked_by (paths_of entries)) entries nodup);
    unblocked = All-keep_if _ _ (kept entries) (
        All-map_into _ _ (kept entries)
          (λ e h.
            any_of_fewer (contains (paths_of entries)) (contains (paths_of (remaining entries)))
              (ancestors e.path) (within_all entries) (unblocked_by-any_of (paths_of entries) e h))
          (keep_if_holds (unblocked_by (paths_of entries)) entries));
    uncollided =
        kept-NoCollision u (paths_of (kept entries)) (paths_of (remaining entries))
          (within_kept entries)
          (λ p c.
            lookup_untouched (case_insensitive_collisions u (paths_of (kept entries)))
              (remaining entries) p (keep_if_holds _ (kept entries)) c);
  }

  sort_entries-IsTree : (entries : List Entry) → IsTree u entries → IsTree u (sort_entries entries)
  sort_entries-IsTree entries t = record {
    distinct = NodupKeys-sort_by _ entries t.distinct;
    unblocked = All-sort_by _ _ entries (
        All-map_into _ _ entries
          (λ e.
            any_of_fewer (contains (paths_of entries)) (contains (paths_of (sort_entries entries)))
              (ancestors e.path)
              (λ p c. sym (contains-sort_by (λ (e : Entry). e.path) entries p) ∙ c))
          t.unblocked);
    uncollided =
        NoCollision-ext u (paths_of (sort_entries entries)) (paths_of entries)
          (contains-sort_by (λ (e : Entry). e.path) entries) t.uncollided;
  }

  module _ (sha256 : Bytes → Text) (files : Files) (limits : Limits) where
    abbrev walked : Outcome
    walked = walk u sha256 limits.max_file_size (sort_by (λ (f : Text × Bytes). f.0) files) []

    build-eq : (build_manifest u sha256 files limits).0 ≡ sort_entries (remaining walked.0)
    unfolding build_manifest
    build-eq = ap sort_entries (conflicts-eq-remaining walked.0)

    -- Whatever is rejected, the entries of a built manifest can stand in one source tree: no path
    -- occurs twice, no path lies below another entry's path, and no two tree nodes differ only in
    -- letter case.
    pub build_manifest-IsTree : IsTree u (build_manifest u sha256 files limits).0
    build_manifest-IsTree = rw build-eq (
        sort_entries-IsTree (remaining walked.0)
          (remaining-IsTree walked.0 (walk-NodupPaths u sha256 limits.max_file_size _ [])))

    -- Each entry is made from one of the given files: its path is the canonical form of the path of that
    -- file, its size and checksum are those of the content of the same file, and the size keeps the limit
    -- on the size of a file.
    pub build_manifest-IsBuilt :
        All (IsBuilt u sha256 files limits.max_file_size) (build_manifest u sha256 files limits).0
    build_manifest-IsBuilt =
        let by_path = λ (f : Text × Bytes). f.0 in
        let listed = All-sort_by by_path (λ f. Memᴰ f files) files (All-Memᴰ files) in
        let built =
          walk-IsBuilt u sha256 limits.max_file_size files (sort_by by_path files) [] listed in
        rw build-eq (
          All-sort_by _ _ (remaining walked.0)
            (All-keep_if _ _ (kept walked.0) (All-keep_if _ _ walked.0 built)))

    -- No file is dropped in silence: the entries and the error records, less those of the two
    -- project limits, are as many as the source files.
    pub build_manifest_counts :
        length (build_manifest u sha256 files limits).0
          + length (build_manifest u sha256 files limits).1
        ≡ length files + length (limit_errors files limits)
    unfolding build_manifest
    build_manifest_counts =
        let (entries, errors) = walked in
        let (keeps, conflicts) = reject_path_conflicts u entries in
        omega (
          arith,
          walk_counts u sha256 limits.max_file_size (sort_by (λ (f : Text × Bytes). f.0) files) [],
          conflicts_counts entries,
          length-sort_by (λ (f : Text × Bytes). f.0) files,
          length-sort_by (λ (e : Entry). e.path) keeps,
          length-append errors (conflicts ++ limit_errors files limits),
          length-append conflicts (limit_errors files limits),
        )
