-- ===== src/Manifest.antt =====
-- netbox_scripts/storage/manifest.py: building a manifest from source files, and its digest.
pub mod Validate
pub mod Build
pub mod RoundTrip
use netbox_scripts.Base.{
  ℕ, ◌+◌, Bool, true, false, not, List, [], ◌∷◌, ◌++◌, Option, none, some, map, ltb, if◌then◌else◌,
  ◌==◌, text_eq, contains, keep_if, any_of, first_where, length, Result, ok, err, ◌>>=◌, ◌>>◌,
  refuse,
}
use netbox_scripts.Base.Int.{pos}
use netbox_scripts.Base.Dict
use netbox_scripts.Base.Dict.{Dict}
use netbox_scripts.Text.{Text, codes}
use netbox_scripts.Text.Order.{sort_by}
use netbox_scripts.Unicode.{Unicode}
use netbox_scripts.Paths.{PathCode, UnsafePath, normalize_source_path}
use netbox_scripts.Paths.Nodes.{ancestors, case_insensitive_collisions}
use netbox_scripts.Json.{Value, str, int, arr, obj, Fields, end, field, get, items, listed, dumps}

abbrev pub Bytes : Type 0
Bytes = List ℕ

-- `StorageLimits`
pub record Limits : Type 0 where
  pub max_file_size : ℕ
  pub max_project_size : ℕ
  pub max_file_count : ℕ

pub record Entry : Type 0 where
  pub path : Text
  pub size : ℕ
  pub sha256 : Text

-- The `code` of an error record.
pub data ErrorCode : Type 0 where
  unsafe_path : PathCode → ErrorCode
  duplicate_path file_too_large path_conflict case_fold_conflict : ErrorCode
  too_many_files project_too_large : ErrorCode

-- An error record, less its message.
pub record ContentError : Type 0 where
  pub path : Option Text
  pub code : ErrorCode

abbrev at_path : Text → ErrorCode → ContentError
at_path path code = record { path = some path; code = code }

abbrev pub Files : Type 0
Files = Dict Text Bytes

-- The entries and the error records that a pass has collected.
abbrev pub Outcome : Type 0
Outcome = List Entry × List ContentError

abbrev with_error : ContentError → Outcome → Outcome
with_error e (entries, errors) = (entries, e ∷ errors)

abbrev with_entry : Result ContentError Entry → Outcome → Outcome
with_entry (ok entry) (entries, errors) = (entry ∷ entries, errors)
with_entry (err e) o = with_error e o

abbrev pub paths_of : List Entry → List Text
paths_of = map (λ (e : Entry). e.path)

abbrev pub sort_entries : List Entry → List Entry
sort_entries = sort_by (λ (e : Entry). e.path)

abbrev pub total_bytes : Files → ℕ
total_bytes [] = 0
total_bytes ((path, content) ∷ files) = length content + total_bytes files

-- The dict that an entry is stored as.
abbrev pub entry_value : Entry → Value
entry_value e = obj (
    field (codes "path") (str e.path)
      (field (codes "size") (int (pos e.size)) (field (codes "sha256") (str e.sha256) end)))

abbrev pub manifest_value : List Entry → Value
manifest_value entries = arr (items (map entry_value entries))

-- `entry['path']` of an entry known to be sound.
abbrev pub text_at : Option Value → Text
text_at (some (str s)) = s
text_at _ = []

abbrev pub entry_path : Value → Text
entry_path (obj fs) = text_at (get (codes "path") fs)
entry_path _ = []

-- First pass of `_reject_path_conflicts`: an entry below a path that is a file.
unfoldable pub reject_below_files : List Text → List Entry → Outcome
reject_below_files files [] = ([], [])
reject_below_files files (entry ∷ entries) =
    let rest = reject_below_files files entries in
    elim (first_where (contains files) (ancestors entry.path)) [
      | none ↦ with_entry (ok entry) rest
      | some blocking ↦ with_error (at_path entry.path path_conflict) rest
    ]

-- Second pass: an entry that touches a case-insensitive collision.
unfoldable pub reject_collisions : Dict Text (Text × Text) → List Entry → Outcome
reject_collisions collisions [] = ([], [])
reject_collisions collisions (entry ∷ entries) =
    let rest = reject_collisions collisions entries in
    elim (Dict.lookup entry.path collisions) [
      | none ↦ with_entry (ok entry) rest
      | some pair ↦ with_error (at_path entry.path case_fold_conflict) rest
    ]

unfoldable pub limit_errors : Files → Limits → List ContentError
limit_errors files limits =
    (if ltb limits.max_file_count (length files)
      then record { path = none; code = too_many_files } ∷ []
      else [])
    ++ (if ltb limits.max_project_size (total_bytes files)
        then record { path = none; code = project_too_large } ∷ []
        else [])

module _ (u : Unicode) where
  unfoldable pub reject_path_conflicts : List Entry → Outcome
  unfolding reject_below_files reject_collisions
  reject_path_conflicts entries =
      let (kept, conflicts) = reject_below_files (paths_of entries) entries in
      let (remaining, collisions) =
        reject_collisions (case_insensitive_collisions u (paths_of kept)) kept in
      (remaining, conflicts ++ collisions)

module _ (u : Unicode) (sha256 : Bytes → Text) where
  unfoldable pub build_entry : Text → Bytes → ℕ → Result ContentError Entry
  build_entry canonical content max_file_size =
      if ltb max_file_size (length content)
      then err (at_path canonical file_too_large)
      else ok (record { path = canonical; size = length content; sha256 = sha256 content })

  -- The loop over the sorted files, with the canonical paths seen so far.
  unfoldable pub walk : ℕ → Files → List Text → Outcome
  unfolding build_entry
  walk limit [] seen = ([], [])
  walk limit ((original, content) ∷ files) seen =
      let skipped = walk limit files seen in
      elim (normalize_source_path u original) [
        | err e ↦ with_error (at_path e.path (unsafe_path e.code)) skipped
        | ok canonical ↦
            let added = walk limit files (canonical ∷ seen) in
            if contains seen canonical
            then with_error (at_path original duplicate_path) skipped
            else with_entry (build_entry canonical content limit) added
      ]

  unfoldable pub build_manifest : Files → Limits → Outcome
  unfolding walk reject_path_conflicts limit_errors
  build_manifest files limits =
      let (entries, errors) =
        walk limits.max_file_size (sort_by (λ (f : Text × Bytes). f.0) files) [] in
      let (kept, conflicts) = reject_path_conflicts u entries in
      (sort_entries kept, errors ++ (conflicts ++ limit_errors files limits))

module _ (sha256 : Bytes → Text) where
  -- The digest of a list of stored entries.
  unfoldable pub compute_digest : List Value → Text
  compute_digest entries = sha256 (dumps (arr (items (sort_by entry_path entries))))
