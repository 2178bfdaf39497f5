-- ===== src/Store.antt =====
-- netbox_scripts/storage/store.py: writing, verifying, reading and deleting stored revisions.
pub mod Entries
pub mod Measure
pub mod Verified
pub mod Trees
unfoldable pub use Entries.*
use netbox_scripts.Base.{
  ℕ, zero, suc, ◌+◌, ◌-◌, Bool, true, false, not, ◌||◌, ◌&&◌, List, [], ◌∷◌, ◌++◌, Option, none,
  some, map, ltb, if◌then◌else◌, ◌==◌, nat_eq, text_eq, contains, take, drop, keep_if, all_of,
  length, is_empty, Result, ok, err, ◌>>=◌, ◌>>◌, ◌*◌,
}
use Prim.Native.Nat.{min}
use netbox_scripts.Base.Dict
use netbox_scripts.Base.Dict.{Dict}
use netbox_scripts.Text.{Text, codes}
use netbox_scripts.Text.Order.{sort_by}
use netbox_scripts.Unicode.{Unicode}
use netbox_scripts.Paths.{UnsafePath, unsafe, normalize_source_path}
use netbox_scripts.Paths.{PathCode}
use netbox_scripts.Paths.Keys.{revision_prefix, revision_key}
use netbox_scripts.Base.Int.{pos}
use netbox_scripts.Json.{Value, int, obj, arr, get, listed}
use netbox_scripts.Corrupt.{Reason, missing, size_mismatch, checksum_mismatch, prefix_missing}
use netbox_scripts.Manifest.{Bytes, Entry, Files, text_at, sort_entries}
use netbox_scripts.Manifest.Validate.{validate_manifest}
use netbox_scripts.Backend.{Backend, Failure, file_not_found, not_implemented, other_failure}

module _ (B : Backend) (sha256 : Bytes → Text) where
  unfoldable pub verify_entries : B.State → Text → List Entry → Result StoreError (List Reason)
  verify_entries s prefix [] = ok []
  verify_entries s prefix (entry ∷ entries) = do
    reasons ← verify_entry B sha256 s (prefix ++ entry.path) entry
    more ← verify_entries s prefix entries
    ok (reasons ++ more)

  abbrev tree_verdict : Text → List Entry → List Reason → Result StoreError Text
  tree_verdict prefix entries reasons =
      if not (is_empty entries) && (length reasons == length entries && all_of is_missing reasons)
      then err (corrupt (prefix_missing ∷ []))
      else if not (is_empty reasons)
      then err (corrupt reasons)
      else ok prefix

  abbrev and_then :
      Effect B sha256 (Unit {0})
      → (B.State → Effect B sha256 (Unit {0}))
      → Effect B sha256 (Unit {0})
  and_then (ok done, s) k = k s
  and_then (err e, s) k = (err e, s)

  unfoldable pub write_entries :
      B.State → Text → Dict Text Bytes → List Entry → Effect B sha256 (Unit {0})
  unfolding write_one
  write_entries s prefix source [] = (ok tt, s)
  write_entries s prefix source (entry ∷ entries) = elim (Dict.lookup entry.path source) [
    | none ↦ (err storage_error, s)
    | some content ↦
        and_then (write_one B sha256 s (prefix ++ entry.path) content entry)
          (λ s'. write_entries s' prefix source entries)
  ]

  module _ (u : Unicode) (parse_uuid : Text → Option Text) where
    -- `_verify_tree`
    unfoldable pub verify_tree : B.State → Text → Text → List Entry → Result StoreError Text
    verify_tree s storage_key digest manifest = do
      prefix ← lift_unsafe (revision_prefix parse_uuid storage_key digest)
      reasons ← verify_entries s prefix (sort_entries manifest)
      tree_verdict prefix manifest reasons

    unfoldable pub verify_revision_tree : B.State → Text → Text → Value → Result StoreError Text
    unfolding verify_tree
    verify_revision_tree s storage_key digest manifest = do
      lift_corrupt (validate_manifest u sha256 manifest (some digest))
      verify_tree s storage_key digest (decode_manifest manifest)

    -- The checks of `write_revision` before its first write: the prefix and the source.
    unfoldable pub prepare_write :
        Text → Text → Files → Value → Result StoreError (Text × Dict Text Bytes)
    prepare_write storage_key digest files manifest = do
      lift_corrupt (validate_manifest u sha256 manifest (some digest))
      prefix ← lift_unsafe (revision_prefix parse_uuid storage_key digest)
      source ← lift_unsafe (canonical_source u files [])
      ok (prefix, source)

    abbrev verified : Effect B sha256 (Unit {0}) → Text → Text → List Entry → Effect B sha256 Text
    verified (ok done, s) storage_key digest manifest =
        (verify_tree s storage_key digest manifest, s)
    verified (err e, s) storage_key digest manifest = (err e, s)

    unfoldable pub write_revision : B.State → Text → Text → Files → Value → Effect B sha256 Text
    unfolding prepare_write write_entries verify_tree
    write_revision s storage_key digest files manifest =
        elim (prepare_write storage_key digest files manifest) [
          | err e ↦ (err e, s)
          | ok (prefix, source) ↦
              verified (write_entries s prefix source (decode_manifest manifest)) storage_key digest
                (decode_manifest manifest)
        ]

    abbrev delete_key : B.State → Result UnsafePath Text → Option B.State
    delete_key s (err e) = none
    delete_key s (ok key) = elim (B.delete s key) [
      | ok s' ↦ some s'
      | err file_not_found ↦ some s
      | err e ↦ none
    ]

    -- The loop of `delete_revision`: the paths that could not be removed.
    unfoldable pub delete_paths : B.State → Text → Text → List Text → List Text × B.State
    delete_paths s storage_key digest [] = ([], s)
    delete_paths s storage_key digest (path ∷ paths) =
        elim (delete_key s (revision_key parse_uuid u storage_key digest path)) [
          | some s' ↦ delete_paths s' storage_key digest paths
          | none ↦
              let (failures, s') = delete_paths s storage_key digest paths in (path ∷ failures, s')
        ]

    unfoldable pub delete_revision : B.State → Text → Text → List Text → Effect B sha256 (Unit {0})
    unfolding delete_paths
    delete_revision s storage_key digest paths =
        let (failures, s') = delete_paths s storage_key digest (sort_by (λ p. p) paths) in
        (if is_empty failures then ok tt else err storage_error, s')

    unfoldable pub present_from : B.State → Text → Text → List Text → Result StoreError (List Text)
    present_from s storage_key digest [] = ok []
    present_from s storage_key digest (path ∷ paths) = do
      key ← lift_unsafe (revision_key parse_uuid u storage_key digest path)
      found ← probe (B.exists s key)
      more ← present_from s storage_key digest paths
      ok (if found then path ∷ more else more)

    unfoldable pub present_keys : B.State → Text → Text → List Text → Result StoreError (List Text)
    unfolding present_from
    present_keys s storage_key digest paths =
        present_from s storage_key digest (sort_by (λ p. p) paths)

    unfoldable pub read_entries : B.State → Text → List Entry → Result StoreError (Dict Text Bytes)
    read_entries s prefix [] = ok []
    read_entries s prefix (entry ∷ entries) = do
      content ← stream_verified B sha256 s (prefix ++ entry.path) entry
      more ← read_entries s prefix entries
      ok ((entry.path, content) ∷ more)

    unfoldable pub read_revision_tree :
        B.State → Text → Text → Value → Result StoreError (Dict Text Bytes)
    unfolding read_entries
    read_revision_tree s storage_key digest manifest = do
      lift_corrupt (validate_manifest u sha256 manifest (some digest))
      prefix ← lift_unsafe (revision_prefix parse_uuid storage_key digest)
      read_entries s prefix (decode_manifest manifest)
