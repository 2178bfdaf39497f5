-- ===== src/Manifest/Validate.antt =====
-- The return trip of netbox_scripts/storage/manifest.py: `validate_manifest`.
use netbox_scripts.Base.{
  ℕ, suc, Bool, true, false, not, ◌&&◌, List, [], ◌∷◌, ◌++◌, Option, none, some, map, if◌then◌else◌,
  ◌==◌, text_eq, contains, keep_if, any_of, is_empty, Result, ok, err,
}
use netbox_scripts.Base.Int.{pos}
use netbox_scripts.Base.Dict.{keys}
use netbox_scripts.Text.{Text, codes}
use netbox_scripts.Text.Order.{sort_by}
use netbox_scripts.Unicode.{Unicode}
use netbox_scripts.Paths.{normalize_source_path}
use netbox_scripts.Paths.Keys.{is_sha256}
use netbox_scripts.Paths.Nodes.{add_once, ancestors, case_insensitive_collisions}
use netbox_scripts.Json.{Value, int, str, arr, obj, Fields, get, listed}
use netbox_scripts.Corrupt.{
  Reason, manifest_not_a_list, digest_mismatch, malformed_entry, missing_fields, malformed_path,
  unsafe_path, non_canonical_path, duplicate_path, malformed_size, malformed_checksum,
  path_conflict, case_fold_conflict,
}
use netbox_scripts.Manifest.{Bytes, compute_digest}

-- The reasons found, and the set of paths claimed so far.
abbrev pub Claims : Type 0
Claims = List Reason × List Text

abbrev pub is_none {ℓ} : {A : Type ℓ} → Option A → Bool
is_none none = true
is_none (some a) = false

abbrev entry_fields : List Text
entry_fields = codes "path" ∷ codes "size" ∷ codes "sha256" ∷ []

abbrev pub missing_in : Fields → List Text → List Text
missing_in fs = keep_if (λ k. is_none (get k fs))

-- `isinstance(size, bool) or not isinstance(size, int) or size < 0`
abbrev size_malformed : Option Value → Bool
size_malformed (some (int (pos n))) = false
size_malformed _ = true

-- `not isinstance(checksum, str) or not _SHA256.fullmatch(checksum)`
abbrev checksum_malformed : Option Value → Bool
checksum_malformed (some (str s)) = not (is_sha256 s)
checksum_malformed _ = true

abbrev when {ℓ} : {A : Type ℓ} → Bool → A → List A
when b a = if b then a ∷ [] else []

-- The checks that follow once the path is known to be canonical.
unfoldable pub sound_path : Fields → Text → List Text → Claims
sound_path fs path paths = (
  when (contains paths path) (duplicate_path path)
      ++ (when (size_malformed (get (codes "size") fs)) (malformed_size path)
          ++ when (checksum_malformed (get (codes "sha256") fs)) (malformed_checksum path)),
  add_once (some path) paths,
)

-- The loop of `_conflicting_paths` over the sorted paths.
unfoldable pub blocked_paths : List Text → List Text → List Reason
blocked_paths paths [] = []
blocked_paths paths (p ∷ ps) =
    when (any_of (contains paths) (ancestors p)) (path_conflict p) ++ blocked_paths paths ps

module _ (u : Unicode) where
  unfoldable pub validate_path : ℕ → Fields → List Text → Option Value → Claims
  unfolding sound_path
  validate_path index fs paths (some (str path)) = elim (normalize_source_path u path) [
    | err e ↦ (unsafe_path e.code path ∷ [], paths)
    | ok canonical ↦
        if not (canonical == path)
        then (non_canonical_path path ∷ [], paths)
        else sound_path fs path paths
  ]
  validate_path index fs paths _ = (malformed_path index ∷ [], paths)

  unfoldable pub validate_fields : ℕ → Fields → List Text → List Text → Claims
  unfolding validate_path
  validate_fields index fs paths [] = validate_path index fs paths (get (codes "path") fs)
  validate_fields index fs paths (k ∷ missing) = (missing_fields index (k ∷ missing) ∷ [], paths)

  unfoldable pub validate_entry : ℕ → Value → List Text → Claims
  unfolding validate_fields
  validate_entry index (obj fs) paths = validate_fields index fs paths (missing_in fs entry_fields)
  validate_entry index _ paths = (malformed_entry index ∷ [], paths)

  unfoldable pub validate_entries : ℕ → List Value → List Text → Claims
  unfolding validate_entry
  validate_entries index [] paths = ([], paths)
  validate_entries index (entry ∷ entries) paths =
      let (reasons, paths') = validate_entry index entry paths in
      let (more, all) = validate_entries (suc index) entries paths' in (reasons ++ more, all)

  unfoldable pub conflicting_paths : List Text → List Reason
  unfolding blocked_paths
  conflicting_paths paths =
      blocked_paths paths (sort_by (λ p. p) paths)
      ++ map case_fold_conflict (sort_by (λ p. p) (keys (case_insensitive_collisions u paths)))

  module _ (sha256 : Bytes → Text) where
    abbrev digest_differs : List Value → Option Text → Bool
    digest_differs entries none = false
    digest_differs entries (some digest) = not (compute_digest sha256 entries == digest)

    abbrev verdict : List Reason → Result (List Reason) (Unit {0})
    verdict [] = ok tt
    verdict (r ∷ rs) = err (r ∷ rs)

    abbrev entries_reasons : List Value → List Reason
    entries_reasons entries =
        let (reasons, paths) = validate_entries 0 entries [] in reasons ++ conflicting_paths paths

    -- `none` for a digest that is not passed.
    unfoldable pub validate_manifest : Value → Option Text → Result (List Reason) (Unit {0})
    unfolding validate_entries conflicting_paths
    validate_manifest (arr xs) digest =
        let reasons = entries_reasons (listed xs) in
        verdict
          (reasons ++ when (is_empty reasons && digest_differs (listed xs) digest) digest_mismatch)
    validate_manifest _ digest = err (manifest_not_a_list ∷ [])
