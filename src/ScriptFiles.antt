-- ===== src/ScriptFiles.antt =====
-- netbox_scripts/storage/script_files.py: the snapshot of the enabled Script Files that a revision
-- freezes, and its return trip.
pub mod Accepted
use netbox_scripts.Base.{
  ℕ, zero, suc, Bool, not, ◌&&◌, List, [], ◌∷◌, ◌++◌, Option, none, some, map, ltb, if◌then◌else◌,
  ◌==◌, nat_eq, text_eq, contains, keep_if, length, is_empty, Result, ok, err,
}
use netbox_scripts.Base.Int.{pos}
use netbox_scripts.Base.Dict
use netbox_scripts.Base.Dict.{Dict, keys}
use netbox_scripts.Text.{Text, codes}
use netbox_scripts.Text.Order.{sort_by, text_le}
use netbox_scripts.Unicode.{Unicode}
use netbox_scripts.Names.{source_path_to_dotted_name}
use netbox_scripts.Paths.{normalize_source_path}
use netbox_scripts.Paths.Nodes.{add_once, case_insensitive_collisions}
use netbox_scripts.Json.{Value, int, str, arr, obj, Fields, end, field, get, items, listed, dumps}
use netbox_scripts.Corrupt.{
  Reason, snapshot_not_a_list, script_file_digest_mismatch, malformed_entry, missing_fields,
  unexpected_fields, malformed_script_file_id, duplicate_script_file, malformed_path, unsafe_path,
  non_canonical_path, unimportable_path, duplicate_path, unsorted_entry, case_fold_conflict,
  duplicate_module_name,
}
use netbox_scripts.Manifest.{Bytes}
use netbox_scripts.Manifest.Validate.{missing_in}

-- The two columns of a Script File row that a snapshot records.
pub record ScriptFile : Type 0 where
  pub pk : ℕ
  pub source_path : Text

abbrev pub entry_keys : List Text
entry_keys = codes "script_file" ∷ codes "source_path" ∷ []

abbrev pub snapshot_entry : ScriptFile → Value
snapshot_entry f = obj (
    field (codes "script_file") (int (pos f.pk))
      (field (codes "source_path") (str f.source_path) end))

abbrev field_names : Fields → List Text
field_names end = []
field_names (field k v fs) = k ∷ field_names fs

abbrev pub unexpected_in : Fields → List Text
unexpected_in fs = sort_by (λ k. k) (keep_if (λ k. not (contains entry_keys k)) (field_names fs))

-- What the entries so far have claimed: their ids, their paths, and the paths of each module name.
pub record Claimed : Type 0 where
  pub ids : List ℕ
  pub paths : List Text
  pub names : Dict Text (List Text)

abbrev pub nothing_claimed : Claimed
nothing_claimed = record { ids = []; paths = []; names = [] }

abbrev pub claim_id : ℕ → Claimed → Claimed
claim_id pk c = record c { ids = if contains c.ids pk then c.ids else pk ∷ c.ids }

abbrev pub claimants : Option (List Text) → List Text
claimants none = []
claimants (some paths) = paths

-- `isinstance(id, bool) or not isinstance(id, int) or id < 1`
abbrev pub sound_id : Option Value → Option ℕ
sound_id (some (int (pos zero))) = none
sound_id (some (int (pos (suc n)))) = some (suc n)
sound_id _ = none

abbrev text_of : Option Value → Text
text_of (some (str s)) = s
text_of _ = []

-- `entry['source_path']` of an entry known to be sound.
abbrev pub path_text : Value → Text
path_text (obj fs) = text_of (get (codes "source_path") fs)
path_text _ = []

abbrev pub when {ℓ} : {A : Type ℓ} → Bool → A → List A
when b a = if b then a ∷ [] else []

-- The check of the id, and what it claims.
unfoldable pub check_id : ℕ → Option Value → Claimed → List Reason × Claimed
check_id index value c = elim (sound_id value) [
  | none ↦ (malformed_script_file_id index ∷ [], c)
  | some pk ↦ (when (contains c.ids pk) (duplicate_script_file pk), claim_id pk c)
]

-- The names that several paths import under, in order, with those paths in order.
unfoldable pub shared_names : Dict Text (List Text) → List Text → List Reason
shared_names names [] = []
shared_names names (dotted ∷ rest) =
    let paths = claimants (Dict.lookup dotted names) in
    (if ltb 1 (length paths) then map duplicate_module_name (sort_by (λ p. p) paths) else [])
    ++ shared_names names rest

module _ (sha256 : Bytes → Text) where
  unfoldable pub compute_script_file_digest : List Value → Text
  compute_script_file_digest snapshot = sha256 (dumps (arr (items snapshot)))

  unfoldable pub build_script_file_snapshot : List ScriptFile → List Value × Text
  unfolding compute_script_file_digest
  build_script_file_snapshot script_files =
      let snapshot =
        map snapshot_entry (sort_by (λ (f : ScriptFile). f.source_path) script_files) in
      (snapshot, compute_script_file_digest snapshot)

module _ (u : Unicode) where
  -- The checks of a canonical path, after which it is claimed.
  unfoldable pub claim_path : Text → Claimed → List Reason × Claimed
  claim_path path c = elim (source_path_to_dotted_name u.is_identifier path) [
    | err e ↦ (
      unimportable_path path ∷ when (contains c.paths path) (duplicate_path path),
      record c { paths = add_once (some path) c.paths },
    )
    | ok dotted ↦ (
      when (contains c.paths path) (duplicate_path path),
      record c {
        paths = add_once (some path) c.paths;
        names =
            Dict.insert dotted (add_once (some path) (claimants (Dict.lookup dotted c.names)))
              c.names;
      },
    )
  ]

  unfoldable pub check_path : ℕ → Option Value → Claimed → List Reason × Claimed
  unfolding claim_path
  check_path index (some (str path)) c = elim (normalize_source_path u path) [
    | err e ↦ (unsafe_path e.code path ∷ [], c)
    | ok canonical ↦
        if not (canonical == path) then (non_canonical_path path ∷ [], c) else claim_path path c
  ]
  check_path index _ c = (malformed_path index ∷ [], c)

  abbrev pub check_both : ℕ → Fields → Claimed → List Reason × Claimed
  check_both index fs c =
      let (id_reasons, with_id) = check_id index (get (codes "script_file") fs) c in
      let (path_reasons, with_path) = check_path index (get (codes "source_path") fs) with_id in
      (id_reasons ++ path_reasons, with_path)

  abbrev pub check_fields : ℕ → Fields → Claimed → List Text → List Text → List Reason × Claimed
  check_fields index fs c (k ∷ missing) unexpected = (missing_fields index (k ∷ missing) ∷ [], c)
  check_fields index fs c [] (k ∷ unexpected) = (unexpected_fields index (k ∷ unexpected) ∷ [], c)
  check_fields index fs c [] [] = check_both index fs c

  unfoldable pub validate_entry : ℕ → Value → Claimed → List Reason × Claimed
  unfolding check_id check_path
  validate_entry index (obj fs) c =
      check_fields index fs c (missing_in fs entry_keys) (unexpected_in fs)
  validate_entry index _ c = (malformed_entry index ∷ [], c)

  abbrev pub out_of_order : Option Text → Text → List Reason
  out_of_order none path = []
  out_of_order (some previous) path = when (not (text_le previous path)) (unsorted_entry path)

  -- The loop over the entries, with the path of the last sound one.
  unfoldable pub validate_entries : ℕ → List Value → Option Text → Claimed → List Reason × Claimed
  unfolding validate_entry
  validate_entries index [] previous c = ([], c)
  validate_entries index (entry ∷ entries) previous c =
      let (reasons, c') = validate_entry index entry c in
      let sound = is_empty reasons in
      let path = path_text entry in
      let (more, all) =
        validate_entries (suc index) entries (if sound then some path else previous) c' in
      (reasons ++ ((if sound then out_of_order previous path else []) ++ more), all)

  module _ (sha256 : Bytes → Text) where
    abbrev pub snapshot_reasons : List Value → List Reason
    snapshot_reasons snapshot =
        let (reasons, c) = validate_entries 0 snapshot none nothing_claimed in
        reasons
        ++ (map case_fold_conflict (sort_by (λ p. p) (keys (case_insensitive_collisions u c.paths)))
            ++ shared_names c.names (sort_by (λ n. n) (keys c.names)))

    abbrev pub accept : List Value → List Reason → Result (List Reason) (List Value)
    accept snapshot [] = ok snapshot
    accept snapshot (r ∷ rs) = err (r ∷ rs)

    unfoldable pub validate_script_file_snapshot : Value → Text → Result (List Reason) (List Value)
    unfolding validate_entries shared_names compute_script_file_digest
    validate_script_file_snapshot (arr xs) digest =
        let snapshot = listed xs in
        let reasons = snapshot_reasons snapshot in
        accept snapshot (
          reasons
          ++ when (is_empty reasons && not (compute_script_file_digest sha256 snapshot == digest))
              script_file_digest_mismatch)
    validate_script_file_snapshot _ digest = err (snapshot_not_a_list ∷ [])
