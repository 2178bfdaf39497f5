-- ===== src/Corrupt.antt =====
-- The reasons of a `RevisionCorruptError` (netbox_scripts/storage/exceptions.py), one constructor
-- for each text that the storage package formats: "duplicate_path:{path}" is `duplicate_path path`.
use netbox_scripts.Base.{ℕ, List}
use netbox_scripts.Text.{Text}
use netbox_scripts.Paths.{PathCode}

pub data Reason : Type 0 where
  manifest_not_a_list digest_mismatch : Reason
  malformed_entry : ℕ → Reason
  missing_fields unexpected_fields : ℕ → List Text → Reason
  malformed_path : ℕ → Reason
  unsafe_path : PathCode → Text → Reason
  non_canonical_path duplicate_path malformed_size malformed_checksum : Text → Reason
  path_conflict case_fold_conflict : Text → Reason
  -- script file snapshots
  snapshot_not_a_list script_file_digest_mismatch : Reason
  malformed_script_file_id : ℕ → Reason
  duplicate_script_file : ℕ → Reason
  unimportable_path unsorted_entry duplicate_module_name : Text → Reason
  -- stored trees
  missing size_mismatch checksum_mismatch : Text → Reason
  prefix_missing : Reason
  -- a revision row against its own manifest
  file_count_mismatch total_size_mismatch : Reason
