-- ===== src/Validation/Worker.antt =====
-- validate_revision of netbox_scripts/validation.py, from the claim to the verdict. Importing the files
-- is an argument, and so is what other workers do to the rows meanwhile: the end of the run reads the
-- rows again, under its fence.
pub mod Verdicts
use netbox_scripts.Base.{
  ℕ, Bool, true, false, List, [], ◌∷◌, Option, none, some, map, is_empty, if◌then◌else◌, Result, ok,
  err,
}
use netbox_scripts.Text.{Text, codes}
use netbox_scripts.Unicode.{Unicode}
use netbox_scripts.Json.{Value, null, str, obj, arr, field, end, get, items}
use netbox_scripts.Manifest.{Bytes}
use netbox_scripts.Manifest.Validate.{validate_manifest}
use netbox_scripts.ScriptFiles.{ScriptFile, sound_id, path_text, validate_script_file_snapshot}
use netbox_scripts.Introspection.{
  MetadataCode, invalid_snapshot, invalid_entry, invalid_position, invalid_job_timeout,
  invalid_notifications_default, identity_too_long, display_name_too_long, reserved_variable_name,
  unknown_fieldset_field, form_construction_failed,
}
use netbox_scripts.Lifecycle.{Revision, Rows, find_revision}
use netbox_scripts.Validation.{Verdict, accepted, claim, finalize, revert_to_materialized}
use netbox_scripts.Validation.Judging.{
  Cause, Loaded, Messages, Judged, nothing_judged, judge, conclude, Failure, FailureCode, code_of,
  metadata, no_scripts_published,
}

abbrev metadata_text : MetadataCode → Text
metadata_text invalid_snapshot = codes "invalid_snapshot"
metadata_text invalid_entry = codes "invalid_entry"
metadata_text invalid_position = codes "invalid_position"
metadata_text invalid_job_timeout = codes "invalid_job_timeout"
metadata_text invalid_notifications_default = codes "invalid_notifications_default"
metadata_text identity_too_long = codes "identity_too_long"
metadata_text display_name_too_long = codes "display_name_too_long"
metadata_text reserved_variable_name = codes "reserved_variable_name"
metadata_text unknown_fieldset_field = codes "unknown_fieldset_field"
metadata_text form_construction_failed = codes "form_construction_failed"
metadata_text _ = codes "duplicate_identity"

abbrev code_text : FailureCode → Text
code_text (code_of s) = s
code_text (metadata c) = metadata_text c
code_text no_scripts_published = codes "no_scripts_published"
code_text _ = codes "duplicate_identity"

abbrev optional : Option Text → Value
optional none = null
optional (some s) = str s

-- One entry of `validation_errors`.
abbrev pub failure_value : Failure → Value
failure_value f = obj (
    field (codes "source_path") (str f.source_path) (
      field (codes "code") (str (code_text f.code)) (
        field (codes "message") (optional f.message) (
          field (codes "exception_type") (optional f.exception_type)
            (field (codes "traceback") (optional f.traceback) end)))))

abbrev number_of : Option ℕ → ℕ
number_of none = 0
number_of (some n) = n

abbrev pub id_of : Value → Option ℕ
id_of (obj fs) = sound_id (get (codes "script_file") fs)
id_of _ = none

-- An entry of an accepted snapshot: `entry['script_file']` and `entry['source_path']`.
abbrev pub entry_file : Value → ScriptFile
entry_file v = record { pk = number_of (id_of v); source_path = path_text v }

pub data ValidationError : Type 0 where
  not_claimable vanished corrupt : ValidationError
  -- An exception that ended the run, with its text.
  interrupted : Text → ValidationError

-- What a run returns or raises: the verdict that it committed, if it still owned the revision.
abbrev pub Run : Type 0
Run = Result ValidationError (Option Verdict) × Rows

abbrev pub committed : Verdict → Bool × Rows → Run
committed verdict (true, w) = (ok (some verdict), w)
committed verdict (false, w) = (ok none, w)

module _ (pk job : ℕ) (meanwhile : Rows → Rows) where
  -- `_finalize` with the outcome of the loop.
  abbrev pub commit : List ScriptFile → Judged → Rows → Run
  commit entries j w =
      let (verdict, errors, records) = conclude entries j in
      committed verdict (
        finalize pk job verdict (arr (items (map failure_value errors))) (arr (items records))
          (meanwhile w))

  abbrev pub ended : (Text → Text) → List ScriptFile → Rows → Result Text Judged → Run
  ended sanitize entries w (err reason) =
      (err (interrupted reason), revert_to_materialized pk job (sanitize reason) (meanwhile w))
  ended sanitize entries w (ok j) = commit entries j w

  module _ (u : Unicode) (sha256 : Bytes → Text) (choices : List Text) (sanitize : Text → Text)
      (messages : Messages) (content : Revision → Cause → Bool)
      (load : Revision → Text → Loaded) where
    -- The run over the entries that the snapshot names.
    unfoldable pub run_entries : Revision → List ScriptFile → Rows → Run
    unfolding judge conclude finalize revert_to_materialized
    run_entries row [] w =
        committed accepted
          (finalize pk job accepted (arr (items [])) (arr (items [])) (meanwhile w))
    run_entries row (entry ∷ entries) w =
        ended sanitize (entry ∷ entries) w (
          judge choices sanitize messages (content row) (load row) (entry ∷ entries) nothing_judged)

    abbrev pub checked :
        Revision
        → Rows
        → Result (List netbox_scripts.Corrupt.Reason) (List Value)
        → Result (List netbox_scripts.Corrupt.Reason) (Unit {0})
        → Run
    checked row w (ok entries) (ok _) = run_entries row (map entry_file entries) w
    checked row w _ _ = (err corrupt, revert_to_materialized pk job [] (meanwhile w))

    abbrev pub claimed : Option Revision → Rows → Run
    claimed none w = (err vanished, w)
    claimed (some row) w =
        checked row w
          (validate_script_file_snapshot u sha256 row.script_file_snapshot row.script_file_digest)
          (validate_manifest u sha256 row.manifest row.digest)

    unfoldable pub validate_revision : ℕ → Rows → Run
    unfolding run_entries claim
    validate_revision now w =
        let (owned, w') = claim pk job now w in
        if owned then claimed (find_revision pk w'.revisions) w' else (err not_claimable, w)
