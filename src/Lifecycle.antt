-- ===== src/Lifecycle.antt =====
-- The rows that a project's lifecycle keeps in the database, and the statements that read and write
-- them (netbox_scripts/models/projects.py, models/scripts.py, choices.py, constants.py).
-- One project's rows: every statement of the lifecycle filters on the project.
pub mod Consistent
use netbox_scripts.Base.{
  ℕ, suc, ◌+◌, Bool, true, false, not, ◌&&◌, ◌||◌, List, [], ◌∷◌, ◌++◌, Option, none, some, map,
  if◌then◌else◌, ◌==◌, nat_eq, contains, first_where, any_of, length, keep_if, Result, ok, err,
}
use netbox_scripts.Text.{Text}
use netbox_scripts.Json.{Value}
use netbox_scripts.ScriptFiles.{ScriptFile}

-- `RevisionStatusChoices`
pub data Status : Type 0 where
  staging materialized storage_failed validating valid invalid active retired : Status

-- `ActivationPolicyChoices`
pub data ActivationPolicy : Type 0 where
  manual automatic_if_valid : ActivationPolicy

abbrev pub is_active : Status → Bool
is_active active = true
is_active _ = false

abbrev pub is_staging : Status → Bool
is_staging staging = true
is_staging _ = false

abbrev pub is_validating : Status → Bool
is_validating validating = true
is_validating _ = false

abbrev pub is_materialized : Status → Bool
is_materialized materialized = true
is_materialized _ = false

-- `ACTIVATABLE_REVISION_STATUSES`
abbrev pub is_activatable : Status → Bool
is_activatable valid = true
is_activatable retired = true
is_activatable _ = false

-- `STORED_REVISION_STATUSES`
abbrev pub is_stored : Status → Bool
is_stored materialized = true
is_stored valid = true
is_stored active = true
is_stored retired = true
is_stored _ = false

-- `RETRYABLE_REVISION_STATUSES`, which are also the `UNSTORED_REVISION_STATUSES`
abbrev pub is_retryable : Status → Bool
is_retryable staging = true
is_retryable storage_failed = true
is_retryable _ = false

abbrev pub is_automatic : ActivationPolicy → Bool
is_automatic automatic_if_valid = true
is_automatic manual = false

-- `ScriptProjectRevision`, with jobs and times as numbers.
pub record Revision : Type 0 where
  pub pk : ℕ
  pub digest : Option Text
  pub status : Status
  pub manifest : Value
  pub file_count : ℕ
  pub total_size : ℕ
  pub validation_errors : Value
  pub discovered_scripts : Value
  pub script_file_snapshot : Value
  pub script_file_digest : Text
  pub validation_job : Option ℕ
  pub validation_started : Option ℕ
  pub last_validation_failure : Text
  pub activated : Option ℕ

-- The columns of `ScriptProject` that the lifecycle reads and writes.
pub record Project : Type 0 where
  pub storage_key : Text
  pub active_revision : Option ℕ
  pub source_revision : Option ℕ
  pub source_activation_pending : Bool
  pub activation_policy : ActivationPolicy

-- `NetBoxScript`
pub record ScriptRow : Type 0 where
  pub pk : ℕ
  pub module_path : Text
  pub class_name : Text
  pub display_name : Text
  pub description : Text
  pub metadata : Value
  pub is_retired : Bool
  pub enabled : Bool
  pub last_seen_revision : Option ℕ

-- `script_files` are the enabled ones. A deleted project has no row.
pub record Rows : Type 0 where
  pub project : Option Project
  pub revisions : List Revision
  pub script_files : List ScriptFile
  pub scripts : List ScriptRow
  -- What the primary key sequences give next.
  pub next_revision : ℕ
  pub next_script : ℕ

abbrev pub points_at : Option ℕ → ℕ → Bool
points_at none pk = false
points_at (some p) pk = p == pk

-- `objects.get(pk=pk)`
unfoldable pub find_revision : ℕ → List Revision → Option Revision
find_revision pk = first_where (λ (r : Revision). r.pk == pk)

-- `objects.filter(test).update(...)`: the rows changed, and how many.
unfoldable pub update_where :
    (Revision → Bool) → (Revision → Revision) → List Revision → List Revision
update_where test change [] = []
update_where test change (r ∷ rs) = (if test r then change r else r) ∷ update_where test change rs

abbrev pub matches : (Revision → Bool) → List Revision → Bool
matches = any_of

abbrev pub set_revisions : Rows → List Revision → Rows
set_revisions w rs = record w { revisions = rs }

abbrev pub set_project : Rows → Project → Rows
set_project w p = record w { project = some p }

abbrev pub with_pk : ℕ → (Revision → Bool) → Revision → Bool
with_pk pk test r = r.pk == pk && test r

abbrev pub set_status : Status → Revision → Revision
set_status s r = record r { status = s }
