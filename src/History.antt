-- ===== src/History.antt =====
-- The life of one project: any sequence of the calls of netbox_scripts/storage/service.py,
-- netbox_scripts/validation.py and netbox_scripts/activation.py, of edits of the project's policy
-- and Script Files, and of changes of the stored content.
use netbox_scripts.Base.{ℕ, ◌≡◌, refl, Bool, false, List, [], Option, none, some, nat_eq}
use netbox_scripts.Text.{Text}
use netbox_scripts.Unicode.{Unicode}
use netbox_scripts.Json.{Value}
use netbox_scripts.Manifest.{Bytes, Limits, Files, ContentError}
use netbox_scripts.ScriptFiles.{ScriptFile}
use netbox_scripts.Backend.{Backend}
use netbox_scripts.Lifecycle.{ActivationPolicy, Project, Revision, Rows}
use netbox_scripts.Lifecycle.Consistent.{IsConsistent}
use netbox_scripts.Staging.{World, stage_revision, refresh_revision_script_files}
use netbox_scripts.Staging.Consistent.{stage-IsConsistent, refresh-IsConsistent}
use netbox_scripts.Validation.{Verdict, claim, finalize, revert_to_materialized}
use netbox_scripts.Validation.Lease.{claim-IsConsistent, finalize-IsConsistent, revert-IsConsistent}
use netbox_scripts.Activation.{activate_revision, deactivate_revision}
use netbox_scripts.Activation.Consistent.{activate-IsConsistent, deactivate-IsConsistent}

-- A project that has just been created.
abbrev pub new_project : Text → ActivationPolicy → Rows
new_project key policy = record {
  project = some (record {
    storage_key = key;
    active_revision = none;
    source_revision = none;
    source_activation_pending = false;
    activation_policy = policy;
  });
  revisions = [];
  script_files = [];
  scripts = [];
  next_revision = 0;
  next_script = 0;
}

abbrev with_policy : ActivationPolicy → Project → Project
with_policy policy p = record p { activation_policy = policy }

-- The saves of the project form and of the Script File forms.
abbrev configured : List ScriptFile → Project → ActivationPolicy → Rows → Rows
configured files p policy w = record w {
  project = some (with_policy policy p);
  script_files = files;
}

module _ (B : Backend) (u : Unicode) (sha256 : Bytes → Text) (parse_uuid : Text → Option Text)
    (limits : Limits) (error_values : List ContentError → Value) (failure : Value)
    (choices : List Text) where
  abbrev with_rows : World B → Rows → World B
  with_rows w rows = record w { rows = rows }

  pub data Reach : World B → Type 0 where
    created :
        (key : Text) (policy : ActivationPolicy) (s : B.State)
        → Reach (record { rows = new_project key policy; store = s })
    staged :
        (files : Files) (once : Bool) (w : World B)
        → Reach w
        → Reach (stage_revision B u sha256 parse_uuid limits error_values failure files once w).1
    refreshed :
        (pk : ℕ) (w : World B)
        → Reach w
        → Reach (refresh_revision_script_files B u sha256 parse_uuid pk w).1
    claimed :
        (pk job now : ℕ) (w : World B) → Reach w → Reach (with_rows w (claim pk job now w.rows).1)
    finalized :
        (pk job : ℕ) (verdict : Verdict) (errors scripts : Value) (w : World B)
        → Reach w
        → Reach (with_rows w (finalize pk job verdict errors scripts w.rows).1)
    reverted :
        (pk job : ℕ) (reason : Text) (w : World B)
        → Reach w
        → Reach (with_rows w (revert_to_materialized pk job reason w.rows))
    activated :
        (given : Revision) (automatic repair : Bool) (now : ℕ) (w : World B)
        → Reach w
        → Reach (activate_revision choices B u sha256 parse_uuid given automatic repair now w).1
    deactivated :
        (pk : ℕ) (w : World B)
        → Reach w
        → Reach (with_rows w (deactivate_revision choices pk w.rows).1)
    edited :
        (files : List ScriptFile) (p : Project) (policy : ActivationPolicy) (w : World B)
        → w.rows.project ≡ some p
        → Reach w
        → Reach (with_rows w (configured files p policy w.rows))
    content_changed : (s : B.State) (w : World B) → Reach w → Reach (record w { store = s })

  new_project-IsConsistent :
      (key : Text) (policy : ActivationPolicy) → IsConsistent (new_project key policy)
  new_project-IsConsistent key policy = record {
    agrees = tt;
    present = refl;
    distinct = tt;
    below = tt;
  }

  edited-IsConsistent :
      (files : List ScriptFile) (p : Project) (policy : ActivationPolicy) (w : Rows)
      → w.project ≡ some p
      → IsConsistent w
      → IsConsistent (configured files p policy w)
  edited-IsConsistent files p policy w e h = record {
    agrees = rw e at h.agrees;
    present = rw e at h.present;
    distinct = h.distinct;
    below = h.below;
  }

  -- In every reachable state the rows are consistent: a revision is ACTIVE exactly if the project
  -- points at it, the pointer names a row, keys are distinct and below the next one.
  pub Reach-IsConsistent : (w : World B) → Reach w → IsConsistent w.rows
  Reach-IsConsistent _ (created key policy s) = new_project-IsConsistent key policy
  Reach-IsConsistent _ (staged files once w r) =
      stage-IsConsistent B u sha256 parse_uuid limits error_values failure files once w
        (Reach-IsConsistent w r)
  Reach-IsConsistent _ (refreshed pk w r) =
      refresh-IsConsistent B u sha256 parse_uuid pk w (Reach-IsConsistent w r)
  Reach-IsConsistent _ (claimed pk job now w r) =
      claim-IsConsistent pk job now w.rows (Reach-IsConsistent w r)
  Reach-IsConsistent _ (finalized pk job verdict errors scripts w r) =
      finalize-IsConsistent pk job verdict errors scripts w.rows (Reach-IsConsistent w r)
  Reach-IsConsistent _ (reverted pk job reason w r) =
      revert-IsConsistent pk job reason w.rows (Reach-IsConsistent w r)
  Reach-IsConsistent _ (activated given automatic repair now w r) =
      activate-IsConsistent choices B u sha256 parse_uuid given automatic repair now w
        (Reach-IsConsistent w r)
  Reach-IsConsistent _ (deactivated pk w r) =
      deactivate-IsConsistent choices pk w.rows (Reach-IsConsistent w r)
  Reach-IsConsistent _ (edited files p policy w e r) =
      edited-IsConsistent files p policy w.rows e (Reach-IsConsistent w r)
  Reach-IsConsistent _ (content_changed s w r) = Reach-IsConsistent w r
