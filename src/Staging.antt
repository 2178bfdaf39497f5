-- ===== src/Staging.antt =====
-- netbox_scripts/storage/service.py: staging a source tree, and refreshing a revision's Script Files.
-- Each function runs under the project lock, so the rows that it reads are the rows it writes.
pub mod Consistent
use netbox_scripts.Base.{
  ℕ, zero, suc, ◌+◌, Bool, true, false, not, ◌&&◌, ◌||◌, List, [], ◌∷◌, ◌++◌, Option, none, some,
  map, if◌then◌else◌, ◌==◌, nat_eq, text_eq, contains, first_where, any_of, length, is_empty,
  keep_if, Result, ok, err, ◌>>=◌, ◌>>◌, refuse,
}
use netbox_scripts.Text.{Text}
use netbox_scripts.Unicode.{Unicode}
use netbox_scripts.Json.{Value, arr, null, items}
use netbox_scripts.Corrupt.{Reason, file_count_mismatch, total_size_mismatch}
use netbox_scripts.Manifest.{
  Bytes, Limits, Entry, Files, ContentError, manifest_value, build_manifest, compute_digest,
  entry_value,
}
use netbox_scripts.Manifest.Validate.{validate_manifest}
use netbox_scripts.ScriptFiles.{ScriptFile, build_script_file_snapshot}
use netbox_scripts.Backend.{Backend}
use netbox_scripts.Store.{
  StoreError, corrupt, lift_corrupt, decode_manifest, write_revision, verify_revision_tree,
}
use netbox_scripts.Lifecycle.{
  Status, staging, materialized, storage_failed, invalid, active, is_active, is_staging, is_stored,
  is_retryable, Revision, Project, Rows, find_revision, update_where, with_pk, set_revisions,
  set_project, set_status, points_at,
}

-- What the storage services raise. A `TypeError` for a source that is not bytes has no counterpart.
pub data ServiceError : Type 0 where
  activation_error project_vanished revision_vanished value_error : ServiceError
  improperly_configured : ServiceError
  store_error : StoreError → ServiceError

abbrev pub lift_store {ℓ} : {A : Type ℓ} → Result StoreError A → Result ServiceError A
lift_store (ok a) = ok a
lift_store (err e) = err (store_error e)

abbrev sizes : List Entry → ℕ
sizes [] = 0
sizes (e ∷ es) = e.size + sizes es

-- The stored error records, as the JSON that a row keeps.
abbrev no_errors : Value
no_errors = arr (items [])

-- A digest that is neither null nor empty.
abbrev pub truthy : Option Text → Option Text
truthy (some (c ∷ s)) = some (c ∷ s)
truthy _ = none

abbrev pub has_digest : Option Text → Bool
has_digest digest = elim (truthy digest) [ none ↦ false | some d ↦ true ]

abbrev same_key : Text → Text → Revision → Bool
same_key digest script_file_digest r = elim r.digest [
  | none ↦ false
  | some d ↦ d == digest && r.script_file_digest == script_file_digest
]

abbrev project_of : Rows → Result ServiceError Project
project_of w = elim w.project [ none ↦ err project_vanished | some p ↦ ok p ]

-- A new row takes the next primary key.
unfoldable pub add_revision : Revision → Rows → Rows
add_revision r w = record w {
  revisions = w.revisions ++ (record r { pk = w.next_revision } ∷ []);
  next_revision = w.next_revision + 1;
}

-- `get_or_create` on the identity of a project's revision.
unfoldable pub get_or_create : Text → Text → Revision → Rows → Revision × Bool × Rows
unfolding add_revision
get_or_create digest script_file_digest defaults w =
    elim (first_where (same_key digest script_file_digest) w.revisions) [
      | some r ↦ (r, false, w)
      | none ↦ (record defaults { pk = w.next_revision }, true, add_revision defaults w)
    ]

-- `_accept_source`
unfoldable pub accept_source : Revision → Bool → Rows → Rows
accept_source r activate_once w =
    if has_digest r.digest && not (is_retryable r.status)
    then elim w.project [
      | none ↦ w
      | some p ↦
          let pending =
            activate_once || (points_at p.source_revision r.pk && p.source_activation_pending) in
          set_project w (record p {
            source_revision = some r.pk;
            source_activation_pending = pending && not (is_active r.status);
          })
    ]
    else w

-- The conditional updates of the write window.
unfoldable pub open_window : ℕ → Rows → Rows
open_window pk w =
    set_revisions w
      (update_where (with_pk pk (λ r. is_retryable r.status)) (set_status staging) w.revisions)

unfoldable pub settle_failed : Value → ℕ → Rows → Rows
settle_failed errors pk w = set_revisions w (
    update_where (with_pk pk (λ r. is_staging r.status))
      (λ r. record r { status = storage_failed; validation_errors = errors }) w.revisions)

unfoldable pub settle_materialized : (Status → Bool) → ℕ → Rows → Rows
settle_materialized from pk w = set_revisions w (
    update_where (with_pk pk (λ r. from r.status))
      (λ r. record r { status = materialized; validation_errors = no_errors }) w.revisions)

-- The row that a staging call creates, less its key.
abbrev new_revision : Option Text → Status → Value → List Entry → List Value → Text → Revision
new_revision digest status errors entries snapshot script_file_digest = record {
  pk = 0;
  digest = digest;
  status = status;
  manifest = manifest_value entries;
  file_count = length entries;
  total_size = sizes entries;
  validation_errors = errors;
  discovered_scripts = no_errors;
  script_file_snapshot = arr (items snapshot);
  script_file_digest = script_file_digest;
  validation_job = none;
  validation_started = none;
  last_validation_failure = [];
  activated = none;
}

-- The candidate that a refresh creates, less its key: the source's content with no verdict.
abbrev pub refreshed_row : Revision → List Value → Text → Revision
refreshed_row source snapshot script_file_digest = record source {
  status = materialized;
  validation_errors = no_errors;
  discovered_scripts = no_errors;
  script_file_snapshot = arr (items snapshot);
  script_file_digest = script_file_digest;
  validation_job = none;
  validation_started = none;
  last_validation_failure = [];
  activated = none;
}

-- Rows and stored content together.
pub record World (B : Backend) : Type 0 where
  pub rows : Rows
  pub store : B.State

module _ (B : Backend) (u : Unicode) (sha256 : Bytes → Text) (parse_uuid : Text → Option Text) where
  abbrev pub Service : Type 0 → Type 0
  Service A = Result ServiceError A × World B

  -- `_validated_manifest`
  unfoldable pub validated_manifest : Revision → Result StoreError Value
  validated_manifest r = do
    lift_corrupt (validate_manifest u sha256 r.manifest r.digest)
    let entries = decode_manifest r.manifest
    let count_reasons =
        if not (r.file_count == length entries) then file_count_mismatch ∷ [] else []
    let size_reasons = if not (r.total_size == sizes entries) then total_size_mismatch ∷ [] else []
    let reasons = count_reasons ++ size_reasons
    if is_empty reasons then ok r.manifest else err (corrupt reasons)

  abbrev digest_text : Option Text → Text
  digest_text none = []
  digest_text (some d) = d

  -- Verification of a revision's stored tree, `_validated_manifest` first.
  unfoldable pub verify_stored : B.State → Text → Revision → Result StoreError Text
  unfolding validated_manifest
  verify_stored s storage_key r = do
    manifest ← validated_manifest r
    verify_revision_tree B sha256 u parse_uuid s storage_key (digest_text r.digest) manifest

  -- The row after `refresh_from_db`.
  abbrev refreshed : Revision → Bool → World B → Service (Revision × Bool)
  refreshed r created w = elim (find_revision r.pk w.rows.revisions) [
    | none ↦ (err revision_vanished, w)
    | some r' ↦ (ok (r', created), w)
  ]

  abbrev write_attempt : B.State → Text → Files → Revision → Result StoreError Text × B.State
  write_attempt s storage_key files r = elim (validated_manifest r) [
    | err e ↦ (err e, s)
    | ok manifest ↦
        write_revision B sha256 u parse_uuid s storage_key (digest_text r.digest) files manifest
  ]

  -- The write window of `_stage_revision`: any storage failure is recorded on the row and raised.
  unfoldable pub drive_write :
      Value → Text → Files → Revision → Bool → World B → Service (Revision × Bool)
  drive_write failure storage_key files r created w =
      let (result, store') = write_attempt w.store storage_key files r in
      elim result [
        | ok prefix ↦
            refreshed r created
              (record { rows = settle_materialized is_staging r.pk w.rows; store = store' })
        | err e ↦ (
          err (store_error e),
          record { rows = settle_failed failure r.pk w.rows; store = store' },
        )
      ]

  -- What is done with the row that holds the staged identity.
  unfoldable pub drive :
      Value → Text → Files → Revision → Bool → World B → Service (Revision × Bool)
  unfolding verify_stored drive_write open_window
  drive failure storage_key files r created w =
      if is_stored r.status
      then elim (verify_stored w.store storage_key r) [
        | ok prefix ↦ (ok (r, created), w)
        | err e ↦ (err (store_error e), w)
      ]
      else if not (is_retryable r.status)
      then (ok (r, created), w)
      else drive_write failure storage_key files r created
          (record w { rows = open_window r.pk w.rows })

  abbrev accepted : Bool → Service (Revision × Bool) → Service (Revision × Bool)
  accepted activate_once (ok (r, created), w) =
      (ok (r, created), record w { rows = accept_source r activate_once w.rows })
  accepted activate_once (err e, w) = (err e, w)

  -- `_stage_revision`. The texts of the two kinds of error record are arguments.
  module _ (limits : Limits) (error_values : List ContentError → Value) (failure : Value) where
    unfoldable pub stage_inner : Files → World B → Service (Revision × Bool)
    unfolding get_or_create drive add_revision
    stage_inner files w =
        let (entries, errors) = build_manifest u sha256 files limits in
        let (snapshot, script_file_digest) =
          build_script_file_snapshot sha256 w.rows.script_files in
        if not (is_empty errors)
        then (let r =
              new_revision none invalid (error_values errors) entries snapshot script_file_digest in
            (
              ok (record r { pk = w.rows.next_revision }, true),
              record w { rows = add_revision r w.rows },
            ))
        else elim w.rows.project [
          | none ↦ (err project_vanished, w)
          | some p ↦
              let digest = compute_digest sha256 (map entry_value entries) in
              let r =
                new_revision (some digest) staging no_errors entries snapshot script_file_digest in
              let (row, created, rows') = get_or_create digest script_file_digest r w.rows in
              drive failure p.storage_key files row created (record w { rows = rows' })
        ]

    -- `stage_revision` on a database and a branching route that are safe.
    unfoldable pub stage_revision : Files → Bool → World B → Service (Revision × Bool)
    unfolding stage_inner accept_source
    stage_revision files activate_once w = elim w.rows.project [
      | none ↦ (err project_vanished, w)
      | some p ↦ accepted activate_once (stage_inner files w)
    ]

  abbrev settle_candidate : Revision → Bool → World B → Service (Revision × Bool)
  settle_candidate r created w =
      if is_retryable r.status
      then refreshed r created (record w { rows = settle_materialized is_retryable r.pk w.rows })
      else (ok (r, created), w)

  -- `_refresh_revision_script_files` for the revision with key `pk`.
  unfoldable pub refresh_inner : ℕ → World B → Service (Revision × Bool)
  unfolding get_or_create verify_stored settle_materialized
  refresh_inner pk w = elim (find_revision pk w.rows.revisions) [
    | none ↦ (err revision_vanished, w)
    | some source ↦ elim (truthy source.digest) [
      | none ↦ (err value_error, w)
      | some digest ↦ elim w.rows.project [
        | none ↦ (err project_vanished, w)
        | some p ↦ elim (verify_stored w.store p.storage_key source) [
          | err e ↦ (err (store_error e), w)
          | ok prefix ↦
              let (snapshot, script_file_digest) =
                build_script_file_snapshot sha256 w.rows.script_files in
              let fresh = refreshed_row source snapshot script_file_digest in
              let (row, created, rows') = get_or_create digest script_file_digest fresh w.rows in
              settle_candidate row created (record w { rows = rows' })
        ]
      ]
    ]
  ]

  unfoldable pub refresh_revision_script_files : ℕ → World B → Service (Revision × Bool)
  unfolding refresh_inner accept_source
  refresh_revision_script_files pk w = elim w.rows.project [
    | none ↦ (err project_vanished, w)
    | some p ↦ accepted false (refresh_inner pk w)
  ]
