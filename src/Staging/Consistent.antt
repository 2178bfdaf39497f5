-- ===== src/Staging/Consistent.antt =====
-- Staging and refreshing (netbox_scripts/storage/service.py) never touch the active pointer.
use netbox_scripts.Base.{
  ℕ, ◌≡◌, refl, sym, ap, Bool, true, false, not, ◌&&◌, List, Option, none, some, arith, is_empty,
  first_where, map, Bool-cases, Option-cases, Result-cases, inl, inr, ok, err,
}
use netbox_scripts.Text.{Text}
use netbox_scripts.Unicode.{Unicode}
use netbox_scripts.Json.{Value}
use netbox_scripts.Manifest.{
  Bytes, Limits, Files, ContentError, build_manifest, compute_digest, entry_value,
}
use netbox_scripts.ScriptFiles.{build_script_file_snapshot}
use netbox_scripts.Backend.{Backend}
use netbox_scripts.Lifecycle.{
  Status, invalid, staging, is_active, is_staging, is_stored, is_retryable, Revision, Rows,
  find_revision,
}
use netbox_scripts.Lifecycle.Consistent.{
  IsConsistent, same-IsConsistent, quiet-IsConsistent, add-IsConsistent, active_of,
}
use netbox_scripts.Staging.{
  World, Service, add_revision, get_or_create, same_key, accept_source, open_window, settle_failed,
  settle_materialized, refreshed, write_attempt, drive_write, drive, accepted, stage_inner,
  stage_revision, settle_candidate, refresh_inner, refresh_revision_script_files, verify_stored,
  truthy, has_digest, new_revision, refreshed_row, no_errors,
}

accept_source-IsConsistent :
    (r : Revision) (once : Bool) (w : Rows) → IsConsistent w → IsConsistent (accept_source r once w)
unfolding accept_source
accept_source-IsConsistent r once w h =
    elim (Bool-cases (has_digest r.digest && not (is_retryable r.status))) [
      | inr off ↦ rw (off, accept_source) h
      | inl on ↦ elim (Option-cases w.project) [
        | inl gone ↦ rw (on, gone, accept_source) h
        | inr (p, e) ↦ rw (on, e, accept_source) (same-IsConsistent w _ (ap active_of (sym e)) h)
      ]
    ]

add_revision-IsConsistent :
    (r : Revision) (w : Rows)
    → is_active r.status ≡ false
    → IsConsistent w
    → IsConsistent (add_revision r w)
unfolding add_revision
add_revision-IsConsistent r w quiet h =
    add-IsConsistent w (record r { pk = w.next_revision }) refl quiet h

get_or_create-IsConsistent :
    (digest script_file_digest : Text) (r : Revision) (w : Rows)
    → is_active r.status ≡ false
    → IsConsistent w
    → IsConsistent (get_or_create digest script_file_digest r w).2
unfolding get_or_create
get_or_create-IsConsistent digest script_file_digest r w quiet h =
    elim (Option-cases (first_where (same_key digest script_file_digest) w.revisions)) [
      | inr (old, found) ↦ rw (found, get_or_create) h
      | inl fresh ↦ rw (fresh, get_or_create) (add_revision-IsConsistent r w quiet h)
    ]

open_window-IsConsistent : (pk : ℕ) (w : Rows) → IsConsistent w → IsConsistent (open_window pk w)
unfolding open_window
open_window-IsConsistent pk w h =
    quiet-IsConsistent _ _ w
      (record { same_pk = λ r. refl; before = λ r on. ground arith; after = λ r on. refl }) h

settle_failed-IsConsistent :
    (errors : Value) (pk : ℕ) (w : Rows) → IsConsistent w → IsConsistent (settle_failed errors pk w)
unfolding settle_failed
settle_failed-IsConsistent errors pk w h =
    quiet-IsConsistent _ _ w
      (record { same_pk = λ r. refl; before = λ r on. ground arith; after = λ r on. refl }) h

settle_materialized-IsConsistent :
    (from : Status → Bool) (pk : ℕ) (w : Rows)
    → ((s : Status) → from s ≡ true → is_active s ≡ false)
    → IsConsistent w
    → IsConsistent (settle_materialized from pk w)
unfolding settle_materialized
settle_materialized-IsConsistent from pk w quiet h =
    quiet-IsConsistent _ _ w
      (record {
        same_pk = λ r. refl;
        before = λ r on. ground (arith, quiet r.status);
        after = λ r on. refl;
      })
      h

staging_quiet : (s : Status) → is_staging s ≡ true → is_active s ≡ false
staging_quiet s h = ground arith

retryable_quiet : (s : Status) → is_retryable s ≡ true → is_active s ≡ false
retryable_quiet s h = ground arith

module _ (B : Backend) (u : Unicode) (sha256 : Bytes → Text) (parse_uuid : Text → Option Text) where
  refreshed-IsConsistent :
      (r : Revision) (created : Bool) (w : World B)
      → IsConsistent w.rows
      → IsConsistent (refreshed B u sha256 parse_uuid r created w).1.rows
  refreshed-IsConsistent r created w h = elim (Option-cases (find_revision r.pk w.rows.revisions)) [
    | inl gone ↦ rw (gone, refreshed) h
    | inr (r', found) ↦ rw (found, refreshed) h
  ]

  drive_write-IsConsistent :
      (failure : Value) (key : Text) (files : Files) (r : Revision) (created : Bool) (w : World B)
      → IsConsistent w.rows
      → IsConsistent (drive_write B u sha256 parse_uuid failure key files r created w).1.rows
  unfolding drive_write
  drive_write-IsConsistent failure key files r created w h =
      elim (Result-cases (write_attempt B u sha256 parse_uuid w.store key files r).0) [
        | inl (prefix, done) ↦
            rw (done, drive_write)
              (refreshed-IsConsistent r created _
                (settle_materialized-IsConsistent is_staging r.pk w.rows staging_quiet h))
        | inr (e, failed) ↦
            rw (failed, drive_write) (settle_failed-IsConsistent failure r.pk w.rows h)
      ]

  drive-IsConsistent :
      (failure : Value) (key : Text) (files : Files) (r : Revision) (created : Bool) (w : World B)
      → IsConsistent w.rows
      → IsConsistent (drive B u sha256 parse_uuid failure key files r created w).1.rows
  unfolding drive
  drive-IsConsistent failure key files r created w h = elim (Bool-cases (is_stored r.status)) [
    | inl stored ↦ elim (Result-cases (verify_stored B u sha256 parse_uuid w.store key r)) [
      | inl (prefix, fine) ↦ rw (stored, fine, drive) h
      | inr (e, bad) ↦ rw (stored, bad, drive) h
    ]
    | inr unstored ↦ elim (Bool-cases (is_retryable r.status)) [
      | inr settled ↦ rw (unstored, settled, drive) h
      | inl retry ↦
          rw (unstored, retry, drive)
            (drive_write-IsConsistent failure key files r created _
              (open_window-IsConsistent r.pk w.rows h))
    ]
  ]

  accepted-IsConsistent :
      (once : Bool) (t : Service B u sha256 parse_uuid (Revision × Bool))
      → IsConsistent t.1.rows
      → IsConsistent (accepted B u sha256 parse_uuid once t).1.rows
  accepted-IsConsistent once (ok (r, created), w) h = accept_source-IsConsistent r once w.rows h
  accepted-IsConsistent once (err e, w) h = h

  module _ (limits : Limits) (error_values : List ContentError → Value) (failure : Value) where
    stage_inner-IsConsistent :
        (files : Files) (w : World B)
        → IsConsistent w.rows
        → IsConsistent
            (stage_inner B u sha256 parse_uuid limits error_values failure files w).1.rows
    unfolding stage_inner
    stage_inner-IsConsistent files w h =
        elim (Bool-cases (is_empty (build_manifest u sha256 files limits).1)) [
          | inr bad ↦
              let (entries, errors) = build_manifest u sha256 files limits in
              let (snapshot, digest) = build_script_file_snapshot sha256 w.rows.script_files in
              rw (bad, stage_inner)
                (add_revision-IsConsistent
                  (new_revision none invalid (error_values errors) entries snapshot digest) w.rows
                  refl h)
          | inl good ↦ elim (Option-cases w.rows.project) [
            | inl gone ↦ rw (good, gone, stage_inner) h
            | inr (p, e) ↦
                let entries = (build_manifest u sha256 files limits).0 in
                let (snapshot, digest) = build_script_file_snapshot sha256 w.rows.script_files in
                let content = compute_digest sha256 (map entry_value entries) in
                let row = new_revision (some content) staging no_errors entries snapshot digest in
                rw (good, e, stage_inner)
                  (drive-IsConsistent failure p.storage_key files _ _ _
                    (get_or_create-IsConsistent content digest row w.rows refl h))
          ]
        ]

    -- Staging leaves the rows consistent, whether it stores, reuses, rejects or raises.
    pub stage-IsConsistent :
        (files : Files) (once : Bool) (w : World B)
        → IsConsistent w.rows
        → IsConsistent
            (stage_revision B u sha256 parse_uuid limits error_values failure files once w).1.rows
    unfolding stage_revision
    stage-IsConsistent files once w h = elim (Option-cases w.rows.project) [
      | inl gone ↦ rw (gone, stage_revision) h
      | inr (p, e) ↦
          rw (e, stage_revision) (accepted-IsConsistent once _ (stage_inner-IsConsistent files w h))
    ]

  settle_candidate-IsConsistent :
      (r : Revision) (created : Bool) (w : World B)
      → IsConsistent w.rows
      → IsConsistent (settle_candidate B u sha256 parse_uuid r created w).1.rows
  settle_candidate-IsConsistent r created w h = elim (Bool-cases (is_retryable r.status)) [
    | inl retry ↦
        rw (retry, settle_candidate)
          (refreshed-IsConsistent r created _
            (settle_materialized-IsConsistent is_retryable r.pk w.rows retryable_quiet h))
    | inr settled ↦ rw (settled, settle_candidate) h
  ]

  refresh_inner-IsConsistent :
      (pk : ℕ) (w : World B)
      → IsConsistent w.rows
      → IsConsistent (refresh_inner B u sha256 parse_uuid pk w).1.rows
  unfolding refresh_inner
  refresh_inner-IsConsistent pk w h = elim (Option-cases (find_revision pk w.rows.revisions)) [
    | inl lost ↦ rw (lost, refresh_inner) h
    | inr (source, found) ↦ elim (Option-cases (truthy source.digest)) [
      | inl bare ↦ rw (found, bare, refresh_inner) h
      | inr (digest, some_digest) ↦ elim (Option-cases w.rows.project) [
        | inl gone ↦ rw (found, some_digest, gone, refresh_inner) h
        | inr (p, e) ↦
            elim (Result-cases (verify_stored B u sha256 parse_uuid w.store p.storage_key source)) [
              | inr (x, bad) ↦ rw (found, some_digest, e, bad, refresh_inner) h
              | inl (prefix, fine) ↦
                  let (snapshot, files_digest) =
                    build_script_file_snapshot sha256 w.rows.script_files in
                  let fresh = refreshed_row source snapshot files_digest in
                  rw (found, some_digest, e, fine, refresh_inner)
                    (settle_candidate-IsConsistent _ _ _
                      (get_or_create-IsConsistent digest files_digest fresh w.rows refl h))
            ]
      ]
    ]
  ]

  -- Refreshing a revision's Script Files leaves the rows consistent, on every branch.
  pub refresh-IsConsistent :
      (pk : ℕ) (w : World B)
      → IsConsistent w.rows
      → IsConsistent (refresh_revision_script_files B u sha256 parse_uuid pk w).1.rows
  unfolding refresh_revision_script_files
  refresh-IsConsistent pk w h = elim (Option-cases w.rows.project) [
    | inl gone ↦ rw (gone, refresh_revision_script_files) h
    | inr (p, e) ↦
        rw (e, refresh_revision_script_files)
          (accepted-IsConsistent false _ (refresh_inner-IsConsistent pk w h))
  ]
