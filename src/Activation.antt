-- ===== src/Activation.antt =====
-- netbox_scripts/activation.py, and `promote_revision` of netbox_scripts/storage/service.py.
pub mod Pointer
pub mod Consistent
pub mod Serves
use netbox_scripts.Base.{
  ℕ, ◌+◌, Bool, true, false, not, ◌&&◌, ◌||◌, List, [], ◌∷◌, Option, none, some, if◌then◌else◌,
  ◌==◌, nat_eq, text_eq, length, Result, ok, err, ◌>>=◌, ◌>>◌, refuse,
}
use netbox_scripts.Text.{Text}
use netbox_scripts.Unicode.{Unicode}
use netbox_scripts.Json.{Value, value_eq}
use netbox_scripts.Manifest.{Bytes}
use netbox_scripts.ScriptFiles.{build_script_file_snapshot, validate_script_file_snapshot}
use netbox_scripts.Introspection.{Published, validate_discovered_scripts}
use netbox_scripts.Backend.{Backend}
use netbox_scripts.Store.{lift_corrupt}
use netbox_scripts.Lifecycle.{
  Status, active, retired, is_active, is_activatable, is_automatic, Revision, Project, Rows,
  find_revision, update_where, with_pk, set_revisions, set_project, set_status, points_at,
}
use netbox_scripts.Staging.{
  ServiceError, activation_error, project_vanished, revision_vanished, lift_store, has_digest,
  World, verify_stored,
}
use netbox_scripts.Scripts.{SyncResult, synchronize}

abbrev same_digest : Option Text → Option Text → Bool
same_digest none none = true
same_digest (some a) (some b) = a == b
same_digest _ _ = false

-- `_require_activatable`
unfoldable pub require_activatable : Revision → Bool → Result ServiceError (Unit {0})
require_activatable r already_active = do
  refuse (not already_active && not (is_activatable r.status)) activation_error
  refuse (not (has_digest r.digest)) activation_error

abbrev pub serves : Project → Revision → Bool
serves p r = is_active r.status && points_at p.active_revision r.pk

-- Whether the row differs from the snapshot that was verified.
abbrev changed_since : Revision → Revision → Bool
changed_since snapshot locked =
    not (same_digest locked.digest snapshot.digest)
    || (not (locked.manifest == snapshot.manifest)
        || (not (locked.script_file_digest == snapshot.script_file_digest)
            || (not (locked.script_file_snapshot == snapshot.script_file_snapshot)
                || not (locked.discovered_scripts == snapshot.discovered_scripts))))

-- What a transaction returns: an error leaves the rows as they were.
abbrev pub Transaction : Type 0 → Type 0
Transaction A = Result ServiceError A × Rows

abbrev rolled_back : {A : Type 0} → Rows → Transaction A → Transaction A
rolled_back w (ok a, w') = (ok a, w')
rolled_back w (err e, w') = (err e, w)

abbrev pub atomic : {A : Type 0} → (Rows → Transaction A) → Rows → Transaction A
atomic body w = rolled_back w (body w)

-- The pointer move at the end of `_promote`.
unfoldable pub clear_pending : Project → ℕ → Project
clear_pending p pk =
    if points_at p.source_revision pk && p.source_activation_pending
    then record p { source_activation_pending = false }
    else p

abbrev retire_previous : Option ℕ → List Revision → Result ServiceError (List Revision)
retire_previous none rs = ok rs
retire_previous (some previous) rs = elim (find_revision previous rs) [
  | none ↦ err revision_vanished
  | some r ↦ ok (update_where (with_pk previous (λ r. true)) (set_status retired) rs)
]

-- The saves that put the locked revision into service.
unfoldable pub move_pointer : ℕ → Project → ℕ → Rows → Result ServiceError Rows
move_pointer now p pk w = do
  rs ← retire_previous p.active_revision w.revisions
  ok (record w {
    project = some (record p { active_revision = some pk });
    revisions =
        update_where (with_pk pk (λ r. true))
          (λ r. record r { status = active; activated = some now }) rs;
  })

module _ (sha256 : Bytes → Text) where
  -- Whether an automatic request is still current and permitted.
  unfoldable pub automatic_current : Project → Revision → Rows → Bool
  automatic_current p locked w =
      points_at p.source_revision locked.pk
      && ((p.source_activation_pending || is_automatic p.activation_policy)
          && ((build_script_file_snapshot sha256 w.script_files).1 == locked.script_file_digest))

  module _ {R : Type 0} (on_promote : Project → Revision → Rows → Transaction R) where
    abbrev finish : ℕ → Project → Revision → Bool → R → Rows → Transaction (Option R)
    finish now p locked already result w =
        if already
        then (ok (some result), record w { project = some (clear_pending p locked.pk) })
        else elim (move_pointer now (clear_pending p locked.pk) locked.pk w) [
          | err e ↦ (err e, w)
          | ok w' ↦ (ok (some result), w')
        ]

    abbrev called : ℕ → Project → Revision → Bool → Transaction R → Transaction (Option R)
    called now p locked already (err e, w) = (err e, w)
    called now p locked already (ok result, w) = finish now p locked already result w

    abbrev checked : ℕ → Project → Revision → Rows → Transaction (Option R)
    checked now p locked w = elim (require_activatable locked (serves p locked)) [
      | err e ↦ (err e, w)
      | ok done ↦ called now p locked (serves p locked) (on_promote p locked w)
    ]

    -- The body of the transaction of `_promote`. `none` is an automatic request that has lapsed.
    unfoldable pub promote_body : Revision → Bool → ℕ → Rows → Transaction (Option R)
    unfolding automatic_current require_activatable move_pointer clear_pending
    promote_body snapshot automatic now w = elim w.project [
      | none ↦ (err project_vanished, w)
      | some p ↦ elim (find_revision snapshot.pk w.revisions) [
        | none ↦ (err revision_vanished, w)
        | some locked ↦
            if automatic && not (automatic_current p locked w)
            then (ok none, w)
            else if changed_since snapshot locked
            then (err activation_error, w)
            else checked now p locked w
      ]
    ]

    -- `_promote`
    unfoldable pub promote : Revision → Bool → ℕ → Rows → Transaction (Option R)
    unfolding promote_body
    promote snapshot automatic now = atomic (promote_body snapshot automatic now)

-- The callback of `activate_revision`, and the synchronization that it runs on the locked row.
module _ (notification_choices : List Text) where
  unfoldable pub validated_records : Revision → Result ServiceError (List Published)
  validated_records r =
      elim (validate_discovered_scripts notification_choices r.discovered_scripts) [
        | err e ↦ err activation_error
        | ok records ↦ ok records
      ]

  abbrev pub synchronized : Revision → List Published → Rows → Rows × SyncResult
  synchronized r records w =
      let (scripts, result) = synchronize w.next_script r.pk records w.scripts in
      (record w { scripts = scripts; next_script = w.next_script + length records }, result)

  unfoldable pub publish : Bool → Project → Revision → Rows → Transaction SyncResult
  unfolding validated_records
  publish repair p locked w =
      if repair && not (points_at p.active_revision locked.pk)
      then (err activation_error, w)
      else elim (validated_records locked) [
        | err e ↦ (err e, w)
        | ok records ↦ let (w', result) = synchronized locked records w in (ok result, w')
      ]

  -- `deactivate_revision` for the revision with key `pk`.
  unfoldable pub deactivate_body : ℕ → Rows → Transaction (Unit {0})
  deactivate_body pk w = elim w.project [
    | none ↦ (err project_vanished, w)
    | some p ↦ elim (find_revision pk w.revisions) [
      | none ↦ (err revision_vanished, w)
      | some locked ↦
          if not (points_at p.active_revision locked.pk)
          then (err activation_error, w)
          else (let w' = (synchronized locked [] w).0 in
              (
                ok tt,
                record w' {
                  project = some (record p { active_revision = none });
                  revisions =
                      update_where (with_pk pk (λ r. true)) (set_status retired) w'.revisions;
                },
              ))
    ]
  ]

  unfoldable pub deactivate_revision : ℕ → Rows → Transaction (Unit {0})
  unfolding deactivate_body
  deactivate_revision pk = atomic (deactivate_body pk)

  module _ (B : Backend) (u : Unicode) (sha256 : Bytes → Text)
      (parse_uuid : Text → Option Text) where
    -- The checks of `promote_revision` that come before its transaction.
    unfoldable pub verify_promotable : Revision → World B → Result ServiceError (Unit {0})
    verify_promotable snapshot w = elim w.rows.project [
      | none ↦ err project_vanished
      | some p ↦ do
        require_activatable snapshot (serves p snapshot)
        lift_store (
            lift_corrupt (
              validate_script_file_snapshot u sha256 snapshot.script_file_snapshot
                snapshot.script_file_digest))
        lift_store (verify_stored B u sha256 parse_uuid w.store p.storage_key snapshot)
        ok tt
    ]

    -- `activate_revision`: `given` is the caller's copy of the revision.
    unfoldable pub activate_revision :
        Revision → Bool → Bool → ℕ → World B → Result ServiceError (Option SyncResult) × World B
    unfolding verify_promotable promote publish
    activate_revision given automatic repair now w = elim (validated_records given) [
      | err e ↦ (err e, w)
      | ok records ↦ elim (find_revision given.pk w.rows.revisions) [
        | none ↦ (err revision_vanished, w)
        | some snapshot ↦ elim (verify_promotable snapshot w) [
          | err e ↦ (err e, w)
          | ok done ↦
              let (result, rows') = promote sha256 (publish repair) snapshot automatic now w.rows in
              (result, record w { rows = rows' })
        ]
      ]
    ]
