-- ===== src/Validation.antt =====
-- netbox_scripts/validation.py: the lease on a revision, and the fenced ends of a validation.
pub mod Lease
pub mod Judging
pub mod Results
pub mod Worker
use netbox_scripts.Base.{
  ℕ, ◌+◌, ◌*◌, Bool, true, false, not, ◌&&◌, ◌||◌, List, [], ◌∷◌, Option, none, some, ltb,
  if◌then◌else◌, ◌==◌, nat_eq, any_of, take, Result, ok, err,
}
use netbox_scripts.Text.{Text}
use netbox_scripts.Json.{Value, arr, nil}
use netbox_scripts.Lifecycle.{
  Status, materialized, validating, valid, invalid, is_materialized, is_validating, Revision, Rows,
  update_where, with_pk, set_revisions, points_at,
}

abbrev pub validation_lease_seconds : ℕ
validation_lease_seconds = 30 * 60

abbrev pub max_validation_failure_length : ℕ
max_validation_failure_length = 500

-- `validation_started < now - lease`; a null start compares as false.
abbrev lease_expired : ℕ → Option ℕ → Bool
lease_expired now none = false
lease_expired now (some started) = ltb (started + validation_lease_seconds) now

abbrev pub claimable : ℕ → Revision → Bool
claimable now r =
    is_materialized r.status || (is_validating r.status && lease_expired now r.validation_started)

abbrev claimed_by : ℕ → ℕ → Revision → Revision
claimed_by job now r = record r {
  status = validating;
  validation_job = some job;
  validation_started = some now;
  last_validation_failure = [];
}

-- The claim: whether a row was updated, and the rows.
unfoldable pub claim : ℕ → ℕ → ℕ → Rows → Bool × Rows
claim pk job now w =
    let test = with_pk pk (claimable now) in
    (any_of test w.revisions, set_revisions w (update_where test (claimed_by job now) w.revisions))

-- The fence of every final transition.
abbrev pub owned : ℕ → Revision → Bool
owned job r = is_validating r.status && points_at r.validation_job job

-- A verdict.
pub data Verdict : Type 0 where
  accepted rejected : Verdict

abbrev pub verdict_status : Verdict → Status
verdict_status accepted = valid
verdict_status rejected = invalid

-- `_finalize`
unfoldable pub finalize : ℕ → ℕ → Verdict → Value → Value → Rows → Bool × Rows
finalize pk job verdict errors scripts w =
    let test = with_pk pk (owned job) in
    (
      any_of test w.revisions,
      set_revisions w (
          update_where test
            (λ r. record r {
              status = verdict_status verdict;
              validation_errors = errors;
              discovered_scripts = scripts;
            })
            w.revisions),
    )

-- `_revert_to_materialized`
unfoldable pub revert_to_materialized : ℕ → ℕ → Text → Rows → Rows
revert_to_materialized pk job reason w = set_revisions w (
    update_where (with_pk pk (owned job))
      (λ r. record r {
        status = materialized;
        validation_job = none;
        validation_started = none;
        last_validation_failure = take max_validation_failure_length reason;
      })
      w.revisions)
