-- ===== src/Migration/Cutover/Schedules.antt =====
-- The outcome that the cutover records for one captured job (_cancel_schedules and _fail_closed of
-- netbox_scripts/migration/cutover.py), and which outcomes the pass over schedules replays
-- (recreate_schedules of netbox_scripts/migration/references.py).
use netbox_scripts.Base.{
  ◌≡◌, refl, Bool, true, false, not, ◌&&◌, Option, none, some, if◌then◌else◌, arith, if-cases,
}

-- The 'cancellation' of an entry, or none.
pub data Mark : Type 0 where
  unmarked cancelling cancelled executed running vanished : Mark

-- A job's status: one that `cancellable_statuses` has, running, failed, or another.
pub data JobStatus : Type 0 where
  waiting in_progress failed other : JobStatus

pub record Job : Type 0 where
  pub status : JobStatus
  pub started : Bool

abbrev pub is_cancellable : JobStatus → Bool
is_cancellable waiting = true
is_cancellable _ = false

-- `_fail_closed`: the conditional update of the row as it is at that time, if it is there.
unfoldable pub fail_closed : Option Job → Bool × Option Job
fail_closed none = (false, none)
fail_closed (some job) =
    if is_cancellable job.status && not job.started
    then (true, some (record job { status = failed }))
    else (false, some job)

-- What is left to a worker.
abbrev taken : JobStatus → Mark
taken in_progress = running
taken _ = executed

abbrev missing : Mark → Mark
missing executed = executed
missing running = executed
missing _ = vanished

abbrev is_cancelled : Mark → Bool
is_cancelled cancelled = true
is_cancelled _ = false

abbrev is_cancelling : Mark → Bool
is_cancelling cancelling = true
is_cancelling _ = false

-- What follows the update, by whether it held and the row as it is read again.
abbrev after_update : Bool → Option Job → Mark
after_update true _ = cancelled
after_update false none = vanished
after_update false (some job) = taken job.status

-- One round of `_cancel_schedules`: the row as it is read first, as it is when the update runs, and as
-- it is read again when the update did not hold.
unfoldable pub cancel_one : Mark → Option Job → Option Job → Option Job → Mark
cancel_one mark none later again = if is_cancelled mark then cancelled else missing mark
cancel_one mark (some job) later again =
    if is_cancelled mark
    then cancelled
    else if is_cancelling mark && not (is_cancellable job.status)
    then (if job.started then executed else cancelled)
    else if is_cancellable job.status
    then after_update ((fail_closed later).0) again
    else taken job.status

abbrev is_failed : JobStatus → Bool
is_failed failed = true
is_failed _ = false

-- The row is gone, or failed and never started.
abbrev is_left_failed : Option Job → Bool
is_left_failed none = true
is_left_failed (some job) = is_failed job.status && not job.started

-- Whether `recreate_schedules` goes on to replay an entry, by its mark and the row as it is by then.
unfoldable pub replays : Mark → Option Job → Bool
replays executed job = false
replays running job = false
replays cancelled job = is_left_failed job
replays _ job = true

data Settled : Mark → Type 0 where
  at_cancelled : Settled cancelled
  at_executed : Settled executed
  at_running : Settled running

taken-Settled : (status : JobStatus) → Settled (taken status)
taken-Settled waiting = at_executed
taken-Settled in_progress = at_running
taken-Settled failed = at_executed
taken-Settled other = at_executed

after_update-Settled : (held : Bool) (again : Job) → Settled (after_update held (some again))
after_update-Settled true again = at_cancelled
after_update-Settled false again = taken-Settled again.status

-- The mark of a job whose row is there whenever it is read.
cancel_one-Settled :
    (mark : Mark) (job : Job) (later : Option Job) (again : Job)
    → Settled (cancel_one mark (some job) later (some again))
unfolding cancel_one
cancel_one-Settled mark job later again =
    if-cases Settled (is_cancelled mark) _ _ (λ _. at_cancelled)
      λ _.
        if-cases Settled (is_cancelling mark && not (is_cancellable job.status)) _ _
          (λ _. if-cases Settled job.started _ _ (λ _. at_executed) (λ _. at_cancelled))
          λ _.
            if-cases Settled (is_cancellable job.status) _ _
              (λ _. after_update-Settled ((fail_closed later).0) again)
              (λ _. taken-Settled job.status)

failed_job : (status : JobStatus) → is_failed status ≡ true → status ≡ failed
failed_job failed e = refl
failed_job waiting e = cc
failed_job in_progress e = cc
failed_job other e = cc

left_failed :
    (job : Job) → is_left_failed (some job) ≡ true → (job.status ≡ failed) × (job.started ≡ false)
left_failed job e = (failed_job job.status (ground (arith, e)), ground (arith, e))

Settled-replays :
    {mark : Mark}
    → Settled mark
    → (job : Job) → replays mark (some job) ≡ true
    → (job.status ≡ failed) × (job.started ≡ false)
unfolding replays
Settled-replays at_cancelled job e = left_failed job e
Settled-replays at_executed job e = cc
Settled-replays at_running job e = cc

-- A captured job whose row is there whenever the cutover reads it, and still there when the schedules
-- are recreated, is replayed only if that row is failed and no worker ever started it, whatever the
-- mark that an earlier pass left and whatever happened to the row between those times.
pub replays-cancel_one :
    (mark : Mark) (job : Job) (later : Option Job) (again last : Job)
    → replays (cancel_one mark (some job) later (some again)) (some last) ≡ true
    → (last.status ≡ failed) × (last.started ≡ false)
replays-cancel_one mark job later again last =
    Settled-replays (cancel_one-Settled mark job later again) last
