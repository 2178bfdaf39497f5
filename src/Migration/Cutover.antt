-- ===== src/Migration/Cutover.antt =====
-- The passes of a migration (netbox_scripts/migration/cutover.py, references.py, cleanup.py, and the
-- staging job of jobs.py) as moves of its run. What a pass finds and does in NetBox's own tables is
-- an argument.
pub mod Errors
pub mod Facts
pub mod Forward
pub mod Order
pub mod Schedules
use netbox_scripts.Base.{
  ℕ, Bool, true, false, not, ◌&&◌, ◌||◌, List, [], ◌∷◌, Option, none, some, if◌then◌else◌, ltb,
  ◌==◌, nat_eq, is_empty, Result, ok, err,
}
use netbox_scripts.Base.Dict.{Dict}
use netbox_scripts.Text.{Text}
use netbox_scripts.Json.{Value}
use netbox_scripts.Migration.Run.{
  State, legacy, staging, cutover, migrated, StepName, cutover_step, activate_step, cleanup_step,
  event_rules_step, permissions_step, history_step, schedules_step, Run, Refusal, cutover_refused,
  advance, record_journal, record_step, record_warnings, complete_step, step_done, is_recorded,
  set_journal, Service, done, refused, stopped,
}

abbrev pub advanced : Run → Result Refusal Run → Service
advanced run (ok run') = done run'
advanced run (err e) = (err e, run)

abbrev pub is_legacy : State → Bool
is_legacy legacy = true
is_legacy _ = false

abbrev pub is_staging : State → Bool
is_staging staging = true
is_staging _ = false

abbrev pub is_cutover : State → Bool
is_cutover cutover = true
is_cutover _ = false

-- The gates of the staging job on the run that is open, or on the one that it would start, and the
-- state that it opens before it stages; `blocking` says that the routing is unsafe or that the report
-- blocks. Each gate logs its reason and raises JobFailed.
unfoldable pub begin_staging : Bool → ℕ → Run → Service
begin_staging blocking now run =
    if not (is_legacy run.state || is_staging run.state)
    then stopped run
    else if is_recorded run.journal.mapping || blocking
    then stopped run
    else if is_legacy run.state
    then advanced run (advance staging now run)
    else done run

-- What `enter_cutover` finds, and what its capture and its closures give.
pub record Found : Type 0 where
  -- The schedules of the journal, marked with the runs that are still going on.
  pub running : Bool
  pub marked : Dict Text Value
  pub workers : ℕ
  pub worker_names : Dict Text Value
  pub blocked : Bool
  pub captured : Dict Text Value
  pub mapping : Value
  pub capture_warnings : List Text
  -- What `_close` records of the schedules and of synchronization, and its warnings.
  pub closing : Dict Text Value
  pub closing_warnings : List Text
  pub counts : Value
  -- The warning on jobs that are still waiting after the closures.
  pub unfinished : List Text

-- `_capture`: what is captured already is kept.
abbrev pub or_captured : Option Value → Value → Value
or_captured (some old) new = old
or_captured none new = new

unfoldable pub capture : Found → Run → Run
capture found run =
    let noted = record_journal found.captured run in
    record_warnings run.warnings found.capture_warnings (
      set_journal noted
        (record noted.journal { mapping = some (or_captured run.journal.mapping found.mapping) }))

-- What `_close` leaves on the run.
unfoldable pub close_notes : Found → Run → Run
close_notes found run =
    let noted = record_journal found.closing run in
    record_warnings noted.warnings found.closing_warnings noted

-- The end of `enter_cutover`, after the state is recorded.
unfoldable pub close : Found → ℕ → Run → Run
unfolding close_notes
close found now run =
    let warned = close_notes found run in
    if is_empty found.unfinished
    then complete_step cutover_step now found.counts [] warned
    else record_warnings warned.warnings found.unfinished warned

abbrev pub closed : Found → ℕ → Run → Result Refusal Run → Service
closed found now run (ok run') = done (close found now run')
closed found now run (err e) = (err e, run)

-- From the state on.
unfoldable pub seal : Found → ℕ → Run → Service
unfolding close
seal found now run =
    if is_staging run.state
    then closed found now run (advance cutover now run)
    else done (close found now run)

-- From the capture on.
unfoldable pub cross : Found → ℕ → Run → Service
unfolding capture seal
cross found now run =
    let noted = if ltb 1 found.workers then record_journal found.worker_names run else run in
    seal found now (capture found noted)

-- `enter_cutover`; the map that is recorded already means that nothing can block any more.
unfoldable pub enter_cutover : Found → Bool → ℕ → Run → Service
unfolding cross
enter_cutover found accept_concurrent_workers now run =
    if not (is_staging run.state || is_cutover run.state)
    then refused run
    else if step_done cutover_step run
    then done run
    else if found.running
    then refused (record_journal found.marked run)
    else if ltb 1 found.workers && not accept_concurrent_workers
    then refused run
    else if found.blocked && not (is_recorded run.journal.mapping)
    then refused run
    else cross found now run

-- `require_staged`
unfoldable pub staged : Run → Bool
staged run = step_done cutover_step run && is_recorded run.journal.mapping

-- `activate_staged`; the outcomes of the projects are merged into the ones recorded before.
unfoldable pub activate_staged : Value → ℕ → Run → Service
unfolding staged
activate_staged outcomes now run =
    if not (staged run) then refused run else done (record_step activate_step now outcomes run)

-- The four passes over references.
pub data Pass : Type 0 where
  event_rules permissions history schedules : Pass

abbrev pub pass_step : Pass → StepName
pass_step event_rules = event_rules_step
pass_step permissions = permissions_step
pass_step history = history_step
pass_step schedules = schedules_step

-- `_require_activated` for the permissions, `_require_serving` for the others.
abbrev pub must_serve : Pass → Bool
must_serve permissions = false
must_serve _ = true

-- What a pass leaves: what it could not move, which the pass over permissions never keeps open.
unfoldable pub repoint : Pass → Bool → Bool → Value → List Text → ℕ → Run → Service
unfolding staged
repoint pass serving outstanding counts warnings now run =
    if not (staged run && step_done activate_step run) || (must_serve pass && not serving)
    then refused run
    else if step_done (pass_step pass) run
    then done run
    else if must_serve pass && outstanding
    then done (record_warnings run.warnings warnings run)
    else done (complete_step (pass_step pass) now counts warnings run)

-- `ready`
unfoldable pub all_repointed : Run → Bool
all_repointed run =
    step_done event_rules_step run
    && (step_done permissions_step run
        && (step_done history_step run && step_done schedules_step run))

abbrev pub retired : Value → List Text → ℕ → Run → Result Refusal Run → Service
retired counts warnings now run (ok run') =
    done (complete_step cleanup_step now counts warnings run')
retired counts warnings now run (err e) = (err e, run)

-- `retire_legacy`; `left` says that a module is blocked or its project serves nothing.
unfoldable pub retire_legacy : Bool → Value → List Text → ℕ → Run → Service
unfolding staged all_repointed
retire_legacy left counts warnings now run =
    if step_done cleanup_step run
    then done run
    else if not (staged run)
    then refused run
    else if not (all_repointed run)
    then refused run
    else if left
    then done (record_warnings run.warnings warnings run)
    else retired counts warnings now run (advance migrated now run)
