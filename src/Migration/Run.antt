-- ===== src/Migration/Run.antt =====
-- netbox_scripts/models/migration.py: the run that carries a migration out, as one row.
-- Each method that holds the migration lock is one step. A time is a number.
use netbox_scripts.Base.{
  ℕ, Bool, true, false, List, [], ◌∷◌, ◌++◌, Option, none, some, if◌then◌else◌, ◌==◌, nat_eq,
  text_eq, contains, Result, ok, err, Eq,
}
use netbox_scripts.Base.Dict
use netbox_scripts.Base.Dict.{Dict}
use netbox_scripts.Text.{Text}
use netbox_scripts.Json.{Value}

-- `MigrationStateChoices`, in the order of `_STATE_ORDER`.
pub data State : Type 0 where
  legacy staging cutover migrated : State

-- `_STATE_ORDER.index(state)`
abbrev pub position : State → ℕ
position legacy = 0
position staging = 1
position cutover = 2
position migrated = 3

-- `_STATE_ORDER[position + 1]`
abbrev pub next_state : State → Option State
next_state legacy = some staging
next_state staging = some cutover
next_state cutover = some migrated
next_state migrated = none

-- The names of the steps.
pub data StepName : Type 0 where
  cutover_step activate_step cleanup_step : StepName
  event_rules_step permissions_step history_step schedules_step : StepName

StepName-discrete : Discrete StepName
StepName-discrete = hlevel

instance unfoldable pub step_name_eq : Eq StepName
unfolding StepName-discrete
step_name_eq = record { dec = StepName-discrete }

-- What a completed step left in the journal: the time, and the detail that a resume needs.
pub record StepRecord : Type 0 where
  pub completed : ℕ
  pub detail : Value

-- The journal: the completed steps, the maps of identities, the map of the plugin, which the cutover
-- freezes, and the other entries. The row keeps them in one dict, under keys of their own: no caller
-- of `record_journal` passes one of those keys, save the cutover's capture, which is a setter of its
-- own here.
pub record Journal : Type 0 where
  pub steps : Dict StepName StepRecord
  pub maps : Dict Text (Dict Text Value)
  pub mapping : Option Value
  pub entries : Dict Text Value

-- `MigrationRun`
pub record Run : Type 0 where
  pub state : State
  pub cutover_started : Option ℕ
  pub completed : Option ℕ
  pub journal : Journal
  pub warnings : List Text

abbrev no_journal : Journal
no_journal = record { steps = []; maps = []; mapping = none; entries = [] }

-- `MigrationRun.start`
unfoldable pub start : Run
start = record {
  state = legacy;
  cutover_started = none;
  completed = none;
  journal = no_journal;
  warnings = [];
}

abbrev pub is_next : State → Option State → Bool
is_next s none = false
is_next s (some t) = position s == position t

-- The field that the new state sets.
abbrev pub stamped : State → ℕ → Run → Run
stamped cutover now run = record run { cutover_started = some now }
stamped migrated now run = record run { completed = some now }
stamped _ now run = run

-- The ValidationError of `advance`, the CutoverRefused of the services, and the JobFailed of the staging
-- job.
pub data Refusal : Type 0 where
  validation_error cutover_refused job_failed : Refusal

-- `advance`
unfoldable pub advance : State → ℕ → Run → Result Refusal Run
advance requested now run =
    if is_next requested (next_state run.state)
    then ok (stamped requested now (record run { state = requested }))
    else err validation_error

-- `{**stored, **entries}`
unfoldable pub update {ℓ κ} : {K : Type ℓ} {V : Type κ} ⦃e : Eq K⦄ → Dict K V → Dict K V → Dict K V
update stored [] = stored
update stored ((k, v) ∷ entries) = update (Dict.insert k v stored) entries

abbrev pub set_journal : Run → Journal → Run
set_journal run journal = record run { journal = journal }

unfoldable pub record_journal : Dict Text Value → Run → Run
unfolding update
record_journal new run =
    set_journal run (record run.journal { entries = update run.journal.entries new })

abbrev mapping_at : Option (Dict Text Value) → Dict Text Value
mapping_at none = []
mapping_at (some d) = d

unfoldable pub record_mapping : Text → Dict Text Value → Run → Run
unfolding update
record_mapping name new run =
    let merged = update (mapping_at (Dict.lookup name run.journal.maps)) new in
    set_journal run (record run.journal { maps = Dict.insert name merged run.journal.maps })

unfoldable pub record_step : StepName → ℕ → Value → Run → Run
record_step name now detail run = set_journal run (record run.journal {
  steps = Dict.insert name (record { completed = now; detail = detail }) run.journal.steps;
})

-- The loop of `record_warnings`.
unfoldable pub merge_warnings : List Text → List Text → List Text
merge_warnings merged [] = merged
merge_warnings merged (m ∷ ms) =
    merge_warnings (if contains merged m then merged else merged ++ (m ∷ [])) ms

-- `record_warnings`; the first list is the warnings of the caller's copy of the row.
unfoldable pub record_warnings : List Text → List Text → Run → Run
unfolding merge_warnings
record_warnings own new run = record run { warnings = merge_warnings run.warnings (own ++ new) }

unfoldable pub complete_step : StepName → ℕ → Value → List Text → Run → Run
unfolding record_warnings record_step
complete_step name now counts warnings run =
    record_step name now counts (record_warnings run.warnings warnings run)

abbrev pub is_recorded {ℓ} : {A : Type ℓ} → Option A → Bool
is_recorded none = false
is_recorded (some a) = true

-- `step_done`
unfoldable pub step_done : StepName → Run → Bool
step_done name run = is_recorded (Dict.lookup name run.journal.steps)

-- A service that holds the migration lock: what it returns or raises, and the row as it leaves it.
abbrev pub Service : Type 0
Service = Result Refusal (Unit {0}) × Run

abbrev pub done : Run → Service
done run = (ok tt, run)

abbrev pub refused : Run → Service
refused run = (err cutover_refused, run)

abbrev pub stopped : Run → Service
stopped run = (err job_failed, run)
