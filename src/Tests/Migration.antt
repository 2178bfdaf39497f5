-- ===== src/Tests/Migration.antt =====
-- Four legacy modules and a migration from its start to its end.
use netbox_scripts.Base.{Pairwise, ℕ, ◌≡◌, refl, true, false, List, [], ◌∷◌, none, some, nat_eq}
use netbox_scripts.Text.{Text, codes}
use netbox_scripts.Json.{null}
use netbox_scripts.Migration.Plan.{Module, group}
use netbox_scripts.Migration.Plan.Folders.{Apart, group-Apart}
use netbox_scripts.Migration.Plan.Partition.{times_planned, count, pks_of, group_counts}
use netbox_scripts.Migration.Run.{
  Run, start, migrated, step_done, activate_step, cleanup_step, is_recorded,
}
use netbox_scripts.Migration.Cutover.{
  Found, begin_staging, enter_cutover, activate_staged, Pass, event_rules, permissions, history,
  schedules, repoint, retire_legacy, staged, all_repointed,
}
use netbox_scripts.Migration.Cutover.Order.{
  Moves, here, then_by, begins, enters, activates, repoints, retires, migrated_complete,
}
use netbox_scripts.Migration.Cutover.Forward.{Forward, Moves-Forward}
use netbox_scripts.Migration.Cutover.Schedules.{
  Job, unmarked, waiting, failed, cancel_one, replays, fail_closed, replays-cancel_one,
}

abbrev synchronized : ℕ → Text → Module
synchronized pk path = record {
  pk = pk;
  data_source = some 7;
  data_path = path;
  file_path = path;
  python_name = codes "deploy";
}

abbrev uploaded_module : Module
uploaded_module = record {
  pk = 4;
  data_source = none;
  data_path = [];
  file_path = codes "deploy.py";
  python_name = codes "deploy";
}

abbrev pub modules : List Module
modules =
    synchronized 1 (codes "lib/sub/b.py")
    ∷ synchronized 2 (codes "lib/a.py")
    ∷ synchronized 3 (codes "other/a.py")
    ∷ uploaded_module
    ∷ []

abbrev first_letters : Text → Text
first_letters s = s

group-Apart_example : Pairwise Apart (group first_letters first_letters modules)
group-Apart_example = group-Apart first_letters first_letters modules

group_counts_example :
    times_planned 1 (group first_letters first_letters modules) ≡ count 1 (pks_of modules)
group_counts_example = group_counts first_letters first_letters modules 1

abbrev found : Found
found = record {
  running = false;
  marked = [];
  workers = 1;
  worker_names = [];
  blocked = false;
  captured = (codes "permissions", null) ∷ [];
  mapping = null;
  capture_warnings = codes "withdrawn" ∷ [];
  closing = (codes "schedules", null) ∷ [];
  closing_warnings = [];
  counts = null;
  unfinished = [];
}

abbrev staging_run : Run
staging_run = (begin_staging false 1 start).1

abbrev fenced_run : Run
fenced_run = (enter_cutover found false 2 staging_run).1

abbrev active_run : Run
active_run = (activate_staged null 3 fenced_run).1

abbrev passed : Pass → Run → Run
passed pass run = (repoint pass true false null [] 4 run).1

abbrev repointed_run : Run
repointed_run =
    passed schedules (passed history (passed permissions (passed event_rules active_run)))

abbrev last_run : Run
last_run = (retire_legacy false null [] 5 repointed_run).1

fenced : Moves start fenced_run
fenced =
    then_by staging_run fenced_run (then_by start staging_run here (begins false 1))
      (enters found false 2)

repointed :
    (from : Run)
    → Moves start from
    → Moves start (passed schedules (passed history (passed permissions (passed event_rules from))))
repointed from moves =
    let one = passed event_rules from in
    let two = passed permissions one in
    let three = passed history two in
    then_by three (passed schedules three)
      (then_by two three
        (then_by one two (then_by from one moves (repoints event_rules true false null [] 4))
          (repoints permissions true false null [] 4))
        (repoints history true false null [] 4))
      (repoints schedules true false null [] 4)

migration : Moves start last_run
migration =
    then_by repointed_run last_run
      (repointed active_run (then_by fenced_run active_run fenced (activates null 3)))
      (retires false null [] 5)

migration_ends : last_run.state ≡ migrated
unfolding start nat_eq retire_legacy step_done netbox_scripts.Base.Dict.lookup repoint
    activate_staged enter_cutover begin_staging netbox_scripts.Migration.Run.advance
    netbox_scripts.Migration.Run.record_warnings netbox_scripts.Migration.Run.record_journal
    netbox_scripts.Migration.Run.complete_step netbox_scripts.Base.Dict.insert
    netbox_scripts.Migration.Run.step_name_eq
migration_ends = refl

migrated_complete_example :
    (all_repointed last_run ≡ true)
    × (step_done activate_step last_run ≡ true)
    × (staged last_run ≡ true)
    × (step_done cleanup_step last_run ≡ true)
    × (is_recorded last_run.cutover_started ≡ true)
    × (is_recorded last_run.completed ≡ true)
migrated_complete_example = migrated_complete last_run migration migration_ends

Moves-Forward_example : Forward start last_run
Moves-Forward_example = Moves-Forward start last_run migration

abbrev waiting_job : Job
waiting_job = record { status = waiting; started = false }

abbrev failed_row : Job
failed_row = record { status = failed; started = false }

is_replayed :
    replays
      (cancel_one unmarked (some waiting_job) (some waiting_job) (some failed_row))
      (some failed_row)
    ≡ true
unfolding replays cancel_one fail_closed
is_replayed = refl

replays-cancel_one_example : (failed_row.status ≡ failed) × (failed_row.started ≡ false)
replays-cancel_one_example =
    replays-cancel_one unmarked waiting_job (some waiting_job) failed_row failed_row is_replayed
