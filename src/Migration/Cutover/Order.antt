-- ===== src/Migration/Cutover/Order.antt =====
-- The order of the passes of netbox_scripts/migration/ over one run, from its start on.
use netbox_scripts.Base.{
  ℕ, suc, ok, ◌≤◌, ◌≡◌, refl, ap, Bool, true, false, not, ◌&&◌, ◌||◌, List, some, [], if◌then◌else◌,
  nat_eq, ltb, arith, is_empty, if-cases,
}
use netbox_scripts.Base.Dict.{Dict, lookup}
use netbox_scripts.Text.{Text}
use netbox_scripts.Json.{Value}
use netbox_scripts.Migration.Run.{
  State, staging, cutover, migrated, position, next_state, step_name_eq, cutover_step,
  activate_step, cleanup_step, Run, start, advance, record_journal, record_mapping, record_step,
  record_warnings, complete_step, step_done, is_recorded, is_next, stamped, Service, done, refused,
  stopped,
}
use netbox_scripts.Migration.Cutover.{
  Found, is_legacy, is_staging, is_cutover, must_serve, begin_staging, capture, close_notes, close,
  seal, cross, enter_cutover, staged, activate_staged, Pass, event_rules, permissions, history,
  schedules, pass_step, repoint, all_repointed, retire_legacy,
}
use netbox_scripts.Migration.Cutover.Facts.{
  IsOrdered, capture-Facts, insert_activate-Facts, insert_cutover-Facts, insert_pass-Facts,
  to_cutover-Facts, to_migrated-Facts, to_staging-Facts,
}

-- One call on the run, whether it returns or raises; what it finds elsewhere is arbitrary.
pub data Move (run : Run) : Run → Type 0 where
  begins : (blocking : Bool) (now : ℕ) → Move run (begin_staging blocking now run).1
  enters :
      (found : Found) (accept : Bool) (now : ℕ) → Move run (enter_cutover found accept now run).1
  activates : (outcomes : Value) (now : ℕ) → Move run (activate_staged outcomes now run).1
  repoints :
      (pass : Pass) (serving outstanding : Bool) (counts : Value) (warnings : List Text) (now : ℕ)
      → Move run (repoint pass serving outstanding counts warnings now run).1
  retires :
      (left : Bool) (counts : Value) (warnings : List Text) (now : ℕ)
      → Move run (retire_legacy left counts warnings now run).1
  notes : (entries : Dict Text Value) → Move run (record_journal entries run)
  maps : (name : Text) (entries : Dict Text Value) → Move run (record_mapping name entries run)
  warns : (own new : List Text) → Move run (record_warnings own new run)

pub data Moves (from : Run) : Run → Type 0 where
  here : Moves from from
  then_by : (r s : Run) → Moves from r → Move r s → Moves from s

start-IsOrdered : IsOrdered start
unfolding start lookup nat_eq
start-IsOrdered = record {
  crossed = λ h. cc;
  activated = λ h. cc;
  repointed = λ p h. cc;
  retired = refl;
  ready = λ h. cc;
  stamped = refl;
  closed = refl;
}

-- `advance` goes to the state after the one that a run is in.
next-position : (s t : State) → suc (position s) ≡ position t → is_next t (next_state s) ≡ true
unfolding nat_eq
next-position s t h = ground arith

pub advance-next :
    (t : State) (now : ℕ) (run : Run)
    → suc (position run.state) ≡ position t
    → advance t now run ≡ ok (stamped t now (record run { state = t }))
unfolding advance
advance-next t now run h = rw (next-position run.state t h) refl

-- The two ends of a test of a service.
guarded :
    (c : Bool) (x y : Service)
    → (c ≡ true → IsOrdered x.1)
    → (c ≡ false → IsOrdered y.1)
    → IsOrdered (if c then x else y).1
guarded = if-cases (λ (s : Service). IsOrdered s.1)

pub position-below : (s : State) → position s ≤ 3
position-below s = ground arith

all_repointed-step_done :
    (run : Run) → all_repointed run ≡ true → (p : Pass) → step_done (pass_step p) run ≡ true
unfolding all_repointed
all_repointed-step_done run h event_rules = ground (arith, h)
all_repointed-step_done run h permissions = ground (arith, h)
all_repointed-step_done run h history = ground (arith, h)
all_repointed-step_done run h schedules = ground (arith, h)

module _ (run : Run) (h : IsOrdered run) where
  record_journal-IsOrdered : (entries : Dict Text Value) → IsOrdered (record_journal entries run)
  unfolding record_journal
  record_journal-IsOrdered entries = h

  record_mapping-IsOrdered :
      (name : Text) (entries : Dict Text Value) → IsOrdered (record_mapping name entries run)
  unfolding record_mapping
  record_mapping-IsOrdered name entries = h

  record_warnings-IsOrdered : (own new : List Text) → IsOrdered (record_warnings own new run)
  unfolding record_warnings
  record_warnings-IsOrdered own new = h

  capture-IsOrdered : (found : Found) → IsOrdered (capture found run)
  unfolding capture record_warnings record_journal
  capture-IsOrdered found = capture-Facts h

  close-IsOrdered :
      (found : Found) (now : ℕ)
      → 2 ≤ position run.state
      → is_recorded run.journal.mapping ≡ true
      → IsOrdered (close found now run)
  unfolding close close_notes complete_step record_step record_warnings record_journal
  close-IsOrdered found now past mapped =
      if-cases (λ (r : Run). IsOrdered r) (is_empty found.unfinished)
        (complete_step cutover_step now found.counts [] (close_notes found run))
        (record_warnings (close_notes found run).warnings found.unfinished (close_notes found run))
        (λ _.
          insert_cutover-Facts (record { completed = now; detail = found.counts }) h past mapped)
        (λ _. h)

module _ (run : Run) (h : IsOrdered run) where
  seal-IsOrdered :
      (found : Found) (now : ℕ)
      → not (is_staging run.state || is_cutover run.state) ≡ false
      → is_recorded run.journal.mapping ≡ true
      → IsOrdered (seal found now run).1
  unfolding seal
  seal-IsOrdered found now state mapped =
      guarded (is_staging run.state) _ (done (close found now run))
        (λ on.
          let second : position run.state ≡ 1 = ground (arith, on) in
          let past : 2 ≤ position cutover = omega arith in
          rw (advance-next cutover now run (ground (arith, second))) (
            close-IsOrdered (record run { state = cutover; cutover_started = some now })
              (to_cutover-Facts h second) found now past mapped))
        (λ off. close-IsOrdered run h found now (ground (arith, state, off)) mapped)

module _ (run : Run) (h : IsOrdered run) where
  cross-IsOrdered :
      (found : Found) (now : ℕ)
      → not (is_staging run.state || is_cutover run.state) ≡ false
      → IsOrdered (cross found now run).1
  unfolding cross record_journal capture record_warnings
  cross-IsOrdered found now state =
      if-cases (λ (r : Run). IsOrdered (seal found now (capture found r)).1) (ltb 1 found.workers)
        (record_journal found.worker_names run) run
        (λ _.
          seal-IsOrdered (capture found (record_journal found.worker_names run))
            (capture-IsOrdered (record_journal found.worker_names run) h found) found now state
            refl)
        (λ _.
          seal-IsOrdered (capture found run) (capture-IsOrdered run h found) found now state refl)

  begins-IsOrdered : (blocking : Bool) (now : ℕ) → IsOrdered (begin_staging blocking now run).1
  unfolding begin_staging advance
  begins-IsOrdered blocking now =
      guarded (not (is_legacy run.state || is_staging run.state)) (stopped run) _ (λ _. h)
        λ _.
          guarded (is_recorded run.journal.mapping || blocking) (stopped run) _ (λ _. h)
            λ _.
              guarded (is_legacy run.state) _ (done run)
                (λ first.
                  rw (advance-next staging now run (ground (arith, first)))
                    (to_staging-Facts h (ground (arith, first))))
                λ _. h

  enters-IsOrdered :
      (found : Found) (accept : Bool) (now : ℕ) → IsOrdered (enter_cutover found accept now run).1
  unfolding enter_cutover
  enters-IsOrdered found accept now =
      guarded (not (is_staging run.state || is_cutover run.state)) (refused run) _ (λ _. h)
        λ state.
          guarded (step_done cutover_step run) (done run) _ (λ _. h)
            λ _.
              guarded found.running (refused (record_journal found.marked run)) _
                (λ _. record_journal-IsOrdered run h found.marked)
                λ _.
                  guarded (ltb 1 found.workers && not accept) (refused run) _ (λ _. h)
                    λ _.
                      guarded (found.blocked && not (is_recorded run.journal.mapping)) (refused run)
                        _ (λ _. h) λ _. cross-IsOrdered found now state

  activates-IsOrdered :
      (outcomes : Value) (now : ℕ) → IsOrdered (activate_staged outcomes now run).1
  unfolding activate_staged record_step staged step_done
  activates-IsOrdered outcomes now =
      guarded (not (staged run)) (refused run) _ (λ _. h)
        λ on.
          insert_activate-Facts (record { completed = now; detail = outcomes }) h
            (ground (arith, on))

  repoints-IsOrdered :
      (pass : Pass) (serving outstanding : Bool) (counts : Value) (warnings : List Text) (now : ℕ)
      → IsOrdered (repoint pass serving outstanding counts warnings now run).1
  unfolding repoint staged step_done record_step complete_step record_warnings
  repoints-IsOrdered pass serving outstanding counts warnings now =
      guarded (not (staged run && step_done activate_step run) || (must_serve pass && not serving))
        (refused run) _ (λ _. h)
        λ on.
          guarded (step_done (pass_step pass) run) (done run) _ (λ _. h)
            λ _.
              guarded (must_serve pass && outstanding)
                (done (record_warnings run.warnings warnings run)) _ (λ _. h)
                λ _.
                  insert_pass-Facts (record { completed = now; detail = counts }) h pass
                    (ground (arith, on))

  retires-IsOrdered :
      (left : Bool) (counts : Value) (warnings : List Text) (now : ℕ)
      → IsOrdered (retire_legacy left counts warnings now run).1
  unfolding retire_legacy all_repointed staged step_done record_warnings complete_step record_step
  retires-IsOrdered left counts warnings now =
      guarded (step_done cleanup_step run) (done run) _ (λ _. h)
        λ unclosed.
          guarded (not (staged run)) (refused run) _ (λ _. h)
            λ on.
              guarded (not (all_repointed run)) (refused run) _ (λ _. h)
                λ ready.
                  guarded left (done (record_warnings run.warnings warnings run)) _ (λ _. h)
                    λ _.
                      let third : position run.state ≡ 2 =
                        ground
                          (arith, on, h.crossed, h.retired, unclosed, position-below run.state) in
                      rw (advance-next migrated now run (ground (arith, third))) (
                        to_migrated-Facts (record { completed = now; detail = counts }) h third
                          (all_repointed-step_done run (ground (arith, ready))))

-- Every move keeps the order.
Move-IsOrdered : (run next : Run) → IsOrdered run → Move run next → IsOrdered next
Move-IsOrdered run _ h (begins blocking now) = begins-IsOrdered run h blocking now
Move-IsOrdered run _ h (enters found accept now) = enters-IsOrdered run h found accept now
Move-IsOrdered run _ h (activates outcomes now) = activates-IsOrdered run h outcomes now
Move-IsOrdered run _ h (repoints pass serving outstanding counts warnings now) =
    repoints-IsOrdered run h pass serving outstanding counts warnings now
Move-IsOrdered run _ h (retires left counts warnings now) =
    retires-IsOrdered run h left counts warnings now
Move-IsOrdered run _ h (notes entries) = record_journal-IsOrdered run h entries
Move-IsOrdered run _ h (maps name entries) = record_mapping-IsOrdered run h name entries
Move-IsOrdered run _ h (warns own new) = record_warnings-IsOrdered run h own new

-- The facts hold after any sequence of calls from the start of a run.
pub Moves-IsOrdered : (run : Run) → Moves start run → IsOrdered run
Moves-IsOrdered _ here = start-IsOrdered
Moves-IsOrdered _ (then_by r s moves move) = Move-IsOrdered r s (Moves-IsOrdered r moves) move

-- Whatever calls were made on a run in whatever order since it was started, if it is MIGRATED, then the
-- cutover, the activation, the four passes over references and the cleanup are recorded, and so are the
-- map of the cutover and both times.
pub migrated_complete :
    (run : Run)
    → Moves start run
    → run.state ≡ migrated
    → (all_repointed run ≡ true)
      × (step_done activate_step run ≡ true)
      × (staged run ≡ true)
      × (step_done cleanup_step run ≡ true)
      × (is_recorded run.cutover_started ≡ true)
      × (is_recorded run.completed ≡ true)
unfolding all_repointed staged step_done nat_eq
migrated_complete run moves last =
    let h = Moves-IsOrdered run moves in
    let final : position run.state ≡ 3 = ap position last in
    let active = h.repointed event_rules (h.ready final event_rules) in
    let crossed = h.activated active in
    (
      ground (
        arith,
        h.ready final event_rules,
        h.ready final permissions,
        h.ready final history,
        h.ready final schedules,
      ),
      active,
      ground (arith, crossed, h.crossed crossed),
      ground (arith, h.retired, final),
      ground (arith, h.stamped, final),
      ground (arith, h.closed, final),
    )
