-- ===== src/Migration/Cutover/Forward.antt =====
-- No pass of netbox_scripts/migration/ takes back what an earlier one recorded on the run.
use netbox_scripts.Base.{
  ℕ, ◌≤◌, ◌≡◌, refl, Bool, true, false, not, ◌&&◌, ◌||◌, List, some, [], if◌then◌else◌, nat_eq, ltb,
  arith, is_empty, if-cases, inl, inr, Bool-cases,
}
use netbox_scripts.Base.Dict.{Dict, lookup, insert, lookup-insert}
use netbox_scripts.Text.{Text}
use netbox_scripts.Json.{Value}
use netbox_scripts.Migration.Run.{
  State, legacy, staging, cutover, migrated, position, next_state, StepName, StepRecord,
  step_name_eq, cutover_step, activate_step, cleanup_step, Run, advance, record_journal,
  record_mapping, record_step, record_warnings, complete_step, step_done, is_recorded, is_next,
  stamped, Service, done, refused, stopped,
}
use netbox_scripts.Migration.Cutover.{
  Found, is_legacy, is_staging, is_cutover, must_serve, advanced, begin_staging, capture,
  close_notes, close, seal, cross, enter_cutover, staged, activate_staged, Pass, pass_step, repoint,
  all_repointed, retire_legacy,
}
use netbox_scripts.Migration.Cutover.Order.{
  Move, begins, enters, activates, repoints, retires, notes, maps, warns, Moves, here, then_by,
}

-- What a later run keeps of an earlier one.
pub record Forward (run next : Run) : Type 0 where
  pub onward : position run.state ≤ position next.state
  pub steps_kept : (n : StepName) → step_done n run ≡ true → step_done n next ≡ true
  pub frozen : (m : Value) → run.journal.mapping ≡ some m → next.journal.mapping ≡ some m

same-Forward : (run : Run) → Forward run run
same-Forward run = record { onward = omega arith; steps_kept = λ n d. d; frozen = λ m e. e }

Forward-trans : {r s t : Run} → Forward r s → Forward s t → Forward r t
Forward-trans f g = record {
  onward = omega (arith, f.onward, g.onward);
  steps_kept = λ n d. g.steps_kept n (f.steps_kept n d);
  frozen = λ m e. g.frozen m (f.frozen m e);
}

kept :
    (n m : StepName) (r : StepRecord) (steps : Dict StepName StepRecord)
    → is_recorded (lookup n steps) ≡ true
    → is_recorded (lookup n (insert m r steps)) ≡ true
kept n m r steps d = ground (arith, lookup-insert n m r steps)

guarded :
    (run : Run) (c : Bool) (x y : Service)
    → (c ≡ true → Forward run x.1)
    → (c ≡ false → Forward run y.1)
    → Forward run (if c then x else y).1
guarded run = if-cases (λ (s : Service). Forward run s.1)

is_next-position : (s t : State) → is_next t (next_state s) ≡ true → position s ≤ position t
unfolding nat_eq
is_next-position s t h = ground arith

stamped-state :
    (t : State) (now : ℕ) (run : Run)
    → ((stamped t now run).state ≡ run.state) × ((stamped t now run).journal ≡ run.journal)
stamped-state legacy now run = (refl, refl)
stamped-state staging now run = (refl, refl)
stamped-state cutover now run = (refl, refl)
stamped-state migrated now run = (refl, refl)

module _ (run : Run) where
  record_journal-Forward : (entries : Dict Text Value) → Forward run (record_journal entries run)
  unfolding record_journal step_done
  record_journal-Forward entries = record {
    onward = omega arith;
    steps_kept = λ n d. d;
    frozen = λ m e. e;
  }

  record_mapping-Forward :
      (name : Text) (entries : Dict Text Value) → Forward run (record_mapping name entries run)
  unfolding record_mapping step_done
  record_mapping-Forward name entries = record {
    onward = omega arith;
    steps_kept = λ n d. d;
    frozen = λ m e. e;
  }

  record_warnings-Forward : (own new : List Text) → Forward run (record_warnings own new run)
  unfolding record_warnings step_done
  record_warnings-Forward own new = record {
    onward = omega arith;
    steps_kept = λ n d. d;
    frozen = λ m e. e;
  }

  record_step-Forward :
      (name : StepName) (now : ℕ) (detail : Value) → Forward run (record_step name now detail run)
  unfolding record_step step_done
  record_step-Forward name now detail = record {
    onward = omega arith;
    steps_kept = λ n. kept n name (record { completed = now; detail = detail }) run.journal.steps;
    frozen = λ m e. e;
  }

  complete_step-Forward :
      (name : StepName) (now : ℕ) (counts : Value) (warnings : List Text)
      → Forward run (complete_step name now counts warnings run)
  unfolding complete_step record_step step_done record_warnings
  complete_step-Forward name now counts warnings = record {
    onward = omega arith;
    steps_kept = λ n. kept n name (record { completed = now; detail = counts }) run.journal.steps;
    frozen = λ m e. e;
  }

  -- The state that `advance` gives.
  stamped-Forward :
      (t : State) (now : ℕ)
      → is_next t (next_state run.state) ≡ true
      → Forward run (stamped t now (record run { state = t }))
  unfolding step_done
  stamped-Forward t now h =
      let kept_fields = stamped-state t now (record run { state = t }) in
      record {
        onward = rw (kept_fields.0) (is_next-position run.state t h);
        steps_kept = λ n d. rw (kept_fields.1) d;
        frozen = λ m e. rw (kept_fields.1) e;
      }

  capture-Forward : (found : Found) → Forward run (capture found run)
  unfolding capture record_warnings record_journal step_done
  capture-Forward found = record {
    onward = omega arith;
    steps_kept = λ n d. d;
    frozen = λ m e. rw e refl;
  }

  advanced-Forward : (t : State) (now : ℕ) → Forward run (advanced run (advance t now run)).1
  unfolding advance
  advanced-Forward t now = elim (Bool-cases (is_next t (next_state run.state))) [
    | inl on ↦ rw (on) (stamped-Forward t now on)
    | inr off ↦ rw (off) (same-Forward run)
  ]

close_notes-Forward : (found : Found) (run : Run) → Forward run (close_notes found run)
unfolding close_notes
close_notes-Forward found run =
    let noted = record_journal found.closing run in
    Forward-trans (record_journal-Forward run found.closing)
      (record_warnings-Forward noted noted.warnings found.closing_warnings)

close-Forward : (found : Found) (now : ℕ) (run : Run) → Forward run (close found now run)
unfolding close
close-Forward found now run =
    let noted = close_notes found run in
    Forward-trans (close_notes-Forward found run) (
      if-cases (λ (r : Run). Forward noted r) (is_empty found.unfinished)
        (complete_step cutover_step now found.counts [] noted)
        (record_warnings noted.warnings found.unfinished noted)
        (λ _. complete_step-Forward noted cutover_step now found.counts [])
        (λ _. record_warnings-Forward noted noted.warnings found.unfinished))

seal-Forward : (found : Found) (now : ℕ) (run : Run) → Forward run (seal found now run).1
unfolding seal advance
seal-Forward found now run =
    guarded run (is_staging run.state) _ (done (close found now run))
      (λ _. elim (Bool-cases (is_next cutover (next_state run.state))) [
        | inl on ↦ rw (on) (
            Forward-trans (stamped-Forward run cutover now on)
              (close-Forward found now (stamped cutover now (record run { state = cutover }))))
        | inr off ↦ rw (off) (same-Forward run)
      ])
      (λ _. close-Forward found now run)

cross-Forward : (found : Found) (now : ℕ) (run : Run) → Forward run (cross found now run).1
unfolding cross
cross-Forward found now run =
    if-cases (λ (r : Run). Forward run (seal found now (capture found r)).1) (ltb 1 found.workers)
      (record_journal found.worker_names run) run
      (λ _.
        Forward-trans (record_journal-Forward run found.worker_names)
          (captured (record_journal found.worker_names run)))
      (λ _. captured run)
  where
    captured : (noted : Run) → Forward noted (seal found now (capture found noted)).1
    captured noted =
        Forward-trans (capture-Forward noted found) (seal-Forward found now (capture found noted))

module _ (run : Run) where
  begins-Forward : (blocking : Bool) (now : ℕ) → Forward run (begin_staging blocking now run).1
  unfolding begin_staging
  begins-Forward blocking now =
      guarded run (not (is_legacy run.state || is_staging run.state)) (stopped run) _
        (λ _. same-Forward run)
        λ _.
          guarded run (is_recorded run.journal.mapping || blocking) (stopped run) _
            (λ _. same-Forward run)
            λ _.
              guarded run (is_legacy run.state) _ (done run) (λ _. advanced-Forward run staging now)
                (λ _. same-Forward run)

  enters-Forward :
      (found : Found) (accept : Bool) (now : ℕ) → Forward run (enter_cutover found accept now run).1
  unfolding enter_cutover
  enters-Forward found accept now =
      guarded run (not (is_staging run.state || is_cutover run.state)) (refused run) _
        (λ _. same-Forward run)
        λ _.
          guarded run (step_done cutover_step run) (done run) _ (λ _. same-Forward run)
            λ _.
              guarded run found.running (refused (record_journal found.marked run)) _
                (λ _. record_journal-Forward run found.marked)
                λ _.
                  guarded run (ltb 1 found.workers && not accept) (refused run) _
                    (λ _. same-Forward run)
                    λ _.
                      guarded run (found.blocked && not (is_recorded run.journal.mapping))
                        (refused run) _ (λ _. same-Forward run) (λ _. cross-Forward found now run)

  activates-Forward :
      (outcomes : Value) (now : ℕ) → Forward run (activate_staged outcomes now run).1
  unfolding activate_staged
  activates-Forward outcomes now =
      guarded run (not (staged run)) (refused run) _ (λ _. same-Forward run)
        (λ _. record_step-Forward run activate_step now outcomes)

  repoints-Forward :
      (pass : Pass) (serving outstanding : Bool) (counts : Value) (warnings : List Text) (now : ℕ)
      → Forward run (repoint pass serving outstanding counts warnings now run).1
  unfolding repoint
  repoints-Forward pass serving outstanding counts warnings now =
      guarded run
        (not (staged run && step_done activate_step run) || (must_serve pass && not serving))
        (refused run) _ (λ _. same-Forward run)
        λ _.
          guarded run (step_done (pass_step pass) run) (done run) _ (λ _. same-Forward run)
            λ _.
              guarded run (must_serve pass && outstanding)
                (done (record_warnings run.warnings warnings run)) _
                (λ _. record_warnings-Forward run run.warnings warnings)
                (λ _. complete_step-Forward run (pass_step pass) now counts warnings)

  retires-Forward :
      (left : Bool) (counts : Value) (warnings : List Text) (now : ℕ)
      → Forward run (retire_legacy left counts warnings now run).1
  unfolding retire_legacy advance
  retires-Forward left counts warnings now =
      guarded run (step_done cleanup_step run) (done run) _ (λ _. same-Forward run)
        λ _.
          guarded run (not (staged run)) (refused run) _ (λ _. same-Forward run)
            λ _.
              guarded run (not (all_repointed run)) (refused run) _ (λ _. same-Forward run)
                λ _.
                  guarded run left (done (record_warnings run.warnings warnings run)) _
                    (λ _. record_warnings-Forward run run.warnings warnings)
                    (λ _. elim (Bool-cases (is_next migrated (next_state run.state))) [
                      | inl on ↦
                          let next = stamped migrated now (record run { state = migrated }) in
                          rw (on) (
                            Forward-trans (stamped-Forward run migrated now on)
                              (complete_step-Forward next cleanup_step now counts warnings))
                      | inr off ↦ rw (off) (same-Forward run)
                    ])

Move-Forward : (run next : Run) → Move run next → Forward run next
Move-Forward run _ (begins blocking now) = begins-Forward run blocking now
Move-Forward run _ (enters found accept now) = enters-Forward run found accept now
Move-Forward run _ (activates outcomes now) = activates-Forward run outcomes now
Move-Forward run _ (repoints pass serving outstanding counts warnings now) =
    repoints-Forward run pass serving outstanding counts warnings now
Move-Forward run _ (retires left counts warnings now) = retires-Forward run left counts warnings now
Move-Forward run _ (notes entries) = record_journal-Forward run entries
Move-Forward run _ (maps name entries) = record_mapping-Forward run name entries
Move-Forward run _ (warns own new) = record_warnings-Forward run own new

-- Along any sequence of calls on a run, from any run on, its state never goes back, a step that is
-- recorded stays recorded, and the map that the cutover froze stays the same.
pub Moves-Forward : (run next : Run) → Moves run next → Forward run next
Moves-Forward run _ here = same-Forward run
Moves-Forward run _ (then_by r s moves move) =
    Forward-trans (Moves-Forward run r moves) (Move-Forward r s move)
