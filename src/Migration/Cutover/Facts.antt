-- ===== src/Migration/Cutover/Facts.antt =====
-- What holds of a migration run between two calls, and the changes of a run that keep it.
use netbox_scripts.Base.{
  ◌≤◌, ◌≡◌, ◌≢◌, refl, sym, ap, ◌∙◌, Bool, true, false, ◌||◌, ◌==◌, nat_eq, ltb, arith,
}
use netbox_scripts.Base.Dict.{Dict, lookup, insert, lookup-insert}
use netbox_scripts.Migration.Run.{
  State, staging, cutover, migrated, position, StepName, StepRecord, step_name_eq, cutover_step,
  activate_step, cleanup_step, Run, is_recorded,
}
use netbox_scripts.Migration.Cutover.{Pass, event_rules, permissions, history, schedules, pass_step}

abbrev pub is_done : StepName → Dict StepName StepRecord → Bool
is_done name steps = is_recorded (lookup name steps)

-- What holds of a run between two moves, by the fields that it reads.
pub record Facts (s : State) (started completed mapped : Bool) (steps : Dict StepName StepRecord)
    : Type 0 where
  pub crossed : is_done cutover_step steps ≡ true → (2 ≤ position s) × (mapped ≡ true)
  pub activated : is_done activate_step steps ≡ true → is_done cutover_step steps ≡ true
  pub repointed :
      (p : Pass) → is_done (pass_step p) steps ≡ true → is_done activate_step steps ≡ true
  pub retired : is_done cleanup_step steps ≡ (position s == 3)
  pub ready : position s ≡ 3 → (p : Pass) → is_done (pass_step p) steps ≡ true
  pub stamped : started ≡ ltb 1 (position s)
  pub closed : completed ≡ (position s == 3)

abbrev pub IsOrdered : Run → Type 0
IsOrdered run =
    Facts run.state (is_recorded run.cutover_started) (is_recorded run.completed)
      (is_recorded run.journal.mapping) run.journal.steps

module _ (n m : StepName) (r : StepRecord) (steps : Dict StepName StepRecord) where
  is_done-insert : is_done n (insert m r steps) ≡ (n == m || is_done n steps)
  is_done-insert = ground (arith, lookup-insert n m r steps)

  kept : is_done n steps ≡ true → is_done n (insert m r steps) ≡ true
  kept d = ground (arith, is_done-insert)

  other : n ≢ m → is_done n (insert m r steps) ≡ is_done n steps
  other apart = ground (arith, is_done-insert)

  recorded : n ≡ m → is_done n (insert m r steps) ≡ true
  recorded same = ground (arith, is_done-insert)

abbrev is_pass : StepName → Bool
is_pass cutover_step = false
is_pass activate_step = false
is_pass cleanup_step = false
is_pass _ = true

pass_step-is_pass : (p : Pass) → is_pass (pass_step p) ≡ true
pass_step-is_pass event_rules = refl
pass_step-is_pass permissions = refl
pass_step-is_pass history = refl
pass_step-is_pass schedules = refl

pass_step-apart : (p : Pass) (n : StepName) → is_pass n ≡ false → pass_step p ≢ n
pass_step-apart p n off = λ same. cc (pass_step-is_pass p, ap is_pass same)

module _ {s : State} {a b m : Bool} {steps : Dict StepName StepRecord}
    (h : Facts s a b m steps) where
  pub to_staging-Facts : position s ≡ 0 → Facts staging a b m steps
  unfolding nat_eq
  to_staging-Facts first = record {
    crossed = λ d. ground (arith, h.crossed d);
    activated = h.activated;
    repointed = h.repointed;
    retired = ground (arith, h.retired);
    ready = λ e. cc;
    stamped = ground (arith, h.stamped);
    closed = ground (arith, h.closed);
  }

  pub capture-Facts : Facts s a b true steps
  capture-Facts = record {
    crossed = λ d. ((h.crossed d).0, refl);
    activated = h.activated;
    repointed = h.repointed;
    retired = h.retired;
    ready = h.ready;
    stamped = h.stamped;
    closed = h.closed;
  }

  pub to_cutover-Facts : position s ≡ 1 → Facts cutover true b m steps
  unfolding nat_eq
  to_cutover-Facts second = record {
    crossed = λ d. let past : 2 ≤ position cutover = omega arith in (past, (h.crossed d).1);
    activated = h.activated;
    repointed = h.repointed;
    retired = ground (arith, h.retired);
    ready = λ e. cc;
    stamped = refl;
    closed = ground (arith, h.closed);
  }

module _ {s : State} {a b m : Bool} {steps : Dict StepName StepRecord} (r : StepRecord)
    (h : Facts s a b m steps) where
  pub insert_cutover-Facts : 2 ≤ position s → m ≡ true → Facts s a b m (insert cutover_step r steps)
  insert_cutover-Facts past mapped = record {
    crossed = λ _. (past, mapped);
    activated = λ d. recorded cutover_step cutover_step r steps refl;
    repointed = λ p d. kept activate_step cutover_step r steps (
        h.repointed p (
          sym (other (pass_step p) cutover_step r steps (pass_step-apart p cutover_step refl))
          ∙ d));
    retired = other cleanup_step cutover_step r steps (λ e. cc) ∙ h.retired;
    ready = λ e p. kept (pass_step p) cutover_step r steps (h.ready e p);
    stamped = h.stamped;
    closed = h.closed;
  }

  pub insert_activate-Facts :
      is_done cutover_step steps ≡ true → Facts s a b m (insert activate_step r steps)
  insert_activate-Facts crossed = record {
    crossed = λ _. h.crossed crossed;
    activated = λ _. kept cutover_step activate_step r steps crossed;
    repointed = λ p _. recorded activate_step activate_step r steps refl;
    retired = other cleanup_step activate_step r steps (λ e. cc) ∙ h.retired;
    ready = λ e p. kept (pass_step p) activate_step r steps (h.ready e p);
    stamped = h.stamped;
    closed = h.closed;
  }

  pub insert_pass-Facts :
      (p : Pass) → is_done activate_step steps ≡ true → Facts s a b m (insert (pass_step p) r steps)
  insert_pass-Facts p active = record {
    crossed = λ _. h.crossed (h.activated active);
    activated = λ _. kept cutover_step (pass_step p) r steps (h.activated active);
    repointed = λ q _. kept activate_step (pass_step p) r steps active;
    retired =
        other cleanup_step (pass_step p) r steps (λ e. pass_step-apart p cleanup_step refl (sym e))
        ∙ h.retired;
    ready = λ e q. kept (pass_step q) (pass_step p) r steps (h.ready e q);
    stamped = h.stamped;
    closed = h.closed;
  }

  pub to_migrated-Facts :
      position s ≡ 2
      → ((p : Pass) → is_done (pass_step p) steps ≡ true)
      → Facts migrated a true m (insert cleanup_step r steps)
  unfolding nat_eq
  to_migrated-Facts third ready = record {
    crossed = λ d.
        let past : 2 ≤ position migrated = omega arith in
        (past, (h.crossed (sym (other cutover_step cleanup_step r steps (λ e. cc)) ∙ d)).1);
    activated = λ d.
        kept cutover_step cleanup_step r steps
          (h.activated (sym (other activate_step cleanup_step r steps (λ e. cc)) ∙ d));
    repointed = λ p d. kept activate_step cleanup_step r steps (h.repointed p (ready p));
    retired = recorded cleanup_step cleanup_step r steps refl;
    ready = λ e p. kept (pass_step p) cleanup_step r steps (ready p);
    stamped = ground (arith, h.stamped);
    closed = refl;
  }
