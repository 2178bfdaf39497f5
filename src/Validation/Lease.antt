-- ===== src/Validation/Lease.antt =====
-- The lease of netbox_scripts/validation.py: who may write to a revision after a claim.
use netbox_scripts.Base.{
  ℕ, ◌+◌, ◌≤◌, ◌≡◌, refl, ap, Bool, true, false, List, [], ◌∷◌, arith, ◌==◌, nat_eq, any_of,
  Bool-cases, inl, inr,
}
use netbox_scripts.Text.{Text}
use netbox_scripts.Json.{Value}
use netbox_scripts.Lifecycle.{Revision, Rows, is_active, update_where, with_pk, set_revisions}
use netbox_scripts.Lifecycle.Consistent.{IsConsistent, NodupPks, quiet-IsConsistent}
use netbox_scripts.Validation.{
  claim, claimable, claimed_by, owned, finalize, revert_to_materialized, Verdict,
  validation_lease_seconds,
}

-- An update that no row passes changes nothing.
pub update_where_none :
    (test : Revision → Bool) (change : Revision → Revision) (rs : List Revision)
    → any_of test rs ≡ false
    → update_where test change rs ≡ rs
unfolding update_where
update_where_none test change [] h = refl
update_where_none test change (r ∷ rs) h = ground (arith, update_where_none test change rs)

-- A conditional update that no row passes reports so and leaves the rows.
no_update :
    (test : Revision → Bool) (change : Revision → Revision) (w : Rows)
    → any_of test w.revisions ≡ false
    → ◌≡◌ {A = Bool × Rows}
        (any_of test w.revisions, set_revisions w (update_where test change w.revisions))
        (false, w)
no_update test change w h = rw (h, update_where_none test change w.revisions h) refl

other_pk :
    (pk : ℕ) (t : Revision → Bool) (rs : List Revision)
    → any_of (λ (s : Revision). s.pk == pk) rs ≡ false
    → any_of (with_pk pk t) rs ≡ false
other_pk pk t [] h = refl
other_pk pk t (r ∷ rs) h = ground (arith, other_pk pk t rs)

module _ (pk : ℕ) (t later : Revision → Bool) (change : Revision → Revision)
    (same_pk : (r : Revision) → (change r).pk ≡ r.pk) where
  -- What no changed row passes, no row with the key passes.
  update-none :
      (rs : List Revision)
      → ((r : Revision) → later (change r) ≡ false)
      → NodupPks rs
      → any_of (with_pk pk t) rs ≡ true
      → any_of (with_pk pk later) (update_where (with_pk pk t) change rs) ≡ false
  unfolding update_where
  update-none [] off d h = cc
  update-none (r ∷ rs) off d h = elim (Bool-cases (r.pk == pk)) [
    | inl here ↦
        let gone : any_of (λ (s : Revision). s.pk == pk) rs ≡ false = ground (arith, d.0) in
        ground (
          arith,
          here,
          off r,
          same_pk r,
          other_pk pk t rs gone,
          other_pk pk later rs gone,
          update_where_none (with_pk pk t) change rs (other_pk pk t rs gone),
        )
    | inr there ↦ ground (arith, there, update-none rs off d.1)
  ]

  -- What every changed row passes, the row that was changed passes.
  update-some :
      (rs : List Revision)
      → ((r : Revision) → later (change r) ≡ true)
      → any_of (with_pk pk t) rs ≡ true
      → any_of (with_pk pk later) (update_where (with_pk pk t) change rs) ≡ true
  unfolding update_where
  update-some [] on h = cc
  update-some (r ∷ rs) on h = ground (arith, on r, same_pk r, update-some rs on)

-- The rows after a successful claim, as the tests of the later statements see them.
module _ (pk job now : ℕ) (w : Rows) (distinct : NodupPks w.revisions)
    (won : (claim pk job now w).0 ≡ true) where
  after_claim-none :
      (later : Revision → Bool)
      → ((r : Revision) → later (claimed_by job now r) ≡ false)
      → any_of (with_pk pk later) (claim pk job now w).1.revisions ≡ false
  unfolding claim
  after_claim-none later off =
      update-none pk (claimable now) later (claimed_by job now) (λ r. refl) w.revisions off distinct
        won

  -- After a claim that won, of rows with distinct keys, a claim of the revision by any job at a time
  -- up to the end of the lease updates no row.
  pub claim-exclusive :
      (rival later : ℕ)
      → later ≤ now + validation_lease_seconds
      → claim pk rival later (claim pk job now w).1 ≡ (false, (claim pk job now w).1)
  unfolding claim
  claim-exclusive rival later within =
      no_update (with_pk pk (claimable later)) (claimed_by rival later) (claim pk job now w).1
        (after_claim-none (claimable later) (λ r. ground arith))

  -- After a claim that won, of rows with distinct keys, any other job can write neither its verdict,
  -- which reports so, nor its return to MATERIALIZED.
  pub claim-superseded :
      (old : ℕ) (verdict : Verdict) (errors scripts : Value) (reason : Text)
      → (job == old) ≡ false
      → (finalize pk old verdict errors scripts (claim pk job now w).1
          ≡ (false, (claim pk job now w).1))
        × (revert_to_materialized pk old reason (claim pk job now w).1 ≡ (claim pk job now w).1)
  unfolding finalize revert_to_materialized
  claim-superseded old verdict errors scripts reason other =
      let w' = (claim pk job now w).1 in
      let none_owned = after_claim-none (owned old) (λ r. other) in
      (
        no_update (with_pk pk (owned old)) _ w' none_owned,
        ap (set_revisions w')
            (update_where_none (with_pk pk (owned old)) _ w'.revisions none_owned),
      )

  -- After a claim that won, of rows with distinct keys, the verdict of the claiming job finds its row,
  -- and reports so.
  pub claim-finalize :
      (verdict : Verdict) (errors scripts : Value)
      → (finalize pk job verdict errors scripts (claim pk job now w).1).0 ≡ true
  unfolding finalize claim
  claim-finalize verdict errors scripts =
      update-some pk (claimable now) (owned job) (claimed_by job now) (λ r. refl) w.revisions
        (λ r. ground arith) won

quiet_owned :
    (job : ℕ) (pk : ℕ) (r : Revision) → with_pk pk (owned job) r ≡ true → is_active r.status ≡ false
quiet_owned job pk r h = ground arith

pub claim-IsConsistent :
    (pk job now : ℕ) (w : Rows) → IsConsistent w → IsConsistent (claim pk job now w).1
unfolding claim
claim-IsConsistent pk job now w h =
    quiet-IsConsistent _ _ w
      (record { same_pk = λ r. refl; before = λ r on. ground arith; after = λ r on. refl }) h

pub finalize-IsConsistent :
    (pk job : ℕ) (verdict : Verdict) (errors scripts : Value) (w : Rows)
    → IsConsistent w
    → IsConsistent (finalize pk job verdict errors scripts w).1
unfolding finalize
finalize-IsConsistent pk job verdict errors scripts w h =
    quiet-IsConsistent _ _ w
      (record { same_pk = λ r. refl; before = quiet_owned job pk; after = λ r on. ground arith }) h

pub revert-IsConsistent :
    (pk job : ℕ) (reason : Text) (w : Rows)
    → IsConsistent w
    → IsConsistent (revert_to_materialized pk job reason w)
unfolding revert_to_materialized
revert-IsConsistent pk job reason w h =
    quiet-IsConsistent _ _ w
      (record { same_pk = λ r. refl; before = quiet_owned job pk; after = λ r on. refl }) h
