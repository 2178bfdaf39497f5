-- ===== src/Activation/Serves.antt =====
-- What a successful promotion of netbox_scripts/activation.py leaves: the revision is in service.
use netbox_scripts.Base.{
  ℕ, ◌≡◌, refl, ap, ◌∙◌, Bool, true, false, not, ◌&&◌, some, arith, nat_eq, Bool-cases,
  Option-cases, Result-cases, inl, inr, ok, err,
}
use netbox_scripts.Text.{Text}
use netbox_scripts.Manifest.{Bytes}
use netbox_scripts.Lifecycle.{Revision, Project, Rows, find_revision}
use netbox_scripts.Lifecycle.Consistent.{active_of}
use netbox_scripts.Activation.{
  Transaction, rolled_back, clear_pending, move_pointer, automatic_current, changed_since,
  require_activatable, promote_body, promote, finish, called, checked, serves,
}
use netbox_scripts.Activation.Consistent.{clear_pending-active, found-pk, points_at→≡}

move_pointer-active :
    (now : ℕ) (p : Project) (pk : ℕ) (w w' : Rows)
    → move_pointer now p pk w ≡ ok w'
    → active_of w'.project ≡ some pk
unfolding move_pointer
move_pointer-active now p pk w w' h = ground arith

rolled_back-ok :
    {A : Type 0} (w : Rows) (t : Transaction A) (a : A)
    → (rolled_back w t).0 ≡ ok a
    → ((rolled_back w t).1 ≡ t.1) × (t.0 ≡ ok a)
rolled_back-ok w (ok b, w') a h = (refl, h)
rolled_back-ok w (err e, w') a h = cc

module _ (sha256 : Bytes → Text) {R : Type 0}
    (on_promote : Project → Revision → Rows → Transaction R) where
  finish-active :
      (now : ℕ) (p : Project) (locked : Revision) (already : Bool) (result r : R) (w : Rows)
      → (already ≡ true → p.active_revision ≡ some locked.pk)
      → (finish sha256 on_promote now p locked already result w).0 ≡ ok (some r)
      → active_of (finish sha256 on_promote now p locked already result w).1.project
        ≡ some locked.pk
  finish-active now p locked true result r w at h = clear_pending-active p locked.pk ∙ at refl
  finish-active now p locked false result r w at h =
      elim (Result-cases (move_pointer now (clear_pending p locked.pk) locked.pk w)) [
        | inl (w', moved) ↦
            rw moved (move_pointer-active now (clear_pending p locked.pk) locked.pk w w' moved)
        | inr (x, failed) ↦ absurd (ground (arith, failed))
      ]

  called-active :
      (now : ℕ) (p : Project) (locked : Revision) (already : Bool) (r : R) (t : Transaction R)
      → (already ≡ true → p.active_revision ≡ some locked.pk)
      → (called sha256 on_promote now p locked already t).0 ≡ ok (some r)
      → active_of (called sha256 on_promote now p locked already t).1.project ≡ some locked.pk
  called-active now p locked already r (err e, w) at h = cc
  called-active now p locked already r (ok result, w) at h =
      finish-active now p locked already result r w at h

  serves-active :
      (p : Project) (locked : Revision)
      → serves p locked ≡ true
      → p.active_revision ≡ some locked.pk
  serves-active p locked h = points_at→≡ p.active_revision locked.pk (ground arith)

  promote_body-active :
      (snapshot : Revision) (automatic : Bool) (now : ℕ) (w : Rows) (r : R)
      → (promote_body sha256 on_promote snapshot automatic now w).0 ≡ ok (some r)
      → active_of (promote_body sha256 on_promote snapshot automatic now w).1.project
        ≡ some snapshot.pk
  unfolding promote_body
  promote_body-active snapshot automatic now w r h = elim (Option-cases w.project) [
    | inl gone ↦ absurd (ground (arith, gone))
    | inr (p, e) ↦ elim (Option-cases (find_revision snapshot.pk w.revisions)) [
      | inl lost ↦ absurd (ground (arith, e, lost))
      | inr (locked, f) ↦
          elim (Bool-cases (automatic && not (automatic_current sha256 p locked w))) [
            | inl lapsed ↦ absurd (ground (arith, rw (e, f, lapsed, promote_body) at h))
            | inr current ↦ elim (Bool-cases (changed_since snapshot locked)) [
              | inl differs ↦
                  absurd (ground (arith, rw (e, f, current, differs, promote_body) at h))
              | inr same ↦ elim (Result-cases (require_activatable locked (serves p locked))) [
                | inr (x, refused) ↦
                    absurd (
                      ground (arith, rw (e, f, current, same, refused, checked, promote_body) at h))
                | inl (done, fine) ↦
                    rw (e, f, current, same, fine, checked, promote_body)
                      (called-active now p locked (serves p locked) r (on_promote p locked w)
                          (serves-active p locked)
                          (rw (e, f, current, same, fine, checked, promote_body) at h)
                        ∙ ap some (found-pk snapshot.pk w.revisions locked f))
              ]
            ]
          ]
    ]
  ]

  -- If a promotion succeeds and has not lapsed, the project points at the promoted revision.
  pub promote-active :
      (snapshot : Revision) (automatic : Bool) (now : ℕ) (w : Rows) (r : R)
      → (promote sha256 on_promote snapshot automatic now w).0 ≡ ok (some r)
      → active_of (promote sha256 on_promote snapshot automatic now w).1.project ≡ some snapshot.pk
  unfolding promote
  promote-active snapshot automatic now w r h =
      let (same, done) =
        rolled_back-ok w (promote_body sha256 on_promote snapshot automatic now w) (some r) h in
      ap (λ (v : Rows). active_of v.project) same
      ∙ promote_body-active snapshot automatic now w r done
