-- ===== src/Activation/Consistent.antt =====
-- Activation and deactivation (netbox_scripts/activation.py) keep the rows consistent.
use netbox_scripts.Base.{
  ℕ, ◌≡◌, refl, sym, ap, ◌∙◌, Bool, true, false, not, ◌&&◌, List, [], ◌∷◌, Option, none, some,
  arith, nat_eq, Bool-cases, Option-cases, Result-cases, inl, inr, ok, err,
}
use netbox_scripts.Text.{Text}
use netbox_scripts.Manifest.{Bytes}
use netbox_scripts.Lifecycle.{Revision, Project, Rows, find_revision, points_at}
use netbox_scripts.Lifecycle.Consistent.{IsConsistent, same-IsConsistent, active_of}
use netbox_scripts.Unicode.{Unicode}
use netbox_scripts.Backend.{Backend}
use netbox_scripts.Staging.{World}
use netbox_scripts.Activation.{
  Transaction, rolled_back, clear_pending, move_pointer, automatic_current, changed_since,
  require_activatable, promote_body, promote, finish, called, checked, serves, deactivate_body,
  deactivate_revision, publish, synchronized, activate_revision, validated_records,
  verify_promotable,
}
use netbox_scripts.Activation.Pointer.{found-any_pk, stand_down-IsConsistent, move_from}

-- A callback leaves the project and its revisions alone.
pub record KeepsRevisions {R : Type 0} (on_promote : Project → Revision → Rows → Transaction R)
    : Type 0 where
  pub project : (p : Project) (r : Revision) (w : Rows) → (on_promote p r w).1.project ≡ w.project
  pub revisions :
      (p : Project) (r : Revision) (w : Rows) → (on_promote p r w).1.revisions ≡ w.revisions
  pub next :
      (p : Project) (r : Revision) (w : Rows) → (on_promote p r w).1.next_revision ≡ w.next_revision

pub publish-KeepsRevisions :
    (choices : List Text) (repair : Bool) → KeepsRevisions (publish choices repair)
unfolding publish
publish-KeepsRevisions choices repair = record {
  project = λ p r w. ground arith;
  revisions = λ p r w. ground arith;
  next = λ p r w. ground arith;
}

like-IsConsistent :
    (w w' : Rows)
    → w'.project ≡ w.project
    → w'.revisions ≡ w.revisions
    → w'.next_revision ≡ w.next_revision
    → IsConsistent w
    → IsConsistent w'
like-IsConsistent w w' e f g h = record {
  agrees = rw (e, f) h.agrees;
  present = rw (e, f) h.present;
  distinct = rw f h.distinct;
  below = rw (f, g) h.below;
}

pub clear_pending-active :
    (p : Project) (pk : ℕ) → (clear_pending p pk).active_revision ≡ p.active_revision
unfolding clear_pending
clear_pending-active p pk = ground arith

pub found-pk :
    (pk : ℕ) (rs : List Revision) (r : Revision) → find_revision pk rs ≡ some r → r.pk ≡ pk
unfolding find_revision
found-pk pk [] r h = cc
found-pk pk (s ∷ rs) r h = ground (arith, found-pk pk rs r)

rolled_back-IsConsistent :
    {A : Type 0} (w : Rows) (t : Transaction A)
    → IsConsistent w
    → IsConsistent t.1
    → IsConsistent (rolled_back w t).1
rolled_back-IsConsistent w (ok a, w') h k = k
rolled_back-IsConsistent w (err e, w') h k = h

found_self :
    (pk : ℕ) (rs : List Revision) (r : Revision)
    → find_revision pk rs ≡ some r
    → find_revision r.pk rs ≡ some r
found_self pk rs r h = ap (λ k. find_revision k rs) (found-pk pk rs r h) ∙ h

pub points_at→≡ : (pointer : Option ℕ) (pk : ℕ) → points_at pointer pk ≡ true → pointer ≡ some pk
points_at→≡ none pk h = cc
points_at→≡ (some p) pk h = ground arith

deactivate_body-IsConsistent :
    (choices : List Text) (pk : ℕ) (w : Rows)
    → IsConsistent w
    → IsConsistent (deactivate_body choices pk w).1
unfolding deactivate_body
deactivate_body-IsConsistent choices pk w h = elim (Option-cases w.project) [
  | inl gone ↦ rw (gone, deactivate_body) h
  | inr (p, e) ↦ elim (Option-cases (find_revision pk w.revisions)) [
    | inl lost ↦ rw (e, lost, deactivate_body) h
    | inr (locked, f) ↦ elim (Bool-cases (points_at p.active_revision locked.pk)) [
      | inr other ↦ rw (e, f, other, deactivate_body) h
      | inl served ↦
          let at : p.active_revision ≡ some pk =
            points_at→≡ p.active_revision locked.pk served
            ∙ ap some (found-pk pk w.revisions locked f) in
          rw (e, f, served, deactivate_body)
            (stand_down-IsConsistent p pk (synchronized choices locked [] w).0
              (like-IsConsistent w (synchronized choices locked [] w).0 refl refl refl h)
              (ap active_of e ∙ at))
    ]
  ]
]

-- Deactivation leaves consistent rows consistent, on every branch.
pub deactivate-IsConsistent :
    (choices : List Text) (pk : ℕ) (w : Rows)
    → IsConsistent w
    → IsConsistent (deactivate_revision choices pk w).1
unfolding deactivate_revision
deactivate-IsConsistent choices pk w h =
    rolled_back-IsConsistent w (deactivate_body choices pk w) h
      (deactivate_body-IsConsistent choices pk w h)

module _ (sha256 : Bytes → Text) {R : Type 0}
    (on_promote : Project → Revision → Rows → Transaction R) where
  finish-IsConsistent :
      (now : ℕ) (p : Project) (locked : Revision) (already : Bool) (result : R) (w : Rows)
      → IsConsistent w
      → p.active_revision ≡ active_of w.project
      → find_revision locked.pk w.revisions ≡ some locked
      → IsConsistent (finish sha256 on_promote now p locked already result w).1
  finish-IsConsistent now p locked true result w h e f =
      same-IsConsistent w (clear_pending p locked.pk) (clear_pending-active p locked.pk ∙ e) h
  finish-IsConsistent now p locked false result w h e f =
      elim (Result-cases (move_pointer now (clear_pending p locked.pk) locked.pk w)) [
        | inl (w', moved) ↦ rw moved (
            move_from p.active_revision now (clear_pending p locked.pk) locked.pk w w'
              (clear_pending-active p locked.pk) h e (found-any_pk locked.pk w.revisions locked f)
              moved)
        | inr (x, failed) ↦ rw failed h
      ]

  called-IsConsistent :
      KeepsRevisions on_promote
      → (now : ℕ) (p : Project) (locked : Revision) (already : Bool) (w : Rows) → IsConsistent w
      → p.active_revision ≡ active_of w.project
      → find_revision locked.pk w.revisions ≡ some locked
      → IsConsistent (called sha256 on_promote now p locked already (on_promote p locked w)).1
  called-IsConsistent keeps now p locked already w h e f =
      called_from (on_promote p locked w) (keeps.project p locked w) (keeps.revisions p locked w)
        (keeps.next p locked w)
    where
      called_from :
          (t : Transaction R)
          → t.1.project ≡ w.project
          → t.1.revisions ≡ w.revisions
          → t.1.next_revision ≡ w.next_revision
          → IsConsistent (called sha256 on_promote now p locked already t).1
      called_from (err x, w') a b c = like-IsConsistent w w' a b c h
      called_from (ok result, w') a b c =
          finish-IsConsistent now p locked already result w' (like-IsConsistent w w' a b c h)
            (e ∙ ap active_of (sym a)) (ap (find_revision locked.pk) b ∙ f)

  checked-IsConsistent :
      KeepsRevisions on_promote
      → (now : ℕ) (p : Project) (locked : Revision) (w : Rows) → IsConsistent w
      → p.active_revision ≡ active_of w.project
      → find_revision locked.pk w.revisions ≡ some locked
      → IsConsistent (checked sha256 on_promote now p locked w).1
  checked-IsConsistent keeps now p locked w h e f =
      elim (Result-cases (require_activatable locked (serves p locked))) [
        | inr (x, refused) ↦ rw (refused, checked) h
        | inl (done, fine) ↦
            rw (fine, checked) (called-IsConsistent keeps now p locked (serves p locked) w h e f)
      ]

  promote_body-IsConsistent :
      KeepsRevisions on_promote
      → (snapshot : Revision) (automatic : Bool) (now : ℕ) (w : Rows) → IsConsistent w
      → IsConsistent (promote_body sha256 on_promote snapshot automatic now w).1
  unfolding promote_body
  promote_body-IsConsistent keeps snapshot automatic now w h = elim (Option-cases w.project) [
    | inl gone ↦ rw (gone, promote_body) h
    | inr (p, e) ↦ elim (Option-cases (find_revision snapshot.pk w.revisions)) [
      | inl lost ↦ rw (e, lost, promote_body) h
      | inr (locked, f) ↦
          elim (Bool-cases (automatic && not (automatic_current sha256 p locked w))) [
            | inl lapsed ↦ rw (e, f, lapsed, promote_body) h
            | inr current ↦ elim (Bool-cases (changed_since snapshot locked)) [
              | inl differs ↦ rw (e, f, current, differs, promote_body) h
              | inr same ↦
                  rw (e, f, current, same, promote_body)
                    (checked-IsConsistent keeps now p locked w h (ap active_of (sym e))
                      (found_self snapshot.pk w.revisions locked f))
            ]
          ]
    ]
  ]

  -- Promotion of consistent rows leaves them consistent, whether it succeeds, lapses or raises, if
  -- the callback leaves the project, the revisions and the next key alone.
  pub promote-IsConsistent :
      KeepsRevisions on_promote
      → (snapshot : Revision) (automatic : Bool) (now : ℕ) (w : Rows) → IsConsistent w
      → IsConsistent (promote sha256 on_promote snapshot automatic now w).1
  unfolding promote
  promote-IsConsistent keeps snapshot automatic now w h =
      rolled_back-IsConsistent w (promote_body sha256 on_promote snapshot automatic now w) h
        (promote_body-IsConsistent keeps snapshot automatic now w h)

-- Activation leaves the rows consistent, whether the request publishes, repairs, lapses or raises.
pub activate-IsConsistent :
    (choices : List Text) (B : Backend) (u : Unicode) (sha256 : Bytes → Text)
    (parse_uuid : Text → Option Text) (given : Revision) (automatic repair : Bool) (now : ℕ)
    (w : World B)
    → IsConsistent w.rows
    → IsConsistent
        (activate_revision choices B u sha256 parse_uuid given automatic repair now w).1.rows
unfolding activate_revision
activate-IsConsistent choices B u sha256 parse_uuid given automatic repair now w h =
    elim (Result-cases (validated_records choices given)) [
      | inr (e, bad) ↦ rw (bad, activate_revision) h
      | inl (records, fine) ↦ elim (Option-cases (find_revision given.pk w.rows.revisions)) [
        | inl lost ↦ rw (fine, lost, activate_revision) h
        | inr (snapshot, found) ↦
            elim (Result-cases (verify_promotable choices B u sha256 parse_uuid snapshot w)) [
              | inr (e, refused) ↦ rw (fine, found, refused, activate_revision) h
              | inl (done, verified) ↦
                  rw (fine, found, verified, activate_revision)
                    (promote-IsConsistent sha256 (publish choices repair)
                      (publish-KeepsRevisions choices repair) snapshot automatic now w.rows h)
            ]
      ]
    ]
