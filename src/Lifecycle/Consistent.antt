-- ===== src/Lifecycle/Consistent.antt =====
-- The invariant of a project's rows, and the updates that keep it.
use netbox_scripts.Base.{
  ℕ, ◌+◌, ◌<◌, ◌≡◌, refl, sym, ap, ◌∙◌, Bool, true, false, List, [], ◌∷◌, ◌++◌, Option, none, some,
  arith, if◌then◌else◌, ◌==◌, nat_eq, any_of, All, All-append, All-map_into, Bool-cases, inl, inr,
}
use netbox_scripts.Lifecycle.{
  is_active, Revision, Project, Rows, find_revision, update_where, points_at,
}

abbrev pub active_of : Option Project → Option ℕ
active_of none = none
active_of (some p) = p.active_revision

-- A row is ACTIVE exactly if the project points at it.
abbrev pub Agrees : Option ℕ → Revision → Type 0
Agrees pointer r = is_active r.status ≡ points_at pointer r.pk

abbrev pub NodupPks : List Revision → Type 0
NodupPks [] = Unit
NodupPks (r ∷ rs) = (any_of (λ (s : Revision). s.pk == r.pk) rs ≡ false) × NodupPks rs

-- The pointer names a row.
abbrev pub pointed : Option ℕ → List Revision → Bool
pointed none rs = true
pointed (some pk) rs = any_of (λ (r : Revision). r.pk == pk) rs

pub record IsConsistent (w : Rows) : Type 0 where
  pub agrees : All (Agrees (active_of w.project)) w.revisions
  pub present : pointed (active_of w.project) w.revisions ≡ true
  pub distinct : NodupPks w.revisions
  pub below : All (λ (r : Revision). r.pk < w.next_revision) w.revisions

module _ (test : Revision → Bool) (change : Revision → Revision) where
  -- A property of rows that the change keeps wherever the test holds.
  pub All-update_where :
      (P Q : Revision → Type 0)
      → ((r : Revision) → P r → test r ≡ true → Q (change r))
      → ((r : Revision) → P r → test r ≡ false → Q r)
      → (rs : List Revision) → All P rs
      → All Q (update_where test change rs)
  unfolding update_where
  All-update_where P Q f g [] h = tt
  All-update_where P Q f g (r ∷ rs) h = elim (Bool-cases (test r)) [
    | inl on ↦ rw (on, update_where) (f r h.0 on, All-update_where P Q f g rs h.1)
    | inr off ↦ rw (off, update_where) (g r h.0 off, All-update_where P Q f g rs h.1)
  ]

  module _ (same_pk : (r : Revision) → (change r).pk ≡ r.pk) where
    pub any_pk-update_where :
        (pk : ℕ) (rs : List Revision)
        → any_of (λ (r : Revision). r.pk == pk) (update_where test change rs)
          ≡ any_of (λ (r : Revision). r.pk == pk) rs
    unfolding update_where
    any_pk-update_where pk [] = refl
    any_pk-update_where pk (r ∷ rs) = ground (arith, same_pk r, any_pk-update_where pk rs)

    pub pointed-update_where :
        (pointer : Option ℕ) (rs : List Revision)
        → pointed pointer (update_where test change rs) ≡ pointed pointer rs
    pointed-update_where none rs = refl
    pointed-update_where (some pk) rs = any_pk-update_where pk rs

    pub NodupPks-update_where :
        (rs : List Revision) → NodupPks rs → NodupPks (update_where test change rs)
    unfolding update_where
    NodupPks-update_where [] h = tt
    NodupPks-update_where (r ∷ rs) h =
        ground (arith, same_pk r, any_pk-update_where r.pk rs, NodupPks-update_where rs h.1)

    -- The row with a key after the update.
    pub find-update_where :
        (pk : ℕ) (rs : List Revision)
        → find_revision pk (update_where test change rs) ≡ (elim (find_revision pk rs) [
          | none ↦ none
          | some r ↦ some (if test r then change r else r)
        ])
    unfolding update_where find_revision
    find-update_where pk [] = refl
    find-update_where pk (r ∷ rs) = ground (arith, same_pk r, find-update_where pk rs)

-- An update that keeps the keys, and neither touches an ACTIVE row nor makes one.
pub record IsQuiet (test : Revision → Bool) (change : Revision → Revision) : Type 0 where
  pub same_pk : (r : Revision) → (change r).pk ≡ r.pk
  pub before : (r : Revision) → test r ≡ true → is_active r.status ≡ false
  pub after : (r : Revision) → test r ≡ true → is_active (change r).status ≡ false

pub quiet-IsConsistent :
    (test : Revision → Bool) (change : Revision → Revision) (w : Rows)
    → IsQuiet test change
    → IsConsistent w
    → IsConsistent (record w { revisions = update_where test change w.revisions })
quiet-IsConsistent test change w q h = record {
  agrees =
      All-update_where test change (Agrees (active_of w.project)) (Agrees (active_of w.project))
        (λ r a on.
          q.after r on
          ∙ (sym (q.before r on) ∙ (a ∙ ap (points_at (active_of w.project)) (sym (q.same_pk r)))))
        (λ r a off. a) w.revisions h.agrees;
  present =
      pointed-update_where test change q.same_pk (active_of w.project) w.revisions ∙ h.present;
  distinct = NodupPks-update_where test change q.same_pk w.revisions h.distinct;
  below =
      All-update_where test change (λ r. r.pk < w.next_revision) (λ r. r.pk < w.next_revision)
        (λ r b on. rw (q.same_pk r) b) (λ r b off. b) w.revisions h.below;
}

-- Rows that hold the same revisions under the same pointer.
pub same-IsConsistent :
    (w : Rows) (p : Project)
    → p.active_revision ≡ active_of w.project
    → IsConsistent w
    → IsConsistent (record w { project = some p })
same-IsConsistent w p e h = record {
  agrees = rw e h.agrees;
  present = rw e h.present;
  distinct = h.distinct;
  below = h.below;
}

points-fresh :
    (pointer : Option ℕ) (n : ℕ) (rs : List Revision)
    → All (λ (r : Revision). r.pk < n) rs
    → pointed pointer rs ≡ true
    → points_at pointer n ≡ false
points-fresh none n rs b h = refl
points-fresh (some pk) n [] b h = cc
points-fresh (some pk) n (r ∷ rs) b h = ground (arith, points-fresh (some pk) n rs b.1)

pointed-append :
    (pointer : Option ℕ) (rs : List Revision) (r : Revision)
    → pointed pointer rs ≡ true
    → pointed pointer (rs ++ (r ∷ [])) ≡ true
pointed-append none rs r h = refl
pointed-append (some pk) [] r h = cc
pointed-append (some pk) (s ∷ rs) r h = ground (arith, pointed-append (some pk) rs r)

any_pk-append :
    (pk : ℕ) (rs : List Revision) (r : Revision)
    → any_of (λ (r : Revision). r.pk == pk) rs ≡ false
    → (r.pk == pk) ≡ false
    → any_of (λ (r : Revision). r.pk == pk) (rs ++ (r ∷ [])) ≡ false
any_pk-append pk [] r h e = ground arith
any_pk-append pk (s ∷ rs) r h e = ground (arith, any_pk-append pk rs r)

NodupPks-append :
    (rs : List Revision) (r : Revision)
    → All (λ (s : Revision). s.pk < r.pk) rs
    → NodupPks rs
    → NodupPks (rs ++ (r ∷ []))
NodupPks-append [] r b h = (refl, tt)
NodupPks-append (s ∷ rs) r b h =
    (any_pk-append s.pk rs r h.0 (ground (arith, b.0)), NodupPks-append rs r b.1 h.1)

-- A new row that is not ACTIVE takes the next key.
pub add-IsConsistent :
    (w : Rows) (r : Revision)
    → r.pk ≡ w.next_revision
    → is_active r.status ≡ false
    → IsConsistent w
    → IsConsistent
        (record w { revisions = w.revisions ++ (r ∷ []); next_revision = w.next_revision + 1 })
add-IsConsistent w r e quiet h = record {
  agrees = All-append (Agrees (active_of w.project)) w.revisions (r ∷ []) h.agrees (
    rw e (
        quiet
        ∙ sym (points-fresh (active_of w.project) w.next_revision w.revisions h.below h.present)),
    tt,
  );
  present = pointed-append (active_of w.project) w.revisions r h.present;
  distinct = NodupPks-append w.revisions r (rw e h.below) h.distinct;
  below =
      All-append (λ (s : Revision). s.pk < w.next_revision + 1) w.revisions (r ∷ [])
        (All-map_into _ _ w.revisions (λ s b. omega arith) h.below) (rw e (omega arith), tt);
}
