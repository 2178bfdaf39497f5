-- ===== src/Activation/Pointer.antt =====
-- The pointer move of netbox_scripts/activation.py keeps the rows consistent.
use netbox_scripts.Base.{
  ℕ, ◌<◌, ◌≡◌, refl, sym, subst, ◌∙◌, Bool, true, List, [], ◌∷◌, Option, none, some, arith, ◌==◌,
  nat_eq, any_of, All, ok,
}
use netbox_scripts.Lifecycle.{
  active, retired, Revision, Project, Rows, find_revision, update_where, with_pk, set_status,
}
use netbox_scripts.Lifecycle.Consistent.{
  IsConsistent, Agrees, active_of, pointed, All-update_where, any_pk-update_where,
  NodupPks-update_where, pointed-update_where,
}
use netbox_scripts.Activation.{move_pointer}

abbrev put_active : ℕ → Revision → Revision
put_active now r = record r { status = active; activated = some now }

abbrev every : Revision → Bool
every r = true

pub found-any_pk :
    (pk : ℕ) (rs : List Revision) (r : Revision)
    → find_revision pk rs ≡ some r
    → any_of (λ (r : Revision). r.pk == pk) rs ≡ true
unfolding find_revision
found-any_pk pk [] r h = cc
found-any_pk pk (s ∷ rs) r h = ground (arith, found-any_pk pk rs r)

-- Retiring the row that the pointer names leaves no ACTIVE row.
retire-none_active :
    (previous : ℕ) (rs : List Revision)
    → All (Agrees (some previous)) rs
    → All (Agrees none) (update_where (with_pk previous every) (set_status retired) rs)
retire-none_active previous rs h =
    All-update_where (with_pk previous every) (set_status retired) (Agrees (some previous))
      (Agrees none) (λ r a on. refl) (λ r a off. ground arith) rs h

-- Making one row ACTIVE where none is makes the pointer to it agree.
activate-Agrees :
    (now pk : ℕ) (rs : List Revision)
    → All (Agrees none) rs
    → All (Agrees (some pk)) (update_where (with_pk pk every) (put_active now) rs)
activate-Agrees now pk rs h =
    All-update_where (with_pk pk every) (put_active now) (Agrees none) (Agrees (some pk))
      (λ r a on. ground arith) (λ r a off. ground arith) rs h

update_every-IsConsistent :
    (pk : ℕ) (change : Revision → Revision) (w : Rows) (p : Project)
    → ((r : Revision) → (change r).pk ≡ r.pk)
    → IsConsistent w
    → All (Agrees p.active_revision) (update_where (with_pk pk every) change w.revisions)
    → pointed p.active_revision w.revisions ≡ true
    → IsConsistent (record w {
      project = some p;
      revisions = update_where (with_pk pk every) change w.revisions;
    })
update_every-IsConsistent pk change w p same h a present = record {
  agrees = a;
  present =
      pointed-update_where (with_pk pk every) change same p.active_revision w.revisions ∙ present;
  distinct = NodupPks-update_where (with_pk pk every) change same w.revisions h.distinct;
  below =
      All-update_where (with_pk pk every) change (λ r. r.pk < w.next_revision)
        (λ r. r.pk < w.next_revision) (λ r b on. rw (same r) b) (λ r b off. b) w.revisions h.below;
}

abbrev none_served : Project → Project
none_served p = record p { active_revision = none }

abbrev now_served : Project → ℕ → Project
now_served p pk = record p { active_revision = some pk }

-- From rows with no ACTIVE one: the row with the key becomes the served one.
serve-IsConsistent :
    (now : ℕ) (p : Project) (pk : ℕ) (w : Rows)
    → IsConsistent w
    → All (Agrees none) w.revisions
    → any_of (λ (r : Revision). r.pk == pk) w.revisions ≡ true
    → IsConsistent (record w {
      project = some (now_served p pk);
      revisions = update_where (with_pk pk every) (put_active now) w.revisions;
    })
serve-IsConsistent now p pk w h a found =
    update_every-IsConsistent pk (put_active now) w (now_served p pk) (λ r. refl) h
      (activate-Agrees now pk w.revisions a) found

pub stand_down-IsConsistent :
    (p : Project) (previous : ℕ) (w : Rows)
    → IsConsistent w
    → active_of w.project ≡ some previous
    → IsConsistent (record w {
      project = some (none_served p);
      revisions = update_where (with_pk previous every) (set_status retired) w.revisions;
    })
stand_down-IsConsistent p previous w h e =
    update_every-IsConsistent previous (set_status retired) w (none_served p) (λ r. refl) h
      (retire-none_active previous w.revisions (rw e at h.agrees)) refl

-- The pointer moves to a row that exists: it alone is ACTIVE afterwards.
pub move_from :
    (old : Option ℕ) (now : ℕ) (p : Project) (pk : ℕ) (w w' : Rows)
    → p.active_revision ≡ old
    → IsConsistent w
    → old ≡ active_of w.project
    → any_of (λ (r : Revision). r.pk == pk) w.revisions ≡ true
    → move_pointer now p pk w ≡ ok w'
    → IsConsistent w'
unfolding move_pointer
move_from none now p pk w w' at h e found moved =
    subst IsConsistent (ground arith)
      (serve-IsConsistent now p pk w h (rw (sym e) at h.agrees) found)
move_from (some previous) now p pk w w' at h e found moved =
    let rs = update_where (with_pk previous every) (set_status retired) w.revisions in
    let idle : Rows = record w { project = some (none_served p); revisions = rs } in
    let a = retire-none_active previous w.revisions (rw (sym e) at h.agrees) in
    subst IsConsistent (ground arith) (
      serve-IsConsistent now p pk idle (stand_down-IsConsistent p previous w h (sym e)) a (
        any_pk-update_where (with_pk previous every) (set_status retired) (λ r. refl) pk w.revisions
        ∙ found))
