-- ===== src/Declarations/Saves.antt =====
-- The saves of netbox_scripts/models/scripts.py, and the selection of netbox_scripts/models/projects.py,
-- keep the invariant of the declared files.
use netbox_scripts.Base.{
  ℕ, suc, ◌≤◌, ◌<◌, ◌≡◌, ◌≢◌, refl, sym, ap, ◌∙◌, Bool, true, not, List, [], ◌∷◌, none, some, arith,
  ◌==◌, nat_eq, text_eq, contains, keep_if, any_of, All, All-map_into, ok, err, Option-cases,
  Result-cases, inl, inr, if-cases,
}
use netbox_scripts.Text.{Text}
use netbox_scripts.Unicode.{Unicode, IsLawful}
use netbox_scripts.Names.Importable.{IsPlain}
use netbox_scripts.ScriptFiles.{ScriptFile}
use netbox_scripts.Declarations.{
  Declaration, Declared, Written, everything, only_enabled, find_row, new_row, replace_row,
  conflicts, sibling_path_conflict, Saved, sibling_conflict, check_source_path, insert_row, written,
  updated, then_save, create_all, switch_all, is_changed, missing_paths, reconcile, identity_frozen,
  update_row,
}
use netbox_scripts.Declarations.Sound.{
  files, IsDeclared, add-IsDeclared, replace-files, check_source_path_sound, find_row-none,
}

module _ (u : Unicode) (law : IsLawful u)
    (plain : (s : Text) → u.is_identifier s ≡ true → All IsPlain s) where
  fresh_next :
      (w : Declared) → IsDeclared u w → All (λ (f : ScriptFile). f.pk ≢ w.next) (files w.rows)
  fresh_next w h =
      All-map_into (λ f. f.pk < w.next) (λ f. f.pk ≢ w.next) (files w.rows)
        (λ f b e. omega (arith, b, e)) h.below

  pub insert_row-IsDeclared :
      (raw : Text) (enabled : Bool) (w : Declared)
      → IsDeclared u w
      → IsDeclared u (insert_row u raw enabled w).1
  unfolding insert_row sibling_path_conflict
  insert_row-IsDeclared raw enabled w h = elim (Result-cases (check_source_path u raw)) [
    | inr (e, refused) ↦ rw (refused) h
    | inl ((path, dotted), found) ↦
        let (canonical, imports) = check_source_path_sound u law plain raw path dotted found in
        rw (found) (
          if-cases (λ (s : Saved u). IsDeclared u s.1)
            (any_of (λ (d : Declaration). conflicts u path dotted d.source_path) w.rows)
            (err sibling_conflict, w) _ (λ _. h)
            (λ free.
              add-IsDeclared u w (new_row w.next path enabled) dotted (suc w.next) h
                (record {
                  positive = h.positive;
                  canonical = canonical;
                  dotted = dotted;
                  imports = imports;
                })
                imports (fresh_next w h) free (omega arith) (omega arith)))
  ]

  -- The row of a stored instance is replaced, in its place.
  replaced-IsDeclared :
      (w : Declared) (d row : Declaration)
      → IsDeclared u w
      → find_row d.pk w.rows ≡ some row
      → IsDeclared u (record w { rows = replace_row (written u d row) w.rows })
  replaced-IsDeclared w d row h found =
      let same = replace-files u d row w.rows found in
      record {
        importable = rw same h.importable;
        apart = rw same h.apart;
        below = rw same h.below;
        positive = h.positive;
      }

  found-IsDeclared :
      (fields : Written) (w : Declared) (d row : Declaration) (path : Text)
      → IsDeclared u w
      → find_row d.pk w.rows ≡ some row
      → IsDeclared u (updated u w d fields (some row) path).1
  found-IsDeclared everything w d row path h found =
      if-cases (λ (s : Saved u). IsDeclared u s.1) (not (row.source_path == path))
        (err identity_frozen, w) _ (λ _. h) (λ _. replaced-IsDeclared w d row h found)
  found-IsDeclared only_enabled w d row path h found =
      if-cases (λ (s : Saved u). IsDeclared u s.1) (not (row.source_path == path))
        (err identity_frozen, w) _ (λ _. h) (λ _. replaced-IsDeclared w d row h found)

  pub switch_row-IsDeclared :
      (d : Declaration) (w : Declared)
      → IsDeclared u w
      → IsDeclared u (update_row u d only_enabled w).1
  unfolding update_row
  switch_row-IsDeclared d w h = elim (Result-cases (check_source_path u d.source_path)) [
    | inr (e, refused) ↦ rw (refused) h
    | inl ((path, dotted), sound) ↦ elim (Option-cases (find_row d.pk w.rows)) [
      | inl gone ↦ rw (sound, gone) h
      | inr (row, found) ↦ rw (sound, found) (found-IsDeclared only_enabled w d row path h found)
    ]
  ]

  others_all :
      (pk : ℕ) (rows : List Declaration)
      → find_row pk rows ≡ none
      → keep_if (λ d. not (d.pk == pk)) rows ≡ rows
  others_all pk [] h = refl
  others_all pk (r ∷ rows) h = ground (arith, h, others_all pk rows)

  pub save_row-IsDeclared :
      (d : Declaration) (w : Declared)
      → 1 ≤ d.pk
      → d.pk < w.next
      → IsDeclared u w
      → IsDeclared u (update_row u d everything w).1
  unfolding update_row sibling_path_conflict
  save_row-IsDeclared d w first under h = elim (Result-cases (check_source_path u d.source_path)) [
    | inr (e, refused) ↦ rw (refused) h
    | inl ((path, dotted), sound) ↦
        let (canonical, imports) =
          check_source_path_sound u law plain d.source_path path dotted sound in
        let clash =
          any_of (λ (r : Declaration). conflicts u path dotted r.source_path)
            (keep_if (λ (r : Declaration). not (r.pk == d.pk)) w.rows) in
        rw (sound) (
          if-cases (λ (s : Saved u). IsDeclared u s.1) clash (err sibling_conflict, w) _ (λ _. h)
            (λ free. elim (Option-cases (find_row d.pk w.rows)) [
              | inl gone ↦ rw (gone) (
                  add-IsDeclared u w (record d { source_path = path }) dotted w.next h
                    (record {
                      positive = first;
                      canonical = canonical;
                      dotted = dotted;
                      imports = imports;
                    })
                    imports (find_row-none d.pk w.rows gone)
                    (ap (any_of (λ (r : Declaration). conflicts u path dotted r.source_path))
                        (sym (others_all d.pk w.rows gone))
                      ∙ free)
                    (omega arith) under)
              | inr (row, found) ↦ rw (found) (found-IsDeclared everything w d row path h found)
            ]))
  ]

  then_save-IsDeclared :
      (next : Declared → Saved u) (s : Saved u)
      → ((w : Declared) → IsDeclared u w → IsDeclared u (next w).1)
      → IsDeclared u s.1
      → IsDeclared u (then_save u next s).1
  then_save-IsDeclared next (ok a, w) f h = f w h
  then_save-IsDeclared next (err e, w) f h = h

  create_all-IsDeclared :
      (paths : List Text) (w : Declared) → IsDeclared u w → IsDeclared u (create_all u paths w).1
  unfolding create_all
  create_all-IsDeclared [] w h = h
  create_all-IsDeclared (path ∷ paths) w h =
      then_save-IsDeclared (λ w'. create_all u paths w') (insert_row u path true w)
        (create_all-IsDeclared paths) (insert_row-IsDeclared path true w h)

  switch_all-IsDeclared :
      (selected : List Text) (rows : List Declaration) (w : Declared)
      → IsDeclared u w
      → IsDeclared u (switch_all u selected rows w).1
  unfolding switch_all
  switch_all-IsDeclared selected [] w h = h
  switch_all-IsDeclared selected (d ∷ rows) w h =
      let moved = record d { enabled = contains selected d.source_path } in
      then_save-IsDeclared (λ w'. switch_all u selected rows w') (update_row u moved only_enabled w)
        (switch_all-IsDeclared selected rows) (switch_row-IsDeclared moved w h)

  pub reconcile-IsDeclared :
      (selected : List Text) (w : Declared)
      → IsDeclared u w
      → IsDeclared u (reconcile u selected w).1
  unfolding reconcile
  reconcile-IsDeclared selected w h =
      then_save-IsDeclared (λ w'. switch_all u selected (keep_if (is_changed u selected) w.rows) w')
        (create_all u (missing_paths u selected w.rows) w) (switch_all-IsDeclared selected _)
        (create_all-IsDeclared (missing_paths u selected w.rows) w h)
