-- ===== src/Declarations/Calls.antt =====
-- Any sequence of calls on the declared files of a project, and the snapshot that staging takes of them.
use netbox_scripts.Base.{
  ℕ, ◌≤◌, ◌<◌, ◌≡◌, Bool, true, not, List, [], ◌∷◌, Option, none, some, arith, ◌==◌, nat_eq,
  text_eq, contains, keep_if, All, Pairwise, All-map_into, ok, err, if-cases, Bool-cases, inl, inr,
  Result, any_of, is_empty, ◌||◌, ◌&&◌, ◌++◌,
}
use netbox_scripts.Text.{Text}
use netbox_scripts.Unicode.{Unicode, IsLawful}
use netbox_scripts.Names.Importable.{IsPlain}
use netbox_scripts.Json.{arr, items}
use netbox_scripts.Manifest.{Bytes}
use netbox_scripts.ScriptFiles.{
  ScriptFile, build_script_file_snapshot, validate_script_file_snapshot,
}
use netbox_scripts.ScriptFiles.Accepted.{IsImportable, Apart, snapshot-accepted}
use netbox_scripts.Declarations.{
  Declaration, Declared, DeclarationError, everything, only_enabled, insert_row, update_row,
  declare_script_file, select_script_files, reconcile, declared, checked, reported, all_or_none,
  Saved, missing_paths, is_changed, declared_paths, unknown_paths, not_permitted, pks_of, new_pks,
}
use netbox_scripts.Declarations.Sound.{file_of, files, IsDeclared}
use netbox_scripts.Declarations.Saves.{
  insert_row-IsDeclared, switch_row-IsDeclared, save_row-IsDeclared, reconcile-IsDeclared,
}

module _ (P : ScriptFile → Type 0) (p : Declaration → Bool) where
  All-kept : (rows : List Declaration) → All P (files rows) → All P (files (keep_if p rows))
  All-kept [] h = tt
  All-kept (r ∷ rows) h = ground (arith, All-kept rows h.1)

module _ (R : ScriptFile → ScriptFile → Type 0) (p : Declaration → Bool) where
  Pairwise-kept :
      (rows : List Declaration) → Pairwise R (files rows) → Pairwise R (files (keep_if p rows))
  Pairwise-kept [] h = tt
  Pairwise-kept (r ∷ rows) h = elim (Bool-cases (p r)) [
    | inl on ↦ rw (on) (All-kept (R (file_of r)) p rows h.0, Pairwise-kept rows h.1)
    | inr off ↦ rw (off) (Pairwise-kept rows h.1)
  ]

abbrev pub is_enabled : Declaration → Bool
is_enabled d = d.enabled

-- `ScriptFile.delete`
abbrev delete_row : ℕ → Declared → Declared
delete_row pk w = record w { rows = keep_if (λ (d : Declaration). not (d.pk == pk)) w.rows }

-- One call, whether it returns or raises. The keys of the table are shared by all projects, so the next
-- one may grow between two calls.
pub data Call (u : Unicode) (w : Declared) : Declared → Type 0 where
  adds : (raw : Text) (enabled : Bool) → Call u w (insert_row u raw enabled w).1
  saves : (d : Declaration) → 1 ≤ d.pk → d.pk < w.next → Call u w (update_row u d everything w).1
  switches : (d : Declaration) → Call u w (update_row u d only_enabled w).1
  declares :
      (permitted : List ℕ → List Declaration → Bool) (path : Text)
      → Call u w (declare_script_file u permitted path w).1
  selects :
      (permitted : List ℕ → List Declaration → Bool) (candidates selected : List Text)
      → Call u w (select_script_files u permitted candidates selected w).1
  deletes : (pk : ℕ) → Call u w (delete_row pk w)
  elsewhere : (next : ℕ) → w.next ≤ next → Call u w (record w { next = next })

-- The declared files after any sequence of calls on a project that declared none.
pub data Calls (u : Unicode) : Declared → Type 0 where
  created : (next : ℕ) → 1 ≤ next → Calls u (record { rows = []; next = next })
  then_call : (w w' : Declared) → Calls u w → Call u w w' → Calls u w'

module _ (u : Unicode) where
  all_or_none-IsDeclared {ℓ} :
      {A : Type ℓ} (w : Declared) (r : Result DeclarationError A × Declared)
      → IsDeclared u w
      → IsDeclared u r.1
      → IsDeclared u (all_or_none u w r).1
  all_or_none-IsDeclared w (ok a, w') h k = k
  all_or_none-IsDeclared w (err e, w') h k = h

  checked-IsDeclared {ℓ} :
      {A : Type ℓ} (permitted : List ℕ → List Declaration → Bool) (pks : List ℕ)
      (r : Result DeclarationError A × Declared)
      → IsDeclared u r.1
      → IsDeclared u (checked u permitted pks r).1
  checked-IsDeclared {A = A} permitted pks (ok a, w) h =
      if-cases (λ (r : Result DeclarationError A × Declared). IsDeclared u r.1)
        (permitted pks w.rows) _ _ (λ _. h) (λ _. h)
  checked-IsDeclared permitted pks (err e, w) h = h

  committed-IsDeclared {ℓ} :
      {A : Type ℓ} (permitted : List ℕ → List Declaration → Bool) (pks : List ℕ) (w : Declared)
      (r : Result DeclarationError A × Declared)
      → IsDeclared u w
      → IsDeclared u r.1
      → IsDeclared u (all_or_none u w (checked u permitted pks r)).1
  committed-IsDeclared permitted pks w r h k =
      all_or_none-IsDeclared w (checked u permitted pks r) h (checked-IsDeclared permitted pks r k)

  reported-IsDeclared :
      (permitted : List ℕ → List Declaration → Bool) (moved : Bool) (s : Saved u)
      → IsDeclared u s.1
      → IsDeclared u (reported u permitted moved s).1
  reported-IsDeclared permitted moved (ok a, w) h = h
  reported-IsDeclared permitted moved (err e, w) h = h

  deleted-IsDeclared : (pk : ℕ) (w : Declared) → IsDeclared u w → IsDeclared u (delete_row pk w)
  deleted-IsDeclared pk w h = record {
    importable = All-kept (IsImportable u) (λ d. not (d.pk == pk)) w.rows h.importable;
    apart = Pairwise-kept (Apart u) (λ d. not (d.pk == pk)) w.rows h.apart;
    below = All-kept (λ f. f.pk < w.next) (λ d. not (d.pk == pk)) w.rows h.below;
    positive = h.positive;
  }

  elsewhere-IsDeclared :
      (w : Declared) (next : ℕ)
      → w.next ≤ next
      → IsDeclared u w
      → IsDeclared u (record w { next = next })
  elsewhere-IsDeclared w next more h = record {
    importable = h.importable;
    apart = h.apart;
    below =
        All-map_into (λ f. f.pk < w.next) (λ f. f.pk < next) (files w.rows)
          (λ f b. omega (arith, b, more)) h.below;
    positive = omega (arith, h.positive, more);
  }

module _ (u : Unicode) (law : IsLawful u)
    (plain : (s : Text) → u.is_identifier s ≡ true → All IsPlain s) where
  declared-IsDeclared :
      (permitted : List ℕ → List Declaration → Bool) (path : Text) (w : Declared)
      (row : Option Declaration)
      → IsDeclared u w
      → IsDeclared u (declared u permitted path w row).1
  declared-IsDeclared permitted path w none h =
      committed-IsDeclared u permitted (w.next ∷ []) w (insert_row u path true w) h
        (insert_row-IsDeclared u law plain path true w h)
  declared-IsDeclared permitted path w (some row) h =
      if-cases (λ (r : Saved u). IsDeclared u r.1) row.enabled _ _ (λ _. h)
        λ _.
          if-cases (λ (r : Saved u). IsDeclared u r.1) (not (permitted (row.pk ∷ []) w.rows)) _ _
            (λ _. h)
            λ _.
              let moved = record row { enabled = true } in
              committed-IsDeclared u permitted (row.pk ∷ []) w (update_row u moved only_enabled w) h
                (switch_row-IsDeclared u law plain moved w h)

  selected-IsDeclared :
      (permitted : List ℕ → List Declaration → Bool) (candidates selected : List Text)
      (w : Declared)
      → IsDeclared u w
      → IsDeclared u (select_script_files u permitted candidates selected w).1
  unfolding select_script_files
  selected-IsDeclared permitted candidates selected w h =
      let missing = missing_paths u selected w.rows in
      let changed = keep_if (is_changed u selected) w.rows in
      let report =
        reported u permitted (not (is_empty missing && is_empty changed))
          (reconcile u selected w) in
      if-cases (λ (r : Result DeclarationError Bool × Declared). IsDeclared u r.1)
        (any_of (λ p. not (contains (declared_paths u w.rows) p || contains candidates p)) selected)
        (err unknown_paths, w) _ (λ _. h)
        λ _.
          if-cases (λ (r : Result DeclarationError Bool × Declared). IsDeclared u r.1)
            (not (permitted (pks_of u changed) w.rows)) (err not_permitted, w) _ (λ _. h)
            λ _.
              committed-IsDeclared u permitted (new_pks u w.next missing ++ pks_of u changed) w
                report h
                (reported-IsDeclared u permitted (not (is_empty missing && is_empty changed))
                  (reconcile u selected w) (reconcile-IsDeclared u law plain selected w h))

  Call-IsDeclared : (w w' : Declared) → IsDeclared u w → Call u w w' → IsDeclared u w'
  unfolding declare_script_file
  Call-IsDeclared w _ h (adds raw enabled) = insert_row-IsDeclared u law plain raw enabled w h
  Call-IsDeclared w _ h (saves d first under) = save_row-IsDeclared u law plain d w first under h
  Call-IsDeclared w _ h (switches d) = switch_row-IsDeclared u law plain d w h
  Call-IsDeclared w _ h (declares permitted path) = declared-IsDeclared permitted path w _ h
  Call-IsDeclared w _ h (selects permitted candidates selected) =
      selected-IsDeclared permitted candidates selected w h
  Call-IsDeclared w _ h (deletes pk) = deleted-IsDeclared u pk w h
  Call-IsDeclared w _ h (elsewhere next more) = elsewhere-IsDeclared u w next more h

  -- After any calls that save, switch, select or delete declarations of a project, failed ones included,
  -- every declared path is canonical and importable, and no two rows share a key, collide without regard
  -- to letter case or import under one name, provided that the Unicode data is lawful and that
  -- identifiers have neither white space nor colons.
  pub Calls-IsDeclared : (w : Declared) → Calls u w → IsDeclared u w
  Calls-IsDeclared _ (created next first) = record {
    importable = tt;
    apart = tt;
    below = tt;
    positive = first;
  }
  Calls-IsDeclared _ (then_call w w' calls call) =
      Call-IsDeclared w w' (Calls-IsDeclared w calls) call

  -- Whatever calls led to the declared files of a project, the snapshot of the enabled ones that staging
  -- freezes is accepted on its return trip, under the same provisions.
  pub Calls-snapshot :
      (sha256 : Bytes → Text) (w : Declared)
      → Calls u w
      → let (snapshot, digest) =
          build_script_file_snapshot sha256 (files (keep_if is_enabled w.rows)) in
        validate_script_file_snapshot u sha256 (arr (items snapshot)) digest ≡ ok snapshot
  Calls-snapshot sha256 w calls =
      let h = Calls-IsDeclared w calls in
      snapshot-accepted u sha256 (files (keep_if is_enabled w.rows))
        (All-kept (IsImportable u) is_enabled w.rows h.importable)
        (Pairwise-kept (Apart u) is_enabled w.rows h.apart)
