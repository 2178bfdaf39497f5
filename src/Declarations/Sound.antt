-- ===== src/Declarations/Sound.antt =====
-- The invariant of the declared files of a project (ScriptFile of netbox_scripts/models/scripts.py), and
-- the changes of the rows that keep it.
use netbox_scripts.Base.{
  ℕ, ◌≤◌, ◌<◌, ◌≡◌, ◌≢◌, refl, sym, ap, ◌∙◌, subst, true, false, List, [], ◌∷◌, ◌++◌, none, some,
  map, arith, ◌==◌, nat_eq, text_eq, any_of, All, All-append, All-map_into, Pairwise, ok, ==→≡,
  Bool-cases, Result-cases, inl, inr,
}
use netbox_scripts.Base.Dict.{Dict, lookup}
use netbox_scripts.Text.{Text}
use netbox_scripts.Unicode.{Unicode, IsLawful}
use netbox_scripts.Names.Importable.{IsPlain, importable-Settled}
use netbox_scripts.Paths.{normalize_source_path}
use netbox_scripts.Paths.Recheck.{recheck-Settled, normalize-accepted}
use netbox_scripts.Paths.Nodes.{case_insensitive_nodes}
use netbox_scripts.ScriptFiles.{ScriptFile}
use netbox_scripts.ScriptFiles.Accepted.{IsImportable, Compatible, Apart, compatible_sym}
use netbox_scripts.Declarations.{
  Declaration, Declared, find_row, clashes, replace_row, dotted_of, conflicts, check_source_path,
  written,
}

abbrev pub file_of : Declaration → ScriptFile
file_of d = record { pk = d.pk; source_path = d.source_path }

abbrev pub files : List Declaration → List ScriptFile
files = map file_of

-- What holds of the rows of a project: keys are positive and below the next one, every path is
-- canonical and importable, and every two rows have other keys and compatible paths.
pub record IsDeclared (u : Unicode) (w : Declared) : Type 0 where
  pub importable : All (IsImportable u) (files w.rows)
  pub apart : Pairwise (Apart u) (files w.rows)
  pub below : All (λ (f : ScriptFile). f.pk < w.next) (files w.rows)
  pub positive : 1 ≤ w.next

clashes-agree :
    (mine theirs : Dict Text Text) (form n m : Text)
    → clashes mine theirs ≡ false
    → lookup form mine ≡ some n
    → lookup form theirs ≡ some m
    → n ≡ m
unfolding lookup
clashes-agree mine [] form n m h k l = cc
clashes-agree mine ((j, v) ∷ theirs) form n m h k l = elim (Bool-cases (form == j)) [
  | inl same ↦
      let at_j : lookup j mine ≡ some n =
        subst (λ x. lookup x mine ≡ some n) (==→≡ form j same) k in
      ground (arith, at_j, l, same, h)
  | inr other ↦ clashes-agree mine theirs form n m (ground (arith, h)) k (ground (arith, l, other))
]

files-append :
    (rows : List Declaration) (d : Declaration)
    → files (rows ++ (d ∷ [])) ≡ files rows ++ (file_of d ∷ [])
files-append [] d = refl
files-append (r ∷ rows) d = ap (λ fs. file_of r ∷ fs) (files-append rows d)

find_row-pk :
    (pk : ℕ) (rows : List Declaration) (row : Declaration)
    → find_row pk rows ≡ some row
    → row.pk ≡ pk
find_row-pk pk [] row h = cc
find_row-pk pk (r ∷ rows) row h = ground (arith, h, find_row-pk pk rows row)

pub find_row-none :
    (pk : ℕ) (rows : List Declaration)
    → find_row pk rows ≡ none
    → All (λ (f : ScriptFile). f.pk ≢ pk) (files rows)
find_row-none pk [] h = tt
find_row-none pk (r ∷ rows) h = (ground (arith, h), find_row-none pk rows (ground (arith, h)))

module _ (u : Unicode) where
  conflicts-Compatible :
      (path dotted other : Text)
      → dotted_of u path ≡ ok dotted
      → conflicts u path dotted other ≡ false
      → Compatible u path other
  unfolding conflicts
  conflicts-Compatible path dotted other name h = record {
    nodes = λ form n m.
        clashes-agree (case_insensitive_nodes u path) (case_insensitive_nodes u other) form n m
          (ground (arith, h));
    names = λ d k l. ground (arith, name, k, l, h);
  }

  Pairwise-append :
      (f : ScriptFile) (fs : List ScriptFile)
      → Pairwise (Apart u) fs
      → All (λ g. Apart u g f) fs
      → Pairwise (Apart u) (fs ++ (f ∷ []))
  Pairwise-append f [] h k = (tt, tt)
  Pairwise-append f (g ∷ fs) h k =
      (All-append (Apart u g) fs (f ∷ []) h.0 (k.0, tt), Pairwise-append f fs h.1 k.1)

  Apart-from :
      (d : Declaration) (dotted : Text)
      → dotted_of u d.source_path ≡ ok dotted
      → (rows : List Declaration) → All (λ (f : ScriptFile). f.pk ≢ d.pk) (files rows)
      → any_of (λ (r : Declaration). conflicts u d.source_path dotted r.source_path) rows ≡ false
      → All (λ g. Apart u g (file_of d)) (files rows)
  Apart-from d dotted name [] fresh free = tt
  Apart-from d dotted name (r ∷ rows) fresh free =
      let compatible =
        conflicts-Compatible d.source_path dotted r.source_path name (ground (arith, free)) in
      (
        compatible_sym u (file_of d) (file_of r) (λ e. fresh.0 (sym e), compatible),
        Apart-from d dotted name rows fresh.1 (ground (arith, free)),
      )

  -- A row under a key of its own, with a path that collides with no sibling's.
  pub add-IsDeclared :
      (w : Declared) (d : Declaration) (dotted : Text) (next : ℕ)
      → IsDeclared u w
      → IsImportable u (file_of d)
      → dotted_of u d.source_path ≡ ok dotted
      → All (λ (f : ScriptFile). f.pk ≢ d.pk) (files w.rows)
      → any_of (λ (r : Declaration). conflicts u d.source_path dotted r.source_path) w.rows ≡ false
      → w.next ≤ next
      → d.pk < next
      → IsDeclared u (record { rows = w.rows ++ (d ∷ []); next = next })
  add-IsDeclared w d dotted next h sound name fresh free most under = record {
    importable =
        rw (files-append w.rows d)
          (All-append (IsImportable u) (files w.rows) (file_of d ∷ []) h.importable (sound, tt));
    apart = rw (files-append w.rows d) (
        Pairwise-append (file_of d) (files w.rows) h.apart
          (Apart-from d dotted name w.rows fresh free));
    below = rw (files-append w.rows d) (
        All-append (λ f. f.pk < next) (files w.rows) (file_of d ∷ [])
          (All-map_into (λ f. f.pk < w.next) (λ f. f.pk < next) (files w.rows)
            (λ f b. omega (arith, b, most)) h.below)
          (under, tt));
    positive = omega (arith, h.positive, most);
  }

  pub replace-files :
      (d row : Declaration) (rows : List Declaration)
      → find_row d.pk rows ≡ some row
      → files (replace_row (written u d row) rows) ≡ files rows
  unfolding replace_row
  replace-files d row [] h = refl
  replace-files d row (r ∷ rows) h =
      let same = find_row-pk d.pk (r ∷ rows) row h in
      elim (Bool-cases (r.pk == d.pk)) [
        | inl here ↦
            let found : row ≡ r = ground (arith, h, here) in
            let hit : (r.pk == row.pk) ≡ true = ground (arith, here, same) in
            rw (hit) (ap (λ x. file_of x ∷ files rows) found)
        | inr there ↦
            let miss : (r.pk == row.pk) ≡ false = ground (arith, there, same) in
            rw (miss)
              (ap (λ fs. file_of r ∷ fs) (replace-files d row rows (ground (arith, h, there))))
      ]

module _ (u : Unicode) (law : IsLawful u)
    (plain : (s : Text) → u.is_identifier s ≡ true → All IsPlain s) where
  pub check_source_path_sound :
      (raw path dotted : Text)
      → check_source_path u raw ≡ ok (path, dotted)
      → (normalize_source_path u path ≡ ok path) × (dotted_of u path ≡ ok dotted)
  unfolding check_source_path
  check_source_path_sound raw path dotted h = elim (Result-cases (normalize_source_path u raw)) [
    | inr (e, refused) ↦ ground (arith, h, refused)
    | inl (canonical, found) ↦ elim (Result-cases (dotted_of u canonical)) [
      | inr (e, refused) ↦ ground (arith, h, found, refused)
      | inl (name, imports) ↦
          let settled = importable-Settled u.is_identifier plain canonical name imports in
          let again : normalize_source_path u canonical ≡ ok canonical =
            normalize-accepted u law raw canonical found ∙ recheck-Settled canonical settled in
          let same : canonical ≡ path = ground (arith, h, found, imports) in
          let named : name ≡ dotted = ground (arith, h, found, imports) in
          (
            subst (λ p. normalize_source_path u p ≡ ok p) same again,
            subst (λ p. dotted_of u p ≡ ok dotted) same (imports ∙ ap ok named),
          )
    ]
  ]
