-- ===== src/Declarations.antt =====
-- The Script Files that one project declares: ScriptFile of netbox_scripts/models/scripts.py, with the
-- calls that write its rows (declare_script_file of netbox_scripts/ingestion.py, select_script_files of
-- netbox_scripts/models/projects.py).
pub mod Calls
pub mod Saves
pub mod Sound
use netbox_scripts.Base.{
  ℕ, suc, Bool, true, false, not, ◌&&◌, ◌||◌, List, [], ◌∷◌, ◌++◌, Option, none, some, map,
  if◌then◌else◌, ◌==◌, nat_eq, text_eq, contains, keep_if, any_of, all_of, first_where, is_empty,
  Result, ok, err,
}
use netbox_scripts.Base.Dict
use netbox_scripts.Base.Dict.{Dict}
use netbox_scripts.Text.{Text}
use netbox_scripts.Text.Order.{sort_by}
use netbox_scripts.Unicode.{Unicode}
use netbox_scripts.Names.{NameCode, source_path_to_dotted_name}
use netbox_scripts.Paths.{UnsafePath, normalize_source_path}
use netbox_scripts.Paths.Nodes.{case_insensitive_nodes}
use netbox_scripts.ScriptFiles.{ScriptFile}

-- `FileDiscoveryStatusChoices`
pub data DiscoveryStatus : Type 0 where
  pending discovered no_scripts failed : DiscoveryStatus

-- `ScriptFile`
pub record Declaration : Type 0 where
  pub pk : ℕ
  pub source_path : Text
  pub enabled : Bool
  pub discovery_status : DiscoveryStatus
  pub discovery_error : Text
  pub last_discovered_revision : Option ℕ

-- The rows of one project, in the order of their keys, and the next key of the table.
pub record Declared : Type 0 where
  pub rows : List Declaration
  pub next : ℕ

pub data DeclarationError : Type 0 where
  unsafe_source_path : UnsafePath → DeclarationError
  unimportable : NameCode → DeclarationError
  sibling_conflict identity_frozen unknown_paths gone not_permitted : DeclarationError

-- What a save with `update_fields` writes; `everything` is a save without.
pub data Written : Type 0 where
  everything only_enabled : Written

abbrev pub with_key : ℕ → Declaration → Bool
with_key pk d = d.pk == pk

abbrev pub find_row : ℕ → List Declaration → Option Declaration
find_row pk = first_where (with_key pk)

-- A form of the other path's nodes that is a different node of this path.
abbrev pub clashes : Dict Text Text → Dict Text Text → Bool
clashes mine = any_of (λ (f : Text × Text). elim (Dict.lookup f.0 mine) [
  | none ↦ false
  | some node ↦ not (node == f.1)
])

abbrev same_flag : Bool → Bool → Bool
same_flag true b = b
same_flag false b = not b

-- A row that validation has not seen.
abbrev pub new_row : ℕ → Text → Bool → Declaration
new_row pk path enabled = record {
  pk = pk;
  source_path = path;
  enabled = enabled;
  discovery_status = pending;
  discovery_error = [];
  last_discovered_revision = none;
}

unfoldable pub replace_row : Declaration → List Declaration → List Declaration
replace_row d [] = []
replace_row d (r ∷ rows) =
    let rest = replace_row d rows in if r.pk == d.pk then d ∷ rows else r ∷ rest

module _ (u : Unicode) where
  abbrev pub dotted_of : Text → Result NameCode Text
  dotted_of = source_path_to_dotted_name u.is_identifier

  -- `source_path_to_dotted_name(other_path) == dotted`; a sibling that cannot import claims no name.
  abbrev pub imports_as : Result NameCode Text → Text → Bool
  imports_as (ok name) dotted = name == dotted
  imports_as (err e) dotted = false

  unfoldable pub conflicts : Text → Text → Text → Bool
  conflicts path dotted other =
      clashes (case_insensitive_nodes u path) (case_insensitive_nodes u other)
      || imports_as (dotted_of other) dotted

  -- `_sibling_path_conflict`, over the rows other than the one of the instance.
  unfoldable pub sibling_path_conflict : Option ℕ → Text → Text → List Declaration → Bool
  unfolding conflicts
  sibling_path_conflict none path dotted rows =
      any_of (λ (d : Declaration). conflicts path dotted d.source_path) rows
  sibling_path_conflict (some pk) path dotted rows =
      any_of (λ (d : Declaration). conflicts path dotted d.source_path)
        (keep_if (λ (d : Declaration). not (d.pk == pk)) rows)

  -- The two checks of the path of an instance: its canonical form, with the name it imports under.
  unfoldable pub check_source_path : Text → Result DeclarationError (Text × Text)
  check_source_path raw = elim (normalize_source_path u raw) [
    | err e ↦ err (unsafe_source_path e)
    | ok path ↦ elim (dotted_of path) [
      | err e ↦ err (unimportable e)
      | ok dotted ↦ ok (path, dotted)
    ]
  ]

  abbrev pub Saved : Type 0
  Saved = Result DeclarationError (Unit {0}) × Declared

  abbrev pub inserted : Declared → Bool → Result DeclarationError (Text × Text) → Saved
  inserted w enabled (err e) = (err e, w)
  inserted w enabled (ok (path, dotted)) =
      if sibling_path_conflict none path dotted w.rows then (err sibling_conflict, w) else (
        ok tt,
        record { rows = w.rows ++ (new_row w.next path enabled ∷ []); next = suc w.next },
      )

  -- `save` of a new instance.
  unfoldable pub insert_row : Text → Bool → Declared → Saved
  unfolding check_source_path sibling_path_conflict
  insert_row raw enabled w = inserted w enabled (check_source_path raw)

  -- What a save of a stored instance writes: the discovery fields come from the row.
  abbrev pub written : Declaration → Declaration → Declaration
  written d row = record row { enabled = d.enabled }

  abbrev pub needs_check : Written → Bool
  needs_check everything = true
  needs_check only_enabled = false

  -- A row that was deleted meanwhile is inserted again by a whole save, and an error for one of some fields.
  abbrev pub updated : Declared → Declaration → Written → Option Declaration → Text → Saved
  updated w d everything none path =
      (ok tt, record w { rows = w.rows ++ (record d { source_path = path } ∷ []) })
  updated w d only_enabled none path = (err gone, w)
  updated w d fields (some row) path =
      if not (row.source_path == path)
      then (err identity_frozen, w)
      else (ok tt, record w { rows = replace_row (written d row) w.rows })

  abbrev pub stored :
      Declared → Declaration → Written → Result DeclarationError (Text × Text) → Saved
  stored w d fields (err e) = (err e, w)
  stored w d fields (ok (path, dotted)) =
      if needs_check fields && sibling_path_conflict (some d.pk) path dotted w.rows
      then (err sibling_conflict, w)
      else updated w d fields (find_row d.pk w.rows) path

  -- `save` of an instance that was loaded.
  unfoldable pub update_row : Declaration → Written → Declared → Saved
  unfolding check_source_path sibling_path_conflict replace_row
  update_row d fields w = stored w d fields (check_source_path d.source_path)

  -- Both leave the rows as they were when they fail.
  abbrev pub all_or_none {ℓ} :
      {A : Type ℓ}
      → Declared
      → Result DeclarationError A × Declared
      → Result DeclarationError A × Declared
  all_or_none w (ok a, w') = (ok a, w')
  all_or_none w (err e, w') = (err e, w)

  -- `validate_script_file_permissions` for the rows with some keys: a parameter.
  module _ (permitted : List ℕ → List Declaration → Bool) where
    abbrev pub checked {ℓ} :
        {A : Type ℓ}
        → List ℕ
        → Result DeclarationError A × Declared
        → Result DeclarationError A × Declared
    checked pks (err e, w) = (err e, w)
    checked pks (ok a, w) = if permitted pks w.rows then (ok a, w) else (err not_permitted, w)

    abbrev pub declared : Text → Declared → Option Declaration → Saved
    declared path w none = all_or_none w (checked (w.next ∷ []) (insert_row path true w))
    declared path w (some row) =
        if row.enabled
        then (ok tt, w)
        else if not (permitted (row.pk ∷ []) w.rows)
        then (err not_permitted, w)
        else all_or_none w
            (checked (row.pk ∷ []) (update_row (record row { enabled = true }) only_enabled w))

    -- `declare_script_file`
    unfoldable pub declare_script_file : Text → Declared → Saved
    unfolding insert_row update_row
    declare_script_file path w =
        declared path w (first_where (λ (d : Declaration). d.source_path == path) w.rows)

  abbrev pub then_save : (Declared → Saved) → Saved → Saved
  then_save next (ok a, w) = next w
  then_save next (err e, w) = (err e, w)

  -- The rows that the selected paths still need, in order.
  unfoldable pub create_all : List Text → Declared → Saved
  unfolding insert_row
  create_all [] w = (ok tt, w)
  create_all (path ∷ paths) w = then_save (λ w'. create_all paths w') (insert_row path true w)

  -- The rows that are switched over.
  unfoldable pub switch_all : List Text → List Declaration → Declared → Saved
  unfolding update_row
  switch_all selected [] w = (ok tt, w)
  switch_all selected (d ∷ rows) w =
      then_save (λ w'. switch_all selected rows w')
        (update_row (record d { enabled = contains selected d.source_path }) only_enabled w)

  abbrev pub declared_paths : List Declaration → List Text
  declared_paths = map (λ (d : Declaration). d.source_path)

  -- `set(paths)`
  abbrev pub distinct : List Text → List Text
  distinct [] = []
  distinct (p ∷ ps) = let rest = distinct ps in if contains ps p then rest else p ∷ rest

  -- `sorted(selected.difference(existing))`
  abbrev pub missing_paths : List Text → List Declaration → List Text
  missing_paths selected rows =
      sort_by (λ p. p) (distinct (keep_if (λ p. not (contains (declared_paths rows) p)) selected))

  abbrev pub is_changed : List Text → Declaration → Bool
  is_changed selected d = not (same_flag d.enabled (contains selected d.source_path))

  abbrev pub pks_of : List Declaration → List ℕ
  pks_of = map (λ (d : Declaration). d.pk)

  -- The keys that the new rows get.
  abbrev pub new_pks : ℕ → List Text → List ℕ
  new_pks pk [] = []
  new_pks pk (p ∷ ps) = pk ∷ new_pks (suc pk) ps

  unfoldable pub reconcile : List Text → Declared → Saved
  unfolding create_all switch_all
  reconcile selected w =
      then_save (λ w'. switch_all selected (keep_if (is_changed selected) w.rows) w')
        (create_all (missing_paths selected w.rows) w)

  module _ (permitted : List ℕ → List Declaration → Bool) where
    abbrev pub reported : Bool → Saved → Result DeclarationError Bool × Declared
    reported moved (ok a, w) = (ok moved, w)
    reported moved (err e, w) = (err e, w)

    -- `select_script_files`; the candidates are the Python files of the project's source.
    unfoldable pub select_script_files :
        List Text → List Text → Declared → Result DeclarationError Bool × Declared
    unfolding reconcile
    select_script_files candidates selected w =
        let missing = missing_paths selected w.rows in
        let changed = keep_if (is_changed selected) w.rows in
        if any_of (λ p. not (contains (declared_paths w.rows) p || contains candidates p)) selected
        then (err unknown_paths, w)
        else if not (permitted (pks_of changed) w.rows)
        then (err not_permitted, w)
        else all_or_none w (
            checked permitted (new_pks w.next missing ++ pks_of changed)
              (reported (not (is_empty missing && is_empty changed)) (reconcile selected w)))
