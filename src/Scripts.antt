-- ===== src/Scripts.antt =====
-- `synchronize_scripts` of netbox_scripts/activation.py: a project's Script rows are brought in line
-- with a validated snapshot. Rows have distinct identities, as the table's constraint has it, and so
-- have the records, as `validate_discovered_scripts` has it.
pub mod Synchronized
pub mod Repeated
use netbox_scripts.Base.{
  ℕ, ◌+◌, Bool, true, false, not, ◌&&◌, List, [], ◌∷◌, some, if◌then◌else◌, ◌==◌, nat_eq, text_eq,
  length,
}
use netbox_scripts.Json.{value_eq}
use netbox_scripts.Introspection.{Published, Identity, same_identity, identity_of, has_identity}
use netbox_scripts.Lifecycle.{ScriptRow, points_at}

-- `ScriptSyncResult`
pub record SyncResult : Type 0 where
  pub published : ℕ
  pub retired : ℕ
  pub written : ℕ

abbrev pub row_identity : ScriptRow → Identity
row_identity row = (row.module_path, row.class_name)

-- Whether `_save_changes` finds a field that differs from the published values.
unfoldable pub differs : ℕ → Published → ScriptRow → Bool
differs revision p row = not (
    row.display_name == p.display_name
    && (row.description == p.description
        && (row.metadata == p.metadata
            && (not row.is_retired && points_at row.last_seen_revision revision))))

-- The published values; `enabled` and the key are the row's own.
unfoldable pub republish : ℕ → Published → ScriptRow → ScriptRow
republish revision p row = record row {
  display_name = p.display_name;
  description = p.description;
  metadata = p.metadata;
  is_retired = false;
  last_seen_revision = some revision;
}

-- A new row; the column default of `enabled` is true.
unfoldable pub create_row : ℕ → ℕ → Published → ScriptRow
create_row pk revision p = record {
  pk = pk;
  module_path = p.module_path;
  class_name = p.class_name;
  display_name = p.display_name;
  description = p.description;
  metadata = p.metadata;
  is_retired = false;
  enabled = true;
  last_seen_revision = some revision;
}

-- The rows after one record, and how many were written: the first row that has the record's
-- identity is saved if it differs, and without one a row is created.
unfoldable pub publish_one : ℕ → ℕ → Published → List ScriptRow → List ScriptRow × ℕ
unfolding differs republish create_row
publish_one pk revision p [] = (create_row pk revision p ∷ [], 1)
publish_one pk revision p (row ∷ rows) =
    let (more, written) = publish_one pk revision p rows in
    if same_identity (row_identity row) (identity_of p)
    then (if differs revision p row then (republish revision p row ∷ rows, 1) else (row ∷ rows, 0))
    else (row ∷ more, written)

-- The loop over the records. A fresh key is set aside for each.
unfoldable pub publish_all : ℕ → ℕ → List Published → List ScriptRow → List ScriptRow × ℕ
unfolding publish_one
publish_all pk revision [] rows = (rows, 0)
publish_all pk revision (p ∷ ps) rows =
    let (rows', written) = publish_one pk revision p rows in
    let (all, more) = publish_all (pk + 1) revision ps rows' in (all, written + more)

abbrev pub identities : List Published → List Identity
identities [] = []
identities (p ∷ ps) = identity_of p ∷ identities ps

-- The rows that no record names retire; one that is retired already is left alone.
unfoldable pub retire_rest : List Identity → List ScriptRow → List ScriptRow × ℕ
retire_rest named [] = ([], 0)
retire_rest named (row ∷ rows) =
    let (rest, retired) = retire_rest named rows in
    if not (has_identity (row_identity row) named) && not row.is_retired
    then (record row { is_retired = true } ∷ rest, retired + 1)
    else (row ∷ rest, retired)

unfoldable pub synchronize : ℕ → ℕ → List Published → List ScriptRow → List ScriptRow × SyncResult
unfolding publish_all retire_rest
synchronize pk revision records rows =
    let (published, written) = publish_all pk revision records rows in
    let (final, retired) = retire_rest (identities records) published in
    (final, record { published = length records; retired = retired; written = written + retired })
