-- ===== src/Tests/Scripts.antt =====
-- Two rows and two records: one row is published again, the other is retired, and one is created.
use netbox_scripts.Base.{ℕ, ◌≡◌, refl, false, List, [], ◌∷◌, none, some, length, text_eq, nat_eq}
use netbox_scripts.Text.{Text, codes}
use netbox_scripts.Json.{null}
use netbox_scripts.Introspection.{Published, Identity}
use netbox_scripts.Lifecycle.{ScriptRow}
use netbox_scripts.Scripts.{synchronize}
use netbox_scripts.Scripts.Synchronized.{
  row_at, Shows, Continues, NoRepeat, record_at, retired_unless, synchronize-published,
  synchronize-retired,
}
use netbox_scripts.Scripts.Repeated.{synchronize-again}

abbrev published : Text → Published
published name = record {
  module_path = codes "pkg.one";
  class_name = name;
  display_name = name;
  description = [];
  metadata = null;
}

abbrev row : ℕ → Text → ScriptRow
row pk name = record {
  pk = pk;
  module_path = codes "pkg.one";
  class_name = name;
  display_name = codes "old";
  description = [];
  metadata = null;
  is_retired = false;
  enabled = false;
  last_seen_revision = none;
}

abbrev rows : List ScriptRow
rows = row 1 (codes "Kept") ∷ row 2 (codes "Gone") ∷ []

abbrev records : List Published
records = published (codes "Kept") ∷ published (codes "New") ∷ []

abbrev identity : Text → Identity
identity name = (codes "pkg.one", name)

records-NoRepeat : NoRepeat records
unfolding text_eq nat_eq
records-NoRepeat = (refl, (refl, tt))

kept_record : record_at (identity (codes "Kept")) records ≡ some (published (codes "Kept"))
unfolding text_eq nat_eq
kept_record = refl

gone_record : record_at (identity (codes "Gone")) records ≡ none
unfolding text_eq nat_eq
gone_record = refl

synchronize-published_example :
    (r : ScriptRow) × (row_at (identity (codes "Kept")) (synchronize 3 9 records rows).0 ≡ some r)
    × Shows 9 (published (codes "Kept")) r
    × Continues (row_at (identity (codes "Kept")) rows) r
synchronize-published_example =
    synchronize-published 3 9 records rows (identity (codes "Kept")) (published (codes "Kept"))
      records-NoRepeat kept_record

synchronize-retired_example :
    row_at (identity (codes "Gone")) (synchronize 3 9 records rows).0
    ≡ retired_unless false (row_at (identity (codes "Gone")) rows)
synchronize-retired_example =
    synchronize-retired 3 9 records rows (identity (codes "Gone")) gone_record

synchronize-again_example : synchronize 5 9 records (synchronize 3 9 records rows).0 ≡ (
  (synchronize 3 9 records rows).0,
  record { published = length records; retired = 0; written = 0 },
)
synchronize-again_example = synchronize-again 3 5 9 records rows records-NoRepeat
