-- ===== src/Introspection.antt =====
-- netbox_scripts/runtime/introspection.py: the return trip of a revision's recorded Scripts,
-- `validate_discovered_scripts`.
pub mod Describe
use netbox_scripts.Base.{
  ℕ, suc, Bool, true, false, not, ◌&&◌, ◌||◌, List, [], ◌∷◌, ◌++◌, Option, none, some, ltb, ◌==◌,
  nat_eq, text_eq, contains, length, Result, ok, err, ◌>>=◌, ◌>>◌, refuse,
}
use netbox_scripts.Base.Int.{pos}
use netbox_scripts.Text.{Text, codes}
use netbox_scripts.Json.{Value, null, bool, int, float, str, arr, obj, Fields, get, listed, decimal}

abbrev pub max_script_class_name_length : ℕ
max_script_class_name_length = 79

abbrev pub max_script_display_name_length : ℕ
max_script_display_name_length = 255

abbrev pub max_script_module_path_length : ℕ
max_script_module_path_length = 1000

-- The `code` of a `ScriptMetadataError`.
pub data MetadataCode : Type 0 where
  invalid_snapshot invalid_entry invalid_position invalid_job_timeout : MetadataCode
  invalid_notifications_default identity_too_long display_name_too_long duplicate_identity :
      MetadataCode
  reserved_variable_name unknown_fieldset_field form_construction_failed : MetadataCode

-- One record, as `synchronize_scripts` reads it.
pub record Published : Type 0 where
  pub module_path : Text
  pub class_name : Text
  pub display_name : Text
  pub description : Text
  pub metadata : Value

abbrev pub Identity : Type 0
Identity = Text × Text

abbrev pub same_identity : Identity → Identity → Bool
same_identity (m, c) (n, d) = m == n && c == d

abbrev pub identity_of : Published → Identity
identity_of p = (p.module_path, p.class_name)

abbrev pub has_identity : Identity → List Identity → Bool
has_identity i [] = false
has_identity i (j ∷ js) = same_identity i j || has_identity i js

-- `record.get(key)` that must be a text.
abbrev pub require_text : Option Value → Result MetadataCode Text
require_text (some (str s)) = ok s
require_text _ = err invalid_entry

abbrev pub require_object : Option Value → Result MetadataCode Fields
require_object (some (obj fs)) = ok fs
require_object _ = err invalid_entry

abbrev pub check_file_id : Option Value → Result MetadataCode (Unit {0})
check_file_id (some (int (pos (suc n)))) = ok tt
check_file_id _ = err invalid_entry

-- `record.get('position') != index`: Python compares a truth value as 0 or 1, and a float by its value.
abbrev pub at_index : ℕ → Option Value → Bool
at_index index (some (int (pos n))) = n == index
at_index index (some (bool true)) = index == 1
at_index index (some (bool false)) = index == 0
at_index index (some (float t)) = t == decimal index ++ codes ".0"
at_index index _ = false

abbrev pub check_position : ℕ → Option Value → Result MetadataCode (Unit {0})
check_position index value = refuse (not (at_index index value)) invalid_position

-- A recorded timeout is absent, null, or a positive number of seconds.
abbrev pub check_timeout : Option Value → Result MetadataCode (Unit {0})
check_timeout none = ok tt
check_timeout (some null) = ok tt
check_timeout (some (int (pos (suc n)))) = ok tt
check_timeout (some _) = err invalid_job_timeout

-- `JobNotificationChoices.values()` is NetBox's: a parameter.
module _ (notification_choices : List Text) where
  abbrev pub check_notifications : Option Value → Result MetadataCode (Unit {0})
  check_notifications none = ok tt
  check_notifications (some null) = ok tt
  check_notifications (some (str s)) =
      refuse (not (contains notification_choices s)) invalid_notifications_default
  check_notifications (some _) = err invalid_notifications_default

  unfoldable pub require_storable : Text → Text → Text → Result MetadataCode (Unit {0})
  require_storable module_path class_name display_name = do
    refuse (ltb max_script_class_name_length (length class_name)) identity_too_long
    refuse (ltb max_script_module_path_length (length module_path)) identity_too_long
    refuse (ltb max_script_display_name_length (length display_name)) display_name_too_long

  -- One entry, less the check of its identity against the earlier ones.
  unfoldable pub validate_record : ℕ → Value → Result MetadataCode Published
  unfolding require_storable
  validate_record index (obj fs) = do
    module_path ← require_text (get (codes "module_path") fs)
    class_name ← require_text (get (codes "class_name") fs)
    script_file_path ← require_text (get (codes "script_file_path") fs)
    display_name ← require_text (get (codes "display_name") fs)
    description ← require_text (get (codes "description") fs)
    check_file_id (get (codes "script_file_id") fs)
    check_position index (get (codes "position") fs)
    metadata ← require_object (get (codes "metadata") fs)
    check_timeout (get (codes "job_timeout") metadata)
    check_notifications (get (codes "notifications_default") metadata)
    require_storable module_path class_name display_name
    ok (record {
      module_path = module_path;
      class_name = class_name;
      display_name = display_name;
      description = description;
      metadata = obj metadata;
    })
  validate_record index _ = err invalid_entry

  unfoldable pub validate_records :
      ℕ → List Value → List Identity → Result MetadataCode (List Published)
  unfolding validate_record
  validate_records index [] identities = ok []
  validate_records index (v ∷ vs) identities = do
    p ← validate_record index v
    refuse (has_identity (identity_of p) identities) duplicate_identity
    rest ← validate_records (suc index) vs (identity_of p ∷ identities)
    ok (p ∷ rest)

  unfoldable pub validate_discovered_scripts : Value → Result MetadataCode (List Published)
  unfolding validate_records
  validate_discovered_scripts (arr xs) = validate_records 0 (listed xs) []
  validate_discovered_scripts _ = err invalid_snapshot
