-- ===== src/Introspection/Describe.antt =====
-- `describe_script` of netbox_scripts/runtime/introspection.py: the record of one published class.
use netbox_scripts.Base.{
  ℕ, zero, suc, ◌≤◌, ◌≡◌, refl, Bool, true, not, List, some, arith, contains, text_eq, nat_eq,
  Result, ok, err, is_empty, ==-refl, Bool-cases, inl, inr, subst, Result-cases, if◌then◌else◌,
}
use netbox_scripts.Base.Int.{ℤ, pos, negsuc}
use netbox_scripts.Text.{Text, codes}
use netbox_scripts.Json.{Value, null, bool, int, str, obj, Fields, end, field, get}
use netbox_scripts.Introspection.{
  MetadataCode, invalid_job_timeout, invalid_notifications_default, reserved_variable_name,
  unknown_fieldset_field, form_construction_failed, Published, require_storable, validate_record,
  check_timeout,
}

-- What building the run form of a class comes to.
pub data Form : Type 0 where
  -- The form is built and its fieldsets name its fields.
  built : Form
  unknown_field : Form
  failed : Form
  -- An exception that the caller lets through, with its text.
  escaping : Text → Form

-- A class's own timeout: none, one that RQ's `parse_timeout` refuses, or its number of seconds.
pub data Timeout : Type 0 where
  no_timeout unparsed : Timeout
  seconds : ℤ → Timeout

-- What is read of a script class, which is Python code outside the repository.
pub record ScriptClass : Type 0 where
  -- The identity of the class object.
  pub object : ℕ
  -- The variables whose names the run form reserves.
  pub reserved : List Text
  pub display_name : Text
  pub description : Text
  pub form : Form
  pub commit_default : Bool
  pub scheduling_enabled : Bool
  pub job_timeout : Timeout
  pub notifications_default : Text

-- `DiscoveredScript`
pub record Discovered : Type 0 where
  pub logical_module : Text
  pub name : Text
  pub cls : ScriptClass

-- The record, a `ScriptMetadataError`, or an exception that is let through.
pub data Described : Type 0 where
  described : Value → Described
  faulty : MetadataCode → Described
  escaped : Text → Described

-- `_job_timeout`
unfoldable pub job_timeout_value : Timeout → Result MetadataCode Value
job_timeout_value no_timeout = ok null
job_timeout_value (seconds (pos (suc n))) = ok (int (pos (suc n)))
job_timeout_value _ = err invalid_job_timeout

abbrev text_field : Text → Text → Fields → Fields
text_field key s = field key (str s)

abbrev metadata_of : ScriptClass → Value → Value
metadata_of c timeout = obj (
    field (codes "commit_default") (bool c.commit_default) (
      field (codes "scheduling_enabled") (bool c.scheduling_enabled) (
        field (codes "job_timeout") timeout
          (field (codes "notifications_default") (str c.notifications_default) end))))

abbrev record_of : Discovered → ℕ → Text → ℕ → Value → Value
record_of d file_id file_path position timeout = obj (
    text_field (codes "module_path") d.logical_module (
      text_field (codes "class_name") d.name (
        field (codes "script_file_id") (int (pos file_id)) (
          text_field (codes "script_file_path") file_path (
            field (codes "position") (int (pos position)) (
              text_field (codes "display_name") d.cls.display_name (
                text_field (codes "description") d.cls.description
                  (field (codes "metadata") (metadata_of d.cls timeout) end))))))))

-- What `synchronize_scripts` reads of that record.
abbrev pub published_as : Discovered → Value → Published
published_as d timeout = record {
  module_path = d.logical_module;
  class_name = d.name;
  display_name = d.cls.display_name;
  description = d.cls.description;
  metadata = metadata_of d.cls timeout;
}

module _ (notification_choices : List Text) where
  -- The metadata, read while the record is put together.
  unfoldable pub finish_record : Discovered → ℕ → Text → ℕ → Described
  unfolding job_timeout_value
  finish_record d file_id file_path position = elim (job_timeout_value d.cls.job_timeout) [
    | err e ↦ faulty e
    | ok timeout ↦
        if contains notification_choices d.cls.notifications_default
        then described (record_of d file_id file_path position timeout)
        else faulty invalid_notifications_default
  ]

  abbrev after_form : Form → Described → Described
  after_form built r = r
  after_form unknown_field r = faulty unknown_fieldset_field
  after_form failed r = faulty form_construction_failed
  after_form (escaping reason) r = escaped reason

  unfoldable pub describe_script : Discovered → ℕ → Text → ℕ → Described
  unfolding finish_record require_storable
  describe_script d file_id file_path position =
      if not (is_empty d.cls.reserved)
      then faulty reserved_variable_name
      else elim (require_storable notification_choices d.logical_module d.name d.cls.display_name) [
        | err e ↦ faulty e
        | ok _ ↦ after_form d.cls.form (finish_record d file_id file_path position)
      ]

  timeout_valid :
      (t : Timeout) (v : Value) → job_timeout_value t ≡ ok v → check_timeout (some v) ≡ ok tt
  unfolding job_timeout_value
  timeout_valid no_timeout v h = ground (arith, h)
  timeout_valid unparsed v h = cc
  timeout_valid (seconds (pos zero)) v h = cc
  timeout_valid (seconds (pos (suc n))) v h = ground (arith, h)
  timeout_valid (seconds (negsuc n)) v h = cc

  read_back :
      (d : Discovered) (n : ℕ) (file_path : Text) (position : ℕ) (timeout : Value)
      → require_storable notification_choices d.logical_module d.name d.cls.display_name ≡ ok tt
      → contains notification_choices d.cls.notifications_default ≡ true
      → check_timeout (some timeout) ≡ ok tt
      → validate_record notification_choices position
          (record_of d (suc n) file_path position timeout)
        ≡ ok (published_as d timeout)
  unfolding validate_record get text_eq
  read_back d n file_path position timeout storable notified timed =
      rw (==-refl position, timed, notified, storable) refl

  -- A record that is described for a stored file is read back as what it describes.
  pub describe-validates :
      (d : Discovered) (file_id : ℕ) (file_path : Text) (position : ℕ) (v : Value)
      → 1 ≤ file_id
      → describe_script d file_id file_path position ≡ described v
      → (timeout : Value) × (validate_record notification_choices position v
          ≡ ok (published_as d timeout))
  unfolding describe_script finish_record
  describe-validates d zero file_path position v first h = ground (arith, first)
  describe-validates d (suc n) file_path position v first h =
      elim (Result-cases
        (require_storable notification_choices d.logical_module d.name d.cls.display_name)) [
          | inr (e, refused) ↦ ground (arith, h, refused)
          | inl (_, storable) ↦ elim (Result-cases (job_timeout_value d.cls.job_timeout)) [
            | inr (e, refused) ↦ ground (arith, h, storable, refused)
            | inl (timeout, timed) ↦
                elim (Bool-cases (contains notification_choices d.cls.notifications_default)) [
                  | inr unknown ↦ ground (arith, h, storable, timed, unknown)
                  | inl notified ↦
                      let same : record_of d (suc n) file_path position timeout ≡ v =
                        ground (arith, h, storable, timed, notified) in
                      (
                        timeout,
                        subst
                            (λ w.
                              validate_record notification_choices position w
                              ≡ ok (published_as d timeout))
                            same
                            (read_back d n file_path position timeout storable notified
                              (timeout_valid d.cls.job_timeout timeout timed)),
                      )
                ]
          ]
        ]
