-- ===== src/Validation/Judging.antt =====
-- The verdict on a revision (netbox_scripts/validation.py): the loop of validate_revision over the
-- entries of the snapshot, classify_script_file_error, _collect_publications and what they call.
-- Importing a file and discovering its classes runs Python code: their outcome is an argument.
pub mod Published
use netbox_scripts.Base.{
  ℕ, Bool, true, false, not, ◌&&◌, ◌||◌, List, [], ◌∷◌, ◌++◌, Option, none, some, map,
  if◌then◌else◌, ◌==◌, nat_eq, text_eq, contains, length, is_empty, Result, ok, err, ◌>>=◌,
}
use netbox_scripts.Base.Dict
use netbox_scripts.Base.Dict.{Dict}
use netbox_scripts.Text.{Text, codes, split, starts_with}
use netbox_scripts.Json.{Value, null, str, obj, end, field}
use netbox_scripts.Names.{source_path_to_dotted_name}
use netbox_scripts.ScriptFiles.{ScriptFile}
use netbox_scripts.Declarations.{DiscoveryStatus, discovered, no_scripts, failed}
use netbox_scripts.Introspection.{MetadataCode, Identity, same_identity}
use netbox_scripts.Introspection.Describe.{
  Discovered, Described, described, faulty, escaped, describe_script,
}
use netbox_scripts.Validation.{Verdict, accepted, rejected}

-- The `__cause__` of a `ScriptFileImportError`, in the order in which the code asks.
pub data Cause : Type 0 where
  no_cause syntax_error import_error : Cause
  module_not_found : Text → Cause
  storage_or_os_error other_error : Cause

-- `ScriptFileImportError`: its cause, its `detail`, and its text for an operator.
pub record ImportFailure : Type 0 where
  pub cause : Cause
  pub code : Text
  pub message : Option Text
  pub exception_type : Option Text
  pub traceback : Option Text
  pub reason : Text

-- What importing one Script File and discovering its classes comes to.
pub data Loaded : Type 0 where
  -- The classes, with the reason to note when there is none.
  loaded : List Discovered → Text → Loaded
  -- `DiscoveryError` or `InvalidModulePathError`, by code and text.
  refused : Text → Text → Loaded
  import_failed : ImportFailure → Loaded
  -- Any other exception, with its text for an operator.
  raised : Text → Loaded

pub data FailureCode : Type 0 where
  code_of : Text → FailureCode
  metadata : MetadataCode → FailureCode
  duplicate_identity no_scripts_published : FailureCode

-- One record of `validation_errors`.
pub record Failure : Type 0 where
  pub source_path : Text
  pub code : FailureCode
  pub message : Option Text
  pub exception_type : Option Text
  pub traceback : Option Text

abbrev plain_failure : Text → FailureCode → Text → Failure
plain_failure path code message = record {
  source_path = path;
  code = code;
  message = some message;
  exception_type = none;
  traceback = none;
}

-- The variables of the loop.
pub record Judged : Type 0 where
  pub failures : List Failure
  pub outcomes : Dict Text DiscoveryStatus
  pub notes : Dict Text Text
  pub identities : List (Identity × ℕ)
  pub records : List Value

abbrev pub nothing_judged : Judged
nothing_judged = record { failures = []; outcomes = []; notes = []; identities = []; records = [] }

-- `identities.get(identity)`
abbrev pub class_of : Identity → List (Identity × ℕ) → Option ℕ
class_of i [] = none
class_of i ((j, object) ∷ rest) = if same_identity i j then some object else class_of i rest

abbrev pub add_failure : Failure → Judged → Judged
add_failure f j = record j { failures = j.failures ++ (f ∷ []) }

abbrev pub add_record : Discovered → Value → Judged → Judged
add_record d v j = record j {
  identities = ((d.logical_module, d.name), d.cls.object) ∷ j.identities;
  records = j.records ++ (v ∷ []);
}

abbrev pub set_outcome : Text → DiscoveryStatus → Judged → Judged
set_outcome path outcome j = record j { outcomes = Dict.insert path outcome j.outcomes }

abbrev pub set_note : Text → Text → Judged → Judged
set_note path note j = record j { notes = Dict.insert path note j.notes }

abbrev first_part : List Text → Text
first_part [] = []
first_part (s ∷ ss) = s

-- `name.split('.')[0]`
abbrev top_level : Text → Text
top_level name = first_part (split 46 name)

-- `_top_level_module_names`, over the paths of the manifest.
unfoldable pub top_level_module_names : (Text → Bool) → List Text → List Text
top_level_module_names is_identifier [] = []
top_level_module_names is_identifier (path ∷ paths) =
    let rest = top_level_module_names is_identifier paths in
    elim (source_path_to_dotted_name is_identifier path) [
      | err e ↦ rest
      | ok dotted ↦ if dotted == [] then rest else top_level dotted ∷ rest
    ]

-- `classify_script_file_error`: whether the failure is the content's. Which names this interpreter can
-- resolve is a parameter.
unfoldable pub is_content : (Text → Bool) → Text → List Text → Cause → Bool
is_content host_resolves revision_prefix revision_modules no_cause = true
is_content host_resolves revision_prefix revision_modules syntax_error = true
is_content host_resolves revision_prefix revision_modules import_error = true
is_content host_resolves revision_prefix revision_modules (module_not_found name) =
    name == revision_prefix
    || starts_with name (revision_prefix ++ (46 ∷ []))
    || contains revision_modules (top_level name)
    || not (host_resolves (top_level name))
is_content host_resolves revision_prefix revision_modules storage_or_os_error = false
is_content host_resolves revision_prefix revision_modules other_error = true

-- The texts of the errors that this module and the description of a class raise.
pub record Messages : Type 0 where
  pub of_metadata : MetadataCode → Discovered → Text
  pub of_duplicate : Discovered → Text

abbrev maybe : (Text → Text) → Option Text → Option Text
maybe sanitize none = none
maybe sanitize (some s) = some (sanitize s)

module _ (notification_choices : List Text) (sanitize : Text → Text) (messages : Messages) where
  -- The loop of `_collect_publications`, with the outcome so far.
  unfoldable pub collect_publications :
      ScriptFile
      → List Discovered
      → DiscoveryStatus
      → Judged
      → Result Text (DiscoveryStatus × Judged)
  collect_publications entry [] outcome j = ok (outcome, j)
  collect_publications entry (d ∷ found) outcome j =
      elim (class_of (d.logical_module, d.name) j.identities) [
        | some object ↦
            if object == d.cls.object
            then collect_publications entry found outcome j
            else collect_publications entry found failed (
                add_failure
                  (plain_failure entry.source_path duplicate_identity
                    (sanitize (messages.of_duplicate d)))
                  j)
        | none ↦
            elim (describe_script notification_choices d entry.pk entry.source_path
              (length j.records)) [
                | escaped reason ↦ err reason
                | faulty code ↦ collect_publications entry found failed (
                    add_failure
                      (plain_failure entry.source_path (metadata code)
                        (sanitize (messages.of_metadata code d)))
                      j)
                | described v ↦ collect_publications entry found outcome (add_record d v j)
              ]
      ]

  abbrev import_record : Text → ImportFailure → Failure
  import_record path f = record {
    source_path = path;
    code = code_of f.code;
    message = maybe sanitize f.message;
    exception_type = f.exception_type;
    traceback = maybe sanitize f.traceback;
  }

  abbrev pub settle : Text → Result Text (DiscoveryStatus × Judged) → Result Text Judged
  settle path (err reason) = err reason
  settle path (ok (outcome, j)) = ok (set_outcome path outcome j)

  module _ (content : Cause → Bool) where
    -- One round of the loop over the entries; an error is an exception that ends the run.
    unfoldable pub judge_entry : ScriptFile → Loaded → Judged → Result Text Judged
    unfolding collect_publications
    judge_entry entry (loaded [] note) j =
        ok (set_outcome entry.source_path no_scripts (set_note entry.source_path (sanitize note) j))
    judge_entry entry (loaded (d ∷ found) note) j =
        settle entry.source_path (collect_publications entry (d ∷ found) discovered j)
    judge_entry entry (refused code message) j = ok (
        set_outcome entry.source_path failed
          (add_failure (plain_failure entry.source_path (code_of code) (sanitize message)) j))
    judge_entry entry (import_failed f) j =
        if content f.cause
        then ok (
            set_outcome entry.source_path failed
              (add_failure (import_record entry.source_path f) j))
        else err f.reason
    judge_entry entry (raised reason) j = err reason

    unfoldable pub judge : (Text → Loaded) → List ScriptFile → Judged → Result Text Judged
    unfolding judge_entry
    judge load [] j = ok j
    judge load (entry ∷ entries) j =
        judge_entry entry (load entry.source_path) j >>= λ j'. judge load entries j'

abbrev note_for : Option Text → Text
note_for none = []
note_for (some note) = note

abbrev pub unpublished : Dict Text Text → ScriptFile → Failure
unpublished notes entry =
    plain_failure entry.source_path no_scripts_published
      (note_for (Dict.lookup entry.source_path notes))

-- The failures with the refusal of a revision that publishes nothing at all.
unfoldable pub all_failures : List ScriptFile → Judged → List Failure
all_failures entries j =
    if is_empty j.failures && is_empty j.records
    then map (unpublished j.notes) entries
    else j.failures

abbrev pub verdict_of : List Failure → Verdict
verdict_of [] = accepted
verdict_of (f ∷ fs) = rejected

abbrev pub published_of : List Failure → List Value → List Value
published_of [] records = records
published_of (f ∷ fs) records = []

-- The verdict, its failures, and the published records.
unfoldable pub conclude : List ScriptFile → Judged → Verdict × List Failure × List Value
unfolding all_failures
conclude entries j =
    let failures = all_failures entries j in
    (verdict_of failures, failures, published_of failures j.records)
