-- ===== src/Tests/Validation.antt =====
-- One Script File that publishes one class, and one that publishes none.
use netbox_scripts.Base.{
  ℕ, ◌≤◌, ◌≡◌, ◌≢◌, refl, Bool, true, false, List, [], ◌∷◌, Option, none, some, ok, All, arith,
  if◌then◌else◌, ◌==◌, text_eq, nat_eq,
}
use netbox_scripts.Text.{Text, codes}
use netbox_scripts.Json.{Value, arr, items}
use netbox_scripts.ScriptFiles.{ScriptFile}
use netbox_scripts.Introspection.{Published, validate_discovered_scripts}
use netbox_scripts.Introspection.Describe.{Discovered, built, no_timeout}
use netbox_scripts.Validation.{accepted}
use netbox_scripts.Validation.Judging.{
  Loaded, loaded, Messages, Judged, Failure, judge, conclude, nothing_judged, is_content,
}
use netbox_scripts.Validation.Judging.Published.{accepted_publishes}
use netbox_scripts.Base.{map}
use netbox_scripts.ScriptFiles.{snapshot_entry}
use netbox_scripts.Lifecycle.{Rows, materialized}
use netbox_scripts.Lifecycle.Consistent.{NodupPks}
use netbox_scripts.Validation.Worker.{Run, validate_revision}
use netbox_scripts.Validation.Worker.Verdicts.{Stands, verdict-Stands}
use netbox_scripts.Tests.{plain, any_digest}
use netbox_scripts.Tests.Lifecycle.{one_revision}
use netbox_scripts.Declarations.{Declaration, pending}
use netbox_scripts.Validation.Results.Settled.{Recording}
use netbox_scripts.Validation.Results.Latest.{persist_each, SettlesAll, persist_each-SettlesAll}

abbrev deploy : Discovered
deploy = record {
  logical_module = codes "a";
  name = codes "Deploy";
  cls = record {
    object = 0;
    reserved = [];
    display_name = codes "Deploy";
    description = [];
    form = built;
    commit_default = true;
    scheduling_enabled = true;
    job_timeout = no_timeout;
    notifications_default = codes "always";
  };
}

abbrev choices : List Text
choices = codes "always" ∷ codes "never" ∷ []

abbrev same_text : Text → Text
same_text s = s

abbrev messages : Messages
messages = record { of_metadata = λ code d. []; of_duplicate = λ d. [] }

abbrev entries : List ScriptFile
entries =
    record { pk = 1; source_path = codes "a.py" }
    ∷ record { pk = 2; source_path = codes "b.py" }
    ∷ []

abbrev two_files : Text → Loaded
two_files path =
    if path == codes "a.py" then loaded (deploy ∷ []) [] else loaded [] (codes "nothing here")

abbrev ended_judged {ℓ} : {E : Type ℓ} → netbox_scripts.Base.Result E Judged → Judged
ended_judged (ok j) = j
ended_judged (netbox_scripts.Base.err e) = nothing_judged

abbrev outcome : Judged
outcome = ended_judged (
    judge choices same_text messages (is_content (λ name. false) [] []) two_files entries
      nothing_judged)

judged_ends :
    judge choices same_text messages
      (is_content (λ name. false) [] [])
      two_files
      entries
      nothing_judged
    ≡ ok outcome
unfolding judge text_eq nat_eq netbox_scripts.Introspection.Describe.describe_script
judged_ends = refl

judged_valid : conclude entries outcome ≡ (accepted, [], outcome.records)
unfolding conclude judge text_eq nat_eq netbox_scripts.Introspection.Describe.describe_script
judged_valid = refl

entries_positive : All (λ (f : ScriptFile). 1 ≤ f.pk) entries
entries_positive = (omega arith, (omega arith, tt))

accepted_publishes_example :
    (◌≡◌ {A = List Failure} [] [])
    × (entries ≢ [] → outcome.records ≢ [])
    × ((ps : List Published) × (validate_discovered_scripts choices (arr (items outcome.records))
          ≡ ok ps))
accepted_publishes_example =
    accepted_publishes choices same_text messages (is_content (λ name. false) [] []) two_files
      entries outcome [] outcome.records entries_positive judged_ends judged_valid

-- A revision whose snapshot names the first of the files.
abbrev one_entry : Value
one_entry = arr (items (map snapshot_entry (record { pk = 1; source_path = codes "a.py" } ∷ [])))

abbrev ready : Rows
ready = record {
  project = none;
  revisions = record (one_revision materialized) { script_file_snapshot = one_entry } ∷ [];
  script_files = [];
  scripts = [];
  next_revision = 1;
  next_script = 0;
}

abbrev validated : Run
validated =
    validate_revision 0 9 (λ w. w) plain any_digest choices same_text messages
      (λ row. is_content (λ name. false) [] []) (λ row. two_files) 5 ready

validated_valid : validated ≡ (ok (some accepted), validated.1)
unfolding validate_revision text_eq nat_eq netbox_scripts.Lifecycle.find_revision
    netbox_scripts.Lifecycle.update_where netbox_scripts.ScriptFiles.validate_script_file_snapshot
    netbox_scripts.Json.get netbox_scripts.Text.Order.sort_by
    netbox_scripts.Paths.normalize_source_path netbox_scripts.Paths.check_text
    netbox_scripts.Text.strip netbox_scripts.Text.starts_with netbox_scripts.Text.ends_with
    netbox_scripts.Paths.check_segments netbox_scripts.Text.split netbox_scripts.Text.utf8_length
    netbox_scripts.Text.join netbox_scripts.Names.source_path_to_dotted_name
    netbox_scripts.Names.is_keyword netbox_scripts.Paths.Nodes.case_insensitive_collisions
    netbox_scripts.Base.Dict.insert netbox_scripts.Base.Dict.lookup
    netbox_scripts.Manifest.Validate.validate_manifest
    netbox_scripts.Introspection.Describe.describe_script netbox_scripts.Json.dumps
    netbox_scripts.Paths.Nodes.case_insensitive_nodes netbox_scripts.Paths.Nodes.tree_nodes
    netbox_scripts.Paths.Nodes.ancestors netbox_scripts.Paths.Nodes.names_by_form
    netbox_scripts.Paths.Nodes.rejected_from netbox_scripts.Paths.Nodes.first_collision
    netbox_scripts.ScriptFiles.compute_script_file_digest
    netbox_scripts.Introspection.require_storable netbox_scripts.Paths.Keys.is_sha256
    netbox_scripts.Manifest.compute_digest
validated_valid = refl

ready_distinct : NodupPks ready.revisions
ready_distinct = (refl, tt)

verdict-Stands_example : Stands choices accepted 0 validated.1
verdict-Stands_example =
    verdict-Stands 0 9 (λ w. w) (λ w distinct. distinct) plain any_digest choices same_text messages
      (λ row. is_content (λ name. false) [] []) (λ row. two_files) 5 ready validated.1 accepted
      ready_distinct validated_valid

abbrev file_row : ℕ → Text → Option ℕ → Declaration
file_row pk path last = record {
  pk = pk;
  source_path = path;
  enabled = true;
  discovery_status = pending;
  discovery_error = [];
  last_discovered_revision = last;
}

abbrev file_rows : List Declaration
file_rows = file_row 1 (codes "a.py") none ∷ file_row 2 (codes "b.py") (some 8) ∷ []

-- Two validations that end in the reverse order of their starts.
abbrev recording : ℕ → Recording
recording revision = record {
  revision = revision;
  entries = entries;
  failures = [];
  judged = outcome;
}

abbrev reversed : List Recording
reversed = recording 9 ∷ recording 7 ∷ []

persist_each-SettlesAll_example :
    SettlesAll (λ pk. pk) reversed file_rows (persist_each (λ pk. pk) reversed file_rows)
persist_each-SettlesAll_example = persist_each-SettlesAll (λ pk. pk) reversed file_rows
