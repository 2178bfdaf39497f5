-- ===== src/Validation/Results.antt =====
-- _persist_script_file_results of netbox_scripts/validation.py: the discovery results on the declared
-- files of a project.
pub mod Latest
pub mod Settled
use netbox_scripts.Base.{
  ℕ, Bool, true, false, ◌&&◌, ◌||◌, List, [], ◌∷◌, Option, none, some, map, ltb, if◌then◌else◌,
  ◌==◌, nat_eq, text_eq,
}
use netbox_scripts.Base.Dict
use netbox_scripts.Base.Dict.{Dict}
use netbox_scripts.Text.{Text}
use netbox_scripts.ScriptFiles.{ScriptFile}
use netbox_scripts.Declarations.{Declaration, DiscoveryStatus, failed, no_scripts}
use netbox_scripts.Validation.Judging.{Failure, Judged}

abbrev pub or_empty : Option Text → Text
or_empty none = []
or_empty (some s) = s

-- `messages[source_path]`: the message of the first failure of a path.
unfoldable pub message_of : Text → List Failure → Text
message_of path [] = []
message_of path (f ∷ fs) =
    let rest = message_of path fs in if f.source_path == path then or_empty f.message else rest

abbrev pub message_for : DiscoveryStatus → Text → List Failure → Dict Text Text → Text
message_for failed path failures notes = message_of path failures
message_for no_scripts path failures notes = or_empty (Dict.lookup path notes)
message_for _ path failures notes = []

abbrev pub before : Option ℕ → Option ℕ → Bool
before (some earlier) (some later) = ltb earlier later
before _ _ = false

-- The starts of the validations of the revisions are a parameter of the update.
module _ (started : ℕ → Option ℕ) (revision : ℕ) where
  -- The row carries no outcome, one of this revision, or one of a validation that started before.
  abbrev pub is_stale : Option ℕ → Bool
  is_stale none = true
  is_stale (some last) = last == revision || before (started last) (started revision)

  abbrev pub is_named : ScriptFile → Declaration → Bool
  is_named entry d =
      is_stale d.last_discovered_revision
      && (d.pk == entry.pk && d.source_path == entry.source_path)

  abbrev pub with_result : DiscoveryStatus → Text → Declaration → Declaration
  with_result outcome message d = record d {
    discovery_status = outcome;
    discovery_error = message;
    last_discovered_revision = some revision;
  }

  unfoldable pub record_result :
      ScriptFile → DiscoveryStatus → Text → List Declaration → List Declaration
  record_result entry outcome message =
      map (λ (d : Declaration). if is_named entry d then with_result outcome message d else d)

  abbrev pub recorded :
      ScriptFile
      → Option DiscoveryStatus
      → List Failure
      → Dict Text Text
      → List Declaration
      → List Declaration
  recorded entry none failures notes rows = rows
  recorded entry (some outcome) failures notes rows =
      record_result entry outcome (message_for outcome entry.source_path failures notes) rows

  -- The loop over the entries, with the failures of the verdict.
  unfoldable pub persist_results :
      List ScriptFile → List Failure → Judged → List Declaration → List Declaration
  unfolding record_result message_of
  persist_results [] failures j rows = rows
  persist_results (entry ∷ entries) failures j rows =
      persist_results entries failures j
        (recorded entry (Dict.lookup entry.source_path j.outcomes) failures j.notes rows)
