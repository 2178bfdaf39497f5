-- ===== src/Tests/Lifecycle.antt =====
-- A project with one revision: the lifecycle's theorems at concrete rows and calls.
use netbox_scripts.Base.{
  ℕ, ◌≡◌, refl, Bool, true, false, [], ◌∷◌, Option, none, some, Result, ok, err, keep_if, not, ◌==◌,
  text_eq, nat_eq, arith, length,
}
use netbox_scripts.Base.Dict
use netbox_scripts.Base.Dict.{Dict}
use netbox_scripts.Text.{Text}
use netbox_scripts.Json.{null, arr, items}
use netbox_scripts.Manifest.{Bytes}
use netbox_scripts.Backend.{Backend, Failure, file_not_found}
use netbox_scripts.Lifecycle.{Status, materialized, valid, active, manual, Revision, Rows}
use netbox_scripts.Lifecycle.Consistent.{IsConsistent, active_of}
use netbox_scripts.Staging.{World, stage_revision}
use netbox_scripts.Validation.{claim, finalize, revert_to_materialized, accepted}
use netbox_scripts.Validation.Lease.{claim-exclusive, claim-superseded, claim-finalize}
use netbox_scripts.Activation.{promote, publish, deactivate_revision}
use netbox_scripts.Activation.Consistent.{
  promote-IsConsistent, publish-KeepsRevisions, deactivate-IsConsistent,
}
use netbox_scripts.Activation.Serves.{promote-active}
use netbox_scripts.Scripts.{SyncResult}
use netbox_scripts.History.{created, staged, new_project, Reach-IsConsistent}
use netbox_scripts.Tests.{plain, any_digest, only_uuid, limits, good_files, a_uuid}

-- A backend that keeps the files in memory.
abbrev read_file : Option Bytes → Result Failure Bytes
read_file none = err file_not_found
read_file (some b) = ok b

abbrev has_file : Option Bytes → Bool
has_file none = false
has_file (some b) = true

abbrev size_of : Result Failure Bytes → Result Failure ℕ
size_of (ok b) = ok (length b)
size_of (err e) = err e

abbrev pub memory : Backend
memory = record {
  State = Dict Text Bytes;
  exists = λ s key. ok (has_file (Dict.lookup key s));
  size = λ s key. size_of (read_file (Dict.lookup key s));
  open_file = λ s key. read_file (Dict.lookup key s);
  save = λ s key content. ok (key, Dict.insert key content s);
  delete = λ s key. ok (keep_if (λ (f : Text × Bytes). not (f.0 == key)) s);
}

abbrev empty_world : World memory
empty_world = record { rows = new_project a_uuid manual; store = [] }

abbrev after_staging : World memory
after_staging =
    (stage_revision memory plain any_digest only_uuid limits (λ errors. null) null good_files true
      empty_world).1

Reach-IsConsistent_example : IsConsistent after_staging.rows
Reach-IsConsistent_example =
    Reach-IsConsistent memory plain any_digest only_uuid limits (λ errors. null) null []
      after_staging (staged good_files true empty_world (created a_uuid manual []))

abbrev pub one_revision : Status → Revision
one_revision status = record {
  pk = 0;
  digest = some (any_digest []);
  status = status;
  manifest = arr (items []);
  file_count = 0;
  total_size = 0;
  validation_errors = null;
  discovered_scripts = arr (items []);
  script_file_snapshot = arr (items []);
  script_file_digest = any_digest [];
  validation_job = none;
  validation_started = none;
  last_validation_failure = [];
  activated = none;
}

abbrev one_row : Option ℕ → Status → Rows
one_row pointer status = record {
  project = some (record {
    storage_key = a_uuid;
    active_revision = pointer;
    source_revision = none;
    source_activation_pending = false;
    activation_policy = manual;
  });
  revisions = one_revision status ∷ [];
  script_files = [];
  scripts = [];
  next_revision = 1;
  next_script = 0;
}

valid-IsConsistent : IsConsistent (one_row none valid)
valid-IsConsistent = record {
  agrees = (refl, tt);
  present = refl;
  distinct = (refl, tt);
  below = (omega arith, tt);
}

active-IsConsistent : IsConsistent (one_row (some 0) active)
unfolding nat_eq
active-IsConsistent = record {
  agrees = (refl, tt);
  present = refl;
  distinct = (refl, tt);
  below = (omega arith, tt);
}

promote-IsConsistent_example :
    IsConsistent
      (promote any_digest (publish [] false) (one_revision valid) false 5 (one_row none valid)).1
promote-IsConsistent_example =
    promote-IsConsistent any_digest (publish [] false) (publish-KeepsRevisions [] false)
      (one_revision valid) false 5 (one_row none valid) valid-IsConsistent

deactivate-IsConsistent_example :
    IsConsistent (deactivate_revision [] 0 (one_row (some 0) active)).1
deactivate-IsConsistent_example =
    deactivate-IsConsistent [] 0 (one_row (some 0) active) active-IsConsistent

abbrev nothing_published : SyncResult
nothing_published = record { published = 0; retired = 0; written = 0 }

promotion_succeeds :
    (promote any_digest (publish [] false) (one_revision valid) false 5 (one_row none valid)).0
    ≡ ok (some nothing_published)
unfolding promote netbox_scripts.Lifecycle.find_revision nat_eq text_eq netbox_scripts.Json.value_eq
    publish netbox_scripts.Introspection.validate_discovered_scripts
    netbox_scripts.Scripts.synchronize
promotion_succeeds = refl

promote-active_example :
    active_of
      (promote any_digest
        (publish [] false)
        (one_revision valid)
        false
        5
        (one_row none valid)).1.project
    ≡ some 0
promote-active_example =
    promote-active any_digest (publish [] false) (one_revision valid) false 5 (one_row none valid)
      nothing_published promotion_succeeds

abbrev waiting : Rows
waiting = one_row none materialized

claim_wins : (claim 0 7 100 waiting).0 ≡ true
unfolding claim nat_eq
claim_wins = refl

claim-exclusive_example :
    claim 0 8 200 (claim 0 7 100 waiting).1 ≡ (false, (claim 0 7 100 waiting).1)
claim-exclusive_example = claim-exclusive 0 7 100 waiting (refl, tt) claim_wins 8 200 (omega arith)

claim-superseded_example :
    (finalize 0 6 accepted null null (claim 0 7 100 waiting).1 ≡ (false, (claim 0 7 100 waiting).1))
    × (revert_to_materialized 0 6 [] (claim 0 7 100 waiting).1 ≡ (claim 0 7 100 waiting).1)
claim-superseded_example =
    claim-superseded 0 7 100 waiting (refl, tt) claim_wins 6 accepted null null [] (ground arith)

claim-finalize_example : (finalize 0 7 accepted null null (claim 0 7 100 waiting).1).0 ≡ true
claim-finalize_example = claim-finalize 0 7 100 waiting (refl, tt) claim_wins accepted null null
