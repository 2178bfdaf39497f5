-- ===== src/Tests.antt =====
-- Concrete inputs: the theorems applied to ASCII text, to short contents and to a small project.
pub mod Declarations
pub mod Lifecycle
pub mod Migration
pub mod Scripts
pub mod Store
pub mod Validation
use netbox_scripts.Base.{
  ℕ, ◌≡◌, ==→≡, ◌↔◌, ◌≢◌, ◌==◌, text_eq, nat_eq, ◌≤◌, ◌+◌, refl, ap, ◌⊎◌, inl, inr, Bool, true,
  false, ◌&&◌, List, [], ◌∷◌, ◌++◌, Option, none, some, map, arith, if◌then◌else◌, leb, length, All,
  contains, ok, take,
}
use netbox_scripts.Base.Dict
use netbox_scripts.Text.{Text, codes, slash, split, utf8_length}
use netbox_scripts.Unicode.{Unicode, IsLawful}
use netbox_scripts.Paths.{normalize_source_path, max_path_bytes}
use netbox_scripts.Paths.Recheck.{normalize-accepted, recheck, Settled}
use netbox_scripts.Paths.Keys.{is_sha256, revision_key, revision_key_bytes}
use netbox_scripts.Paths.Nodes.{case_insensitive_collisions}
use netbox_scripts.Paths.Nodes.Collisions.{
  NoCollision, kept-NoCollision, NoCollision-collisions_none,
}
use netbox_scripts.Manifest.{
  Bytes, Files, Limits, Entry, build_manifest, compute_digest, manifest_value, entry_value,
  limit_errors,
}
use netbox_scripts.Manifest.Build.{IsBuilt, IsTree}
use netbox_scripts.Manifest.Build.Tree.{
  build_manifest-IsTree, build_manifest-IsBuilt, build_manifest_counts,
}
use netbox_scripts.Manifest.Validate.{validate_manifest}
use netbox_scripts.Manifest.RoundTrip.{build-validates}
use netbox_scripts.Names.Relative.{relative_path_iff}
use netbox_scripts.Names.{data_source_relative_path, segments_under}
use netbox_scripts.DataPaths.{data_paths_overlap}
use netbox_scripts.DataPaths.Overlap.{Holds, data_paths_overlap_iff, claimed-overlap}
use netbox_scripts.Store.{measure}
use netbox_scripts.Store.Measure.{measure_lem}

-- ASCII text: every text is normalized.
abbrev ascii_lower : ℕ → ℕ
ascii_lower c = if leb 65 c && leb c 90 then c + 32 else c

abbrev pub plain : Unicode
plain = record { nfc = λ s. s; lower = map ascii_lower; is_identifier = λ s. true }

pub map_same : (ss : List Text) → ss ≡ map (λ s. s) ss
map_same [] = refl
map_same (s ∷ ss) = ap (λ r. s ∷ r) (map_same ss)

plain-IsLawful : IsLawful plain
plain-IsLawful = record { nfc_idem = λ s. refl; split-nfc = λ s. map_same (split slash s) }

abbrev pub any_digest : Bytes → Text
any_digest b = codes "aaaaaaaaaaaaaaaaaaaaaaaaaaaaaaaaaaaaaaaaaaaaaaaaaaaaaaaaaaaaaaaa"

any_digest-hex : (b : Bytes) → is_sha256 (any_digest b) ≡ true
unfolding is_sha256 netbox_scripts.Base.nat_eq
any_digest-hex b = refl

abbrev pub a_uuid : Text
a_uuid = codes "00000000-0000-4000-8000-000000000001"

abbrev pub only_uuid : Text → Option Text
only_uuid s = some a_uuid

only_uuid_width : (k t : Text) → only_uuid k ≡ some t → utf8_length t ≡ 36
unfolding utf8_length
only_uuid_width k t h = ground arith

abbrev pub limits : Limits
limits = record { max_file_size = 4; max_project_size = 100; max_file_count = 3 }

-- Two good files, one that is too large, and one that collides with the second.
abbrev pub files : Files
files =
    (codes "b/x.py", 1 ∷ [])
    ∷ (codes "a.py", [])
    ∷ (codes "big.py", 1 ∷ 2 ∷ 3 ∷ 4 ∷ 5 ∷ [])
    ∷ (codes "B/y.py", 2 ∷ [])
    ∷ []

abbrev pub good_files : Files
good_files = (codes "pkg/x.py", 1 ∷ []) ∷ (codes "a.py", []) ∷ []

build_manifest-IsTree_example : IsTree plain (build_manifest plain any_digest files limits).0
build_manifest-IsTree_example = build_manifest-IsTree plain any_digest files limits

build_manifest-IsBuilt_example :
    All (IsBuilt plain any_digest files 4) (build_manifest plain any_digest files limits).0
build_manifest-IsBuilt_example = build_manifest-IsBuilt plain any_digest files limits

build_manifest_counts_example :
    length (build_manifest plain any_digest files limits).0
      + length (build_manifest plain any_digest files limits).1
    ≡ length files + length (limit_errors files limits)
build_manifest_counts_example = build_manifest_counts plain any_digest files limits

good_files-Settled :
    All (λ (e : Entry). Settled e.path) (build_manifest plain any_digest good_files limits).0
unfolding build_manifest netbox_scripts.Manifest.walk netbox_scripts.Manifest.build_entry
    netbox_scripts.Manifest.reject_path_conflicts netbox_scripts.Manifest.reject_below_files
    netbox_scripts.Manifest.reject_collisions netbox_scripts.Manifest.limit_errors
    netbox_scripts.Text.is_space netbox_scripts.Text.Order.sort_by
    netbox_scripts.Paths.Nodes.ancestors Dict.lookup case_insensitive_collisions Dict.insert
    netbox_scripts.Paths.Nodes.case_insensitive_nodes netbox_scripts.Paths.Nodes.rejected_from
    netbox_scripts.Paths.Nodes.first_collision netbox_scripts.Paths.Nodes.names_by_form
    normalize_source_path netbox_scripts.Paths.check_text text_eq netbox_scripts.Text.strip nat_eq
    netbox_scripts.Text.starts_with netbox_scripts.Text.ends_with
    netbox_scripts.Paths.check_segments split utf8_length netbox_scripts.Text.join
good_files-Settled = ((refl, refl), ((refl, refl), tt))

build-validates_example :
    let entries = (build_manifest plain any_digest good_files limits).0 in
    validate_manifest plain any_digest
      (manifest_value entries)
      (some (compute_digest any_digest (map entry_value entries)))
    ≡ ok tt
build-validates_example =
    build-validates plain any_digest plain-IsLawful any_digest-hex good_files limits
      good_files-Settled

untidy_path : normalize_source_path plain (codes "./a//./ b.py") ≡ ok (codes "a/ b.py")
unfolding normalize_source_path netbox_scripts.Paths.check_text text_eq netbox_scripts.Text.strip
    nat_eq netbox_scripts.Text.starts_with netbox_scripts.Text.ends_with
    netbox_scripts.Paths.check_segments split utf8_length netbox_scripts.Text.join
untidy_path = refl

normalize-accepted_example :
    normalize_source_path plain (codes "a/ b.py") ≡ recheck (codes "a/ b.py")
normalize-accepted_example =
    normalize-accepted plain plain-IsLawful (codes "./a//./ b.py") (codes "a/ b.py") untidy_path

abbrev case_paths : List Text
case_paths = codes "a.py" ∷ codes "b.py" ∷ codes "B.py" ∷ []

a_is_free :
    (p : Text)
    → contains (codes "a.py" ∷ []) p ≡ true
    → Dict.lookup p (case_insensitive_collisions plain case_paths) ≡ none
unfolding case_insensitive_collisions Dict.lookup netbox_scripts.Text.Order.sort_by nat_eq split
    Dict.insert text_eq netbox_scripts.Paths.Nodes.case_insensitive_nodes
    netbox_scripts.Paths.Nodes.rejected_from netbox_scripts.Paths.Nodes.first_collision
    netbox_scripts.Paths.Nodes.names_by_form netbox_scripts.Text.join
    netbox_scripts.Paths.Nodes.ancestors
a_is_free p h = rw (==→≡ p (codes "a.py") (ground arith)) refl

kept-NoCollision_example : NoCollision plain (codes "a.py" ∷ [])
kept-NoCollision_example =
    kept-NoCollision plain case_paths (codes "a.py" ∷ []) (λ p h. ground arith) a_is_free

a_alone :
    (p : Text)
    → contains (codes "a.py" ∷ []) p ≡ true
    → Dict.lookup p (case_insensitive_collisions plain (codes "a.py" ∷ [])) ≡ none
unfolding case_insensitive_collisions Dict.lookup netbox_scripts.Text.Order.sort_by nat_eq split
    Dict.insert text_eq netbox_scripts.Paths.Nodes.case_insensitive_nodes
    netbox_scripts.Paths.Nodes.rejected_from netbox_scripts.Paths.Nodes.first_collision
    netbox_scripts.Paths.Nodes.names_by_form netbox_scripts.Text.join
    netbox_scripts.Paths.Nodes.ancestors
a_alone p h = refl

single-NoCollision : NoCollision plain (codes "a.py" ∷ [])
single-NoCollision =
    kept-NoCollision plain (codes "a.py" ∷ []) (codes "a.py" ∷ []) (λ p h. h) a_alone

NoCollision-collisions_none_example : case_insensitive_collisions plain (codes "a.py" ∷ []) ≡ []
NoCollision-collisions_none_example =
    NoCollision-collisions_none plain (codes "a.py" ∷ []) single-NoCollision

abbrev a_key : Text
a_key =
    codes "netbox-scripts/00000000-0000-4000-8000-000000000001/revisions/"
    ++ any_digest []
    ++ codes "/a.py"

a_key_built : revision_key only_uuid plain a_uuid (any_digest []) (codes "a.py") ≡ ok a_key
unfolding revision_key is_sha256 netbox_scripts.Paths.Keys.revision_prefix
    netbox_scripts.Paths.Keys.storage_key_component netbox_scripts.Paths.Keys.project_prefix
    normalize_source_path netbox_scripts.Paths.check_text text_eq netbox_scripts.Text.strip nat_eq
    netbox_scripts.Text.starts_with netbox_scripts.Text.ends_with
    netbox_scripts.Paths.check_segments split utf8_length netbox_scripts.Text.join
a_key_built = refl

revision_key_bytes_example : utf8_length a_key ≤ 127 + max_path_bytes
revision_key_bytes_example =
    revision_key_bytes only_uuid only_uuid_width plain a_uuid (any_digest []) (codes "a.py") a_key
      a_key_built

data_paths_overlap_iff_example : (data_paths_overlap (codes "lib") (codes "lib/sub") ≡ true) ↔ (
    Holds (segments_under (codes "lib")) (segments_under (codes "lib/sub"))
    ⊎ Holds (segments_under (codes "lib/sub")) (segments_under (codes "lib")))
data_paths_overlap_iff_example = data_paths_overlap_iff (codes "lib") (codes "lib/sub")

inside_lib :
    data_source_relative_path (codes "lib/sub/a.py") (codes "lib") ≡ some (codes "sub/a.py")
unfolding data_source_relative_path text_eq split nat_eq netbox_scripts.Text.join
inside_lib = refl

inside_sub :
    data_source_relative_path (codes "lib/sub/a.py") (codes "lib/sub") ≡ some (codes "a.py")
unfolding data_source_relative_path text_eq split nat_eq netbox_scripts.Text.join
inside_sub = refl

claimed-overlap_example : data_paths_overlap (codes "lib") (codes "lib/sub") ≡ true
claimed-overlap_example =
    claimed-overlap (codes "lib/sub/a.py") (codes "lib") (codes "lib/sub") (codes "sub/a.py")
      (codes "a.py") inside_lib inside_sub

lib_named : codes "lib" ≢ []
lib_named h = cc

relative_path_iff_example :
    (data_source_relative_path (codes "lib/sub/a.py") (codes "lib") ≡ some (codes "sub/a.py"))
    ↔ (codes "lib/sub/a.py" ≡ codes "lib" ++ (slash ∷ codes "sub/a.py"))
relative_path_iff_example =
    relative_path_iff (codes "lib/sub/a.py") (codes "lib") (codes "sub/a.py") lib_named

abbrev three_bytes : Bytes
three_bytes = 1 ∷ 2 ∷ 3 ∷ []

measure_lem_example :
    measure three_bytes 1 ≡ (length (take (1 + 1) three_bytes), take (1 + 1) three_bytes)
measure_lem_example = measure_lem three_bytes 1
