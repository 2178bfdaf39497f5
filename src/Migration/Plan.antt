-- ===== src/Migration/Plan.antt =====
-- netbox_scripts/migration/plan.py: the Script Projects that legacy modules would migrate into.
pub mod Containers
pub mod Folders
pub mod Partition
use netbox_scripts.Base.{
  ℕ, ◌+◌, ◌-◌, Bool, true, false, not, ◌&&◌, ◌||◌, List, [], ◌∷◌, ◌++◌, Option, none, some, map,
  ltb, leb, if◌then◌else◌, ◌==◌, nat_eq, text_eq, Eq, any_of, all_of, length, take, is_empty,
}
use native.Mathlib.Decide.{ℕ_discrete}
use netbox_scripts.Base.Dict
use netbox_scripts.Base.Dict.{Dict, keys}
use netbox_scripts.Text.{Text, codes, slash, split, join}
use netbox_scripts.Text.Order.{insert_by, sort_by}
use netbox_scripts.Json.{decimal}
use netbox_scripts.Names.{segments_under}
use netbox_scripts.DataPaths.{data_paths_overlap}

-- A legacy module, as the plan reads it.
pub record Module : Type 0 where
  pub pk : ℕ
  pub data_source : Option ℕ
  pub data_path : Text
  pub file_path : Text
  pub python_name : Text

-- The key a module groups on: an uploaded file by itself, a synchronized one by its folder.
pub data Identity : Type 0 where
  upload : ℕ → Identity
  folder : ℕ → Text → Identity

Identity-discrete : Discrete Identity
Identity-discrete = hlevel ℕ_discrete

instance unfoldable pub identity_eq : Eq Identity
unfolding Identity-discrete ℕ_discrete
identity_eq = record { dec = Identity-discrete }

-- The text up to its last slash.
unfoldable pub head_of : Text → Text
head_of [] = []
head_of (c ∷ s) =
    let rest = head_of s in if is_empty rest then (if c == slash then c ∷ [] else []) else c ∷ rest

unfoldable pub rstrip_slashes : Text → Text
rstrip_slashes [] = []
rstrip_slashes (c ∷ s) =
    let rest = rstrip_slashes s in if is_empty rest && c == slash then [] else c ∷ rest

-- `posixpath.dirname`
unfoldable pub dirname : Text → Text
unfolding head_of rstrip_slashes
dirname path =
    let head = head_of path in if all_of (λ c. c == slash) head then head else rstrip_slashes head

-- `_identity`
unfoldable pub identity : Module → Identity
unfolding dirname
identity m = elim m.data_source [
  | none ↦ upload m.pk
  | some source ↦ folder source (dirname m.data_path)
]

-- The buckets of modules, in the order of insertion.
abbrev pub Buckets : Type 0
Buckets = Dict Identity (List Module)

-- `buckets.setdefault(key, []).extend(members)`
unfoldable pub extend : Identity → List Module → Buckets → Buckets
extend key members [] = (key, members) ∷ []
extend key members ((k, ms) ∷ buckets) =
    if key == k then (k, ms ++ members) ∷ buckets else (k, ms) ∷ extend key members buckets

unfoldable pub bucket : List Module → Buckets → Buckets
unfolding identity extend
bucket [] buckets = buckets
bucket (m ∷ ms) buckets = bucket ms (extend (identity m) (m ∷ []) buckets)

-- `_depth`
unfoldable pub depth : Text → ℕ
depth path = if path == [] then 0 else length (split slash path)

-- The loop of `_container`, with the best folder so far.
unfoldable pub container_from : Text → List Text → Text → Text
unfolding depth
container_from path [] best = best
container_from path (candidate ∷ folders) best = container_from path folders (
    if ltb (depth candidate) (depth best) && data_paths_overlap candidate path
    then candidate
    else best)

-- `_container`
unfoldable pub container : Text → List Text → Text
unfolding container_from
container path folders = container_from path folders path

-- `folders[source]`: the folders of one data source, in the order of the buckets.
unfoldable pub folders_on : ℕ → List Identity → List Text
folders_on source [] = []
folders_on source (upload pk ∷ ids) = folders_on source ids
folders_on source (folder s path ∷ ids) =
    let rest = folders_on source ids in if s == source then path ∷ rest else rest

unfoldable pub moved : List Identity → Identity → Identity
unfolding container folders_on
moved ids (upload pk) = upload pk
moved ids (folder source path) = folder source (container path (folders_on source ids))

-- The second loop of `_collapse`.
unfoldable pub merge : List Identity → Buckets → Buckets → Buckets
unfolding extend moved
merge ids [] merged = merged
merge ids ((key, members) ∷ buckets) merged =
    merge ids buckets (extend (moved ids key) members merged)

unfoldable pub collapse : Buckets → Buckets
unfolding merge
collapse buckets = merge (keys buckets) buckets []

pub data SourceType : Type 0 where
  uploaded data_source : SourceType

-- `ProposedProject`
pub record Proposal : Type 0 where
  pub key : Text
  pub name : Text
  pub source_type : SourceType
  pub data_source_id : Option ℕ
  pub data_path : Text
  pub module_pks : List ℕ

unfoldable pub insert_pk : ℕ → List ℕ → List ℕ
insert_pk pk [] = pk ∷ []
insert_pk pk (k ∷ pks) = let rest = insert_pk pk pks in if leb pk k then pk ∷ k ∷ pks else k ∷ rest

-- `sorted(member.pk for member in members)`
unfoldable pub sorted_pks : List Module → List ℕ
unfolding insert_pk
sorted_pks [] = []
sorted_pks (m ∷ ms) = insert_pk m.pk (sorted_pks ms)

abbrev key_digest_length : ℕ
key_digest_length = 8

abbrev key_stem_length : ℕ
key_stem_length = 100 - key_digest_length - 1

-- `\0` between the parts of an identity.
abbrev identity_text : Identity → Text
identity_text (upload pk) = join 0 (codes "upload" ∷ decimal pk ∷ [])
identity_text (folder source path) = join 0 (codes "data_source" ∷ decimal source ∷ path ∷ [])

abbrev or_else : Text → Text → Text
or_else s default = if s == [] then default else s

abbrev first_name : List Module → Text
first_name [] = []
first_name (m ∷ ms) = m.python_name

-- `text.replace(old, new)` for single characters.
abbrev replace_char : ℕ → ℕ → Text → Text
replace_char old new = map (λ c. if c == old then new else c)

-- `hashlib.sha256(text.encode()).hexdigest()` and Django's `slugify` are parameters.
module _ (sha256_hex slugify : Text → Text) where
  -- `_key`
  unfoldable pub project_key : Text → Identity → Text
  project_key stem id =
      let slug =
        or_else (take key_stem_length (slugify (replace_char slash 45 stem))) (codes "project") in
      slug ++ (45 ∷ take key_digest_length (sha256_hex (identity_text id)))

  -- `_propose`
  unfoldable pub propose : Identity × List Module → Proposal
  unfolding project_key sorted_pks
  propose (upload pk, members) = record {
    key = project_key (first_name members) (upload pk);
    name = first_name members;
    source_type = uploaded;
    data_source_id = none;
    data_path = [];
    module_pks = sorted_pks members;
  }
  propose (folder source path, members) = record {
    key = project_key (or_else path (codes "data-source-root")) (folder source path);
    name = or_else path (codes "the data source root");
    source_type = data_source;
    data_source_id = some source;
    data_path = path;
    module_pks = sorted_pks members;
  }

  unfoldable pub group : List Module → List Proposal
  unfolding propose collapse bucket
  group modules = sort_by (λ (p : Proposal). p.key) (map propose (collapse (bucket modules [])))

-- A finding, less its message.
pub data Level : Type 0 where
  ready warning blocking : Level

abbrev is_blocking : Level → Bool
is_blocking blocking = true
is_blocking _ = false

abbrev is_warning : Level → Bool
is_warning warning = true
is_warning _ = false

-- `_status`
unfoldable pub status : List Level → Level
status levels =
    if any_of is_blocking levels
    then blocking
    else (if any_of is_warning levels then warning else ready)
