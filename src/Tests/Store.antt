-- ===== src/Tests/Store.antt =====
-- A stored tree of one file.
use netbox_scripts.Backend.{Backend}
use netbox_scripts.Base.{inl, ◌↔◌, ◌≡◌, refl, [], ◌∷◌, ◌++◌, All, ok, text_eq, nat_eq}
use netbox_scripts.Base.Dict
use netbox_scripts.Base.Dict.{Dict}
use netbox_scripts.Text.{Text, codes}
use netbox_scripts.Json.{Value}
use netbox_scripts.Manifest.{Bytes, Entry, Files, manifest_value}
use netbox_scripts.Paths.Keys.{revision_prefix}
use netbox_scripts.Store.{
  decode_manifest, verify_revision_tree, write_revision, read_revision_tree, stream_verified,
}
use netbox_scripts.Store.Verified.{IsStored, IsIntact, stream_verified_iff}
use netbox_scripts.Store.Trees.{
  IsReadBack, verify_revision_tree-IsStored, write_revision-IsStored, read_revision_tree-IsReadBack,
}
use netbox_scripts.Tests.{plain, any_digest, only_uuid, a_uuid}
use netbox_scripts.Tests.Lifecycle.{memory}

abbrev entry : Entry
entry = record { path = codes "a.py"; size = 1; sha256 = any_digest [] }

abbrev manifest : Value
manifest = manifest_value (entry ∷ [])

abbrev prefix : Text
prefix =
    codes "netbox-scripts/00000000-0000-4000-8000-000000000001/revisions/"
    ++ any_digest []
    ++ codes "/"

abbrev stored : Dict Text Bytes
stored = (prefix ++ codes "a.py", 1 ∷ []) ∷ []

tree_is_stored :
    verify_revision_tree memory any_digest plain only_uuid stored a_uuid (any_digest []) manifest
    ≡ ok prefix
unfolding verify_revision_tree netbox_scripts.Manifest.Validate.validate_manifest
    netbox_scripts.Json.get netbox_scripts.Paths.normalize_source_path
    netbox_scripts.Paths.check_text netbox_scripts.Text.strip netbox_scripts.Text.starts_with
    netbox_scripts.Text.ends_with netbox_scripts.Paths.check_segments netbox_scripts.Text.split
    netbox_scripts.Text.utf8_length netbox_scripts.Text.join netbox_scripts.Paths.Keys.is_sha256
    netbox_scripts.Text.Order.sort_by netbox_scripts.Paths.Nodes.ancestors
    netbox_scripts.Paths.Nodes.case_insensitive_collisions
    netbox_scripts.Manifest.Validate.conflicting_paths
    netbox_scripts.Manifest.Validate.blocked_paths netbox_scripts.Manifest.Validate.sound_path
    netbox_scripts.Manifest.Validate.validate_entries
    netbox_scripts.Manifest.Validate.validate_entry netbox_scripts.Manifest.Validate.validate_fields
    netbox_scripts.Manifest.Validate.validate_path netbox_scripts.Manifest.compute_digest
    netbox_scripts.Paths.Keys.digest_component netbox_scripts.Paths.Keys.project_prefix
    netbox_scripts.Paths.Keys.storage_key_component
    netbox_scripts.Paths.Nodes.case_insensitive_nodes netbox_scripts.Paths.Nodes.first_collision
    netbox_scripts.Paths.Nodes.names_by_form netbox_scripts.Paths.Nodes.prefixes
    netbox_scripts.Paths.Nodes.rejected_from netbox_scripts.Paths.Nodes.tree_nodes
    netbox_scripts.Store.canonical_source netbox_scripts.Store.measure
    netbox_scripts.Store.measure_loop netbox_scripts.Store.prepare_write
    netbox_scripts.Store.reported_size netbox_scripts.Store.save_one
    netbox_scripts.Store.stream_verified netbox_scripts.Store.verify_entries
    netbox_scripts.Store.verify_entry netbox_scripts.Store.verify_tree
    netbox_scripts.Store.write_entries netbox_scripts.Store.write_one
    netbox_scripts.Text.Order.insert_by netbox_scripts.Text.Order.text_le
    netbox_scripts.Text.is_space netbox_scripts.Text.lstrip revision_prefix text_eq nat_eq
    Dict.lookup Dict.insert
tree_is_stored = refl

verify_revision_tree-IsStored_example :
    All (IsStored memory any_digest stored prefix) (decode_manifest manifest)
verify_revision_tree-IsStored_example =
    verify_revision_tree-IsStored memory any_digest plain only_uuid stored a_uuid (any_digest [])
      manifest prefix tree_is_stored

abbrev files : Files
files = (codes "./a.py", 1 ∷ []) ∷ []

tree_is_written :
    (write_revision memory any_digest plain only_uuid [] a_uuid (any_digest []) files manifest).0
    ≡ ok prefix
unfolding write_revision netbox_scripts.Manifest.Validate.validate_manifest netbox_scripts.Json.get
    netbox_scripts.Paths.normalize_source_path netbox_scripts.Paths.check_text
    netbox_scripts.Text.strip netbox_scripts.Text.starts_with netbox_scripts.Text.ends_with
    netbox_scripts.Paths.check_segments netbox_scripts.Text.split netbox_scripts.Text.utf8_length
    netbox_scripts.Text.join netbox_scripts.Paths.Keys.is_sha256 netbox_scripts.Text.Order.sort_by
    netbox_scripts.Paths.Nodes.ancestors netbox_scripts.Paths.Nodes.case_insensitive_collisions
    netbox_scripts.Manifest.Validate.conflicting_paths
    netbox_scripts.Manifest.Validate.blocked_paths netbox_scripts.Manifest.Validate.sound_path
    netbox_scripts.Manifest.Validate.validate_entries
    netbox_scripts.Manifest.Validate.validate_entry netbox_scripts.Manifest.Validate.validate_fields
    netbox_scripts.Manifest.Validate.validate_path netbox_scripts.Manifest.compute_digest
    netbox_scripts.Paths.Keys.digest_component netbox_scripts.Paths.Keys.project_prefix
    netbox_scripts.Paths.Keys.storage_key_component
    netbox_scripts.Paths.Nodes.case_insensitive_nodes netbox_scripts.Paths.Nodes.first_collision
    netbox_scripts.Paths.Nodes.names_by_form netbox_scripts.Paths.Nodes.prefixes
    netbox_scripts.Paths.Nodes.rejected_from netbox_scripts.Paths.Nodes.tree_nodes
    netbox_scripts.Store.canonical_source netbox_scripts.Store.measure
    netbox_scripts.Store.measure_loop netbox_scripts.Store.prepare_write
    netbox_scripts.Store.reported_size netbox_scripts.Store.save_one
    netbox_scripts.Store.stream_verified netbox_scripts.Store.verify_entries
    netbox_scripts.Store.verify_entry netbox_scripts.Store.verify_tree
    netbox_scripts.Store.write_entries netbox_scripts.Store.write_one
    netbox_scripts.Text.Order.insert_by netbox_scripts.Text.Order.text_le
    netbox_scripts.Text.is_space netbox_scripts.Text.lstrip revision_prefix text_eq nat_eq
    Dict.lookup Dict.insert
tree_is_written = refl

write_revision-IsStored_example :
    All
      (IsStored memory any_digest
        (write_revision memory any_digest plain only_uuid [] a_uuid
          (any_digest [])
          files
          manifest).1
        prefix)
      (decode_manifest manifest)
write_revision-IsStored_example =
    write_revision-IsStored memory any_digest plain only_uuid [] a_uuid (any_digest []) files
      manifest prefix tree_is_written

tree_is_read :
    read_revision_tree memory any_digest plain only_uuid stored a_uuid (any_digest []) manifest
    ≡ ok ((codes "a.py", 1 ∷ []) ∷ [])
unfolding read_revision_tree netbox_scripts.Manifest.Validate.validate_manifest
    netbox_scripts.Json.get netbox_scripts.Paths.normalize_source_path
    netbox_scripts.Paths.check_text netbox_scripts.Text.strip netbox_scripts.Text.starts_with
    netbox_scripts.Text.ends_with netbox_scripts.Paths.check_segments netbox_scripts.Text.split
    netbox_scripts.Text.utf8_length netbox_scripts.Text.join netbox_scripts.Paths.Keys.is_sha256
    netbox_scripts.Text.Order.sort_by netbox_scripts.Paths.Nodes.ancestors
    netbox_scripts.Paths.Nodes.case_insensitive_collisions
    netbox_scripts.Manifest.Validate.conflicting_paths
    netbox_scripts.Manifest.Validate.blocked_paths netbox_scripts.Manifest.Validate.sound_path
    netbox_scripts.Manifest.Validate.validate_entries
    netbox_scripts.Manifest.Validate.validate_entry netbox_scripts.Manifest.Validate.validate_fields
    netbox_scripts.Manifest.Validate.validate_path netbox_scripts.Manifest.compute_digest
    netbox_scripts.Paths.Keys.digest_component netbox_scripts.Paths.Keys.project_prefix
    netbox_scripts.Paths.Keys.storage_key_component
    netbox_scripts.Paths.Nodes.case_insensitive_nodes netbox_scripts.Paths.Nodes.first_collision
    netbox_scripts.Paths.Nodes.names_by_form netbox_scripts.Paths.Nodes.prefixes
    netbox_scripts.Paths.Nodes.rejected_from netbox_scripts.Paths.Nodes.tree_nodes
    netbox_scripts.Store.canonical_source netbox_scripts.Store.measure
    netbox_scripts.Store.measure_loop netbox_scripts.Store.prepare_write
    netbox_scripts.Store.reported_size netbox_scripts.Store.save_one
    netbox_scripts.Store.stream_verified netbox_scripts.Store.verify_entries
    netbox_scripts.Store.verify_entry netbox_scripts.Store.verify_tree
    netbox_scripts.Store.write_entries netbox_scripts.Store.write_one
    netbox_scripts.Text.Order.insert_by netbox_scripts.Text.Order.text_le
    netbox_scripts.Text.is_space netbox_scripts.Text.lstrip revision_prefix text_eq nat_eq
    Dict.lookup Dict.insert netbox_scripts.Store.read_entries
tree_is_read = refl

read_revision_tree-IsReadBack_example :
    (at : Text) × (revision_prefix only_uuid a_uuid (any_digest []) ≡ ok at)
    × IsReadBack memory any_digest plain only_uuid stored at
        (decode_manifest manifest)
        ((codes "a.py", 1 ∷ []) ∷ [])
read_revision_tree-IsReadBack_example =
    read_revision_tree-IsReadBack memory any_digest plain only_uuid stored a_uuid (any_digest [])
      manifest ((codes "a.py", 1 ∷ []) ∷ []) tree_is_read

abbrev the_file : Text
the_file = prefix ++ codes "a.py"

size_is_honest : Backend.size memory stored the_file ≡ ok 1
unfolding text_eq nat_eq Dict.lookup
size_is_honest = refl

stream_verified_iff_example :
    (stream_verified memory any_digest stored the_file entry ≡ ok (1 ∷ [])) ↔ (
      (Backend.open_file memory stored the_file ≡ ok (1 ∷ []))
      × IsIntact memory any_digest entry (1 ∷ []))
stream_verified_iff_example =
    stream_verified_iff memory any_digest stored the_file entry (1 ∷ []) (inl size_is_honest)
