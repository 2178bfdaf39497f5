-- ===== src/Store/Trees.antt =====
-- What the operations of netbox_scripts/storage/store.py on a whole tree guarantee when they return.
use netbox_scripts.Base.{
  ◌≡◌, refl, sym, ap, subst, ◌∙◌, List, [], ◌∷◌, ◌++◌, Option, some, arith, nat_eq, text_eq, All,
  Result-cases, inl, inr, ok, err, >>=-eq-ok,
}
use netbox_scripts.Base.Dict.{Dict}
use netbox_scripts.Text.{Text}
use netbox_scripts.Unicode.{Unicode}
use netbox_scripts.Json.{Value}
use netbox_scripts.Manifest.{Bytes, Entry, Files, sort_entries}
use netbox_scripts.Backend.{Backend}
use netbox_scripts.Corrupt.{Reason}
use netbox_scripts.Store.{
  stream_verified, verify_entries, tree_verdict, verify_tree, verify_revision_tree, write_revision,
  read_entries, decode_manifest, lift_unsafe, lift_corrupt, Effect, verified, write_entries,
  prepare_write, read_revision_tree,
}
use netbox_scripts.Text.Order.{All-sort_by_back}
use netbox_scripts.Paths.Keys.{revision_prefix}
use netbox_scripts.Manifest.Validate.{validate_manifest}
use netbox_scripts.Store.Verified.{
  IsIntact, IsStored, stream_verified-ok, verify_entries-ok, lift_unsafe-ok,
}

module _ (B : Backend) (sha256 : Bytes → Text) where
  tree_verdict-ok :
      (prefix : Text) (entries : List Entry) (reasons : List Reason) (p : Text)
      → tree_verdict B sha256 prefix entries reasons ≡ ok p
      → (reasons ≡ []) × (p ≡ prefix)
  tree_verdict-ok prefix entries [] p h = ground arith
  tree_verdict-ok prefix entries (r ∷ reasons) p h = ground arith

  module _ (u : Unicode) (parse_uuid : Text → Option Text) where
    verify_tree-ok :
        (s : B.State) (key digest : Text) (entries : List Entry) (prefix : Text)
        → verify_tree B sha256 u parse_uuid s key digest entries ≡ ok prefix
        → All (IsStored B sha256 s prefix) entries
    unfolding verify_tree
    verify_tree-ok s key digest entries prefix h =
        let (at, named, later) =
          >>=-eq-ok (lift_unsafe (revision_prefix parse_uuid key digest)) _ h in
        let (reasons, found, verdict) =
          >>=-eq-ok (verify_entries B sha256 s at (sort_entries entries)) _ later in
        let (none_found, same) = tree_verdict-ok at entries reasons prefix verdict in
        All-sort_by_back (λ (e : Entry). e.path) (IsStored B sha256 s prefix) entries
          (subst (λ p. All (IsStored B sha256 s p) (sort_entries entries)) (sym same)
            (verify_entries-ok B sha256 s at (sort_entries entries) (found ∙ ap ok none_found)))

    -- If verify_revision_tree returns, every entry of the manifest is stored below the prefix that
    -- it returns, with the entry's size and checksum.
    pub verify_revision_tree-IsStored :
        (s : B.State) (key digest : Text) (manifest : Value) (prefix : Text)
        → verify_revision_tree B sha256 u parse_uuid s key digest manifest ≡ ok prefix
        → All (IsStored B sha256 s prefix) (decode_manifest manifest)
    unfolding verify_revision_tree
    verify_revision_tree-IsStored s key digest manifest prefix h =
        let (done, valid, later) =
          >>=-eq-ok (lift_corrupt (validate_manifest u sha256 manifest (some digest))) _ h in
        verify_tree-ok s key digest (decode_manifest manifest) prefix later

    verified-ok :
        (t : Effect B sha256 (Unit {0})) (key digest : Text) (entries : List Entry) (prefix : Text)
        → (verified B sha256 u parse_uuid t key digest entries).0 ≡ ok prefix
        → All
            (IsStored B sha256 (verified B sha256 u parse_uuid t key digest entries).1 prefix)
            entries
    verified-ok (ok done, s) key digest entries prefix h =
        verify_tree-ok s key digest entries prefix h
    verified-ok (err e, s) key digest entries prefix h = cc

    -- If write_revision returns, whatever the backend did, every entry of the manifest is stored in
    -- the state that it leaves, with the entry's size and checksum.
    pub write_revision-IsStored :
        (s : B.State) (key digest : Text) (files : Files) (manifest : Value) (prefix : Text)
        → (write_revision B sha256 u parse_uuid s key digest files manifest).0 ≡ ok prefix
        → All
            (IsStored B sha256
              (write_revision B sha256 u parse_uuid s key digest files manifest).1
              prefix)
            (decode_manifest manifest)
    unfolding write_revision
    write_revision-IsStored s key digest files manifest prefix h =
        elim (Result-cases (prepare_write B sha256 u parse_uuid key digest files manifest)) [
          | inr (e, refused) ↦ absurd (ground (arith, refused))
          | inl ((at, source), ready) ↦
              rw (ready, write_revision)
                (verified-ok (write_entries B sha256 s at source (decode_manifest manifest)) key
                  digest (decode_manifest manifest) prefix (rw (ready, write_revision) at h))
        ]

    -- What a read makes of the entries, in their order.
    abbrev pub IsReadBack : B.State → Text → List Entry → Dict Text Bytes → Type 0
    IsReadBack s prefix [] [] = Unit
    IsReadBack s prefix (entry ∷ entries) ((path, b) ∷ tree) =
        (path ≡ entry.path)
        × (B.open_file s (prefix ++ entry.path) ≡ ok b)
        × IsIntact B sha256 entry b
        × IsReadBack s prefix entries tree
    IsReadBack s prefix _ _ = ⊥

    read_entries-IsReadBack :
        (s : B.State) (prefix : Text) (entries : List Entry) (tree : Dict Text Bytes)
        → read_entries B sha256 u parse_uuid s prefix entries ≡ ok tree
        → IsReadBack s prefix entries tree
    unfolding read_entries
    read_entries-IsReadBack s prefix [] [] h = tt
    read_entries-IsReadBack s prefix [] (f ∷ tree) h = cc
    read_entries-IsReadBack s prefix (entry ∷ entries) tree h =
        let (b, read, later) =
          >>=-eq-ok (stream_verified B sha256 s (prefix ++ entry.path) entry) _ h in
        let (more, rest, joined) =
          >>=-eq-ok (read_entries B sha256 u parse_uuid s prefix entries) _ later in
        let (opened, intact) = stream_verified-ok B sha256 s (prefix ++ entry.path) entry b read in
        let e : (entry.path, b) ∷ more ≡ tree = ground (arith, joined) in
        subst (IsReadBack s prefix (entry ∷ entries)) e
          (refl, opened, intact, read_entries-IsReadBack s prefix entries more rest)

    -- If read_revision_tree returns, its tree has the manifest's paths in order, each with the whole
    -- stored file, whose size and checksum are the entry's.
    pub read_revision_tree-IsReadBack :
        (s : B.State) (key digest : Text) (manifest : Value) (tree : Dict Text Bytes)
        → read_revision_tree B sha256 u parse_uuid s key digest manifest ≡ ok tree
        → (prefix : Text) × (revision_prefix parse_uuid key digest ≡ ok prefix)
          × IsReadBack s prefix (decode_manifest manifest) tree
    unfolding read_revision_tree
    read_revision_tree-IsReadBack s key digest manifest tree h =
        let (done, valid, later) =
          >>=-eq-ok (lift_corrupt (validate_manifest u sha256 manifest (some digest))) _ h in
        let (prefix, named, read) =
          >>=-eq-ok (lift_unsafe (revision_prefix parse_uuid key digest)) _ later in
        (
          prefix,
          lift_unsafe-ok _ prefix named,
          read_entries-IsReadBack s prefix (decode_manifest manifest) tree read,
        )
