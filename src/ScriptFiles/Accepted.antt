-- ===== src/ScriptFiles/Accepted.antt =====
-- From `build_script_file_snapshot` to `validate_script_file_snapshot`: when the declared files of a
-- project make a snapshot that its return trip accepts.
use netbox_scripts.Base.{
  ℕ, suc, ◌≤◌, ◌≡◌, ◌≢◌, refl, sym, ◌∙◌, true, false, ◌||◌, List, [], ◌∷◌, Option, none, some, map,
  arith, ltb, text_eq, nat_eq, contains, All, Pairwise, ok, ==-refl, ◌==◌, length, Bool-cases, ap,
  subst, ==→≡, inl, inr,
}
use netbox_scripts.Base.Dict
use netbox_scripts.Base.Dict.{Dict, lookup-insert}
use netbox_scripts.Text.{Text}
use netbox_scripts.Text.Order.{
  sort_by, text_le, IsSorted, sort_by-IsSorted, Pairwise-sort_by, All-sort_by,
}
use netbox_scripts.Unicode.{Unicode}
use netbox_scripts.Names.{source_path_to_dotted_name}
use netbox_scripts.Paths.{normalize_source_path}
use netbox_scripts.Paths.Nodes.{case_insensitive_nodes, case_insensitive_collisions}
use netbox_scripts.Paths.Nodes.Collisions.{
  NoCollision, NoCollision-collisions_none, NoCollision-ext,
}
use netbox_scripts.Json.{get, arr, items, listed-items}
use netbox_scripts.Manifest.{Bytes}
use netbox_scripts.ScriptFiles.{
  ScriptFile, out_of_order, snapshot_entry, Claimed, nothing_claimed, claimants, check_id,
  check_path, claim_path, shared_names, compute_script_file_digest, build_script_file_snapshot,
  validate_entry, validate_entries, validate_script_file_snapshot,
}

-- A row that a snapshot may hold: its key is a positive number, its path is canonical and importable.
pub record IsImportable (u : Unicode) (f : ScriptFile) : Type 0 where
  pub positive : 1 ≤ f.pk
  pub canonical : normalize_source_path u f.source_path ≡ ok f.source_path
  pub dotted : Text
  pub imports : source_path_to_dotted_name u.is_identifier f.source_path ≡ ok dotted

-- Two paths that no case-insensitive file system and no import confuses.
pub record Compatible (u : Unicode) (p q : Text) : Type 0 where
  pub nodes :
      (form n m : Text)
      → Dict.lookup form (case_insensitive_nodes u p) ≡ some n
      → Dict.lookup form (case_insensitive_nodes u q) ≡ some m
      → n ≡ m
  pub names :
      (d : Text)
      → source_path_to_dotted_name u.is_identifier p ≡ ok d
      → source_path_to_dotted_name u.is_identifier q ≢ ok d

-- Two rows with keys of their own and compatible paths.
abbrev pub Apart : Unicode → ScriptFile → ScriptFile → Type 0
Apart u f g = (f.pk ≢ g.pk) × Compatible u f.source_path g.source_path

abbrev pub paths_of : List ScriptFile → List Text
paths_of = map (λ (f : ScriptFile). f.source_path)

module _ (u : Unicode) where
  claimed_by : ScriptFile → Text → Claimed → Claimed
  claimed_by f d c = record {
    ids = f.pk ∷ c.ids;
    paths = f.source_path ∷ c.paths;
    names = Dict.insert d (f.source_path ∷ []) c.names;
  }

  validate_entry_importable :
      (index : ℕ) (f : ScriptFile) (h : IsImportable u f) (c : Claimed)
      → contains c.ids f.pk ≡ false
      → contains c.paths f.source_path ≡ false
      → Dict.lookup h.dotted c.names ≡ none
      → validate_entry u index (snapshot_entry f) c ≡ ([], claimed_by f h.dotted c)
  unfolding validate_entry get text_eq check_id check_path claim_path claimed_by sort_by
  validate_entry_importable index f h c id path name =
      ground (arith, h.canonical, h.imports, h.positive, id, path, name)

  -- What the entries have claimed, the last first.
  claimed : (fs : List ScriptFile) → All (IsImportable u) fs → Claimed → Claimed
  claimed [] h c = c
  claimed (f ∷ fs) h c = claimed fs h.1 (claimed_by f h.0.dotted c)

  -- Nothing that the file needs is claimed.
  record IsFree (c : Claimed) (f : ScriptFile) : Type 0 where
    id_free : contains c.ids f.pk ≡ false
    path_free : contains c.paths f.source_path ≡ false
    name_free :
        (d : Text)
        → source_path_to_dotted_name u.is_identifier f.source_path ≡ ok d
        → Dict.lookup d c.names ≡ none

  claimed_by-IsFree :
      (f g : ScriptFile) (h : IsImportable u f) (c : Claimed)
      → IsImportable u g
      → Apart u f g
      → IsFree c g
      → IsFree (claimed_by f h.dotted c) g
  unfolding claimed_by
  claimed_by-IsFree f g h c k apart free = record {
    id_free = ground (arith, apart.0, free.id_free);
    path_free = ground (arith, apart.1.names h.dotted h.imports, h.imports, free.path_free);
    name_free = λ d e.
        let apart_name = apart.1.names h.dotted h.imports in
        ground (
          arith,
          apart_name,
          e,
          free.name_free d e,
          lookup-insert d h.dotted (f.source_path ∷ []) c.names,
        );
  }

  All-claimed :
      (f : ScriptFile) (h : IsImportable u f) (c : Claimed) (gs : List ScriptFile)
      → All (IsImportable u) gs
      → All (Apart u f) gs
      → All (IsFree c) gs
      → All (IsFree (claimed_by f h.dotted c)) gs
  All-claimed f h c [] k a free = tt
  All-claimed f h c (g ∷ gs) k a free =
      (claimed_by-IsFree f g h c k.0 a.0 free.0, All-claimed f h c gs k.1 a.1 free.1)

  -- The last path is at most the next ones.
  abbrev IsBelow : Option Text → List ScriptFile → Type 0
  IsBelow none fs = Unit
  IsBelow (some previous) fs = All (λ (f : ScriptFile). text_le previous f.source_path ≡ true) fs

  in_order :
      (previous : Option Text) (f : ScriptFile) (fs : List ScriptFile)
      → IsBelow previous (f ∷ fs)
      → out_of_order u previous f.source_path ≡ []
  in_order none f fs below = refl
  in_order (some previous) f fs below = rw (below.0) refl

  validate_entries_importable :
      (index : ℕ) (fs : List ScriptFile) (previous : Option Text) (c : Claimed)
      (h : All (IsImportable u) fs)
      → Pairwise (Apart u) fs
      → All (IsFree c) fs
      → IsSorted (λ (f : ScriptFile). f.source_path) fs
      → IsBelow previous fs
      → validate_entries u index (map snapshot_entry fs) previous c ≡ ([], claimed fs h c)
  unfolding validate_entries claimed get text_eq claimed_by
  validate_entries_importable index [] previous c h apart free sorted below = refl
  validate_entries_importable index (f ∷ fs) previous c h apart free sorted below =
      rw
        (
          validate_entry_importable index f h.0 c free.0.id_free free.0.path_free
              (free.0.name_free h.0.dotted h.0.imports),
          validate_entries_importable (suc index) fs (some f.source_path)
              (claimed_by f h.0.dotted c) h.1 apart.1 (All-claimed f h.0 c fs h.1 apart.0 free.1)
              sorted.1 sorted.0,
          in_order previous f fs below,
        )
        refl

  -- Each name is claimed by one path at most.
  abbrev OneEach : Dict Text (List Text) → Type 0
  OneEach names = (d : Text) → ltb 1 (length (claimants (Dict.lookup d names))) ≡ false

  claimed-OneEach :
      (fs : List ScriptFile) (h : All (IsImportable u) fs) (c : Claimed)
      → OneEach c.names
      → OneEach (claimed fs h c).names
  unfolding claimed claimed_by
  claimed-OneEach [] h c one = one
  claimed-OneEach (f ∷ fs) h c one =
      claimed-OneEach fs h.1 (claimed_by f h.0.dotted c)
        (λ d. ground (arith, one d, lookup-insert d h.0.dotted (f.source_path ∷ []) c.names))

  shared_none :
      (names : Dict Text (List Text)) (ds : List Text) → OneEach names → shared_names names ds ≡ []
  unfolding shared_names
  shared_none names [] one = refl
  shared_none names (d ∷ ds) one = rw (one d, shared_names) (shared_none names ds one)

  contains-claimed :
      (fs : List ScriptFile) (h : All (IsImportable u) fs) (c : Claimed) (a : Text)
      → contains (claimed fs h c).paths a ≡ (contains (paths_of fs) a || contains c.paths a)
  unfolding claimed claimed_by
  contains-claimed [] h c a = refl
  contains-claimed (f ∷ fs) h c a =
      ground (arith, contains-claimed fs h.1 (claimed_by f h.0.dotted c) a)

  held : (P : Text → Type 0) (xs : List Text) → All P xs → (a : Text) → contains xs a ≡ true → P a
  held P [] h a c = cc
  held P (x ∷ xs) h a c = elim (Bool-cases (a == x)) [
    | inl same ↦ subst P (sym (==→≡ a x same)) h.0
    | inr differ ↦ held P xs h.1 a (ground (arith, differ, c))
  ]

  -- Pairwise compatible paths do not collide.
  Compatible-NoCollision : (ps : List Text) → Pairwise (Compatible u) ps → NoCollision u ps
  Compatible-NoCollision [] h p q form n m a b k l = cc
  Compatible-NoCollision (r ∷ ps) h p q form n m a b k l = elim (Bool-cases (p == r)) [
    | inl p_first ↦ elim (Bool-cases (q == r)) [
      | inl q_first ↦ ground (arith, ==→≡ p r p_first, ==→≡ q r q_first, k, l)
      | inr q_later ↦
          (held (Compatible u r) ps h.0 q (ground (arith, q_later, b))).nodes form n m
            (ap (λ s. Dict.lookup form (case_insensitive_nodes u s)) (sym (==→≡ p r p_first)) ∙ k) l
    ]
    | inr p_later ↦ elim (Bool-cases (q == r)) [
      | inl q_first ↦ sym (
          (held (Compatible u r) ps h.0 p (ground (arith, p_later, a))).nodes form m n
            (ap (λ s. Dict.lookup form (case_insensitive_nodes u s)) (sym (==→≡ q r q_first)) ∙ l)
            k)
      | inr q_later ↦
          Compatible-NoCollision ps h.1 p q form n m (ground (arith, p_later, a))
            (ground (arith, q_later, b)) k l
    ]
  ]

  All-IsFree : (fs : List ScriptFile) → All (IsFree nothing_claimed) fs
  unfolding Dict.lookup
  All-IsFree [] = tt
  All-IsFree (f ∷ fs) =
      (record { id_free = refl; path_free = refl; name_free = λ d e. refl }, All-IsFree fs)

  one_each : OneEach nothing_claimed.names
  unfolding Dict.lookup
  one_each d = refl

  Compatible-with :
      (f : ScriptFile) (fs : List ScriptFile)
      → All (Apart u f) fs
      → All (Compatible u f.source_path) (paths_of fs)
  Compatible-with f [] h = tt
  Compatible-with f (g ∷ fs) h = (h.0.1, Compatible-with f fs h.1)

  Compatible-paths :
      (fs : List ScriptFile) → Pairwise (Apart u) fs → Pairwise (Compatible u) (paths_of fs)
  Compatible-paths [] h = tt
  Compatible-paths (f ∷ fs) h = (Compatible-with f fs h.0, Compatible-paths fs h.1)

  pub compatible_sym : (f g : ScriptFile) → Apart u f g → Apart u g f
  compatible_sym f g h = (
    λ e. h.0 (sym e),
    record {
      nodes = λ form n m k l. sym (h.1.nodes form m n l k);
      names = λ d k l. h.1.names d l k;
    },
  )

  module _ (sha256 : Bytes → Text) where
    sound-accepted :
        (fs : List ScriptFile)
        → All (IsImportable u) fs
        → Pairwise (Apart u) fs
        → IsSorted (λ (f : ScriptFile). f.source_path) fs
        → let snapshot = map snapshot_entry fs in
          validate_script_file_snapshot u sha256
            (arr (items snapshot))
            (compute_script_file_digest sha256 snapshot)
          ≡ ok snapshot
    unfolding validate_script_file_snapshot sort_by
    sound-accepted fs h apart sorted =
        let snapshot = map snapshot_entry fs in
        let c = claimed fs h nothing_claimed in
        let entries : validate_entries u 0 snapshot none nothing_claimed ≡ ([], c) =
          validate_entries_importable 0 fs none nothing_claimed h apart (All-IsFree fs) sorted tt in
        let collisions : case_insensitive_collisions u c.paths ≡ [] =
          NoCollision-collisions_none u c.paths (
            NoCollision-ext u c.paths (paths_of fs)
              (λ a. ground (arith, contains-claimed fs h nothing_claimed a))
              (Compatible-NoCollision (paths_of fs) (Compatible-paths fs apart))) in
        rw
          (
            listed-items snapshot,
            entries,
            collisions,
            shared_none c.names (sort_by (λ n. n) (Dict.keys c.names))
                (claimed-OneEach fs h nothing_claimed one_each),
            ==-refl (compute_script_file_digest sha256 snapshot),
          )
          refl

    -- The snapshot of files whose keys are positive and distinct, whose paths are canonical and importable,
    -- and of which no two collide without regard to letter case or import under one name, is accepted on
    -- its return trip, with the digest that was computed with it.
    pub snapshot-accepted :
        (fs : List ScriptFile)
        → All (IsImportable u) fs
        → Pairwise (Apart u) fs
        → let (snapshot, digest) = build_script_file_snapshot sha256 fs in
          validate_script_file_snapshot u sha256 (arr (items snapshot)) digest ≡ ok snapshot
    unfolding build_script_file_snapshot
    snapshot-accepted fs h apart =
        let key : ScriptFile → Text = λ f. f.source_path in
        sound-accepted (sort_by key fs) (All-sort_by key (IsImportable u) fs h)
          (Pairwise-sort_by key (Apart u) compatible_sym fs apart) (sort_by-IsSorted key fs)
