-- ===== src/Migration/Plan/Folders.antt =====
-- The projects that netbox_scripts/migration/plan.py proposes can stand side by side.
use netbox_scripts.Base.{
  Pairwise, ℕ, ◌≡◌, refl, ap, subst, true, false, List, [], ◌∷◌, some, map, inl, inr, arith, ◌==◌,
  ==→≡, ==-refl, text_eq, nat_eq, contains, All, All-map_into, Bool-cases,
}
use netbox_scripts.Base.Dict.{keys}
use netbox_scripts.Text.{Text}
use netbox_scripts.Text.Order.{Pairwise-sort_by}
use netbox_scripts.DataPaths.{data_paths_overlap}
use netbox_scripts.DataPaths.Overlap.{data_paths_overlap_iff}
use netbox_scripts.Migration.Plan.{
  Module, Identity, upload, folder, identity_eq, Buckets, extend, bucket, folders_on, moved, merge,
  collapse, container, Proposal, propose, group,
}
use netbox_scripts.Migration.Plan.Containers.{containers_apart}

data_paths_overlap_comm :
    (a b : Text) → data_paths_overlap a b ≡ true → data_paths_overlap b a ≡ true
data_paths_overlap_comm a b h = elim ((data_paths_overlap_iff a b).0 h) [
  | inl k ↦ (data_paths_overlap_iff b a).1 (inr k)
  | inr k ↦ (data_paths_overlap_iff b a).1 (inl k)
]

module _ (P : Identity → Type 0) where
  All-extend :
      (id : Identity) (ms : List Module) (buckets : Buckets)
      → P id
      → All P (keys buckets)
      → All P (keys (extend id ms buckets))
  unfolding extend
  All-extend id ms [] p h = (p, tt)
  All-extend id ms ((k, ns) ∷ buckets) p h = ground (arith, All-extend id ms buckets p h.1)

abbrev Distinct : Identity → Identity → Type 0
Distinct j k = (j == k) ≡ false

Nodup-extend :
    (id : Identity) (ms : List Module) (buckets : Buckets)
    → Pairwise Distinct (keys buckets)
    → Pairwise Distinct (keys (extend id ms buckets))
unfolding extend
Nodup-extend id ms [] h = (tt, tt)
Nodup-extend id ms ((k, ns) ∷ buckets) h = elim (Bool-cases (id == k)) [
  | inl here ↦ rw (here, extend) h
  | inr there ↦
      rw (there, extend)
        (
          All-extend (Distinct k) id ms buckets (ground (arith, there)) h.0,
          Nodup-extend id ms buckets h.1,
        )
]

folders_on-contains :
    (source : ℕ) (path : Text) (ids : List Identity)
    → contains ids (folder source path) ≡ true
    → contains (folders_on source ids) path ≡ true
unfolding folders_on
folders_on-contains source path [] h = cc
folders_on-contains source path (upload pk ∷ ids) h =
    folders_on-contains source path ids (ground arith)
folders_on-contains source path (folder s f ∷ ids) h =
    elim (Bool-cases (folder source path == folder s f)) [
      | inl here ↦
          let e : folder source path ≡ folder s f = ==→≡ _ _ here in
          ground (arith, e, ==-refl source, ==-refl path)
      | inr there ↦ ground (arith, there, folders_on-contains source path ids)
    ]

-- The identity that some bucket was moved to.
abbrev IsMoved : List Identity → Identity → Type 0
IsMoved ids k = (id : Identity) × (contains ids id ≡ true) × (k ≡ moved ids id)

abbrev IsApart : Identity → Identity → Type 0
IsApart (folder s f) (folder t g) = s ≡ t → data_paths_overlap f g ≡ false
IsApart _ _ = Unit

same_source_apart :
    (ids : List Identity) (s : ℕ) (f g : Text)
    → contains ids (folder s f) ≡ true
    → contains ids (folder s g) ≡ true
    → Distinct (moved ids (folder s f)) (moved ids (folder s g))
    → data_paths_overlap (container f (folders_on s ids)) (container g (folders_on s ids)) ≡ false
unfolding moved
same_source_apart ids s f g hf hg d =
    let fs = folders_on s ids in
    elim (Bool-cases (data_paths_overlap (container f fs) (container g fs))) [
      | inr apart ↦ apart
      | inl over ↦
          let e : container f fs ≡ container g fs =
            containers_apart f g fs (folders_on-contains s f ids hf)
              (folders_on-contains s g ids hg) over in
          absurd (ground (arith, d, ap (folder s) e, ==-refl (folder s (container g fs))))
    ]

both-IsApart :
    (ids : List Identity) (a b : Identity)
    → contains ids a ≡ true
    → contains ids b ≡ true
    → Distinct (moved ids a) (moved ids b)
    → IsApart (moved ids a) (moved ids b)
unfolding moved
both-IsApart ids (upload a) b ha hb d = tt
both-IsApart ids (folder s f) (upload b) ha hb d = tt
both-IsApart ids (folder s f) (folder t g) ha hb d = λ e.
    subst
      (λ r.
        contains ids (folder r g) ≡ true
        → Distinct (moved ids (folder s f)) (moved ids (folder r g))
        → data_paths_overlap (container f (folders_on s ids)) (container g (folders_on r ids))
          ≡ false)
      e (same_source_apart ids s f g ha) hb d

moved-IsApart :
    (ids : List Identity) (j k : Identity)
    → IsMoved ids j
    → IsMoved ids k
    → Distinct j k
    → IsApart j k
moved-IsApart ids j k (a, ha, e) (b, hb, f) d =
    rw (e, f) (both-IsApart ids a b ha hb (rw (e, f) at d))

merge-keys :
    (ids : List Identity) (buckets merged : Buckets)
    → All (λ id. contains ids id ≡ true) (keys buckets)
    → All (IsMoved ids) (keys merged) × Pairwise Distinct (keys merged)
    → let d = merge ids buckets merged in All (IsMoved ids) (keys d) × Pairwise Distinct (keys d)
unfolding merge
merge-keys ids [] merged h k = k
merge-keys ids ((key, ms) ∷ buckets) merged h k =
    merge-keys ids buckets (extend (moved ids key) ms merged) h.1 (
      All-extend (IsMoved ids) (moved ids key) ms merged (key, h.0, refl) k.0,
      Nodup-extend (moved ids key) ms merged k.1,
    )

All-contained : (ids : List Identity) → All (λ id. contains ids id ≡ true) ids
All-contained [] = tt
All-contained (id ∷ ids) = (
  ground (arith, ==-refl id),
  All-map_into (λ j. contains ids j ≡ true) (λ j. contains (id ∷ ids) j ≡ true) ids
      (λ j h. ground (arith, h)) (All-contained ids),
)

-- Projects on one data source hold folders that do not overlap.
abbrev pub Apart : Proposal → Proposal → Type 0
Apart a b =
    (source : ℕ)
    → a.data_source_id ≡ some source
    → b.data_source_id ≡ some source
    → data_paths_overlap a.data_path b.data_path ≡ false

symmetric : (a b : Proposal) → Apart a b → Apart b a
symmetric a b h source f g = elim (Bool-cases (data_paths_overlap b.data_path a.data_path)) [
  | inr apart ↦ apart
  | inl over ↦ ground (arith, h source g f, data_paths_overlap_comm b.data_path a.data_path over)
]

module _ (sha256_hex slugify : Text → Text) where
  propose-Apart :
      (j k : Identity) (ms ns : List Module)
      → IsApart j k
      → Apart (propose sha256_hex slugify (j, ms)) (propose sha256_hex slugify (k, ns))
  unfolding propose
  propose-Apart (upload a) k ms ns h source e f = cc
  propose-Apart (folder s f) (upload b) ms ns h source p q = cc
  propose-Apart (folder s f) (folder t g) ms ns h source p q = h (ground (arith, p, q))

  All-Apart :
      (ids : List Identity) (j : Identity) (ms : List Module) (buckets : Buckets)
      → IsMoved ids j
      → All (IsMoved ids) (keys buckets)
      → All (Distinct j) (keys buckets)
      → All (Apart (propose sha256_hex slugify (j, ms))) (map (propose sha256_hex slugify) buckets)
  All-Apart ids j ms [] p h d = tt
  All-Apart ids j ms ((k, ns) ∷ buckets) p h d = (
    propose-Apart j k ms ns (moved-IsApart ids j k p h.0 d.0),
    All-Apart ids j ms buckets p h.1 d.1,
  )

  buckets-Apart :
      (ids : List Identity) (buckets : Buckets)
      → All (IsMoved ids) (keys buckets)
      → Pairwise Distinct (keys buckets)
      → Pairwise Apart (map (propose sha256_hex slugify) buckets)
  buckets-Apart ids [] h d = tt
  buckets-Apart ids ((j, ms) ∷ buckets) h d =
      (All-Apart ids j ms buckets h.0 h.1 d.0, buckets-Apart ids buckets h.1 d.1)

  -- Of the projects that a migration proposes, no two on one data source have data paths that
  -- overlap, so each can be created beside the others.
  pub group-Apart : (modules : List Module) → Pairwise Apart (group sha256_hex slugify modules)
  unfolding group collapse
  group-Apart modules =
      let buckets = bucket modules [] in
      let (moved_keys, distinct) =
        merge-keys (keys buckets) buckets [] (All-contained (keys buckets)) (tt, tt) in
      Pairwise-sort_by (λ (p : Proposal). p.key) Apart symmetric _
        (buckets-Apart (keys buckets) (collapse buckets) moved_keys distinct)
