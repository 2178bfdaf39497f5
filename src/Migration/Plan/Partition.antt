-- ===== src/Migration/Plan/Partition.antt =====
-- Every legacy module goes to exactly one project that netbox_scripts/migration/plan.py proposes.
use netbox_scripts.Base.{
  ℕ, ◌+◌, ◌≡◌, refl, List, [], ◌∷◌, ◌++◌, map, arith, if◌then◌else◌, ◌==◌, nat_eq,
}
use netbox_scripts.Base.Dict.{keys}
use netbox_scripts.Text.{Text}
use netbox_scripts.Text.Order.{insert_by, sort_by}
use netbox_scripts.Migration.Plan.{
  Module, Identity, upload, folder, Buckets, extend, bucket, moved, merge, collapse, Proposal,
  propose, group, identity, insert_pk, sorted_pks,
}

-- How often a key stands in a list.
abbrev pub count : ℕ → List ℕ → ℕ
count pk [] = 0
count pk (k ∷ pks) = (if k == pk then 1 else 0) + count pk pks

abbrev pub pks_of : List Module → List ℕ
pks_of = map (λ (m : Module). m.pk)

-- How often a module stands in the projects of a plan.
abbrev pub times_planned : ℕ → List Proposal → ℕ
times_planned pk [] = 0
times_planned pk (p ∷ ps) = count pk p.module_pks + times_planned pk ps

count-append :
    (pk : ℕ) (ms ns : List Module)
    → count pk (pks_of (ms ++ ns)) ≡ count pk (pks_of ms) + count pk (pks_of ns)
count-append pk [] ns = omega arith
count-append pk (m ∷ ms) ns = omega (arith, count-append pk ms ns)

count-insert_pk :
    (pk k : ℕ) (pks : List ℕ)
    → count pk (insert_pk k pks) ≡ (if k == pk then 1 else 0) + count pk pks
unfolding insert_pk
count-insert_pk pk k [] = refl
count-insert_pk pk k (j ∷ pks) = ground (arith, count-insert_pk pk k pks)

count-sorted_pks : (pk : ℕ) (ms : List Module) → count pk (sorted_pks ms) ≡ count pk (pks_of ms)
unfolding sorted_pks
count-sorted_pks pk [] = refl
count-sorted_pks pk (m ∷ ms) =
    omega (arith, count-insert_pk pk m.pk (sorted_pks ms), count-sorted_pks pk ms)

times_held : ℕ → Buckets → ℕ
times_held pk [] = 0
times_held pk ((k, ms) ∷ buckets) = count pk (pks_of ms) + times_held pk buckets

times_held-extend :
    (pk : ℕ) (id : Identity) (ms : List Module) (buckets : Buckets)
    → times_held pk (extend id ms buckets) ≡ times_held pk buckets + count pk (pks_of ms)
unfolding extend times_held
times_held-extend pk id ms [] = omega arith
times_held-extend pk id ms ((k, ns) ∷ buckets) =
    ground (arith, times_held-extend pk id ms buckets, count-append pk ns ms)

times_held-bucket :
    (pk : ℕ) (ms : List Module) (buckets : Buckets)
    → times_held pk (bucket ms buckets) ≡ times_held pk buckets + count pk (pks_of ms)
unfolding bucket
times_held-bucket pk [] buckets = omega arith
times_held-bucket pk (m ∷ ms) buckets = omega (
  arith,
  times_held-bucket pk ms (extend (identity m) (m ∷ []) buckets),
  times_held-extend pk (identity m) (m ∷ []) buckets,
)

times_held-merge :
    (pk : ℕ) (ids : List Identity) (buckets merged : Buckets)
    → times_held pk (merge ids buckets merged) ≡ times_held pk merged + times_held pk buckets
unfolding merge times_held
times_held-merge pk ids [] merged = omega arith
times_held-merge pk ids ((k, ms) ∷ buckets) merged = omega (
  arith,
  times_held-merge pk ids buckets (extend (moved ids k) ms merged),
  times_held-extend pk (moved ids k) ms merged,
)

times_planned-insert_by :
    (pk : ℕ) (key : Proposal → Text) (p : Proposal) (ps : List Proposal)
    → times_planned pk (insert_by key p ps) ≡ count pk p.module_pks + times_planned pk ps
unfolding insert_by
times_planned-insert_by pk key p [] = refl
times_planned-insert_by pk key p (q ∷ ps) = ground (arith, times_planned-insert_by pk key p ps)

times_planned-sort_by :
    (pk : ℕ) (key : Proposal → Text) (ps : List Proposal)
    → times_planned pk (sort_by key ps) ≡ times_planned pk ps
unfolding sort_by
times_planned-sort_by pk key [] = refl
times_planned-sort_by pk key (p ∷ ps) =
    omega
      (arith, times_planned-insert_by pk key p (sort_by key ps), times_planned-sort_by pk key ps)

module _ (sha256_hex slugify : Text → Text) where
  times_planned-propose :
      (pk : ℕ) (buckets : Buckets)
      → times_planned pk (map (propose sha256_hex slugify) buckets) ≡ times_held pk buckets
  unfolding propose times_held
  times_planned-propose pk [] = refl
  times_planned-propose pk ((upload a, ms) ∷ buckets) =
      omega (arith, count-sorted_pks pk ms, times_planned-propose pk buckets)
  times_planned-propose pk ((folder s f, ms) ∷ buckets) =
      omega (arith, count-sorted_pks pk ms, times_planned-propose pk buckets)

  -- A plan holds each module as often as the modules do: none is lost, none is in two projects.
  pub group_counts :
      (modules : List Module) (pk : ℕ)
      → times_planned pk (group sha256_hex slugify modules) ≡ count pk (pks_of modules)
  unfolding group collapse times_held
  group_counts modules pk =
      let buckets = bucket modules [] in
      omega (
        arith,
        times_planned-sort_by pk (λ (p : Proposal). p.key)
            (map (propose sha256_hex slugify) (collapse buckets)),
        times_planned-propose pk (collapse buckets),
        times_held-merge pk (keys buckets) buckets [],
        times_held-bucket pk modules [],
      )
