-- ===== src/Migration/Plan/Containers.antt =====
-- The container that a folder is merged into (netbox_scripts/migration/plan.py).
use netbox_scripts.Base.{
  ◌≡◌, refl, sym, ap, subst, ◌∙◌, ◌≤◌, true, ◌&&◌, List, [], ◌∷◌, ◌⊎◌, inl, inr, arith, ltb, leb,
  ◌==◌, ==→≡, text_eq, nat_eq, ==-refl, length, contains, Bool-cases,
}
use netbox_scripts.Text.{Text, slash, join}
use netbox_scripts.Text.Segments.{join-split, split-ne-nil}
use netbox_scripts.Names.{segments_under}
use netbox_scripts.DataPaths.{data_paths_overlap}
use netbox_scripts.DataPaths.Overlap.{
  Holds, root, into, Holds-refl, Holds-eq, data_paths_overlap_iff,
}
use netbox_scripts.Migration.Plan.{depth, container, container_from}

depth-eq : (path : Text) → depth path ≡ length (segments_under path)
unfolding depth
depth-eq path = ground arith

-- One folder lies in another, or is it.
abbrev pub Contains : Text → Text → Type 0
Contains a b = Holds (segments_under a) (segments_under b)

Holds-trans : {xs ys zs : List Text} → Holds xs ys → Holds ys zs → Holds xs zs
Holds-trans (root ys) k = root _
Holds-trans (into s h) (into t k) = into s (Holds-trans h k)

Holds-length : {xs ys : List Text} → Holds xs ys → length xs ≤ length ys
Holds-length (root ys) = omega arith
Holds-length (into s h) = omega (arith, Holds-length h)

segments_under-injective : (a b : Text) → segments_under a ≡ segments_under b → a ≡ b
segments_under-injective a b h = elim (Bool-cases (a == [])) [
  | inl e ↦ elim (Bool-cases (b == [])) [
    | inl f ↦ ==→≡ a [] e ∙ sym (==→≡ b [] f)
    | inr g ↦ absurd (split-ne-nil slash b (sym (rw (e, g) at h)))
  ]
  | inr e ↦ elim (Bool-cases (b == [])) [
    | inl f ↦ absurd (split-ne-nil slash a (rw (e, f) at h))
    | inr g ↦ sym (join-split slash a) ∙ (ap (join slash) (rw (e, g) at h) ∙ join-split slash b)
  ]
]

overlap-shorter : (a b : Text) → data_paths_overlap a b ≡ true → depth a ≤ depth b → Contains a b
overlap-shorter a b h l = elim ((data_paths_overlap_iff a b).0 h) [
  | inl k ↦ k
  | inr k ↦
      let short : leb (length (segments_under a)) (length (segments_under b)) ≡ true =
        ground (arith, l, depth-eq a, depth-eq b) in
      let e : segments_under b ≡ segments_under a = Holds-eq k short in
      subst (λ ss. Holds (segments_under a) ss) (sym e) (Holds-refl (segments_under a))
]

-- What the loop keeps: the best folder so far contains the path.
container_from-Contains :
    (path : Text) (folders : List Text) (best : Text)
    → Contains best path
    → depth best ≤ depth path
    → Contains (container_from path folders best) path
unfolding container_from
container_from-Contains path [] best h l = h
container_from-Contains path (c ∷ folders) best h l =
    elim (Bool-cases (ltb (depth c) (depth best) && data_paths_overlap c path)) [
      | inr skip ↦ rw (skip, container_from) (container_from-Contains path folders best h l)
      | inl take ↦
          let shorter : depth c ≤ depth path = ground (arith, take) in
          rw (take, container_from)
            (container_from-Contains path folders c
              (overlap-shorter c path (ground (arith, take)) shorter) shorter)
    ]

container_from-≤ :
    (path : Text) (folders : List Text) (best : Text)
    → depth (container_from path folders best) ≤ depth best
unfolding container_from
container_from-≤ path [] best = omega arith
container_from-≤ path (c ∷ folders) best =
    ground (arith, container_from-≤ path folders c, container_from-≤ path folders best)

-- No folder of the list that overlaps the path is shallower than the container.
container_from-least :
    (path : Text) (folders : List Text) (best c : Text)
    → contains folders c ≡ true
    → data_paths_overlap c path ≡ true
    → depth (container_from path folders best) ≤ depth c
unfolding container_from
container_from-least path [] best c h o = cc
container_from-least path (f ∷ folders) best c h o = elim (Bool-cases (c == f)) [
  | inl same ↦
      let e : c ≡ f = ==→≡ c f same in
      ground (
        arith,
        ap depth e,
        ap (λ x. data_paths_overlap x path) e,
        container_from-≤ path folders f,
        container_from-≤ path folders best,
      )
  | inr other ↦ ground (
    arith,
    other,
    container_from-least path folders f c,
    container_from-least path folders best c,
  )
]

container_from-member :
    (path : Text) (folders : List Text) (best : Text)
    → (container_from path folders best ≡ best)
      ⊎ (contains folders (container_from path folders best) ≡ true)
unfolding container_from
container_from-member path [] best = inl refl
container_from-member path (c ∷ folders) best =
    elim (Bool-cases (ltb (depth c) (depth best) && data_paths_overlap c path)) [
      | inr skip ↦
          rw (skip, container_from) (ground (arith, container_from-member path folders best))
      | inl take ↦
          rw (take, container_from)
            (ground (arith, container_from-member path folders c, ==-refl c))
    ]

pub container-Contains :
    (path : Text) (folders : List Text) → Contains (container path folders) path
unfolding container
container-Contains path folders =
    container_from-Contains path folders path (Holds-refl (segments_under path)) (omega arith)

container-member :
    (path : Text) (folders : List Text)
    → contains folders path ≡ true
    → contains folders (container path folders) ≡ true
unfolding container
container-member path folders h = elim (container_from-member path folders path) [
  | inl e ↦ ap (contains folders) e ∙ h
  | inr k ↦ k
]

-- A folder of the list that contains a container is that container.
container-top :
    (c b : Text) (folders : List Text)
    → contains folders c ≡ true
    → Contains c (container b folders)
    → c ≡ container b folders
unfolding container
container-top c b folders h k =
    let over : data_paths_overlap c b ≡ true =
      (data_paths_overlap_iff c b).1 (inl (Holds-trans k (container-Contains b folders))) in
    let least : depth (container b folders) ≤ depth c = container_from-least b folders b c h over in
    segments_under-injective c (container b folders)
      (Holds-eq k (ground (arith, least, depth-eq c, depth-eq (container b folders))))

-- Two containers that overlap are one folder: the shallower one would have absorbed the other.
pub containers_apart :
    (a b : Text) (folders : List Text)
    → contains folders a ≡ true
    → contains folders b ≡ true
    → data_paths_overlap (container a folders) (container b folders) ≡ true
    → container a folders ≡ container b folders
containers_apart a b folders ha hb o =
    elim ((data_paths_overlap_iff (container a folders) (container b folders)).0 o) [
      | inl k ↦ container-top (container a folders) b folders (container-member a folders ha) k
      | inr k ↦
          sym (container-top (container b folders) a folders (container-member b folders hb) k)
    ]
