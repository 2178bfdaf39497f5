-- ===== src/DataPaths/Overlap.antt =====
-- Overlap of data paths, and the files that a data path claims.
use netbox_scripts.Base.{
  ◌≡◌, ◌↔◌, ◌⊎◌, inl, inr, refl, sym, ap, subst, Bool, true, List, [], ◌∷◌, some, arith,
  if◌then◌else◌, ◌==◌, nat_eq, text_eq, length, take, leb, Bool-cases, ==→≡,
}
use netbox_scripts.Text.{Text, slash, split}
use netbox_scripts.Names.{segments_under, same_segments, data_source_relative_path}
use netbox_scripts.DataPaths.{data_paths_overlap}

-- The folder with these segments holds the one with those, at any depth, or is the same.
pub data Holds : List Text → List Text → Type 0 where
  root : (ss : List Text) → Holds [] ss
  into : (s : Text) {ss ts : List Text} → Holds ss ts → Holds (s ∷ ss) (s ∷ ts)

-- Segments that begin with those of `ss` are held by it.
taken-Holds : (ss ts : List Text) → same_segments (take (length ss) ts) ss ≡ true → Holds ss ts
taken-Holds [] ts h = root ts
taken-Holds (s ∷ ss) [] h = cc
taken-Holds (s ∷ ss) (t ∷ ts) h =
    let e : s ≡ t = ground arith in
    subst (λ x. Holds (s ∷ ss) (x ∷ ts)) e (into s (taken-Holds ss ts (ground arith)))

Holds-taken :
    {ss ts : List Text}
    → Holds ss ts
    → (same_segments (take (length ss) ts) ss ≡ true) × (leb (length ss) (length ts) ≡ true)
Holds-taken (root ts) = (refl, ground arith)
Holds-taken (into s h) = ground (arith, Holds-taken h)

pub Holds-refl : (ss : List Text) → Holds ss ss
Holds-refl [] = root []
Holds-refl (s ∷ ss) = into s (Holds-refl ss)

-- A folder no shorter than one that it lies in is that one.
pub Holds-eq : {ss ts : List Text} → Holds ss ts → leb (length ts) (length ss) ≡ true → ss ≡ ts
Holds-eq (root []) l = refl
Holds-eq (root (t ∷ ts)) l = ground arith
Holds-eq (into s h) l = ap (λ rest. s ∷ rest) (Holds-eq h (ground arith))

-- Two folders that hold one path: one holds the other.
Holds-linear : {ss ts path : List Text} → Holds ss path → Holds ts path → Holds ss ts ⊎ Holds ts ss
Holds-linear {ts = ts} (root path) h = inl (root ts)
Holds-linear (into s h) (root path) = inr (root (s ∷ _))
Holds-linear (into s h) (into t k) = elim (Holds-linear h k) [
  | inl d ↦ inl (into s d)
  | inr d ↦ inr (into s d)
]

abbrev prefix_test : List Text → List Text → Bool
prefix_test ss ts =
    if leb (length ss) (length ts)
    then same_segments (take (length ss) ts) ss
    else same_segments (take (length ts) ss) ts

prefix_test-Holds : (ss ts : List Text) → prefix_test ss ts ≡ true → Holds ss ts ⊎ Holds ts ss
prefix_test-Holds ss ts h = elim (Bool-cases (leb (length ss) (length ts))) [
  | inl shorter ↦ inl (taken-Holds ss ts (ground (arith, shorter)))
  | inr longer ↦ inr (taken-Holds ts ss (ground (arith, longer)))
]

Holds-prefix_test : (ss ts : List Text) → Holds ss ts ⊎ Holds ts ss → prefix_test ss ts ≡ true
Holds-prefix_test ss ts (inl h) = ground (arith, Holds-taken h)
Holds-prefix_test ss ts (inr h) = elim (Bool-cases (leb (length ss) (length ts))) [
  | inl shorter ↦
      let same : ts ≡ ss = Holds-eq h shorter in
      subst (λ r. prefix_test ss r ≡ true) (sym same) (ground (arith, Holds-taken (Holds-refl ss)))
  | inr longer ↦ ground (arith, longer, Holds-taken h)
]

-- Two data paths overlap exactly when the folder of one holds the folder of the other.
pub data_paths_overlap_iff :
    (a b : Text)
    → (data_paths_overlap a b ≡ true)
      ↔ (Holds (segments_under a) (segments_under b) ⊎ Holds (segments_under b) (segments_under a))
unfolding data_paths_overlap
data_paths_overlap_iff a b = (
  λ h. elim (Bool-cases (a == b)) [
    | inl same ↦
        let e : a ≡ b = ==→≡ a b same in
        inl (
          subst (λ x. Holds (segments_under a) (segments_under x)) e
            (Holds-refl (segments_under a)))
    | inr other ↦ prefix_test-Holds (segments_under a) (segments_under b) (rw other at h)
  ],
  λ h. ground (arith, Holds-prefix_test (segments_under a) (segments_under b) h),
)

relative-Holds :
    (path data_path r : Text)
    → data_source_relative_path path data_path ≡ some r
    → Holds (segments_under data_path) (split slash path)
unfolding data_source_relative_path
relative-Holds path data_path r h =
    taken-Holds (segments_under data_path) (split slash path) (ground arith)

-- Two data paths below each of which one path has a relative path overlap.
pub claimed-overlap :
    (path a b ra rb : Text)
    → data_source_relative_path path a ≡ some ra
    → data_source_relative_path path b ≡ some rb
    → data_paths_overlap a b ≡ true
claimed-overlap path a b ra rb ha hb =
    (data_paths_overlap_iff a b).1
      (Holds-linear (relative-Holds path a ra ha) (relative-Holds path b rb hb))
