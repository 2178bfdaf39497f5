-- ===== src/Names/Relative.antt =====
-- `data_source_relative_path` of netbox_scripts/utils.py removes the data path and one slash.
use netbox_scripts.Base.{
  ℕ, suc, zero, ◌≡◌, ◌≢◌, ◌↔◌, refl, sym, ap, ◌∙◌, true, false, not, ◌||◌, List, [], ◌∷◌, ◌++◌,
  Option, none, some, arith, if◌then◌else◌, ◌==◌, nat_eq, text_eq, length, take, drop, Bool-cases,
  inl, inr,
}
use mathlib.Core.List.{append_assoc}
use netbox_scripts.Text.{Text, slash, split, join, onto_first}
use netbox_scripts.Text.Segments.{join-split, split-ne-nil}
use netbox_scripts.Names.{segments_under, same_segments, data_source_relative_path}

take-append : (xs ys : List Text) → take (length xs) (xs ++ ys) ≡ xs
take-append [] ys = refl
take-append (x ∷ xs) ys = ap (λ r. x ∷ r) (take-append xs ys)

drop-append : (xs ys : List Text) → drop (length xs) (xs ++ ys) ≡ ys
drop-append [] ys = refl
drop-append (x ∷ xs) ys = drop-append xs ys

take-drop : (n : ℕ) (xs : List Text) → take n xs ++ drop n xs ≡ xs
take-drop zero xs = refl
take-drop (suc n) [] = refl
take-drop (suc n) (x ∷ xs) = ap (λ r. x ∷ r) (take-drop n xs)

pub same_segments_refl : (ss : List Text) → same_segments ss ss ≡ true
same_segments_refl [] = refl
same_segments_refl (s ∷ ss) = ground (arith, same_segments_refl ss)

pub same_segments→≡ : (ss ts : List Text) → same_segments ss ts ≡ true → ss ≡ ts
same_segments→≡ [] [] h = refl
same_segments→≡ [] (t ∷ ts) h = cc
same_segments→≡ (s ∷ ss) [] h = cc
same_segments→≡ (s ∷ ss) (t ∷ ts) h = ground (arith, same_segments→≡ ss ts)

-- One more character in front of the segments.
put_first :
    (c : ℕ) (ss ts : List Text)
    → ss ≢ []
    → (if c == slash then [] ∷ (ss ++ ts) else onto_first c (ss ++ ts))
      ≡ (if c == slash then [] ∷ ss else onto_first c ss) ++ ts
put_first c [] ts h = absurd (h refl)
put_first c (s ∷ ss) ts h = ground arith

split-append : (s t : Text) → split slash (s ++ (slash ∷ t)) ≡ split slash s ++ split slash t
unfolding split
split-append [] t = ground arith
split-append (c ∷ s) t =
    rw (split-append s t, split)
      (put_first c (split slash s) (split slash t) (split-ne-nil slash s))

join-append :
    (s : Text) (ss : List Text) (t : Text) (ts : List Text)
    → join slash ((s ∷ ss) ++ (t ∷ ts)) ≡ join slash (s ∷ ss) ++ (slash ∷ join slash (t ∷ ts))
unfolding join
join-append s [] t ts = refl
join-append s (s' ∷ ss) t ts =
    ap (λ r. s ++ (slash ∷ r)) (join-append s' ss t ts)
    ∙ sym (append_assoc s (slash ∷ join slash (s' ∷ ss)) (slash ∷ join slash (t ∷ ts)))

-- The parts of the relative path, if the path's segments begin with those of the data path and go on.
drop_ne_nil :
    (ss ts : List Text)
    → take (length ss) ts ≡ ss
    → (length ts == length ss) ≡ false
    → drop (length ss) ts ≢ []
drop_ne_nil [] [] h n e = ground arith
drop_ne_nil [] (t ∷ ts) h n e = cc
drop_ne_nil (s ∷ ss) [] h n e = cc
drop_ne_nil (s ∷ ss) (t ∷ ts) h n e = drop_ne_nil ss ts (ground arith) (ground arith) e

join_parts :
    (ss ts : List Text)
    → ss ≢ []
    → ts ≢ []
    → join slash (ss ++ ts) ≡ join slash ss ++ (slash ∷ join slash ts)
join_parts [] ts h k = absurd (h refl)
join_parts (s ∷ ss) [] h k = absurd (k refl)
join_parts (s ∷ ss) (t ∷ ts) h k = join-append s ss t ts

not_shorter : (ss ts : List Text) → ts ≢ [] → (length (ss ++ ts) == length ss) ≡ false
not_shorter [] [] h = absurd (h refl)
not_shorter [] (t ∷ ts) h = ground arith
not_shorter (s ∷ ss) ts h = ground (arith, not_shorter ss ts h)

-- The body of the function, on the two lists of segments.
abbrev cut : List Text → List Text → Option Text
cut prefix segments =
    if not (same_segments (take (length prefix) segments) prefix)
      || length segments == length prefix
    then none
    else some (join slash (drop (length prefix) segments))

cut-append : (ss ts : List Text) → ts ≢ [] → cut ss (ss ++ ts) ≡ some (join slash ts)
cut-append ss ts h =
    rw (take-append ss ts, drop-append ss ts, same_segments_refl ss, not_shorter ss ts h) refl

cut-some :
    (ss segments : List Text) (rel : Text)
    → cut ss segments ≡ some rel
    → (take (length ss) segments ≡ ss)
      × ((length segments == length ss) ≡ false)
      × (join slash (drop (length ss) segments) ≡ rel)
cut-some ss segments rel h = elim (Bool-cases (same_segments (take (length ss) segments) ss)) [
  | inr other ↦ absurd (ground (arith, rw other at h))
  | inl same ↦ elim (Bool-cases (length segments == length ss)) [
    | inl whole ↦ absurd (ground (arith, rw (same, whole) at h))
    | inr longer ↦ (same_segments→≡ _ ss same, longer, ground (arith, rw (same, longer) at h))
  ]
]

segments_under-split :
    (data_path : Text) → data_path ≢ [] → segments_under data_path ≡ split slash data_path
segments_under-split data_path h = ground arith

relative-eq-cut :
    (path data_path : Text)
    → data_path ≢ []
    → data_source_relative_path path data_path ≡ cut (split slash data_path) (split slash path)
unfolding data_source_relative_path
relative-eq-cut path data_path h =
    ap (λ ss. cut ss (split slash path)) (segments_under-split data_path h)

path_of :
    (path data_path rel : Text)
    → cut (split slash data_path) (split slash path) ≡ some rel
    → path ≡ data_path ++ (slash ∷ rel)
path_of path data_path rel h =
    let ss = split slash data_path in
    let rest = drop (length ss) (split slash path) in
    let (begins, longer, joined) = cut-some ss (split slash path) rel h in
    let whole : ss ++ rest ≡ split slash path =
      ap (λ r. r ++ rest) (sym begins) ∙ take-drop (length ss) (split slash path) in
    sym (join-split slash path)
    ∙ ap (join slash) (sym whole)
    ∙ join_parts ss rest (split-ne-nil slash data_path)
        (drop_ne_nil ss (split slash path) begins longer)
    ∙ rw (join-split slash data_path, joined) refl

-- For a data path that is not empty, the relative path of a path is what follows the data path and
-- one slash, and a path that does not begin so has none.
pub relative_path_iff :
    (path data_path rel : Text)
    → data_path ≢ []
    → (data_source_relative_path path data_path ≡ some rel) ↔ (path ≡ data_path ++ (slash ∷ rel))
relative_path_iff path data_path rel some_path = (
  λ h. path_of path data_path rel (sym (relative-eq-cut path data_path some_path) ∙ h),
  λ e.
      relative-eq-cut path data_path some_path
      ∙ ap (λ t. cut (split slash data_path) (split slash t)) e
      ∙ ap (cut (split slash data_path)) (split-append data_path rel)
      ∙ cut-append (split slash data_path) (split slash rel) (split-ne-nil slash rel)
      ∙ ap some (join-split slash rel),
)
