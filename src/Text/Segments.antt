-- ===== src/Text/Segments.antt =====
-- Splitting at a separator and joining again.
use netbox_scripts.Base.{
  ℕ, ◌≡◌, refl, ap, ◌∙◌, ◌≢◌, false, List, [], ◌∷◌, ◌++◌, arith, ◌==◌, nat_eq, text_eq, All,
  All-append, if◌then◌else◌,
}
use netbox_scripts.Text.{Text, split, join, onto_first, starts_with, ends_with}

abbrev pub NoSep : ℕ → Text → Type 0
NoSep sep = All (λ c. (c == sep) ≡ false)

module _ (sep : ℕ) where
  pub split-ne-nil : (s : Text) → split sep s ≢ []
  unfolding split
  split-ne-nil [] = ground arith
  split-ne-nil (c ∷ s) = ground (arith, split-ne-nil s)

  -- No part holds the separator.
  pub split-NoSep : (s : Text) → All (NoSep sep) (split sep s)
  unfolding split
  split-NoSep [] = (tt, tt)
  split-NoSep (c ∷ s) = ground (arith, split-NoSep s)

  pub split_whole : (s : Text) → NoSep sep s → split sep s ≡ s ∷ []
  unfolding split
  split_whole [] h = refl
  split_whole (c ∷ s) h = ground (arith, split_whole s h.1)

  pub split-append : (s t : Text) → NoSep sep s → split sep (s ++ (sep ∷ t)) ≡ s ∷ split sep t
  unfolding split
  split-append [] t h = ground arith
  split-append (c ∷ s) t h = ground (arith, split-append s t h.1)

  pub split-join :
      (s : Text) (ss : List Text)
      → All (NoSep sep) (s ∷ ss)
      → split sep (join sep (s ∷ ss)) ≡ s ∷ ss
  unfolding join
  split-join s [] h = split_whole s h.0
  split-join s (t ∷ ss) h =
      ground (arith, split-append s (join sep (t ∷ ss)) h.0, split-join t ss h.1)

  join_step :
      (c : ℕ) (ss : List Text)
      → ss ≢ []
      → join sep (if c == sep then [] ∷ ss else onto_first c ss) ≡ c ∷ join sep ss
  unfolding join
  join_step c [] h = absurd (h refl)
  join_step c (s ∷ []) h = ground arith
  join_step c (s ∷ t ∷ ss) h = ground arith

  -- Joining the parts gives the text back.
  pub join-split : (s : Text) → join sep (split sep s) ≡ s
  unfolding split join
  join-split [] = refl
  join-split (c ∷ s) = join_step c (split sep s) (split-ne-nil s) ∙ ap (λ t. c ∷ t) (join-split s)

  module _ (P : ℕ → Type 0) where
    pub All-split : (s : Text) → All P s → All (All P) (split sep s)
    unfolding split
    All-split [] h = (tt, tt)
    All-split (c ∷ s) h = ground (arith, All-split s h.1)

    pub All-join : (ss : List Text) → P sep → All (All P) ss → All P (join sep ss)
    unfolding join
    All-join [] p h = tt
    All-join (s ∷ []) p h = h.0
    All-join (s ∷ t ∷ ss) p h = All-append P s _ h.0 (p, All-join (t ∷ ss) p h.1)

pub ends_with-append :
    (s t : Text) (d : ℕ) → t ≢ [] → ends_with (s ++ t) (d ∷ []) ≡ ends_with t (d ∷ [])
unfolding ends_with
ends_with-append [] t d h = refl
ends_with-append (c ∷ []) [] d h = absurd (h refl)
ends_with-append (c ∷ []) (x ∷ t) d h = ground arith
ends_with-append (c ∷ b ∷ s) t d h = ground (arith, ends_with-append (b ∷ s) t d h)

-- A text without the separator does not end with it.
pub ends_with_none : (sep : ℕ) (s : Text) → NoSep sep s → ends_with s (sep ∷ []) ≡ false
unfolding ends_with
ends_with_none sep [] h = ground arith
ends_with_none sep (c ∷ s) h = ground (arith, ends_with_none sep s h.1)

module _ (sep : ℕ) where
  join-ne-nil : (s : Text) (ss : List Text) → s ≢ [] → join sep (s ∷ ss) ≢ []
  unfolding join
  join-ne-nil [] ss h = absurd (h refl)
  join-ne-nil (c ∷ s) [] h = ground arith
  join-ne-nil (c ∷ s) (t ∷ ss) h = ground arith

  -- Joined parts that are not empty neither begin nor end with the separator.
  pub starts_with-join :
      (s : Text) (ss : List Text)
      → s ≢ []
      → NoSep sep s
      → starts_with (join sep (s ∷ ss)) (sep ∷ []) ≡ false
  unfolding join starts_with
  starts_with-join [] ss h n = absurd (h refl)
  starts_with-join (c ∷ s) [] h n = ground arith
  starts_with-join (c ∷ s) (t ∷ ss) h n = ground arith

  pub ends_with-join :
      (s : Text) (ss : List Text)
      → All (λ (t : Text). t ≢ []) (s ∷ ss)
      → All (NoSep sep) (s ∷ ss)
      → ends_with (join sep (s ∷ ss)) (sep ∷ []) ≡ false
  unfolding join
  ends_with-join s [] h n = ends_with_none sep s n.0
  ends_with-join s (t ∷ ss) h n =
      ends_with-append s (sep ∷ join sep (t ∷ ss)) sep (λ e. cc)
      ∙ ends_with-append (sep ∷ []) (join sep (t ∷ ss)) sep (join-ne-nil t ss h.1.0)
      ∙ ends_with-join t ss h.1 n.1
