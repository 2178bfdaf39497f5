-- ===== src/Paths/Recheck.antt =====
-- Checking an accepted path again: what the second pass of `normalize_source_path` says.
use netbox_scripts.Base.{
  ℕ, ◌≡◌, refl, sym, ap, ◌∙◌, ◌≢◌, Bool, true, false, not, List, [], ◌∷◌, map, arith, ◌==◌, nat_eq,
  text_eq, contains, keep_if, any_of, All, All-keep_if, All-map_into, Result, ok, ◌>>◌, refuse,
}
use netbox_scripts.Text.{Text, slash, split, join, starts_with, ends_with, strip}
use netbox_scripts.Text.Segments.{
  NoSep, split-NoSep, split-join, join-split, All-split, All-join, starts_with-join, ends_with-join,
}
use netbox_scripts.Unicode.{Unicode, IsLawful}
use netbox_scripts.Paths.{
  UnsafePath, path_traversal, absolute_path, unsafe, backslash, is_control, has_drive, is_segment,
  check_text, check_segments, normalize_source_path,
}

-- The segments that a path is stored under.
abbrev pub segments_of : Unicode → Text → List Text
segments_of u path = keep_if is_segment (split slash (u.nfc path))

keep_if_holds : (p : Text → Bool) (ss : List Text) → All (λ s. p s ≡ true) (keep_if p ss)
keep_if_holds p [] = tt
keep_if_holds p (s ∷ ss) = ground (arith, keep_if_holds p ss)

keep_if-All : (p : Text → Bool) (ss : List Text) → All (λ s. p s ≡ true) ss → keep_if p ss ≡ ss
keep_if-All p [] h = refl
keep_if-All p (s ∷ ss) h = ground (arith, keep_if-All p ss h.1)

map_fixed : (f : Text → Text) (ss : List Text) → ss ≡ map f ss → All (λ s. f s ≡ s) ss
map_fixed f [] h = tt
map_fixed f (s ∷ ss) h = ground (arith, map_fixed f ss)

map-All_fixed : (f : Text → Text) (ss : List Text) → All (λ s. f s ≡ s) ss → map f ss ≡ ss
map-All_fixed f [] h = refl
map-All_fixed f (s ∷ ss) h = ground (arith, map-All_fixed f ss h.1)

-- A character that the checks of the whole text let through.
abbrev Allowed : ℕ → Type 0
Allowed c = ((backslash == c) ≡ false) × (is_control c ≡ false)

Allowed-text :
    (s : Text) → contains s backslash ≡ false → any_of is_control s ≡ false → All Allowed s
Allowed-text [] h k = tt
Allowed-text (c ∷ s) h k = ground (arith, Allowed-text s)

text-Allowed :
    (s : Text) → All Allowed s → (contains s backslash ≡ false) × (any_of is_control s ≡ false)
text-Allowed [] h = (refl, refl)
text-Allowed (c ∷ s) h = ground (arith, text-Allowed s h.1)

-- What an accepted text has passed.
check_text-Allowed : (path s : Text) → check_text path s ≡ ok tt → All Allowed s
unfolding check_text
check_text-Allowed path s h = ground (arith, Allowed-text s)

check_segments_repath :
    (u : Unicode) (p q : Text) (ss : List Text)
    → check_segments u p ss ≡ ok tt
    → check_segments u q ss ≡ ok tt
unfolding check_segments
check_segments_repath u p q ss h = ground arith

check_segments-ne-nil :
    (u : Unicode) (p : Text) (ss : List Text) → check_segments u p ss ≡ ok tt → ss ≢ []
unfolding check_segments
check_segments-ne-nil u p ss h = ground arith

pub normalize_parts :
    (u : Unicode) (path c : Text)
    → normalize_source_path u path ≡ ok c
    → (check_text path (u.nfc path) ≡ ok tt)
      × (check_segments u path (segments_of u path) ≡ ok tt)
      × (c ≡ join slash (segments_of u path))
unfolding normalize_source_path
normalize_parts u path c h = ground arith

-- The two checks that removing "." and empty segments can undo.
unfoldable pub recheck : Text → Result UnsafePath Text
recheck c = do
  refuse (not (c == strip c)) (unsafe c path_traversal)
  refuse (has_drive c) (unsafe c absolute_path)
  ok c

-- On a text with the properties of a joined canonical path only those two checks are left.
check_text-recheck :
    (c : Text)
    → All Allowed c
    → starts_with c (slash ∷ []) ≡ false
    → ends_with c (slash ∷ []) ≡ false
    → (check_text c c >> ok c) ≡ recheck c
unfolding check_text recheck
check_text-recheck c a s e = ground (arith, text-Allowed c a)

segment-ne-nil : (s : Text) → is_segment s ≡ true → s ≢ []
segment-ne-nil s h = ground arith

starts_with-joined :
    (ss : List Text)
    → ss ≢ []
    → All (λ s. s ≢ []) ss
    → All (NoSep slash) ss
    → (starts_with (join slash ss) (slash ∷ []) ≡ false)
      × (ends_with (join slash ss) (slash ∷ []) ≡ false)
starts_with-joined [] h k n = absurd (h refl)
starts_with-joined (s ∷ ss) h k n =
    (starts_with-join slash s ss k.0 n.0, ends_with-join slash s ss k n)

split-joined : (ss : List Text) → ss ≢ [] → All (NoSep slash) ss → split slash (join slash ss) ≡ ss
split-joined [] h n = absurd (h refl)
split-joined (s ∷ ss) h n = split-join slash s ss n

module _ (u : Unicode) (law : IsLawful u) where
  segments-fixed : (path : Text) → All (λ s. u.nfc s ≡ s) (segments_of u path)
  segments-fixed path =
      All-keep_if _ is_segment _ (
        map_fixed u.nfc _ (ap (split slash) (sym (law.nfc_idem path)) ∙ law.split-nfc (u.nfc path)))

  -- A text joined from normalized segments is normalized.
  nfc-joined :
      (ss : List Text)
      → ss ≢ []
      → All (NoSep slash) ss
      → All (λ s. u.nfc s ≡ s) ss
      → u.nfc (join slash ss) ≡ join slash ss
  nfc-joined ss h n f =
      sym (join-split slash (u.nfc (join slash ss)))
      ∙ ap (join slash) (
          law.split-nfc (join slash ss)
          ∙ ap (map u.nfc) (split-joined ss h n)
          ∙ map-All_fixed u.nfc ss f)

  module _ (path c : Text) (accepted : normalize_source_path u path ≡ ok c) where
    parts-ne-nil : segments_of u path ≢ []
    parts-ne-nil =
        check_segments-ne-nil u path (segments_of u path) (normalize_parts u path c accepted).1

    parts-NoSep : All (NoSep slash) (segments_of u path)
    parts-NoSep = All-keep_if _ is_segment _ (split-NoSep slash (u.nfc path))

    parts-hold : All (λ s. is_segment s ≡ true) (segments_of u path)
    parts-hold = keep_if_holds is_segment (split slash (u.nfc path))

    parts-Allowed : All (All Allowed) (segments_of u path)
    parts-Allowed = All-keep_if _ is_segment _ (
        All-split slash Allowed (u.nfc path)
          (check_text-Allowed path (u.nfc path) (normalize_parts u path c accepted).0))

    eq-joined : c ≡ join slash (segments_of u path)
    eq-joined = (normalize_parts u path c accepted).2

    pub nfc-accepted : u.nfc c ≡ c
    nfc-accepted =
        rw eq-joined
          (nfc-joined (segments_of u path) parts-ne-nil parts-NoSep (segments-fixed path))

    pub split-accepted : split slash c ≡ segments_of u path
    split-accepted = rw eq-joined (split-joined (segments_of u path) parts-ne-nil parts-NoSep)

    -- A second pass finds the same segments.
    segments-accepted : segments_of u c ≡ segments_of u path
    segments-accepted =
        ap (λ t. keep_if is_segment (split slash t)) nfc-accepted
        ∙ ap (keep_if is_segment) split-accepted
        ∙ keep_if-All is_segment (segments_of u path) parts-hold

    pub accepted-Allowed : All Allowed c
    unfolding nat_eq
    accepted-Allowed =
        rw eq-joined (All-join slash Allowed (segments_of u path) (refl, refl) parts-Allowed)

    accepted_edges : (starts_with c (slash ∷ []) ≡ false) × (ends_with c (slash ∷ []) ≡ false)
    accepted_edges = rw eq-joined (
        starts_with-joined (segments_of u path) parts-ne-nil
          (All-map_into _ _ (segments_of u path) segment-ne-nil parts-hold) parts-NoSep)

    normalize_again : normalize_source_path u c ≡ (check_text c c >> ok c)
    unfolding normalize_source_path
    normalize_again = ground (
      arith,
      nfc-accepted,
      segments-accepted,
      eq-joined,
      check_segments_repath u path c (segments_of u path) (normalize_parts u path c accepted).1,
    )

    -- Under lawful Unicode data, an accepted path is normalized again to itself, unless the removal
    -- of "." segments has brought white space to an edge, or a drive letter to the front: the second
    -- pass refuses exactly those two, with their codes.
    pub normalize-accepted : normalize_source_path u c ≡ recheck c
    normalize-accepted =
        normalize_again ∙ check_text-recheck c accepted-Allowed accepted_edges.0 accepted_edges.1

-- A path that has kept no white space at its edges and no drive letter in front.
abbrev pub Settled : Text → Type 0
Settled c = (strip c ≡ c) × (has_drive c ≡ false)

pub recheck-Settled : (c : Text) → Settled c → recheck c ≡ ok c
unfolding recheck
recheck-Settled c h = ground arith
