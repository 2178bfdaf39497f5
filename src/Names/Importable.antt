-- ===== src/Names/Importable.antt =====
-- What a path that `source_path_to_dotted_name` accepts looks like.
use netbox_scripts.Base.{
  ℕ, All-append, >>=-eq-ok, refuse, suc, ◌-◌, ◌≤◌, ◌≡◌, refl, ap, sym, Bool, true, false, not, List,
  [], ◌∷◌, Option, none, some, arith, ◌==◌, nat_eq, text_eq, length, take, init, last?, All, ok,
  Bool-cases, inl, inr, subst, ==→≡,
}
use mathlib.Core.List.{reverse, reverse-cons, reverse-reverse}
use netbox_scripts.Text.{Text, codes, slash, split, ends_with, lstrip, strip, is_space}
use netbox_scripts.Text.Segments.{All-join, join-split}
use netbox_scripts.Paths.{has_drive}
use netbox_scripts.Paths.Recheck.{Settled}
use netbox_scripts.Names.{
  ends_in_init, without_suffix, not_a_python_file, source_path_to_dotted_name, name_segments,
  check_names,
}

-- Neither white space nor a colon.
abbrev pub IsPlain : ℕ → Type 0
IsPlain c = (is_space c ≡ false) × ((c == 58) ≡ false)

ends_with-≤ : (s suffix : Text) → ends_with s suffix ≡ true → length suffix ≤ length s
unfolding ends_with
ends_with-≤ [] suffix h = subst (λ s. length s ≤ 0) (==→≡ [] suffix h) (omega arith)
ends_with-≤ (c ∷ s) suffix h = elim (Bool-cases ((c ∷ s) == suffix)) [
  | inl whole ↦ subst (λ t. length t ≤ length (c ∷ s)) (==→≡ (c ∷ s) suffix whole) (omega arith)
  | inr part ↦ omega (arith, ends_with-≤ s suffix (ground (arith, h, part)))
]

-- A property of the characters before a suffix and of the suffix is one of the whole text.
module _ (P : ℕ → Type 0) (suffix : Text) (at_end : All P suffix) where
  All-ends_with :
      (s : Text) → ends_with s suffix ≡ true → All P (take (length s - length suffix) s) → All P s
  unfolding ends_with
  All-ends_with [] h k = tt
  All-ends_with (c ∷ s) h k = elim (Bool-cases ((c ∷ s) == suffix)) [
    | inl whole ↦ subst (All P) (sym (==→≡ (c ∷ s) suffix whole)) at_end
    | inr part ↦
        let later : ends_with s suffix ≡ true = ground (arith, h, part) in
        let one_more : length (c ∷ s) - length suffix ≡ suc (length s - length suffix) =
          omega (arith, ends_with-≤ s suffix later) in
        let (first, rest) = subst (λ n. All P (take n (c ∷ s))) one_more k in
        (first, All-ends_with s later rest)
  ]

lstrip_plain : (s : Text) → All IsPlain s → lstrip s ≡ s
unfolding lstrip
lstrip_plain [] h = refl
lstrip_plain (c ∷ s) h = ground (arith, h.0)

All-reverse : (s : Text) → All IsPlain s → All IsPlain (reverse s)
All-reverse [] h = tt
All-reverse (c ∷ s) h =
    subst (All IsPlain) (sym (reverse-cons c s))
      (All-append IsPlain (reverse s) (c ∷ []) (All-reverse s h.1) (h.0, tt))

strip_plain : (s : Text) → All IsPlain s → strip s ≡ s
unfolding strip
strip_plain s h =
    rw (lstrip_plain s h, lstrip_plain (reverse s) (All-reverse s h)) (reverse-reverse s)

has_drive_plain : (s : Text) → All IsPlain s → has_drive s ≡ false
has_drive_plain [] h = refl
has_drive_plain (d ∷ []) h = refl
has_drive_plain (d ∷ c ∷ s) h = h.1.0.1

init_name : All IsPlain (codes "__init__")
unfolding is_space nat_eq
init_name = (
  (refl, refl),
  (
    (refl, refl),
    (
      (refl, refl),
      ((refl, refl), ((refl, refl), ((refl, refl), ((refl, refl), ((refl, refl), tt))))),
    ),
  ),
)

suffix-IsPlain : All IsPlain (codes ".py")
unfolding is_space nat_eq
suffix-IsPlain = ((refl, refl), ((refl, refl), ((refl, refl), tt)))

slash-IsPlain : IsPlain slash
unfolding is_space nat_eq
slash-IsPlain = (refl, refl)

ends_in_init-eq-true : (o : Option Text) → ends_in_init o ≡ true → o ≡ some (codes "__init__")
ends_in_init-eq-true none h = cc
ends_in_init-eq-true (some s) h = ap some (==→≡ s (codes "__init__") h)

module _ (is_identifier : Text → Bool)
    (plain : (s : Text) → is_identifier s ≡ true → All IsPlain s) where
  check_names-IsPlain :
      (ss : List Text) → check_names is_identifier ss ≡ ok tt → All (All IsPlain) ss
  unfolding check_names
  check_names-IsPlain [] h = tt
  check_names-IsPlain (s ∷ ss) h =
      (plain s (ground (arith, h)), check_names-IsPlain ss (ground (arith, h)))

  init-IsPlain :
      (ss : List Text)
      → last? ss ≡ some (codes "__init__")
      → All (All IsPlain) (init ss)
      → All (All IsPlain) ss
  init-IsPlain [] h k = tt
  init-IsPlain (s ∷ []) h k =
      let same : s ≡ codes "__init__" = ground (arith, h) in
      (subst (All IsPlain) (sym same) init_name, tt)
  init-IsPlain (s ∷ t ∷ ss) h k = (k.0, init-IsPlain (t ∷ ss) h k.1)

  name_segments-IsPlain :
      (ss named : List Text)
      → name_segments is_identifier ss ≡ ok named
      → All (All IsPlain) named
      → All (All IsPlain) ss
  unfolding name_segments
  name_segments-IsPlain ss named h k = elim (Bool-cases (ends_in_init (last? ss))) [
    | inl on ↦
        let same : named ≡ init ss = ground (arith, h, on) in
        init-IsPlain ss (ends_in_init-eq-true (last? ss) on) (subst (All (All IsPlain)) same k)
    | inr off ↦ let same : named ≡ ss = ground (arith, h, off) in subst (All (All IsPlain)) same k
  ]

  pub importable-IsPlain :
      (path dotted : Text)
      → source_path_to_dotted_name is_identifier path ≡ ok dotted
      → All IsPlain path
  unfolding source_path_to_dotted_name
  importable-IsPlain path dotted h =
      let stem = without_suffix path in
      let ended : ends_with path (codes ".py") ≡ true = ground (arith, h) in
      let (_, _, after) =
        >>=-eq-ok (refuse (not (ends_with path (codes ".py"))) not_a_python_file) _ h in
      let (named, found, checks) =
        >>=-eq-ok (name_segments is_identifier (split slash stem)) _ after in
      let checked : check_names is_identifier named ≡ ok tt = ground (arith, checks) in
      let parts =
        name_segments-IsPlain (split slash stem) named found (check_names-IsPlain named checked) in
      All-ends_with IsPlain (codes ".py") suffix-IsPlain path ended (
        subst (All IsPlain) (join-split slash stem)
          (All-join slash IsPlain (split slash stem) slash-IsPlain parts))

  -- It has neither white space at its edges nor a drive letter in front.
  pub importable-Settled :
      (path dotted : Text)
      → source_path_to_dotted_name is_identifier path ≡ ok dotted
      → Settled path
  importable-Settled path dotted h =
      let parts = importable-IsPlain path dotted h in
      (strip_plain path parts, has_drive_plain path parts)
