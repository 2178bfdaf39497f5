-- ===== src/Text/Order.antt =====
-- Python's order of texts, and `sorted(xs, key=...)` for a key that is a text.
use netbox_scripts.Base.{
  ◌≡◌, refl, ◌⊎◌, inl, inr, Bool, true, false, ◌||◌, List, [], ◌∷◌, arith, ltb, if◌then◌else◌, ◌==◌,
  nat_eq, text_eq, contains, keep_if, map, All, All-map_into, Pairwise, Bool-cases, length, suc, ap,
  ◌∙◌,
}
use netbox_scripts.Text.{Text}

unfoldable pub text_le : Text → Text → Bool
text_le [] t = true
text_le (c ∷ s) [] = false
text_le (c ∷ s) (d ∷ t) = let rest = text_le s t in if c == d then rest else ltb c d

module _ {ℓ} {A : Type ℓ} (key : A → Text) where
  unfoldable pub insert_by : A → List A → List A
  insert_by x [] = x ∷ []
  insert_by x (y ∷ ys) =
      let rest = insert_by x ys in if text_le (key x) (key y) then x ∷ y ∷ ys else y ∷ rest

  -- The stable sort.
  unfoldable pub sort_by : List A → List A
  unfolding insert_by text_le
  sort_by [] = []
  sort_by (x ∷ xs) = insert_by x (sort_by xs)

  contains-insert_by :
      (x : A) (ys : List A) (a : Text)
      → contains (map key (insert_by x ys)) a ≡ (a == key x || contains (map key ys) a)
  unfolding insert_by
  contains-insert_by x [] a = refl
  contains-insert_by x (y ∷ ys) a = ground (arith, contains-insert_by x ys a)

  -- Sorting keeps the keys.
  pub contains-sort_by :
      (xs : List A) (a : Text) → contains (map key (sort_by xs)) a ≡ contains (map key xs) a
  unfolding sort_by
  contains-sort_by [] a = refl
  contains-sort_by (x ∷ xs) a =
      ground (arith, contains-insert_by x (sort_by xs) a, contains-sort_by xs a)

  module _ {κ} (P : A → Type κ) where
    pub All-insert_by : (x : A) (ys : List A) → P x → All P ys → All P (insert_by x ys)
    unfolding insert_by
    All-insert_by x [] p h = (p, tt)
    All-insert_by x (y ∷ ys) p h = ground (arith, All-insert_by x ys p h.1)

    pub All-sort_by : (xs : List A) → All P xs → All P (sort_by xs)
    unfolding sort_by
    All-sort_by [] h = tt
    All-sort_by (x ∷ xs) h = All-insert_by x (sort_by xs) h.0 (All-sort_by xs h.1)

  module _ {κ} (P : A → Type κ) where
    All-insert_by_back : (x : A) (ys : List A) → All P (insert_by x ys) → P x × All P ys
    unfolding insert_by
    All-insert_by_back x [] h = (h.0, tt)
    All-insert_by_back x (y ∷ ys) h = ground (arith, All-insert_by_back x ys)

    -- What holds of every element after sorting held before.
    pub All-sort_by_back : (xs : List A) → All P (sort_by xs) → All P xs
    unfolding sort_by
    All-sort_by_back [] h = tt
    All-sort_by_back (x ∷ xs) h =
        let (first, rest) = All-insert_by_back x (sort_by xs) h in (first, All-sort_by_back xs rest)

  -- No two elements share a key.
  abbrev pub NodupKeys : List A → Type 0
  NodupKeys [] = Unit
  NodupKeys (x ∷ xs) = (contains (map key xs) (key x) ≡ false) × NodupKeys xs

  NodupKeys-insert_by :
      (x : A) (ys : List A)
      → contains (map key ys) (key x) ≡ false
      → NodupKeys ys
      → NodupKeys (insert_by x ys)
  unfolding insert_by
  NodupKeys-insert_by x [] f h = (refl, tt)
  NodupKeys-insert_by x (y ∷ ys) f h =
      ground (arith, NodupKeys-insert_by x ys, contains-insert_by x ys (key y))

  pub NodupKeys-sort_by : (xs : List A) → NodupKeys xs → NodupKeys (sort_by xs)
  unfolding sort_by
  NodupKeys-sort_by [] h = tt
  NodupKeys-sort_by (x ∷ xs) h =
      NodupKeys-insert_by x (sort_by xs) (contains-sort_by xs (key x) ∙ h.0)
        (NodupKeys-sort_by xs h.1)

  length-insert_by : (x : A) (ys : List A) → length (insert_by x ys) ≡ suc (length ys)
  unfolding insert_by
  length-insert_by x [] = refl
  length-insert_by x (y ∷ ys) = ground (arith, length-insert_by x ys)

  pub length-sort_by : (xs : List A) → length (sort_by xs) ≡ length xs
  unfolding sort_by
  length-sort_by [] = refl
  length-sort_by (x ∷ xs) = length-insert_by x (sort_by xs) ∙ ap suc (length-sort_by xs)

  -- Each key is at most the next.
  abbrev pub IsSorted : List A → Type 0
  IsSorted [] = Unit
  IsSorted (x ∷ xs) = All (λ y. text_le (key x) (key y) ≡ true) xs × IsSorted xs

text_le_total : (s t : Text) → (text_le s t ≡ true) ⊎ (text_le t s ≡ true)
unfolding text_le
text_le_total [] t = inl refl
text_le_total (c ∷ s) [] = inr refl
text_le_total (c ∷ s) (d ∷ t) = ground (arith, text_le_total s t)

text_le_trans : (s t r : Text) → text_le s t ≡ true → text_le t r ≡ true → text_le s r ≡ true
unfolding text_le
text_le_trans [] t r h k = refl
text_le_trans (c ∷ s) (d ∷ t) (e ∷ r) h k = ground (arith, text_le_trans s t r)
text_le_trans (c ∷ s) t r h k = ground arith

module _ {ℓ κ} {A : Type ℓ} (key : A → Text) (R : A → A → Type κ)
    (sym_R : (x y : A) → R x y → R y x) where
  Pairwise-insert_by :
      (x : A) (ys : List A) → All (R x) ys → Pairwise R ys → Pairwise R (insert_by key x ys)
  unfolding insert_by
  Pairwise-insert_by x [] h k = (tt, tt)
  Pairwise-insert_by x (y ∷ ys) h k =
      ground
        (arith, All-insert_by key (R y) x ys (sym_R x y h.0) k.0, Pairwise-insert_by x ys h.1 k.1)

  pub Pairwise-sort_by : (xs : List A) → Pairwise R xs → Pairwise R (sort_by key xs)
  unfolding sort_by
  Pairwise-sort_by [] h = tt
  Pairwise-sort_by (x ∷ xs) h =
      Pairwise-insert_by x (sort_by key xs) (All-sort_by key (R x) xs h.0) (Pairwise-sort_by xs h.1)

module _ {ℓ} {A : Type ℓ} (key : A → Text) where
  above :
      (a b : A) (xs : List A)
      → text_le (key a) (key b) ≡ true
      → All (λ y. text_le (key b) (key y) ≡ true) xs
      → All (λ y. text_le (key a) (key y) ≡ true) xs
  above a b xs h = All-map_into _ _ xs (λ y k. text_le_trans (key a) (key b) (key y) h k)

  insert_by-IsSorted : (x : A) (xs : List A) → IsSorted key xs → IsSorted key (insert_by key x xs)
  unfolding insert_by
  insert_by-IsSorted x [] h = (tt, tt)
  insert_by-IsSorted x (y ∷ ys) h = elim (Bool-cases (text_le (key x) (key y))) [
    | inl le ↦ rw (le, insert_by) ((le, above x y ys le h.0), h)
    | inr gt ↦
        rw (gt, insert_by)
          (
            All-insert_by key (λ z. text_le (key y) (key z) ≡ true) x ys
                (ground (arith, gt, text_le_total (key x) (key y))) h.0,
            insert_by-IsSorted x ys h.1,
          )
  ]

  pub sort_by-IsSorted : (xs : List A) → IsSorted key (sort_by key xs)
  unfolding sort_by
  sort_by-IsSorted [] = tt
  sort_by-IsSorted (x ∷ xs) = insert_by-IsSorted x (sort_by key xs) (sort_by-IsSorted xs)

-- What a filter keeps.
module _ {ℓ} {A : Type ℓ} (key : A → Text) (p : A → Bool) where
  pub contains-keep_if :
      (xs : List A) (a : Text)
      → contains (map key (keep_if p xs)) a ≡ true
      → contains (map key xs) a ≡ true
  contains-keep_if [] a h = h
  contains-keep_if (x ∷ xs) a h = ground (arith, contains-keep_if xs a)

  pub NodupKeys-keep_if : (xs : List A) → NodupKeys key xs → NodupKeys key (keep_if p xs)
  NodupKeys-keep_if [] h = tt
  NodupKeys-keep_if (x ∷ xs) h =
      ground (arith, NodupKeys-keep_if xs h.1, contains-keep_if xs (key x))
