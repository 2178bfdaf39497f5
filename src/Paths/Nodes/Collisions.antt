-- ===== src/Paths/Nodes/Collisions.antt =====
-- When no path is rejected: the nodes of one case-insensitive form are one node.
use netbox_scripts.Base.{
  ◌≡◌, refl, sym, ap, ◌∙◌, inl, inr, true, false, List, [], ◌∷◌, none, some, map, arith, ltb, ◌==◌,
  text_eq, contains, length, Bool-cases, Option-cases,
}
use netbox_scripts.Base.Dict
use netbox_scripts.Base.Dict.{Dict}
use netbox_scripts.Text.{Text}
use netbox_scripts.Text.Order.{sort_by, contains-sort_by}
use netbox_scripts.Unicode.{Unicode}
use netbox_scripts.Paths.Nodes.{
  case_insensitive_nodes, names_by_form, collided, first_collision, rejected_from,
  case_insensitive_collisions, add_once,
}

module _ (u : Unicode) where
  -- Whatever nodes of one form two of the paths contribute, they are the same node.
  abbrev pub NoCollision : List Text → Type 0
  NoCollision paths =
      (p q form n m : Text)
      → contains paths p ≡ true
      → contains paths q ≡ true
      → Dict.lookup form (case_insensitive_nodes u p) ≡ some n
      → Dict.lookup form (case_insensitive_nodes u q) ≡ some m
      → n ≡ m

  names-contains :
      (paths : List Text) (p form n : Text)
      → contains paths p ≡ true
      → Dict.lookup form (case_insensitive_nodes u p) ≡ some n
      → contains (names_by_form u paths form) n ≡ true
  unfolding names_by_form
  names-contains [] p form n h k = cc
  names-contains (q ∷ ps) p form n h k = ground (arith, names-contains ps p form n)

  all_one :
      (names : List Text) (n m : Text)
      → ltb 1 (length names) ≡ false
      → contains names n ≡ true
      → contains names m ≡ true
      → n ≡ m
  all_one [] n m h a b = cc
  all_one (x ∷ []) n m h a b = ground arith
  all_one (x ∷ y ∷ names) n m h a b = ground arith

  first_collision-none :
      (all : List Text) (d : Dict Text Text) (form n : Text)
      → first_collision u all d ≡ none
      → Dict.lookup form d ≡ some n
      → collided u all form ≡ false
  unfolding first_collision Dict.lookup
  first_collision-none all [] form n h k = cc
  first_collision-none all ((f, m) ∷ d) form n h k = elim (Bool-cases (collided u all f)) [
    | inl hit ↦ ground (arith, hit)
    | inr free ↦ ground (arith, free, first_collision-none all d form n)
  ]

  -- A path that is not rejected touches no collided form.
  not_rejected :
      (all ps : List Text) (p form n : Text)
      → Dict.lookup p (rejected_from u all ps) ≡ none
      → contains ps p ≡ true
      → Dict.lookup form (case_insensitive_nodes u p) ≡ some n
      → collided u all form ≡ false
  unfolding rejected_from Dict.lookup
  not_rejected all [] p form n h c k = cc
  not_rejected all (q ∷ ps) p form n h c k =
      elim (Option-cases (first_collision u all (case_insensitive_nodes u q))) [
        | inl free ↦ ground (
          arith,
          free,
          not_rejected all ps p form n,
          first_collision-none all (case_insensitive_nodes u q) form n free,
        )
        | inr (pair, hit) ↦ ground (arith, hit, not_rejected all ps p form n)
      ]

  map_same : (xs : List Text) → map (λ p. p) xs ≡ xs
  map_same [] = refl
  map_same (x ∷ xs) = rw (map_same xs)

  pub contains-ordered :
      (xs : List Text) (a : Text) → contains (sort_by (λ p. p) xs) a ≡ contains xs a
  contains-ordered xs a =
      rw (map_same (sort_by (λ p. p) xs)) at
        (contains-sort_by (λ p. p) xs a ∙ ap (λ ys. contains ys a) (map_same xs))

  -- Paths of a set that its collisions do not name do not collide with one another.
  pub kept-NoCollision :
      (paths sub : List Text)
      → ((p : Text) → contains sub p ≡ true → contains paths p ≡ true)
      → ((p : Text)
          → contains sub p ≡ true
          → Dict.lookup p (case_insensitive_collisions u paths) ≡ none)
      → NoCollision sub
  unfolding case_insensitive_collisions
  kept-NoCollision paths sub within free p q form n m a b k l =
      let ordered = sort_by (λ p. p) paths in
      let in_order : (r : Text) → contains sub r ≡ true → contains ordered r ≡ true =
        λ r c. contains-ordered paths r ∙ within r c in
      all_one (names_by_form u ordered form) n m
        (not_rejected ordered ordered p form n (free p a) (in_order p a) k)
        (names-contains ordered p form n (in_order p a) k)
        (names-contains ordered q form m (in_order q b) l)

  names_source :
      (ps : List Text) (form n : Text)
      → contains (names_by_form u ps form) n ≡ true
      → (q : Text) × (contains ps q ≡ true)
        × (Dict.lookup form (case_insensitive_nodes u q) ≡ some n)
  unfolding names_by_form
  names_source [] form n h = cc
  names_source (p ∷ ps) form n h =
      elim (Option-cases (Dict.lookup form (case_insensitive_nodes u p))) [
        | inl gone ↦
            let (q, c, k) = names_source ps form n (ground (arith, gone)) in (q, ground arith, k)
        | inr (m, found) ↦ elim (Bool-cases (n == m)) [
          | inl same ↦ (p, ground arith, ground (arith, found))
          | inr other ↦
              let (q, c, k) = names_source ps form n (ground (arith, found, other)) in
              (q, ground arith, k)
        ]
      ]

  NoCollision-tail : (p : Text) (ps : List Text) → NoCollision (p ∷ ps) → NoCollision ps
  NoCollision-tail p ps h a b form n m ca cb = h a b form n m (ground arith) (ground arith)

  add_once_one :
      (m : Text) (names : List Text)
      → ltb 1 (length names) ≡ false
      → ((n : Text) → contains names n ≡ true → m ≡ n)
      → ltb 1 (length (add_once (some m) names)) ≡ false
  add_once_one m [] h k = refl
  add_once_one m (x ∷ []) h k = ground (arith, k x)
  add_once_one m (x ∷ y ∷ names) h k = ground arith

  names_one : (ps : List Text) (form : Text) → NoCollision ps → collided u ps form ≡ false
  unfolding names_by_form
  names_one [] form h = refl
  names_one (p ∷ ps) form h = elim (Option-cases (Dict.lookup form (case_insensitive_nodes u p))) [
    | inl gone ↦ ground (arith, gone, names_one ps form (NoCollision-tail p ps h))
    | inr (m, found) ↦
        rw (found, add_once)
          (add_once_one m (names_by_form u ps form) (names_one ps form (NoCollision-tail p ps h))
            (λ n c.
              let (q, at, k) = names_source ps form n c in
              h p q form m n (ground arith) (ground arith) found k))
  ]

  first_collision_never :
      (all : List Text) (d : Dict Text Text)
      → ((form : Text) → collided u all form ≡ false)
      → first_collision u all d ≡ none
  unfolding first_collision
  first_collision_never all [] h = refl
  first_collision_never all ((form, n) ∷ d) h = rw (h form) (first_collision_never all d h)

  rejected_none :
      (all ps : List Text)
      → ((form : Text) → collided u all form ≡ false)
      → rejected_from u all ps ≡ []
  unfolding rejected_from
  rejected_none all [] h = refl
  rejected_none all (p ∷ ps) h =
      rw (first_collision_never all (case_insensitive_nodes u p) h, rejected_from)
        (rejected_none all ps h)

  pub NoCollision-ext :
      (ys xs : List Text)
      → ((a : Text) → contains ys a ≡ contains xs a)
      → NoCollision xs
      → NoCollision ys
  NoCollision-ext ys xs same h p q form n m cp cq =
      h p q form n m (sym (same p) ∙ cp) (sym (same q) ∙ cq)

  -- A set of paths without a collision has no rejected path.
  pub NoCollision-collisions_none :
      (paths : List Text) → NoCollision paths → case_insensitive_collisions u paths ≡ []
  unfolding case_insensitive_collisions
  NoCollision-collisions_none paths h =
      let ordered = sort_by (λ p. p) paths in
      rejected_none ordered ordered
        (λ form. names_one ordered form (NoCollision-ext ordered paths (contains-ordered paths) h))
