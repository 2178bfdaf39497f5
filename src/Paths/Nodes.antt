-- ===== src/Paths/Nodes.antt =====
-- The tree nodes that a path contributes, and collisions of their case-insensitive forms:
-- `case_insensitive_nodes` and `case_insensitive_collisions` of netbox_scripts/storage/paths.py.
pub mod Collisions
use netbox_scripts.Base.{
  ℕ, zero, suc, Bool, true, false, not, List, [], ◌∷◌, Option, none, some, map, ltb, if◌then◌else◌,
  ◌==◌, text_eq, contains, keep_if, any_of, first_where, length, init,
}
use netbox_scripts.Base.Dict
use netbox_scripts.Base.Dict.{Dict}
use netbox_scripts.Text.{Text, slash, split, join}
use netbox_scripts.Text.Order.{text_le, sort_by}
use netbox_scripts.Unicode.{Unicode}

-- The non-empty prefixes of a list of segments, the shortest first.
unfoldable pub prefixes : List Text → List (List Text)
prefixes [] = []
prefixes (s ∷ ss) = (s ∷ []) ∷ map (λ rest. s ∷ rest) (prefixes ss)

-- `['/'.join(segments[:index]) for index in range(1, len(segments) + 1)]`
unfoldable pub tree_nodes : Text → List Text
unfolding prefixes
tree_nodes path = map (join slash) (prefixes (split slash path))

-- The same for `range(1, len(segments))`: without the path itself.
unfoldable pub ancestors : Text → List Text
unfolding prefixes
ancestors path = map (join slash) (init (prefixes (split slash path)))

-- `min(texts)`; the list is not empty where this is asked.
abbrev min_text : Text → List Text → Text
min_text least [] = least
min_text least (t ∷ ts) = min_text (if text_le least t then least else t) ts

abbrev least_of : List Text → Text
least_of [] = []
least_of (t ∷ ts) = min_text t ts

-- `names.add(name)` on a set kept as a list.
abbrev pub add_once : Option Text → List Text → List Text
add_once none names = names
add_once (some n) names = if contains names n then names else n ∷ names

module _ (u : Unicode) where
  abbrev by_form : List Text → Dict Text Text → Dict Text Text
  by_form [] d = d
  by_form (n ∷ ns) d = by_form ns (Dict.insert (u.lower n) n d)

  unfoldable pub case_insensitive_nodes : Text → Dict Text Text
  case_insensitive_nodes path = by_form (tree_nodes path) []

  -- The entry of `names_by_form` for one form: the nodes of all the paths that have the form.
  unfoldable pub names_by_form : List Text → Text → List Text
  names_by_form [] form = []
  names_by_form (p ∷ ps) form =
      add_once (Dict.lookup form (case_insensitive_nodes p)) (names_by_form ps form)

  abbrev pub collided : List Text → Text → Bool
  collided paths form = ltb 1 (length (names_by_form paths form))

  -- The first node of a path whose form is collided, with the least of the other names.
  unfoldable pub first_collision : List Text → Dict Text Text → Option (Text × Text)
  first_collision paths [] = none
  first_collision paths ((form, node) ∷ rest) =
      let later = first_collision paths rest in
      if collided paths form
      then some (node, least_of (keep_if (λ name. not (name == node)) (names_by_form paths form)))
      else later

  unfoldable pub rejected_from : List Text → List Text → Dict Text (Text × Text)
  unfolding first_collision
  rejected_from all [] = []
  rejected_from all (p ∷ ps) =
      let rest = rejected_from all ps in
      elim (first_collision all (case_insensitive_nodes p)) [
        | none ↦ rest
        | some pair ↦ (p, pair) ∷ rest
      ]

  unfoldable pub case_insensitive_collisions : List Text → Dict Text (Text × Text)
  unfolding rejected_from names_by_form case_insensitive_nodes tree_nodes
  case_insensitive_collisions paths =
      let ordered = sort_by (λ p. p) paths in rejected_from ordered ordered
