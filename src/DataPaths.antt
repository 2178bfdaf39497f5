-- ===== src/DataPaths.antt =====
-- netbox_scripts/validators.py: project data paths.
pub mod Overlap
use netbox_scripts.Base.{
  ℕ, Bool, true, false, not, ◌||◌, List, [], ◌∷◌, if◌then◌else◌, ◌==◌, nat_eq, text_eq, contains,
  keep_if, any_of, length, take, leb, Result, ok, err, ◌>>=◌, ◌>>◌, refuse,
}
use netbox_scripts.Text.{Text, codes, slash, split, join, starts_with, strip}
use netbox_scripts.Names.{segments_under, same_segments}
use netbox_scripts.Paths.{backslash, is_control, is_segment}

unfoldable pub data_paths_overlap : Text → Text → Bool
data_paths_overlap a b =
    let segments_a = segments_under a in
    let segments_b = segments_under b in
    a == b
    || (if leb (length segments_a) (length segments_b)
        then same_segments (take (length segments_a) segments_b) segments_a
        else same_segments (take (length segments_b) segments_a) segments_b)

-- The `ValidationError`s, which carry no code.
pub data DataPathError : Type 0 where
  has_backslash has_control is_absolute has_traversal : DataPathError

unfoldable pub normalize_data_path : Text → Result DataPathError Text
normalize_data_path raw =
    let value = strip raw in
    if value == [] then ok [] else do
      refuse (contains value backslash) has_backslash
      refuse (any_of is_control value) has_control
      refuse (starts_with value (slash ∷ [])) is_absolute
      let segments = keep_if is_segment (split slash value)
      refuse (contains segments (codes "..")) has_traversal
      ok (join slash segments)
