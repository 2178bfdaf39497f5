-- ===== src/Paths.antt =====
-- netbox_scripts/storage/paths.py: source paths, and the storage keys built from them.
pub mod Recheck
pub mod Keys
pub mod Nodes
use netbox_scripts.Base.{
  ℕ, Bool, true, false, not, ◌||◌, ◌&&◌, List, [], ◌∷◌, ◌++◌, Option, none, some, map, leb, ltb,
  if◌then◌else◌, ◌==◌, nat_eq, text_eq, contains, keep_if, any_of, last?, is_empty, length, Result,
  ok, err, ◌>>=◌, ◌>>◌, refuse,
}
use netbox_scripts.Text.{
  Text, codes, slash, split, join, starts_with, ends_with, strip, utf8_length,
}
use netbox_scripts.Unicode.{Unicode}

abbrev pub max_path_component_bytes : ℕ
max_path_component_bytes = 255

abbrev pub max_path_bytes : ℕ
max_path_bytes = 768

abbrev pub max_path_depth : ℕ
max_path_depth = 64

-- The `code` of an `UnsafePathError`.
pub data PathCode : Type 0 where
  path_traversal absolute_path compiled_artifact : PathCode
  path_component_too_long path_too_long path_too_deep : PathCode
  escapes_root duplicate_path : PathCode

-- `UnsafePathError`: the offending path and its code. The message for people is left out.
pub record UnsafePath : Type 0 where
  pub path : Text
  pub code : PathCode

abbrev pub unsafe : Text → PathCode → UnsafePath
unsafe path code = record { path = path; code = code }

abbrev pub backslash : ℕ
backslash = 92

abbrev pub is_control : ℕ → Bool
is_control c = ltb c 32 || c == 0x7f

-- `PureWindowsPath(text).drive` for a text with no backslash and no leading slash.
abbrev pub has_drive : Text → Bool
has_drive (d ∷ c ∷ s) = c == 58
has_drive _ = false

abbrev pub is_segment : Text → Bool
is_segment s = not (s == [] || s == codes ".")

-- The checks of the whole text, before it is cut into segments.
unfoldable pub check_text : Text → Text → Result UnsafePath (Unit {0})
check_text path normalized = do
  refuse (not (normalized == strip normalized)) (unsafe path path_traversal)
  refuse (contains normalized backslash) (unsafe path path_traversal)
  refuse (any_of is_control normalized) (unsafe path path_traversal)
  refuse (starts_with normalized (slash ∷ []) || has_drive normalized) (unsafe path absolute_path)
  refuse (ends_with normalized (slash ∷ [])) (unsafe path path_traversal)

abbrev ends_compiled : Text → Bool
ends_compiled s = ends_with s (codes ".pyc") || ends_with s (codes ".pyo")

-- `folded[-1].endswith(...)`; the list is not empty where this is asked.
abbrev last_compiled : Option Text → Bool
last_compiled none = false
last_compiled (some s) = ends_compiled s

module _ (u : Unicode) where
  -- The checks of the segments that are left.
  unfoldable pub check_segments : Text → List Text → Result UnsafePath (Unit {0})
  check_segments path segments = do
    refuse (contains segments (codes "..")) (unsafe path path_traversal)
    refuse (is_empty segments) (unsafe path path_traversal)
    let folded = map u.lower segments
    refuse (last_compiled (last? folded) || contains folded (codes "__pycache__"))
        (unsafe path compiled_artifact)
    refuse (any_of (λ s. ltb max_path_component_bytes (utf8_length s)) segments)
        (unsafe path path_component_too_long)
    refuse (ltb max_path_bytes (utf8_length (join slash segments))) (unsafe path path_too_long)
    refuse (ltb max_path_depth (length segments)) (unsafe path path_too_deep)

  unfoldable pub normalize_source_path : Text → Result UnsafePath Text
  normalize_source_path path = do
    let normalized = u.nfc path
    check_text path normalized
    let segments = keep_if is_segment (split slash normalized)
    check_segments path segments
    ok (join slash segments)
