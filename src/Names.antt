-- ===== src/Names.antt =====
-- netbox_scripts/utils.py: module names of source paths, and paths relative to a data directory.
pub mod Importable
pub mod Relative
use netbox_scripts.Base.{
  ◌-◌, Bool, true, false, not, ◌||◌, ◌&&◌, List, [], ◌∷◌, Option, none, some, if◌then◌else◌, ◌==◌,
  nat_eq, text_eq, contains, length, take, drop, init, last?, is_empty, Result, ok, err, ◌>>=◌,
  ◌>>◌, refuse,
}
use netbox_scripts.Text.{Text, codes, slash, split, join, ends_with}

abbrev pub segments_under : Text → List Text
segments_under data_path = if data_path == [] then [] else split slash data_path

abbrev pub same_segments : List Text → List Text → Bool
same_segments [] [] = true
same_segments (s ∷ ss) (t ∷ ts) = s == t && same_segments ss ts
same_segments _ _ = false

unfoldable pub data_source_relative_path : Text → Text → Option Text
data_source_relative_path path data_path =
    let prefix = segments_under data_path in
    let segments = split slash path in
    if not (same_segments (take (length prefix) segments) prefix)
      || length segments == length prefix
    then none
    else some (join slash (drop (length prefix) segments))

-- The `code` of the `ValidationError`.
pub data NameCode : Type 0 where
  not_a_python_file root_script_file invalid_identifier reserved_keyword : NameCode

-- `keyword.kwlist`
abbrev keywords : List Text
keywords =
    codes "False"
    ∷ codes "None"
    ∷ codes "True"
    ∷ codes "and"
    ∷ codes "as"
    ∷ codes "assert"
    ∷ codes "async"
    ∷ codes "await"
    ∷ codes "break"
    ∷ codes "class"
    ∷ codes "continue"
    ∷ codes "def"
    ∷ codes "del"
    ∷ codes "elif"
    ∷ codes "else"
    ∷ codes "except"
    ∷ codes "finally"
    ∷ codes "for"
    ∷ codes "from"
    ∷ codes "global"
    ∷ codes "if"
    ∷ codes "import"
    ∷ codes "in"
    ∷ codes "is"
    ∷ codes "lambda"
    ∷ codes "nonlocal"
    ∷ codes "not"
    ∷ codes "or"
    ∷ codes "pass"
    ∷ codes "raise"
    ∷ codes "return"
    ∷ codes "try"
    ∷ codes "while"
    ∷ codes "with"
    ∷ codes "yield"
    ∷ []

unfoldable pub is_keyword : Text → Bool
is_keyword = contains keywords

-- `path[:-3]`
abbrev pub without_suffix : Text → Text
without_suffix path = take (length path - 3) path

abbrev pub ends_in_init : Option Text → Bool
ends_in_init none = false
ends_in_init (some s) = s == codes "__init__"

-- `str.isidentifier` reads the Unicode tables: a parameter.
module _ (is_identifier : Text → Bool) where
  unfoldable pub check_names : List Text → Result NameCode (Unit {0})
  check_names [] = ok tt
  check_names (s ∷ ss) =
      let rest = check_names ss in
      if not (is_identifier s)
      then err invalid_identifier
      else if is_keyword s
      then err reserved_keyword
      else rest

  unfoldable pub name_segments : List Text → Result NameCode (List Text)
  name_segments segments =
      if ends_in_init (last? segments)
      then (if is_empty (init segments) then err root_script_file else ok (init segments))
      else ok segments

  unfoldable pub source_path_to_dotted_name : Text → Result NameCode Text
  unfolding name_segments check_names
  source_path_to_dotted_name path = do
    refuse (not (ends_with path (codes ".py"))) not_a_python_file
    segments ← name_segments (split slash (without_suffix path))
    check_names segments
    ok (join 46 segments)
