-- ===== src/Tests/Declarations.antt =====
-- Two declared files: the theorems at concrete rows and calls.
use netbox_scripts.Base.{
  ℕ, ◌≡◌, refl, Bool, true, List, [], ◌∷◌, ok, arith, leb, ◌&&◌, all_of, All, All-holds,
  All-map_into, keep_if, nat_eq, text_eq,
}
use netbox_scripts.Text.{Text, codes, is_space, split, slash}
use netbox_scripts.Unicode.{Unicode, IsLawful}
use netbox_scripts.Names.Importable.{IsPlain}
use netbox_scripts.Json.{arr, items}
use netbox_scripts.ScriptFiles.{build_script_file_snapshot, validate_script_file_snapshot}
use netbox_scripts.Declarations.{Declared, insert_row, select_script_files}
use netbox_scripts.Declarations.Sound.{IsDeclared, files}
use netbox_scripts.Declarations.Calls.{
  Calls, created, then_call, adds, selects, is_enabled, Calls-IsDeclared, Calls-snapshot,
}
use netbox_scripts.Tests.{any_digest, map_same}

-- Text whose only identifiers are lower case letters.
abbrev is_letter : ℕ → Bool
is_letter c = leb 97 c && leb c 122

abbrev letters : Unicode
letters = record { nfc = λ s. s; lower = λ s. s; is_identifier = all_of is_letter }

letters-IsLawful : IsLawful letters
letters-IsLawful = record { nfc_idem = λ s. refl; split-nfc = λ s. map_same (split slash s) }

letter-IsPlain : (c : ℕ) → is_letter c ≡ true → IsPlain c
unfolding is_space
letter-IsPlain c h = ground arith

letters-IsPlain : (s : Text) → letters.is_identifier s ≡ true → All IsPlain s
letters-IsPlain s h =
    All-map_into (λ c. is_letter c ≡ true) IsPlain s letter-IsPlain (All-holds is_letter s h)

abbrev no_rows : Declared
no_rows = record { rows = []; next = 1 }

abbrev one_added : Declared
one_added = (insert_row letters (codes "./pkg/x.py") true no_rows).1

abbrev anyone : List ℕ → List netbox_scripts.Declarations.Declaration → Bool
anyone pks rows = true

abbrev two_selected : Declared
two_selected =
    (select_script_files letters anyone (codes "a.py" ∷ []) (codes "a.py" ∷ codes "pkg/x.py" ∷ [])
      one_added).1

calls : Calls letters two_selected
calls =
    then_call one_added two_selected
      (then_call no_rows one_added (created 1 (omega arith)) (adds (codes "./pkg/x.py") true))
      (selects anyone (codes "a.py" ∷ []) (codes "a.py" ∷ codes "pkg/x.py" ∷ []))

Calls-IsDeclared_example : IsDeclared letters two_selected
Calls-IsDeclared_example =
    Calls-IsDeclared letters letters-IsLawful letters-IsPlain two_selected calls

Calls-snapshot_example :
    let (snapshot, digest) =
      build_script_file_snapshot any_digest (files (keep_if is_enabled two_selected.rows)) in
    validate_script_file_snapshot letters any_digest (arr (items snapshot)) digest ≡ ok snapshot
Calls-snapshot_example =
    Calls-snapshot letters letters-IsLawful letters-IsPlain any_digest two_selected calls
