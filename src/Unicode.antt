-- ===== src/Unicode.antt =====
-- The Unicode data that Python's text methods read: `unicodedata.normalize('NFC', s)`,
-- `s.lower()` and `s.isidentifier()`. The tables are not code of this repository, so the three
-- functions are a parameter, with the documented facts that the proofs use.
use netbox_scripts.Base.{◌≡◌, Bool, map}
use netbox_scripts.Text.{Text, slash, split}

pub record Unicode : Type 0 where
  pub nfc : Text → Text
  pub lower : Text → Text
  pub is_identifier : Text → Bool

pub record IsLawful (u : Unicode) : Type 0 where
  -- A normalized text is in normal form.
  pub nfc_idem : (s : Text) → u.nfc (u.nfc s) ≡ u.nfc s
  -- A slash takes part in no composition, so the parts between slashes are normalized alone.
  pub split-nfc : (s : Text) → split slash (u.nfc s) ≡ map u.nfc (split slash s)
