-- ===== src/Json.antt =====
-- JSON documents as a row's JSONField holds them, and `json.dumps(value, sort_keys=True,
-- separators=(',', ':'), ensure_ascii=True)`.
use native.Mathlib.Decide.{ℕ_discrete}
use netbox_scripts.Base.{
  Eq, ℕ, ◌≡◌, refl, ap, zero, suc, ◌+◌, ◌-◌, ◌/◌, ◌%◌, Bool, true, false, List, [], ◌∷◌, ◌++◌,
  Option, none, some, ltb, leb, if◌then◌else◌, ◌==◌, nat_eq, text_eq, ◌&&◌,
}
use netbox_scripts.Base.Int.{ℤ, pos, negsuc}
use netbox_scripts.Text.{Text, codes, join}
use netbox_scripts.Text.Order.{sort_by}

mutual
  pub data Value : Type 0 where
    null : Value
    bool : Bool → Value
    int : ℤ → Value
    -- A number with a point or an exponent, by its text.
    float : Text → Value
    str : Text → Value
    arr : Items → Value
    obj : Fields → Value

  pub data Items : Type 0 where
    nil : Items
    cons : Value → Items → Items

  pub data Fields : Type 0 where
    end : Fields
    field : Text → Value → Fields → Fields

-- `entry.get(key)`
unfoldable pub get : Text → Fields → Option Value
get k end = none
get k (field j v fs) = if k == j then some v else get k fs

-- Decimal digits, the last first, with the number as fuel.
abbrev digits : ℕ → ℕ → Text → Text
digits zero n acc = acc
digits (suc f) n acc =
    let more = digits f (n / 10) ((48 + n % 10) ∷ acc) in if ltb n 10 then (48 + n) ∷ acc else more

unfoldable pub decimal : ℕ → Text
decimal n = digits (n + 1) n []

abbrev print_int : ℤ → Text
print_int (pos n) = decimal n
print_int (negsuc n) = codes "-" ++ decimal (n + 1)

abbrev hex_digit : ℕ → ℕ
hex_digit d = if ltb d 10 then 48 + d else 87 + d

abbrev unicode_escape : ℕ → Text
unicode_escape c =
    codes "\\u"
    ++ (hex_digit (c / 4096)
        ∷ hex_digit (c / 256 % 16)
        ∷ hex_digit (c / 16 % 16)
        ∷ hex_digit (c % 16)
        ∷ [])

-- One character inside a JSON string; past 0xffff a surrogate pair.
unfoldable pub escape : ℕ → Text
escape c =
    if c == 34
    then codes "\\\""
    else if c == 92
    then codes "\\\\"
    else if c == 10
    then codes "\\n"
    else if c == 13
    then codes "\\r"
    else if c == 9
    then codes "\\t"
    else if c == 12
    then codes "\\f"
    else if c == 8
    then codes "\\b"
    else if leb 32 c && ltb c 127
    then c ∷ []
    else if ltb c 0x10000
    then unicode_escape c
    else unicode_escape (0xd800 + (c - 0x10000) / 1024)
      ++ unicode_escape (0xdc00 + (c - 0x10000) % 1024)

abbrev escape_all : Text → Text
escape_all [] = []
escape_all (c ∷ s) = escape c ++ escape_all s

unfoldable pub quote : Text → Text
quote s = codes "\"" ++ (escape_all s ++ codes "\"")

abbrev member : Text × Text → Text
member (k, v) = quote k ++ (codes ":" ++ v)

abbrev members : List (Text × Text) → List Text
members [] = []
members (m ∷ ms) = member m ∷ members ms

unfoldable mutual
  unfolding quote decimal escape

  pub dumps : Value → Text
  dumps null = codes "null"
  dumps (bool true) = codes "true"
  dumps (bool false) = codes "false"
  dumps (int n) = print_int n
  dumps (float t) = t
  dumps (str s) = quote s
  dumps (arr xs) = codes "[" ++ (join 44 (dumps_items xs) ++ codes "]")
  dumps (obj fs) =
      codes "{"
      ++ (join 44 (members (sort_by (λ (m : Text × Text). m.0) (dumps_fields fs))) ++ codes "}")

  pub dumps_items : Items → List Text
  dumps_items nil = []
  dumps_items (cons v xs) = dumps v ∷ dumps_items xs

  pub dumps_fields : Fields → List (Text × Text)
  dumps_fields end = []
  dumps_fields (field k v fs) = (k, dumps v) ∷ dumps_fields fs

-- A list of values as the items of an array, and back.
abbrev pub items : List Value → Items
items [] = nil
items (v ∷ vs) = cons v (items vs)

abbrev pub listed : Items → List Value
listed nil = []
listed (cons v xs) = v ∷ listed xs

pub listed-items : (vs : List Value) → listed (items vs) ≡ vs
listed-items [] = refl
listed-items (v ∷ vs) = ap (λ rest. v ∷ rest) (listed-items vs)

-- Equality of documents can be decided.
pub Value-discrete : Discrete Value
Value-discrete = hlevel ℕ_discrete

instance unfoldable pub value_eq : Eq Value
unfolding Value-discrete
value_eq = record { dec = Value-discrete }
