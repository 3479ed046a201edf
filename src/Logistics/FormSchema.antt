-- ===== src/Logistics/FormSchema.antt =====
-- services/logistics/app/services/form_schema.py: the fields of a category's form.
pub mod Definition
pub mod Canonical
pub mod Checked
pub mod Accepted
pub mod Stored
pub mod Payload
pub mod Coerced
pub mod Answered
pub mod Outcomes
pub mod Answers
use rcp_api.Base.{
  ℕ, ◌+◌, ◌*◌, zero, suc, String, Bool, true, false, not, Option, none, some, List, [], ◌∷◌, ◌&&◌,
  ◌==◌, ltb, leb, if◌then◌else◌, str_eq,
}
use rcp_api.Base.Int.{ℤ, pos, negsuc, pos_part, neg_part}
use rcp_api.Base.Json.{Value, null, bool, int, real, nan, infinity, str, arr, obj}
use rcp_api.Base.Text.{is_empty}
use Prim.Native.Char.{code}
use Prim.Native.Nat.{◌^◌, ◌%◌, ◌/◌, ◌-◌}

pub data FieldType : Type 0 where
  text textarea integer number boolean date select multiselect phone : FieldType

-- `field_type.value`
abbrev pub type_value : FieldType → String
type_value text = "text"
type_value textarea = "textarea"
type_value integer = "integer"
type_value number = "number"
type_value boolean = "boolean"
type_value date = "date"
type_value select = "select"
type_value multiselect = "multiselect"
type_value phone = "phone"

abbrev field_types : List FieldType
field_types =
    text ∷ textarea ∷ integer ∷ number ∷ boolean ∷ date ∷ select ∷ multiselect ∷ phone ∷ []

find_type : List FieldType → String → Option FieldType
find_type [] t = none
find_type (k ∷ rest) t = if str_eq (type_value k) t then some k else find_type rest t

-- `FieldType(value)`; `none` is its `ValueError`.
unfoldable pub parse_type : Option Value → Option FieldType
unfolding find_type
parse_type (some (str t)) = find_type field_types t
parse_type _ = none

-- `_TEXTUAL` with `_DEFAULT_MAX_LENGTH`
abbrev pub default_max_length : FieldType → Option ℕ
default_max_length text = some 500
default_max_length textarea = some 5000
default_max_length phone = some 30
default_max_length _ = none

abbrev pub is_numeric : FieldType → Bool
is_numeric integer = true
is_numeric number = true
is_numeric _ = false

abbrev pub is_choice : FieldType → Bool
is_choice select = true
is_choice multiselect = true
is_choice _ = false

-- A Python `int`, the finite `float` m / 2 ^ k, or one of the floats that are not finite.
pub data Number : Type 0 where
  whole : ℤ → Number
  binary : ℤ → ℕ → Number
  not_a_number : Number
  infinite : (negative : Bool) → Number

-- `isinstance(value, (int, float))` and not a `bool`
abbrev pub as_number : Value → Option Number
as_number (int n) = some (whole n)
as_number (real m k) = some (binary m k)
as_number nan = some not_a_number
as_number (infinity negative) = some (infinite negative)
as_number _ = none

abbrev pub of_number : Number → Value
of_number (whole n) = int n
of_number (binary m k) = real m k
of_number not_a_number = nan
of_number (infinite negative) = infinity negative

-- Of a number that is finite: n / 2 ^ k.
abbrev pub numerator : Number → ℤ
numerator (whole n) = n
numerator (binary m k) = m
numerator _ = pos 0

abbrev pub places : Number → ℕ
places (whole n) = 0
places (binary m k) = k
places _ = 0

-- `a < b` for two finite numbers, which Python compares exactly
abbrev less_finite : Number → Number → Bool
less_finite a b =
    ltb (pos_part (numerator a) * 2 ^ places b + neg_part (numerator b) * 2 ^ places a)
      (pos_part (numerator b) * 2 ^ places a + neg_part (numerator a) * 2 ^ places b)

-- `-inf < b`
abbrev above_least : Number → Bool
above_least not_a_number = false
above_least (infinite negative) = not negative
above_least _ = true

-- `a < b` for a finite `a`
abbrev less_from : Number → Number → Bool
less_from a not_a_number = false
less_from a (infinite negative) = not negative
less_from a b = less_finite a b

-- `a < b`; no comparison with a NaN holds.
unfoldable pub less : Number → Number → Bool
less not_a_number b = false
less (infinite true) b = above_least b
less (infinite false) b = false
less a b = less_from a b

-- `int(number)`, if it equals the number. Of a NaN it raises a ValueError, as if the number were
-- not whole; of an infinity it raises an OverflowError, which `overflows` tests.
unfoldable pub to_whole : Number → Option ℤ
to_whole (whole n) = some n
to_whole (binary (pos n) k) = if n % 2 ^ k == 0 then some (pos (n / 2 ^ k)) else none
to_whole (binary (negsuc n) k) =
    if suc n % 2 ^ k == 0 then some (negsuc (suc n / 2 ^ k - 1)) else none
to_whole _ = none

abbrev pub mem : String → List String → Bool
mem s [] = false
mem s (t ∷ ts) = if str_eq s t then true else mem s ts

-- `len(set(options)) != len(options)`
abbrev pub has_repeat : List String → Bool
has_repeat [] = false
has_repeat (s ∷ rest) = if mem s rest then true else has_repeat rest

abbrev is_letter : ℕ → Bool
is_letter c = leb b'a' c && leb c b'z'

abbrev is_key_char : ℕ → Bool
is_key_char c = if is_letter c then true else if leb b'0' c && leb c b'9' then true else c == b'_'

-- `[a-z0-9_]{0,n}$`; `$` also matches before a newline at the end
unfoldable pub key_rest : ℕ → String → Bool
key_rest n String.[] = true
key_rest zero (String.◌∷◌ c s) = (code c == 10) && is_empty s
key_rest (suc n) (String.◌∷◌ c s) =
    let rest = key_rest n s in if is_key_char (code c) then rest else (code c == 10) && is_empty s

-- `KEY_PATTERN.match(key)`
unfoldable pub key_matches : String → Bool
unfolding key_rest
key_matches String.[] = false
key_matches (String.◌∷◌ c s) = is_letter (code c) && key_rest 49 s

-- A field of the normalised definition: a dict with these keys, the optional ones if they are set.
pub record Spec : Type 0 where
  pub key : String
  pub label : String
  pub field_type : FieldType
  pub required : Bool
  pub help_text : Option String
  pub options : List String
  pub minimum : Option Number
  pub maximum : Option Number
  pub max_length : Option ℕ
