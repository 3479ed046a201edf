-- ===== src/Logistics/FormSchema/Payload.antt =====
-- form_schema.py: `validate_payload`, which coerces a request's `extra_fields` to the form's types.
use rcp_api.Base.{
  ℕ, String, Bool, true, false, not, Option, none, some, List, [], ◌∷◌, ◌++◌, ◌==◌, ◌&&◌, leb,
  if◌then◌else◌, str_eq, map,
}
use rcp_api.Base.Json.{
  Value, null, bool, infinity, str, arr, obj, Items, no_items, item, Fields, no_fields, field, get,
  keys, truthy,
}
use rcp_api.Base.Text.{lowers_to, char_count, strip}
use rcp_api.Base.Result.{Result, ok, err, ◌>>=◌, ◌>>◌, require, expect}
use rcp_api.Logistics.FormSchema.{
  FieldType, text, textarea, integer, number, boolean, date, select, multiselect, phone, Number,
  whole, as_number, of_number, less, to_whole, mem, has_repeat, Spec,
}
use rcp_api.Logistics.FormSchema.Definition.{as_text, is_blank_text}
use Prim.Native.Char.{code}

-- Python's `datetime` module, with a date for its proleptic ordinal: `date.fromisoformat`,
-- `datetime.fromisoformat(…).date()` and `date.isoformat`; `none` is a `ValueError`.
pub record Calendar : Type 0 where
  pub date_fromisoformat : String → Option ℕ
  pub datetime_fromisoformat : String → Option ℕ
  pub isoformat : ℕ → String

-- What is wrong with a field of the payload.
pub data Problem : Type 0 where
  not_defined required_value not_text too_long not_numeric not_whole below_min above_max : Problem
  not_boolean not_date not_an_option not_a_list_of_options not_offered duplicate_options : Problem

-- `errors` of a `FormValidationError`: fields and messages, or that there is no object at all.
-- `overflow` is the `OverflowError` that `validate_payload` lets through.
pub data FormValidationError : Type 0 where
  not_an_object : FormValidationError
  field_errors : List (String × Problem) → FormValidationError
  overflow : FormValidationError

-- `_is_blank(payload.get(key))`
unfoldable pub is_blank : Option Value → Bool
is_blank none = true
is_blank (some null) = true
is_blank (some (str s)) = is_blank_text s
is_blank (some (arr no_items)) = true
is_blank (some _) = false

-- `value.replace("Z", "+00:00")`
abbrev pub replace_z : String → String
replace_z String.[] = String.[]
replace_z (String.◌∷◌ c s) =
    let rest = replace_z s in
    if code c == b'Z'
    then String.◌∷◌ "+"
        (String.◌∷◌ "0" (String.◌∷◌ "0" (String.◌∷◌ ":" (String.◌∷◌ "0" (String.◌∷◌ "0" rest)))))
    else String.◌∷◌ c rest

unfoldable pub to_boolean : Value → Option Bool
to_boolean (bool b) = some b
to_boolean (str s) =
    if lowers_to s "true" then some true else if lowers_to s "false" then some false else none
to_boolean _ = none

-- `spec["options"]` has the value.
abbrev pub is_offered : List String → Value → Bool
is_offered options (str s) = mem s options
is_offered options _ = false

-- The items, if each of them is an option.
unfoldable pub offered : List String → Items → Option (List String)
offered options no_items = some []
offered options (item (str s) vs) =
    let rest = offered options vs in
    if mem s options then elim rest [ none ↦ none | some ss ↦ some (s ∷ ss) ] else none
offered options (item _ vs) = none

-- `"min" in spec and number < spec["min"]`, negated
abbrev pub not_below : Option Number → Number → Bool
not_below none n = true
not_below (some low) n = not (less n low)

-- `"max" in spec and number > spec["max"]`, negated
abbrev pub not_above : Option Number → Number → Bool
not_above none n = true
not_above (some high) n = not (less high n)

-- `_check_range`
unfoldable pub check_range : Spec → Number → Result Problem Number
check_range spec n = do
  require (not_below spec.minimum n) below_min
  require (not_above spec.maximum n) above_max
  ok n

unfoldable pub coerce_text : ℕ → Spec → Value → Result Problem Value
coerce_text default spec value = do
  s ← expect (as_text value) not_text
  require (leb (char_count (strip s)) (elim spec.max_length [ none ↦ default | some n ↦ n ]))
      too_long
  ok (str (strip s))

unfoldable pub coerce_integer : Spec → Value → Result Problem Value
unfolding check_range
coerce_integer spec value = do
  n ← expect (as_number value) not_numeric
  z ← expect (to_whole n) not_whole
  checked ← check_range spec (whole z)
  ok (of_number checked)

unfoldable pub coerce_number : Spec → Value → Result Problem Value
unfolding check_range
coerce_number spec value = do
  n ← expect (as_number value) not_numeric
  checked ← check_range spec n
  ok (of_number checked)

abbrev pub items_of : Value → Option Items
items_of (arr vs) = some vs
items_of _ = none

unfoldable pub coerce_options : Spec → Value → Result Problem Value
unfolding offered
coerce_options spec value = do
  items ← expect (items_of value) not_a_list_of_options
  chosen ← expect (offered spec.options items) not_offered
  require (not (has_repeat chosen)) duplicate_options
  ok value

module _ (calendar : Calendar) where
  unfoldable pub parse_date : String → Option ℕ
  parse_date s = elim (calendar.date_fromisoformat s) [
    | some d ↦ some d
    | none ↦ calendar.datetime_fromisoformat (replace_z s)
  ]

  unfoldable pub coerce_date : Value → Result Problem Value
  coerce_date value = do
    s ← expect (as_text value) not_date
    d ← expect (parse_date s) not_date
    ok (str (calendar.isoformat d))

  -- `_coerce`, by the type of the field
  unfoldable pub coerce_as : FieldType → Spec → Value → Result Problem Value
  coerce_as text spec value = coerce_text 500 spec value
  coerce_as textarea spec value = coerce_text 5000 spec value
  coerce_as phone spec value = coerce_text 30 spec value
  coerce_as integer spec value = coerce_integer spec value
  coerce_as number spec value = coerce_number spec value
  coerce_as boolean spec value = do b ← expect (to_boolean value) not_boolean; ok (bool b)
  coerce_as date spec value = coerce_date value
  coerce_as select spec value = do require (is_offered spec.options value) not_an_option; ok value
  coerce_as multiselect spec value = coerce_options spec value

  unfoldable pub coerce : Spec → Value → Result Problem Value
  coerce spec value = coerce_as spec.field_type spec value

  -- One pass of the loop over the fields: `none` for `continue`, or the coerced value.
  unfoldable pub check_field : Spec → Option Value → Result Problem (Option Value)
  check_field spec none = if spec.required then err required_value else ok none
  check_field spec (some value) =
      if is_blank (some value)
      then if spec.required then err required_value else ok none
      else do coerced ← coerce spec value; ok (some coerced)

-- `coerced[key] = value`
abbrev pub put : String → Value → Fields → Fields
put k v no_fields = field k v no_fields
put k v (field j w fs) =
    let others = put k v fs in if str_eq j k then field j v fs else field j w others

abbrev pub has_field : List Spec → String → Bool
has_field specs key = mem key (map (λ s. s.key) specs)

-- The first loop of `validate_payload`.
unfoldable pub unknown_fields : List Spec → List String → List (String × Problem)
unknown_fields specs [] = []
unknown_fields specs (key ∷ rest) =
    let others = unknown_fields specs rest in
    if has_field specs key then others else (key, not_defined) ∷ others

-- `if errors: raise …; return coerced or None`
unfoldable pub conclude : List (String × Problem) × Fields → Result FormValidationError Value
conclude ([], no_fields) = ok null
conclude ([], field k v fs) = ok (obj (field k v fs))
conclude (e ∷ errors, coerced) = err (field_errors (e ∷ errors))

-- `extra_fields or {}`
unfoldable pub payload_object : Value → Option Fields
payload_object (obj fs) = some fs
payload_object v = if truthy v then none else some no_fields

abbrev pub is_integer : FieldType → Bool
is_integer integer = true
is_integer _ = false

abbrev pub is_infinite : Option Value → Bool
is_infinite (some (infinity negative)) = true
is_infinite _ = false

-- `int(number)` raises an `OverflowError`, which the loop does not catch: an answer to a field of
-- integers is infinite. What the loop has collected by then is lost.
unfoldable pub overflows : List Spec → Fields → Bool
overflows [] payload = false
overflows (s ∷ rest) payload =
    let later = overflows rest payload in
    if is_integer s.field_type && is_infinite (get s.key payload) then true else later

module _ (calendar : Calendar) where
  -- The second loop, with `errors` and `coerced`.
  unfoldable pub check_fields :
      List Spec → Fields → List (String × Problem) → Fields → List (String × Problem) × Fields
  check_fields [] payload errors coerced = (errors, coerced)
  check_fields (s ∷ rest) payload errors coerced =
      elim (check_field calendar s (get s.key payload)) [
        | err problem ↦ check_fields rest payload (errors ++ ((s.key, problem) ∷ [])) coerced
        | ok none ↦ check_fields rest payload errors coerced
        | ok (some value) ↦ check_fields rest payload errors (put s.key value coerced)
      ]

  -- `validate_payload`, with the fields of `form_schema`
  unfoldable pub validate_payload : List Spec → Value → Result FormValidationError Value
  unfolding conclude payload_object overflows
  validate_payload specs extra_fields = do
    payload ← expect (payload_object extra_fields) not_an_object
    require (not (overflows specs payload)) overflow
    conclude (check_fields specs payload (unknown_fields specs (keys payload)) no_fields)
