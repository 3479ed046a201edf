-- ===== src/Logistics/FormSchema/Definition.antt =====
-- form_schema.py: `validate_definition`, which normalises a category's field definitions.
use rcp_api.Base.{
  ℕ, suc, ◌+◌, String, Bool, false, not, Option, none, some, List, [], ◌∷◌, leb, if◌then◌else◌,
  is_some, length, forall,
}
use rcp_api.Base.Int.{pos}
use rcp_api.Base.Json.{
  Value, null, bool, int, str, arr, obj, Items, no_items, item, Fields, no_fields, field, to_list,
  get, keys,
}
use rcp_api.Base.Text.{is_empty, strip}
use rcp_api.Base.Result.{Result, ok, err, ◌>>=◌, ◌>>◌, require, expect}
use rcp_api.Logistics.FormSchema.{
  FieldType, type_value, parse_type, default_max_length, is_numeric, is_choice, Number, as_number,
  of_number, less, mem, has_repeat, key_matches, Spec,
}

abbrev pub max_fields : ℕ
max_fields = 50

abbrev pub max_options : ℕ
max_options = 100

-- The `FormSchemaError`s: with the index of the field, or with its key once it is known.
pub data FormSchemaError : Type 0 where
  not_a_list too_many_fields : FormSchemaError
  not_an_object unsupported_keys bad_key : ℕ → FormSchemaError
  bad_type bad_label bad_required bad_help_text : String → FormSchemaError
  no_options too_many_options bad_options duplicate_options stray_options : String → FormSchemaError
  not_a_number : String → String → FormSchemaError
  min_above_max stray_range : String → FormSchemaError
  bad_max_length long_max_length stray_max_length : String → FormSchemaError
  duplicate_key : String → FormSchemaError

abbrev pub spec_keys : List String
spec_keys =
    "key" ∷ "label" ∷ "type" ∷ "required" ∷ "options" ∷ "min" ∷ "max" ∷ "max_length" ∷ "help_text"
    ∷ []

abbrev pub as_object : Value → Option Fields
as_object (obj fs) = some fs
as_object _ = none

abbrev pub as_text : Value → Option String
as_text (str s) = some s
as_text _ = none

abbrev pub as_bool : Value → Option Bool
as_bool (bool b) = some b
as_bool _ = none

-- `raw.get(name, default)`
abbrev pub get_or : String → Value → Fields → Value
get_or name default fs = elim (get name fs) [ none ↦ default | some v ↦ v ]

abbrev pub is_blank_text : String → Bool
is_blank_text s = is_empty (strip s)

-- `isinstance(key, str) and KEY_PATTERN.match(key)`
unfoldable pub valid_key : Option Value → Option String
valid_key (some (str s)) = if key_matches s then some s else none
valid_key _ = none

-- `isinstance(label, str) and label.strip()`
unfoldable pub valid_label : Value → Option String
valid_label (str s) = if is_blank_text s then none else some s
valid_label _ = none

-- `help_text`: absent or null, or a text
unfoldable pub valid_help_text : Option Value → Option (Option String)
valid_help_text none = some none
valid_help_text (some null) = some none
valid_help_text (some (str s)) = some (some s)
valid_help_text (some _) = none

-- `all(isinstance(option, str) and option.strip() for option in options)`
unfoldable pub option_texts : Items → Option (List String)
option_texts no_items = some []
option_texts (item (str s) vs) =
    let rest = option_texts vs in
    if is_blank_text s then none else elim rest [ none ↦ none | some ss ↦ some (s ∷ ss) ]
option_texts (item _ vs) = none

-- `isinstance(options, list) and options`
unfoldable pub option_items : Option Value → Option Items
option_items (some (arr (item v vs))) = some (item v vs)
option_items _ = none

unfoldable pub choice_options : String → Option Value → Result FormSchemaError (List String)
unfolding option_items option_texts
choice_options key raw = do
  items ← expect (option_items raw) (no_options key)
  require (leb (length (to_list items)) max_options) (too_many_options key)
  options ← expect (option_texts items) (bad_options key)
  require (not (has_repeat options)) (duplicate_options key)
  ok options

unfoldable pub check_options :
    String → FieldType → Option Value → Result FormSchemaError (List String)
unfolding choice_options
check_options key kind raw =
    if is_choice kind
    then choice_options key raw
    else if is_some raw
    then err (stray_options key)
    else ok []

-- `_optional_number`
unfoldable pub optional_number :
    String → String → Option Value → Result FormSchemaError (Option Number)
optional_number key name none = ok none
optional_number key name (some v) = elim (as_number v) [
  | none ↦ err (not_a_number key name)
  | some n ↦ ok (some n)
]

-- `minimum is not None and maximum is not None and minimum > maximum`
unfoldable pub crossed : Option Number → Option Number → Bool
crossed (some low) (some high) = less high low
crossed _ _ = false

unfoldable pub numeric_range :
    String → Option Value → Option Value → Result FormSchemaError (Option Number × Option Number)
unfolding optional_number crossed
numeric_range key low high = do
  minimum ← optional_number key "min" low
  maximum ← optional_number key "max" high
  require (not (crossed minimum maximum)) (min_above_max key)
  ok (minimum, maximum)

unfoldable pub check_range :
    String
    → FieldType
    → Option Value
    → Option Value
    → Result FormSchemaError (Option Number × Option Number)
unfolding numeric_range
check_range key kind low high =
    if is_numeric kind
    then numeric_range key low high
    else if is_some low
    then err (stray_range key)
    else if is_some high
    then err (stray_range key)
    else ok (none, none)

-- `isinstance(max_length, int)`, not a `bool`, and positive
unfoldable pub positive : Value → Option ℕ
positive (int (pos (suc n))) = some (suc n)
positive _ = none

unfoldable pub text_length : String → ℕ → Option Value → Result FormSchemaError (Option ℕ)
unfolding positive
text_length key limit raw = do
  n ← expect (positive (elim raw [ none ↦ int (pos limit) | some v ↦ v ])) (bad_max_length key)
  require (leb n limit) (long_max_length key)
  ok (some n)

unfoldable pub check_max_length :
    String → Option ℕ → Option Value → Result FormSchemaError (Option ℕ)
unfolding text_length
check_max_length key (some limit) raw = text_length key limit raw
check_max_length key none none = ok none
check_max_length key none (some v) = err (stray_max_length key)

-- `_validate_field_spec` from the key on
unfoldable pub spec_of : Fields → String → Result FormSchemaError Spec
spec_of raw key = do
  kind ← expect (parse_type (get "type" raw)) (bad_type key)
  label ← expect (valid_label (get_or "label" (str key) raw)) (bad_label key)
  required ← expect (as_bool (get_or "required" (bool false) raw)) (bad_required key)
  help_text ← expect (valid_help_text (get "help_text" raw)) (bad_help_text key)
  options ← check_options key kind (get "options" raw)
  range ← check_range key kind (get "min" raw) (get "max" raw)
  max_length ← check_max_length key (default_max_length kind) (get "max_length" raw)
  ok (record {
    key = key;
    label = label;
    field_type = kind;
    required = required;
    help_text = help_text;
    options = options;
    minimum = range.0;
    maximum = range.1;
    max_length = max_length;
  })

-- `_validate_field_spec`
unfoldable pub validate_field_spec : Value → ℕ → Result FormSchemaError Spec
validate_field_spec raw index = do
  fs ← expect (as_object raw) (not_an_object index)
  require (forall (λ k. mem k spec_keys) (keys fs)) (unsupported_keys index)
  key ← expect (valid_key (get "key" fs)) (bad_key index)
  spec_of fs key

-- The loop of `validate_definition`, with the set `seen`.
unfoldable pub validate_specs : Items → ℕ → List String → Result FormSchemaError (List Spec)
validate_specs no_items index seen = ok []
validate_specs (item raw vs) index seen = do
  spec ← validate_field_spec raw index
  require (not (mem spec.key seen)) (duplicate_key spec.key)
  rest ← validate_specs vs (index + 1) (spec.key ∷ seen)
  ok (spec ∷ rest)

-- The dict that is kept for a field.
abbrev pub add : String → Option Value → Fields → Fields
add name none fs = fs
add name (some v) fs = field name v fs

abbrev pub to_items : List String → Items
to_items [] = no_items
to_items (s ∷ rest) = item (str s) (to_items rest)

abbrev pub text_value : Option String → Option Value
text_value none = none
text_value (some s) = some (str s)

abbrev pub number_value : Option Number → Option Value
number_value none = none
number_value (some n) = some (of_number n)

abbrev pub length_value : Option ℕ → Option Value
length_value none = none
length_value (some n) = some (int (pos n))

abbrev pub options_value : FieldType → List String → Option Value
options_value kind options = if is_choice kind then some (arr (to_items options)) else none

unfoldable pub encode_spec : Spec → Value
encode_spec spec = obj (
    field "key" (str spec.key) (
      field "label" (str spec.label) (
        field "type" (str (type_value spec.field_type)) (
          field "required" (bool spec.required) (
            add "help_text" (text_value spec.help_text) (
              add "options" (options_value spec.field_type spec.options) (
                add "min" (number_value spec.minimum) (
                  add "max" (number_value spec.maximum)
                    (add "max_length" (length_value spec.max_length) no_fields)))))))))

unfoldable pub encode_specs : List Spec → Items
encode_specs [] = no_items
encode_specs (s ∷ rest) = item (encode_spec s) (encode_specs rest)

-- `validate_definition`
unfoldable pub validate_definition : Value → Result FormSchemaError Value
validate_definition null = ok null
validate_definition (arr raw) = do
  require (leb (length (to_list raw)) max_fields) too_many_fields
  specs ← validate_specs raw 0 []
  ok (arr (encode_specs specs))
validate_definition _ = err not_a_list
