-- ===== src/Logistics/FormSchema/Stored.antt =====
-- form_schema.py: how `validate_payload` reads the stored definition, a list of dicts, or null.
use rcp_api.Base.{
  if◌then◌else◌, Bool-cases, ℕ, ◌≡◌, refl, String, Option, none, some, List, [], ◌∷◌, All, inl, inr,
  arith,
}
use rcp_api.Base.Int.{pos}
use rcp_api.Base.Json.{Value, null, int, str, arr, Items, no_items, item, Fields, get, truthy}
use rcp_api.Base.Opt.{◌>>=◌}
use rcp_api.Logistics.FormSchema.{
  is_choice, FieldType, parse_type, Number, whole, binary, not_a_number, infinite, as_number, Spec,
}
use rcp_api.Logistics.FormSchema.Definition.{
  as_object, as_text, text_value, number_value, length_value, options_value, to_items, encode_spec,
  encode_specs,
}
use rcp_api.Logistics.FormSchema.Canonical.{
  IsSpec, HasOptions, parse_type-type_value, get_help_text, get_options, get_min, get_max,
  get_max_length,
}
use rcp_api.Logistics.FormSchema.Accepted.{IsForm, IsStored, no_form, form}

-- `spec[name]`, a text
abbrev text_at : String → Fields → Option String
text_at name fs = get name fs >>= as_text

-- `spec.get(name)`, a text
abbrev optional_text : Option Value → Option (Option String)
optional_text none = some none
optional_text (some v) = as_text v >>= λ s. some (some s)

abbrev texts_of : Items → Option (List String)
texts_of no_items = some []
texts_of (item (str s) vs) = texts_of vs >>= λ ss. some (s ∷ ss)
texts_of (item _ vs) = none

-- `spec["options"]`, which only a choice has
abbrev read_options : Option Value → Option (List String)
read_options none = some []
read_options (some (arr vs)) = texts_of vs
read_options (some _) = none

-- `"min" in spec` and `spec["min"]`, and the same for `max`
abbrev read_number : Option Value → Option (Option Number)
read_number none = some none
read_number (some v) = as_number v >>= λ n. some (some n)

-- `spec.get("max_length", …)`
abbrev read_length : Option Value → Option (Option ℕ)
read_length none = some none
read_length (some (int (pos n))) = some (some n)
read_length (some _) = none

unfoldable pub read_spec : Value → Option Spec
read_spec v = do
  fs ← as_object v
  key ← text_at "key" fs
  label ← text_at "label" fs
  kind ← parse_type (get "type" fs)
  help_text ← optional_text (get "help_text" fs)
  options ← read_options (get "options" fs)
  minimum ← read_number (get "min" fs)
  maximum ← read_number (get "max" fs)
  max_length ← read_length (get "max_length" fs)
  some (record {
    key = key;
    label = label;
    field_type = kind;
    required = truthy (elim (get "required" fs) [ none ↦ null | some r ↦ r ]);
    help_text = help_text;
    options = options;
    minimum = minimum;
    maximum = maximum;
    max_length = max_length;
  })

unfoldable pub read_specs : Items → Option (List Spec)
unfolding read_spec
read_specs no_items = some []
read_specs (item v vs) = do s ← read_spec v; rest ← read_specs vs; some (s ∷ rest)

-- `form_schema or []`
unfoldable pub read_form : Value → Option (List Spec)
unfolding read_specs
read_form (arr vs) = read_specs vs
read_form v = if truthy v then none else some []

texts_of-to_items : (ss : List String) → texts_of (to_items ss) ≡ some ss
texts_of-to_items [] = refl
texts_of-to_items (s ∷ ss) = rw (texts_of-to_items ss) refl

read_options-encode :
    (kind : FieldType) (os : List String)
    → HasOptions (is_choice kind) os
    → read_options (options_value kind os) ≡ some os
read_options-encode kind os h = elim (Bool-cases (is_choice kind)) [
  | inl c ↦ rw c (texts_of-to_items os)
  | inr c ↦ rw (c, rw c at h) refl
]

optional_text-encode : (t : Option String) → optional_text (text_value t) ≡ some t
optional_text-encode none = refl
optional_text-encode (some s) = refl

read_number-encode : (n : Option Number) → read_number (number_value n) ≡ some n
read_number-encode none = refl
read_number-encode (some (whole n)) = refl
read_number-encode (some (binary m k)) = refl
read_number-encode (some not_a_number) = refl
read_number-encode (some (infinite negative)) = refl

read_length-encode : (n : Option ℕ) → read_length (length_value n) ≡ some n
read_length-encode none = refl
read_length-encode (some n) = refl

read_spec-encode_spec : (s : Spec) → IsSpec s → read_spec (encode_spec s) ≡ some s
unfolding read_spec encode_spec
read_spec-encode_spec s fits =
    let h = text_value s.help_text in
    let o = options_value s.field_type s.options in
    let low = number_value s.minimum in
    let high = number_value s.maximum in
    let len = length_value s.max_length in
    rw
      (
        parse_type-type_value s.field_type,
        get_help_text h o low high len,
        optional_text-encode s.help_text,
        get_options h o low high len,
        read_options-encode s.field_type s.options fits.options_fit,
        get_min h o low high len,
        read_number-encode s.minimum,
        get_max h o low high len,
        read_number-encode s.maximum,
        get_max_length h o low high len,
        read_length-encode s.max_length,
      )
      refl

pub read_specs-encode_specs :
    (specs : List Spec) → All IsSpec specs → read_specs (encode_specs specs) ≡ some specs
unfolding read_specs encode_specs
read_specs-encode_specs [] all = refl
read_specs-encode_specs (s ∷ rest) all =
    rw (read_spec-encode_spec s all.0, read_specs-encode_specs rest all.1) refl

-- Whatever `validate_definition` returned is read back, as a well-formed form.
pub read_form-IsForm :
    (stored : Value)
    → IsStored stored
    → (specs : List Spec) × (read_form stored ≡ some specs) × IsForm specs
unfolding read_form
read_form-IsForm _ no_form =
    ([], refl, record { fields_fit = tt; distinct_keys = refl; few_fields = omega arith })
read_form-IsForm _ (form specs good) = (specs, read_specs-encode_specs specs good.fields_fit, good)
