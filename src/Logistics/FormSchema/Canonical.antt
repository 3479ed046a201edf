-- ===== src/Logistics/FormSchema/Canonical.antt =====
-- form_schema.py: what `validate_definition` returns, and validating that again.
use rcp_api.Base.{
  ℕ, zero, suc, ◌≤◌, ◌<◌, ◌≡◌, refl, ap, ◌≢◌, inl, inr, String, Bool, true, false, not, Option,
  none, some, List, [], ◌∷◌, arith, str_eq, length, forall, Bool-cases, eq_iff, le→leb,
}
use rcp_api.Base.Json.{Value, str, arr, Fields, no_fields, to_list, get, keys}
use rcp_api.Base.Result.{ok}
use rcp_api.Logistics.FormSchema.{
  FieldType, text, type_value, parse_type, default_max_length, is_numeric, is_choice, Number, whole,
  binary, not_a_number, infinite, mem, has_repeat, key_matches, Spec,
}
use rcp_api.Logistics.FormSchema.Definition.{
  max_options, spec_keys, is_blank_text, valid_key, valid_label, valid_help_text, option_texts,
  option_items, choice_options, check_options, optional_number, crossed, numeric_range, check_range,
  text_length, check_max_length, spec_of, validate_field_spec, add, to_items, text_value,
  number_value, length_value, options_value, encode_spec,
}

abbrev pub no_blank : List String → Bool
no_blank ss = forall (λ s. not (is_blank_text s)) ss

-- The options of a field: of a choice, one to a hundred texts, none of them blank or repeated.
abbrev pub HasOptions : Bool → List String → Type 0
HasOptions true os =
    (os ≢ []) × (length os ≤ max_options) × (no_blank os ≡ true) × (has_repeat os ≡ false)
HasOptions false os = os ≡ []

abbrev pub HasRange : Bool → Option Number → Option Number → Type 0
HasRange true low high = crossed low high ≡ false
HasRange false low high = (low ≡ none) × (high ≡ none)

abbrev pub HasLength : Option ℕ → Option ℕ → Type 0
HasLength (some limit) (some n) = (0 < n) × (n ≤ limit)
HasLength none none = Unit
HasLength _ _ = ⊥

pub record IsSpec (s : Spec) : Type 0 where
  pub key_fits : key_matches s.key ≡ true
  pub label_fits : is_blank_text s.label ≡ false
  pub options_fit : HasOptions (is_choice s.field_type) s.options
  pub range_fits : HasRange (is_numeric s.field_type) s.minimum s.maximum
  pub length_fits : HasLength (default_max_length s.field_type) s.max_length

length-to_items : (ss : List String) → length (to_list (to_items ss)) ≡ length ss
length-to_items [] = refl
length-to_items (s ∷ ss) = ap suc (length-to_items ss)

pub parse_type-type_value : (k : FieldType) → parse_type (some (str (type_value k))) ≡ some k
unfolding parse_type
parse_type-type_value text = refl
parse_type-type_value _ = refl

option_texts-to_items :
    (ss : List String) → no_blank ss ≡ true → option_texts (to_items ss) ≡ some ss
unfolding option_texts
option_texts-to_items [] h = refl
option_texts-to_items (s ∷ ss) h = ground (arith, option_texts-to_items ss)

choice_options-to_items :
    (key : String) (os : List String)
    → HasOptions true os
    → choice_options key (some (arr (to_items os))) ≡ ok os
unfolding choice_options option_items
choice_options-to_items key [] h = absurd (h.0 refl)
choice_options-to_items key (o ∷ os) (filled, few, texts, distinct) =
    rw
      (
        le→leb (length (to_list (to_items (o ∷ os)))) max_options (rw (length-to_items os) few),
        option_texts-to_items (o ∷ os) texts,
        distinct,
      )
      refl

check_options-encode :
    (key : String) (kind : FieldType) (os : List String)
    → HasOptions (is_choice kind) os
    → check_options key kind (options_value kind os) ≡ ok os
unfolding check_options
check_options-encode key kind os h = elim (Bool-cases (is_choice kind)) [
  | inl c ↦ rw c (choice_options-to_items key os (rw c at h))
  | inr c ↦ rw (c, rw c at h) refl
]

optional_number-encode :
    (key name : String) (n : Option Number) → optional_number key name (number_value n) ≡ ok n
unfolding optional_number
optional_number-encode key name none = refl
optional_number-encode key name (some (whole n)) = refl
optional_number-encode key name (some (binary m k)) = refl
optional_number-encode key name (some not_a_number) = refl
optional_number-encode key name (some (infinite negative)) = refl

check_range-encode :
    (key : String) (kind : FieldType) (low high : Option Number)
    → HasRange (is_numeric kind) low high
    → check_range key kind (number_value low) (number_value high) ≡ ok (low, high)
unfolding check_range numeric_range
check_range-encode key kind low high h = elim (Bool-cases (is_numeric kind)) [
  | inl c ↦
      let fits : crossed low high ≡ false = rw c at h in
      rw (c, optional_number-encode key "min" low, optional_number-encode key "max" high, fits) refl
  | inr c ↦ let fits : (low ≡ none) × (high ≡ none) = rw c at h in rw (c, fits.0, fits.1) refl
]

check_max_length-encode :
    (key : String) (limit n : Option ℕ)
    → HasLength limit n
    → check_max_length key limit (length_value n) ≡ ok n
unfolding check_max_length text_length
check_max_length-encode key (some limit) (some zero) h = absurd (omega (arith, h.0))
check_max_length-encode key (some limit) (some (suc n)) h = rw (le→leb (suc n) limit h.1) refl
check_max_length-encode key (some limit) none h = absurd h
check_max_length-encode key none (some n) h = absurd h
check_max_length-encode key none none h = refl

get-add_other :
    (k name : String) (v : Option Value) (fs : Fields)
    → str_eq name k ≡ false
    → get k (add name v fs) ≡ get k fs
get-add_other k name none fs h = refl
get-add_other k name (some v) fs h = rw h refl

get-add_same :
    (k : String) (v : Option Value) (fs : Fields) → get k fs ≡ none → get k (add k v fs) ≡ v
get-add_same k none fs h = h
get-add_same k (some v) fs h = rw ((eq_iff k k).1 refl) refl

module _ (h o low high len : Option Value) where
  abbrev optional_fields : Fields
  optional_fields =
      add "help_text" h
        (add "options" o (add "min" low (add "max" high (add "max_length" len no_fields))))

  pub get_help_text : get "help_text" optional_fields ≡ h
  get_help_text = get-add_same "help_text" h _ (simp get-add_other)

  pub get_options : get "options" optional_fields ≡ o
  get_options = simp (get-add_other, get-add_same)

  pub get_min : get "min" optional_fields ≡ low
  get_min = simp (get-add_other, get-add_same)

  pub get_max : get "max" optional_fields ≡ high
  get_max = simp (get-add_other, get-add_same)

  pub get_max_length : get "max_length" optional_fields ≡ len
  get_max_length = simp (get-add_other, get-add_same)

abbrev known_keys : Fields → Bool
known_keys fs = forall (λ k. mem k spec_keys) (keys fs)

known_keys-add :
    (name : String) (v : Option Value) (fs : Fields)
    → mem name spec_keys ≡ true
    → known_keys fs ≡ true
    → known_keys (add name v fs) ≡ true
known_keys-add name none fs known rest = rest
known_keys-add name (some v) fs known rest = rw known rest

known_keys-optional_fields :
    (h o low high len : Option Value) → known_keys (optional_fields h o low high len) ≡ true
known_keys-optional_fields h o low high len = known_keys-add "help_text" h _ refl (
    known_keys-add "options" o _ refl (
      known_keys-add "min" low _ refl
        (known_keys-add "max" high _ refl (known_keys-add "max_length" len _ refl refl))))

valid_help_text-text_value : (t : Option String) → valid_help_text (text_value t) ≡ some t
unfolding valid_help_text
valid_help_text-text_value none = refl
valid_help_text-text_value (some t) = refl

-- A well-formed field, written back as a dict, is read as itself.
pub validate_field_spec-encode_spec :
    (s : Spec) (index : ℕ) → IsSpec s → validate_field_spec (encode_spec s) index ≡ ok s
unfolding validate_field_spec encode_spec spec_of valid_key valid_label
validate_field_spec-encode_spec s index fits =
    let h = text_value s.help_text in
    let o = options_value s.field_type s.options in
    let low = number_value s.minimum in
    let high = number_value s.maximum in
    let len = length_value s.max_length in
    rw
      (
        known_keys-optional_fields h o low high len,
        fits.key_fits,
        parse_type-type_value s.field_type,
        fits.label_fits,
        get_help_text h o low high len,
        valid_help_text-text_value s.help_text,
        get_options h o low high len,
        check_options-encode s.key s.field_type s.options fits.options_fit,
        get_min h o low high len,
        get_max h o low high len,
        check_range-encode s.key s.field_type s.minimum s.maximum fits.range_fits,
        get_max_length h o low high len,
        check_max_length-encode s.key (default_max_length s.field_type) s.max_length
            fits.length_fits,
      )
      refl
