-- ===== src/Logistics/FormSchema/Checked.antt =====
-- form_schema.py: the fields that `_validate_field_spec` accepts.
use rcp_api.Base.{
  ℕ, zero, suc, ◌<◌, ◌≡◌, refl, sym, ap, inl, inr, String, Bool, true, false, not, Option, none,
  some, List, [], ◌∷◌, arith, leb, if◌then◌else◌, is_some, length, forall, map, leb→le, Bool-cases,
  Option-cases, not-eq-true,
}
use mathlib.Core.Option.{some-injective}
use rcp_api.Base.Int.{pos, negsuc}
use rcp_api.Base.Json.{
  Value, bool, int, str, arr, Items, no_items, item, Fields, to_list, get, keys,
}
use rcp_api.Base.Result.{ok, err, expect, ok-injective, >>=-eq-ok, require-eq-ok, expect-eq-ok}
use rcp_api.Logistics.FormSchema.{
  FieldType, parse_type, default_max_length, is_numeric, is_choice, Number, mem, has_repeat,
  key_matches, Spec,
}
use rcp_api.Logistics.FormSchema.Definition.{
  not_an_object, unsupported_keys, bad_key, bad_type, bad_label, bad_required, bad_help_text,
  no_options, bad_options, stray_options, stray_range, bad_max_length, max_options, spec_keys,
  as_object, as_bool, get_or, is_blank_text, valid_key, valid_label, valid_help_text, option_texts,
  option_items, choice_options, check_options, optional_number, crossed, numeric_range, check_range,
  positive, text_length, check_max_length, spec_of, validate_field_spec,
}
use rcp_api.Logistics.FormSchema.Canonical.{no_blank, HasOptions, HasRange, HasLength, IsSpec}

valid_key_lem : (v : Option Value) (key : String) → valid_key v ≡ some key → key_matches key ≡ true
unfolding valid_key
valid_key_lem (some (str s)) key h = ground arith
valid_key_lem none key h = cc
valid_key_lem (some _) key h = cc

valid_label_lem : (v : Value) (l : String) → valid_label v ≡ some l → is_blank_text l ≡ false
unfolding valid_label
valid_label_lem (str s) l h = ground arith
valid_label_lem _ l h = cc

option_texts_lem :
    (vs : Items) (ss : List String)
    → option_texts vs ≡ some ss
    → (no_blank ss ≡ true) × (length ss ≡ length (to_list vs))
unfolding option_texts
option_texts_lem no_items ss h =
    let same : [] ≡ ss = some-injective [] ss h in rw (← same) (refl, refl)
option_texts_lem (item (str s) vs) ss h = elim (Bool-cases (is_blank_text s)) [
  | inl b ↦ cc (rw b at h)
  | inr b ↦ elim (Option-cases (option_texts vs)) [
    | inl e ↦ cc (rw (b, e) at h)
    | inr (rest, e) ↦
        let same : s ∷ rest ≡ ss = some-injective (s ∷ rest) ss (rw (b, e) at h) in
        let ih = option_texts_lem vs rest e in rw (← same, b) (ih.0, ap suc ih.1)
  ]
]
option_texts_lem (item _ vs) ss h = cc

option_items_lem :
    (raw : Option Value) (items : Items)
    → option_items raw ≡ some items
    → 0 < length (to_list items)
unfolding option_items
option_items_lem (some (arr (item v vs))) items h =
    let same : item v vs ≡ items = some-injective (item v vs) items h in rw (← same) (omega arith)
option_items_lem none items h = cc
option_items_lem (some (arr no_items)) items h = cc
option_items_lem (some _) items h = cc

choice_options-HasOptions :
    (key : String) (raw : Option Value) (os : List String)
    → choice_options key raw ≡ ok os
    → HasOptions true os
unfolding choice_options option_items
choice_options-HasOptions key raw os h =
    let (items, e1, h1) = >>=-eq-ok (expect (option_items raw) (no_options key)) _ h in
    let (few, h2) = require-eq-ok (leb (length (to_list items)) max_options) _ _ h1 in
    let (texts, e3, h3) = >>=-eq-ok (expect (option_texts items) (bad_options key)) _ h2 in
    let (distinct, h4) = require-eq-ok (not (has_repeat texts)) _ _ h3 in
    let (fine, count) = option_texts_lem items texts (expect-eq-ok _ _ e3) in
    let filled = option_items_lem raw items (expect-eq-ok _ _ e1) in
    rw (← ok-injective texts os h4) (
      (λ e. absurd (omega (arith, count, filled, ap length e))),
      rw count (leb→le _ max_options few),
      fine,
      not-eq-true _ distinct,
    )

stray_options_lem :
    (key : String) (raw : Option Value) (os : List String)
    → (if is_some raw then err (stray_options key) else ok []) ≡ ok os
    → os ≡ []
stray_options_lem key none os h = sym (ok-injective [] os h)
stray_options_lem key (some v) os h = cc

check_options-HasOptions :
    (key : String) (kind : FieldType) (raw : Option Value) (os : List String)
    → check_options key kind raw ≡ ok os
    → HasOptions (is_choice kind) os
unfolding check_options
check_options-HasOptions key kind raw os h = elim (Bool-cases (is_choice kind)) [
  | inl c ↦ rw c (choice_options-HasOptions key raw os (rw c at h))
  | inr c ↦ rw c (stray_options_lem key raw os (rw c at h))
]

numeric_range-HasRange :
    (key : String) (low high : Option Value) (out : Option Number × Option Number)
    → numeric_range key low high ≡ ok out
    → crossed out.0 out.1 ≡ false
unfolding numeric_range
numeric_range-HasRange key low high out h =
    let (minimum, e1, h1) = >>=-eq-ok (optional_number key "min" low) _ h in
    let (maximum, e2, h2) = >>=-eq-ok (optional_number key "max" high) _ h1 in
    let (fits, h3) = require-eq-ok (not (crossed minimum maximum)) _ _ h2 in
    rw (← ok-injective (minimum, maximum) out h3) (not-eq-true _ fits)

stray_range_lem :
    (key : String) (low high : Option Value) (out : Option Number × Option Number)
    → (if is_some low
        then err (stray_range key)
        else if is_some high
        then err (stray_range key)
        else ok (none, none))
      ≡ ok out
    → (out.0 ≡ none) × (out.1 ≡ none)
stray_range_lem key none none out h =
    let same : (none, none) ≡ out = ok-injective (none, none) out h in rw (← same) (refl, refl)
stray_range_lem key none (some v) out h = cc
stray_range_lem key (some v) high out h = cc

check_range-HasRange :
    (key : String) (kind : FieldType) (low high : Option Value)
    (out : Option Number × Option Number)
    → check_range key kind low high ≡ ok out
    → HasRange (is_numeric kind) out.0 out.1
unfolding check_range
check_range-HasRange key kind low high out h = elim (Bool-cases (is_numeric kind)) [
  | inl c ↦ rw c (numeric_range-HasRange key low high out (rw c at h))
  | inr c ↦ rw c (stray_range_lem key low high out (rw c at h))
]

positive_lem : (v : Value) (n : ℕ) → positive v ≡ some n → 0 < n
unfolding positive
positive_lem (int (pos zero)) n h = cc
positive_lem (int (pos (suc k))) n h = omega (arith, some-injective (suc k) n h)
positive_lem (int (negsuc k)) n h = cc
positive_lem _ n h = cc

check_max_length-HasLength :
    (key : String) (limit : Option ℕ) (raw : Option Value) (out : Option ℕ)
    → check_max_length key limit raw ≡ ok out
    → HasLength limit out
unfolding check_max_length text_length
check_max_length-HasLength key (some limit) raw out h =
    let (n, e1, h1) =
      >>=-eq-ok
        (expect (positive (elim raw [ none ↦ int (pos limit) | some v ↦ v ])) (bad_max_length key))
        _ h in
    let (fits, h2) = require-eq-ok (leb n limit) _ _ h1 in
    rw (← ok-injective (some n) out h2)
      (positive_lem _ n (expect-eq-ok _ _ e1), leb→le n limit fits)
check_max_length-HasLength key none none out h = rw (← ok-injective none out h) tt
check_max_length-HasLength key none (some v) out h = cc

spec_of-IsSpec :
    (raw : Fields) (key : String) (s : Spec)
    → key_matches key ≡ true
    → spec_of raw key ≡ ok s
    → IsSpec s
unfolding spec_of
spec_of-IsSpec raw key s good h =
    let (kind, e1, h1) = >>=-eq-ok (expect (parse_type (get "type" raw)) (bad_type key)) _ h in
    let (label, e2, h2) =
      >>=-eq-ok (expect (valid_label (get_or "label" (str key) raw)) (bad_label key)) _ h1 in
    let (required, e3, h3) =
      >>=-eq-ok (expect (as_bool (get_or "required" (bool false) raw)) (bad_required key)) _ h2 in
    let (help_text, e4, h4) =
      >>=-eq-ok (expect (valid_help_text (get "help_text" raw)) (bad_help_text key)) _ h3 in
    let (options, e5, h5) = >>=-eq-ok (check_options key kind (get "options" raw)) _ h4 in
    let (range, e6, h6) = >>=-eq-ok (check_range key kind (get "min" raw) (get "max" raw)) _ h5 in
    let (max_length, e7, h7) =
      >>=-eq-ok (check_max_length key (default_max_length kind) (get "max_length" raw)) _ h6 in
    rw (← ok-injective _ s h7) (record {
      key_fits = good;
      label_fits = valid_label_lem _ label (expect-eq-ok _ _ e2);
      options_fit = check_options-HasOptions key kind _ options e5;
      range_fits = check_range-HasRange key kind _ _ range e6;
      length_fits = check_max_length-HasLength key _ _ max_length e7;
    })

pub validate_field_spec-IsSpec :
    (raw : Value) (index : ℕ) (s : Spec) → validate_field_spec raw index ≡ ok s → IsSpec s
unfolding validate_field_spec
validate_field_spec-IsSpec raw index s h =
    let (fs, e1, h1) = >>=-eq-ok (expect (as_object raw) (not_an_object index)) _ h in
    let (known, h2) =
      require-eq-ok (forall (λ k. mem k spec_keys) (keys fs)) (unsupported_keys index) _ h1 in
    let (key, e3, h3) = >>=-eq-ok (expect (valid_key (get "key" fs)) (bad_key index)) _ h2 in
    spec_of-IsSpec fs key s (valid_key_lem _ key (expect-eq-ok _ _ e3)) h3

abbrev pub spec_keys_of : List Spec → List String
spec_keys_of specs = map (λ s. s.key) specs

abbrev pub apart : List String → List Spec → Bool
apart seen specs = forall (λ s. not (mem s.key seen)) specs
