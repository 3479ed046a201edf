-- ===== src/Logistics/FormSchema/Accepted.antt =====
-- form_schema.py: the forms that `validate_definition` accepts.
use rcp_api.Base.{
  ℕ, suc, ◌+◌, ◌≤◌, ◌≡◌, refl, ap, String, true, false, not, List, [], ◌∷◌, arith, ◌&&◌, leb,
  length, All, str_eq_comm, le→leb, leb→le,
}
use mathlib.Core.Path.{subst}
use rcp_api.Base.Json.{Value, null, arr, Items, no_items, item, to_list}
use rcp_api.Base.Result.{ok, ok-injective, >>=-eq-ok, require-eq-ok}
use rcp_api.Logistics.FormSchema.{mem, has_repeat, Spec}
use rcp_api.Logistics.FormSchema.Definition.{
  duplicate_key, max_fields, too_many_fields, validate_field_spec, validate_specs, encode_specs,
  validate_definition,
}
use rcp_api.Logistics.FormSchema.Canonical.{IsSpec, validate_field_spec-encode_spec}
use rcp_api.Logistics.FormSchema.Checked.{validate_field_spec-IsSpec, spec_keys_of, apart}

apart-split :
    (k : String) (seen : List String) (specs : List Spec)
    → apart (k ∷ seen) specs ≡ not (mem k (spec_keys_of specs)) && apart seen specs
apart-split k seen [] = refl
apart-split k seen (s ∷ rest) = ground (arith, str_eq_comm k s.key, apart-split k seen rest)

apart_nil : (specs : List Spec) → apart [] specs ≡ true
apart_nil [] = refl
apart_nil (s ∷ rest) = apart_nil rest

-- What the loop knows before a field and what it knows after it.
apart_step :
    (s : Spec) (seen : List String) (rest : List Spec)
    → not (mem s.key seen) ≡ true
    → apart (s.key ∷ seen) rest ≡ true
    → has_repeat (spec_keys_of rest) ≡ false
    → (apart seen (s ∷ rest) ≡ true) × (has_repeat (spec_keys_of (s ∷ rest)) ≡ false)
apart_step s seen rest = ground (arith, apart-split s.key seen rest)

apart_back :
    (s : Spec) (seen : List String) (rest : List Spec)
    → apart seen (s ∷ rest) ≡ true
    → has_repeat (spec_keys_of (s ∷ rest)) ≡ false
    → (not (mem s.key seen) ≡ true)
      × (apart (s.key ∷ seen) rest ≡ true)
      × (has_repeat (spec_keys_of rest) ≡ false)
apart_back s seen rest = ground (arith, apart-split s.key seen rest)

validate_specs_lem :
    (raw : Items) (index : ℕ) (seen : List String) (specs : List Spec)
    → validate_specs raw index seen ≡ ok specs
    → All IsSpec specs
      × (apart seen specs ≡ true)
      × (has_repeat (spec_keys_of specs) ≡ false)
      × (length specs ≡ length (to_list raw))
unfolding validate_specs
validate_specs_lem no_items index seen specs h =
    rw (← ok-injective [] specs h) (tt, refl, refl, refl)
validate_specs_lem (item v vs) index seen specs h =
    let (s, e1, h1) = >>=-eq-ok (validate_field_spec v index) _ h in
    let (absent, h2) = require-eq-ok (not (mem s.key seen)) (duplicate_key s.key) _ h1 in
    let (rest, e3, h3) = >>=-eq-ok (validate_specs vs (index + 1) (s.key ∷ seen)) _ h2 in
    let (fit, new, distinct, count) = validate_specs_lem vs (index + 1) (s.key ∷ seen) rest e3 in
    let kept = apart_step s seen rest absent new distinct in
    rw (← ok-injective (s ∷ rest) specs h3)
      ((validate_field_spec-IsSpec v index s e1, fit), kept.0, kept.1, ap suc count)

validate_specs-encode_specs :
    (specs : List Spec) (index : ℕ) (seen : List String)
    → All IsSpec specs
    → apart seen specs ≡ true
    → has_repeat (spec_keys_of specs) ≡ false
    → validate_specs (encode_specs specs) index seen ≡ ok specs
unfolding validate_specs encode_specs
validate_specs-encode_specs [] index seen fit new distinct = refl
validate_specs-encode_specs (s ∷ rest) index seen fit new distinct =
    let (absent, others, unique) = apart_back s seen rest new distinct in
    rw
      (
        validate_field_spec-encode_spec s index fit.0,
        absent,
        validate_specs-encode_specs rest (index + 1) (s.key ∷ seen) fit.1 others unique,
      )
      refl

-- The fields of a form as it is stored: at most fifty, with distinct keys.
pub record IsForm (specs : List Spec) : Type 0 where
  pub fields_fit : All IsSpec specs
  pub distinct_keys : has_repeat (spec_keys_of specs) ≡ false
  pub few_fields : length specs ≤ max_fields

-- What `validate_definition` returns: nothing, or the canonical form of the fields it read.
pub data IsStored : Value → Type 0 where
  no_form : IsStored null
  form : (specs : List Spec) → IsForm specs → IsStored (arr (encode_specs specs))

length-encode_specs : (specs : List Spec) → length (to_list (encode_specs specs)) ≡ length specs
unfolding encode_specs
length-encode_specs [] = refl
length-encode_specs (s ∷ rest) = ap suc (length-encode_specs rest)

pub validate_definition-IsStored :
    (raw stored : Value) → validate_definition raw ≡ ok stored → IsStored stored
unfolding validate_definition
validate_definition-IsStored null stored h = subst IsStored (ok-injective null stored h) no_form
validate_definition-IsStored (arr raw) stored h =
    let (few, h1) = require-eq-ok (leb (length (to_list raw)) max_fields) too_many_fields _ h in
    let (specs, e2, h2) = >>=-eq-ok (validate_specs raw 0 []) _ h1 in
    let (fit, new, distinct, count) = validate_specs_lem raw 0 [] specs e2 in
    let good : IsForm specs = record {
      fields_fit = fit;
      distinct_keys = distinct;
      few_fields = rw count (leb→le _ max_fields few);
    } in
    subst IsStored (ok-injective _ stored h2) (form specs good)
validate_definition-IsStored _ stored h = cc

pub validate_definition-of_stored :
    (stored : Value) → IsStored stored → validate_definition stored ≡ ok stored
unfolding validate_definition
validate_definition-of_stored _ no_form = refl
validate_definition-of_stored _ (form specs good) =
    rw
      (
        le→leb (length (to_list (encode_specs specs))) max_fields
            (rw (length-encode_specs specs) good.few_fields),
        validate_specs-encode_specs specs 0 [] good.fields_fit (apart_nil specs) good.distinct_keys,
      )
      refl

-- What validate_definition returns for a form is accepted again, and stays as it is.
pub validate_definition_idem :
    (raw stored : Value)
    → validate_definition raw ≡ ok stored
    → validate_definition stored ≡ ok stored
validate_definition_idem raw stored accepted =
    validate_definition-of_stored stored (validate_definition-IsStored raw stored accepted)
