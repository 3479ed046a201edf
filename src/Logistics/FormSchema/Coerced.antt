-- ===== src/Logistics/FormSchema/Coerced.antt =====
-- form_schema.py: the values that `_coerce` returns for a field.
use rcp_api.Base.{
  ℕ, ◌≤◌, ◌≡◌, refl, sym, ap, ◌∙◌, ◌≢◌, ◌↔◌, inl, inr, String, Bool, true, false, not, Option, none,
  some, List, [], ◌∷◌, arith, leb, forall, Bool-cases, Option-cases, not-eq-true, le→leb, leb→le,
}
use mathlib.Core.Option.{some-injective}
use rcp_api.Base.Int.{ℤ}
use rcp_api.Base.Json.{Value, bool, int, str, arr, Items, no_items, item}
use rcp_api.Base.Text.{char_count, strip, strip_idem}
use rcp_api.Base.Result.{ok, expect, ok-injective, >>=-eq-ok, require-eq-ok, expect-eq-ok}
use rcp_api.Logistics.FormSchema.{
  FieldType, text, textarea, integer, number, boolean, date, select, multiselect, phone, Number,
  whole, binary, not_a_number, infinite, as_number, of_number, less, to_whole, mem, has_repeat,
  Spec,
}
use rcp_api.Logistics.FormSchema.Definition.{as_text, is_blank_text, to_items}
use rcp_api.Logistics.FormSchema.Payload.{
  Calendar, too_long, not_numeric, not_whole, below_min, above_max, not_boolean, not_date,
  not_an_option, not_a_list_of_options, not_offered, duplicate_options, is_blank, to_boolean,
  is_offered, offered, not_below, not_above, check_range, coerce_text, coerce_integer,
  coerce_number, items_of, coerce_options, parse_date, coerce_date, coerce_as,
}

abbrev limit : ℕ → Spec → ℕ
limit default spec = elim spec.max_length [ none ↦ default | some n ↦ n ]

abbrev AtLeast : Option Number → Number → Type 0
AtLeast none n = Unit
AtLeast (some low) n = less n low ≡ false

abbrev AtMost : Option Number → Number → Type 0
AtMost none n = Unit
AtMost (some high) n = less high n ≡ false

-- A stripped text that is not blank and not too long.
abbrev pub IsText : ℕ → Spec → Value → Type 0
IsText default spec v =
    (t : String) × (v ≡ str t)
    × (strip t ≡ t)
    × (is_blank_text t ≡ false)
    × (char_count t ≤ limit default spec)

abbrev pub IsInRange : Spec → Number → Type 0
IsInRange spec n = AtLeast spec.minimum n × AtMost spec.maximum n

-- What a value of the type is, after coercion.
abbrev pub IsTyped : Calendar → FieldType → Spec → Value → Type 0
IsTyped calendar text spec v = IsText 500 spec v
IsTyped calendar textarea spec v = IsText 5000 spec v
IsTyped calendar phone spec v = IsText 30 spec v
IsTyped calendar integer spec v = (z : ℤ) × (v ≡ int z) × IsInRange spec (whole z)
IsTyped calendar number spec v = (n : Number) × (v ≡ of_number n) × IsInRange spec n
IsTyped calendar boolean spec v = (b : Bool) × (v ≡ bool b)
IsTyped calendar date spec v = (d : ℕ) × (v ≡ str (calendar.isoformat d))
IsTyped calendar select spec v =
    (o : String) × (v ≡ str o) × (mem o spec.options ≡ true) × (is_blank_text o ≡ false)
IsTyped calendar multiselect spec v =
    (os : List String) × (v ≡ arr (to_items os))
    × (os ≢ [])
    × (forall (λ o. mem o spec.options) os ≡ true)
    × (has_repeat os ≡ false)

not_below_lem : (low : Option Number) (n : Number) → not_below low n ≡ true ↔ AtLeast low n
not_below_lem none n = ((λ _. tt), (λ _. refl))
not_below_lem (some low) n = (not-eq-true _, (λ e. rw e refl))

not_above_lem : (high : Option Number) (n : Number) → not_above high n ≡ true ↔ AtMost high n
not_above_lem none n = ((λ _. tt), (λ _. refl))
not_above_lem (some high) n = (not-eq-true _, (λ e. rw e refl))

check_range_lem :
    (spec : Spec) (n m : Number) → check_range spec n ≡ ok m → (n ≡ m) × IsInRange spec n
unfolding check_range
check_range_lem spec n m h =
    let (low, h1) = require-eq-ok (not_below spec.minimum n) below_min _ h in
    let (high, h2) = require-eq-ok (not_above spec.maximum n) above_max _ h1 in
    (ok-injective n m h2, ((not_below_lem _ n).0 low, (not_above_lem _ n).0 high))

pub check_range-of_range : (spec : Spec) (n : Number) → IsInRange spec n → check_range spec n ≡ ok n
unfolding check_range
check_range-of_range spec n h =
    rw ((not_below_lem spec.minimum n).1 h.0, (not_above_lem spec.maximum n).1 h.1) refl

coerce_text-IsText :
    (default : ℕ) (spec : Spec) (v w : Value)
    → is_blank (some v) ≡ false
    → coerce_text default spec v ≡ ok w
    → IsText default spec w
unfolding coerce_text is_blank
coerce_text-IsText default spec (str s) w filled h =
    let (short, h1) =
      require-eq-ok (leb (char_count (strip s)) (limit default spec)) too_long _ h in
    (strip s, sym (ok-injective _ w h1), strip_idem s, rw (strip_idem s) filled, leb→le _ _ short)
coerce_text-IsText default spec _ w filled h = cc

pub coerce_text-of_text :
    (default : ℕ) (spec : Spec) (v : Value)
    → IsText default spec v
    → coerce_text default spec v ≡ ok v
unfolding coerce_text
coerce_text-of_text default spec v (t, e, stripped, filled, short) =
    rw (e, stripped, le→leb _ _ short) refl

offered_lem :
    (options : List String) (vs : Items) (ss : List String)
    → offered options vs ≡ some ss
    → (vs ≡ to_items ss) × (forall (λ o. mem o options) ss ≡ true)
unfolding offered
offered_lem options no_items ss h =
    let same : [] ≡ ss = some-injective [] ss h in rw (← same) (refl, refl)
offered_lem options (item (str s) vs) ss h = elim (Bool-cases (mem s options)) [
  | inr b ↦ cc (rw b at h)
  | inl b ↦ elim (Option-cases (offered options vs)) [
    | inl e ↦ cc (rw (b, e) at h)
    | inr (rest, e) ↦
        let same : s ∷ rest ≡ ss = some-injective (s ∷ rest) ss (rw (b, e) at h) in
        let ih = offered_lem options vs rest e in rw (← same, b) (ap (item (str s)) ih.0, ih.1)
  ]
]
offered_lem options (item _ vs) ss h = cc

pub offered-to_items :
    (options ss : List String)
    → forall (λ o. mem o options) ss ≡ true
    → offered options (to_items ss) ≡ some ss
unfolding offered
offered-to_items options [] h = refl
offered-to_items options (s ∷ ss) h = ground (arith, offered-to_items options ss)

pub as_number-of_number : (n : Number) → as_number (of_number n) ≡ some n
as_number-of_number (whole n) = refl
as_number-of_number (binary m k) = refl
as_number-of_number not_a_number = refl
as_number-of_number (infinite negative) = refl

items_of_lem : (v : Value) (vs : Items) → items_of v ≡ some vs → v ≡ arr vs
items_of_lem (arr items) vs h = ap arr (some-injective items vs h)
items_of_lem _ vs h = cc

nonempty_lem :
    (v : Value) (os : List String) → v ≡ arr (to_items os) → is_blank (some v) ≡ false → os ≢ []
unfolding is_blank
nonempty_lem v [] e filled = λ _. cc (rw e at filled)
nonempty_lem v (o ∷ os) e filled = λ empty. cc

is_offered_lem :
    (options : List String) (v : Value)
    → is_blank (some v) ≡ false
    → is_offered options v ≡ true
    → (o : String) × (v ≡ str o) × (mem o options ≡ true) × (is_blank_text o ≡ false)
unfolding is_blank
is_offered_lem options (str o) filled h = (o, refl, h, filled)
is_offered_lem options _ filled h = cc

module _ (calendar : Calendar) (spec : Spec) (v w : Value) where
  coerce_integer-IsTyped : coerce_integer spec v ≡ ok w → IsTyped calendar integer spec w
  unfolding coerce_integer
  coerce_integer-IsTyped h =
      let (n, e1, h1) = >>=-eq-ok (expect (as_number v) not_numeric) _ h in
      let (z, e2, h2) = >>=-eq-ok (expect (to_whole n) not_whole) _ h1 in
      let (checked, e3, h3) = >>=-eq-ok (check_range spec (whole z)) _ h2 in
      let (same, fits) = check_range_lem spec (whole z) checked e3 in
      (z, sym (ok-injective _ w h3) ∙ ap of_number (sym same), fits)

  coerce_number-IsTyped : coerce_number spec v ≡ ok w → IsTyped calendar number spec w
  unfolding coerce_number
  coerce_number-IsTyped h =
      let (n, e1, h1) = >>=-eq-ok (expect (as_number v) not_numeric) _ h in
      let (checked, e2, h2) = >>=-eq-ok (check_range spec n) _ h1 in
      let (same, fits) = check_range_lem spec n checked e2 in
      (n, sym (ok-injective _ w h2) ∙ ap of_number (sym same), fits)

  coerce_options-IsTyped :
      is_blank (some v) ≡ false → coerce_options spec v ≡ ok w → IsTyped calendar multiselect spec w
  unfolding coerce_options
  coerce_options-IsTyped filled h =
      let (items, e1, h1) = >>=-eq-ok (expect (items_of v) not_a_list_of_options) _ h in
      let (chosen, e2, h2) = >>=-eq-ok (expect (offered spec.options items) not_offered) _ h1 in
      let (distinct, h3) = require-eq-ok (not (has_repeat chosen)) duplicate_options _ h2 in
      let (same, all) = offered_lem spec.options items chosen (expect-eq-ok _ _ e2) in
      let shape : v ≡ arr (to_items chosen) =
        items_of_lem v items (expect-eq-ok _ _ e1) ∙ ap arr same in
      (
        chosen,
        sym (ok-injective v w h3) ∙ shape,
        nonempty_lem v chosen shape filled,
        all,
        not-eq-true _ distinct,
      )

  coerce_select-IsTyped :
      is_blank (some v) ≡ false
      → coerce_as calendar select spec v ≡ ok w
      → IsTyped calendar select spec w
  unfolding coerce_as
  coerce_select-IsTyped filled h =
      let (member, h1) = require-eq-ok (is_offered spec.options v) not_an_option _ h in
      let (o, e, found, solid) = is_offered_lem spec.options v filled member in
      (o, sym (ok-injective v w h1) ∙ e, found, solid)

  coerce_date-IsTyped : coerce_date calendar v ≡ ok w → IsTyped calendar date spec w
  unfolding coerce_date
  coerce_date-IsTyped h =
      let (s, e1, h1) = >>=-eq-ok (expect (as_text v) not_date) _ h in
      let (d, e2, h2) = >>=-eq-ok (expect (parse_date calendar s) not_date) _ h1 in
      (d, sym (ok-injective _ w h2))

  coerce_boolean-IsTyped :
      coerce_as calendar boolean spec v ≡ ok w → IsTyped calendar boolean spec w
  unfolding coerce_as
  coerce_boolean-IsTyped h =
      let (b, e1, h1) = >>=-eq-ok (expect (to_boolean v) not_boolean) _ h in
      (b, sym (ok-injective _ w h1))

  pub coerce_as-IsTyped :
      (kind : FieldType)
      → is_blank (some v) ≡ false
      → coerce_as calendar kind spec v ≡ ok w
      → IsTyped calendar kind spec w
  unfolding coerce_as
  coerce_as-IsTyped text filled h = coerce_text-IsText 500 spec v w filled h
  coerce_as-IsTyped textarea filled h = coerce_text-IsText 5000 spec v w filled h
  coerce_as-IsTyped phone filled h = coerce_text-IsText 30 spec v w filled h
  coerce_as-IsTyped integer filled h = coerce_integer-IsTyped h
  coerce_as-IsTyped number filled h = coerce_number-IsTyped h
  coerce_as-IsTyped boolean filled h = coerce_boolean-IsTyped h
  coerce_as-IsTyped date filled h = coerce_date-IsTyped h
  coerce_as-IsTyped select filled h = coerce_select-IsTyped filled h
  coerce_as-IsTyped multiselect filled h = coerce_options-IsTyped filled h
