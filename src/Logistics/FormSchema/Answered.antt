-- ===== src/Logistics/FormSchema/Answered.antt =====
-- form_schema.py: the answer to a field that `validate_payload` keeps.
use rcp_api.Base.{
  ℕ, ◌≡◌, refl, inl, inr, false, Option, none, some, List, [], ◌∷◌, ◌&&◌, All, arith, if◌then◌else◌,
  Bool-cases,
}
use rcp_api.Base.Json.{Value, Fields, get}
use rcp_api.Base.Result.{ok, err, ok-injective, >>=-eq-ok}
use rcp_api.Logistics.FormSchema.{
  FieldType, text, textarea, integer, number, boolean, date, select, multiselect, phone, whole,
  binary, not_a_number, infinite, to_whole, Spec,
}
use rcp_api.Logistics.FormSchema.Definition.{is_blank_text}
use rcp_api.Logistics.FormSchema.Payload.{
  Calendar, is_integer, is_infinite, overflows, is_blank, to_boolean, coerce_integer, coerce_number,
  coerce_options, parse_date, coerce_date, coerce_as, coerce, check_field, required_value,
}
use rcp_api.Logistics.FormSchema.Coerced.{
  IsTyped, check_range-of_range, coerce_text-of_text, offered-to_items, as_number-of_number,
  coerce_as-IsTyped,
}

-- `date.fromisoformat` reads what `isoformat` prints, which is ten characters.
pub record IsIso (calendar : Calendar) : Type 0 where
  pub reads_back : (d : ℕ) → calendar.date_fromisoformat (calendar.isoformat d) ≡ some d
  pub prints : (d : ℕ) → is_blank_text (calendar.isoformat d) ≡ false

module _ (calendar : Calendar) (iso : IsIso calendar) (spec : Spec) (v : Value) where
  coerce_as-of_typed :
      (kind : FieldType) → IsTyped calendar kind spec v → coerce_as calendar kind spec v ≡ ok v
  unfolding coerce_as coerce_integer coerce_number coerce_date coerce_options parse_date to_boolean
      to_whole
  coerce_as-of_typed text h = coerce_text-of_text 500 spec v h
  coerce_as-of_typed textarea h = coerce_text-of_text 5000 spec v h
  coerce_as-of_typed phone h = coerce_text-of_text 30 spec v h
  coerce_as-of_typed integer (z, e, fits) =
      rw (e, to_whole, check_range-of_range spec (whole z) fits) refl
  coerce_as-of_typed number (n, e, fits) =
      rw (e, as_number-of_number n, check_range-of_range spec n fits) refl
  coerce_as-of_typed boolean (b, e) = rw e refl
  coerce_as-of_typed date (d, e) = rw (e, parse_date, iso.reads_back d) refl
  coerce_as-of_typed select (o, e, found, solid) = rw (e, found) refl
  coerce_as-of_typed multiselect (os, e, filled, all, distinct) =
      rw (e, offered-to_items spec.options os all, distinct) refl

  is_blank-of_typed : (kind : FieldType) → IsTyped calendar kind spec v → is_blank (some v) ≡ false
  unfolding is_blank
  is_blank-of_typed text (t, e, stripped, solid, short) = rw (e, solid) refl
  is_blank-of_typed textarea (t, e, stripped, solid, short) = rw (e, solid) refl
  is_blank-of_typed phone (t, e, stripped, solid, short) = rw (e, solid) refl
  is_blank-of_typed integer (z, e, fits) = rw e refl
  is_blank-of_typed number (whole z, e, fits) = rw e refl
  is_blank-of_typed number (binary m k, e, fits) = rw e refl
  is_blank-of_typed number (not_a_number, e, fits) = rw e refl
  is_blank-of_typed number (infinite negative, e, fits) = rw e refl
  is_blank-of_typed boolean (b, e) = rw e refl
  is_blank-of_typed date (d, e) = rw (e, iso.prints d) refl
  is_blank-of_typed select (o, e, found, solid) = rw (e, solid) refl
  is_blank-of_typed multiselect ([], e, filled, all, distinct) = absurd (filled refl)
  is_blank-of_typed multiselect (o ∷ os, e, filled, all, distinct) = rw e refl

finite_integer :
    (calendar : Calendar) (kind : FieldType) (spec : Spec) (v : Value)
    → IsTyped calendar kind spec v
    → (is_integer kind && is_infinite (some v)) ≡ false
finite_integer calendar integer spec v (z, e, fits) = rw e refl
finite_integer calendar _ spec v h = refl

-- What the column holds for a field: a value of its type, or nothing if it is optional.
abbrev pub IsAnswered : Calendar → Spec → Option Value → Type 0
IsAnswered calendar spec none = spec.required ≡ false
IsAnswered calendar spec (some v) = IsTyped calendar spec.field_type spec v

answered_finite :
    (calendar : Calendar) (spec : Spec) (v : Option Value)
    → IsAnswered calendar spec v
    → (is_integer spec.field_type && is_infinite v) ≡ false
answered_finite calendar spec none h = ground arith
answered_finite calendar spec (some v) h = finite_integer calendar spec.field_type spec v h

left_out :
    (calendar : Calendar) (spec : Spec) (out : Option Value)
    → (if spec.required then err required_value else ok none) ≡ ok out
    → IsAnswered calendar spec out
left_out calendar spec out h = elim (Bool-cases spec.required) [
  | inl r ↦ cc (rw r at h)
  | inr r ↦ rw (← ok-injective none out (rw r at h)) r
]

pub check_field-IsAnswered :
    (calendar : Calendar) (spec : Spec) (v out : Option Value)
    → check_field calendar spec v ≡ ok out
    → IsAnswered calendar spec out
unfolding check_field coerce
check_field-IsAnswered calendar spec none out h = left_out calendar spec out h
check_field-IsAnswered calendar spec (some v) out h = elim (Bool-cases (is_blank (some v))) [
  | inl blank ↦ left_out calendar spec out (rw blank at h)
  | inr filled ↦
      let (w, e1, h1) = >>=-eq-ok (coerce calendar spec v) _ (rw filled at h) in
      rw (← ok-injective (some w) out h1)
        (coerce_as-IsTyped calendar spec v w spec.field_type filled e1)
]

pub check_field-of_answered :
    (calendar : Calendar) (spec : Spec) (v : Option Value)
    → IsIso calendar
    → IsAnswered calendar spec v
    → check_field calendar spec v ≡ ok v
unfolding check_field coerce
check_field-of_answered calendar spec none iso h = rw h refl
check_field-of_answered calendar spec (some v) iso h =
    rw
      (
        is_blank-of_typed calendar iso spec v spec.field_type h,
        coerce_as-of_typed calendar iso spec v spec.field_type h,
      )
      refl

pub overflows-of_answered :
    (calendar : Calendar) (specs : List Spec) (fs : Fields)
    → All (λ s. IsAnswered calendar s (get s.key fs)) specs
    → overflows specs fs ≡ false
unfolding overflows
overflows-of_answered calendar [] fs all = refl
overflows-of_answered calendar (s ∷ specs) fs (here, later) = ground (
  arith,
  answered_finite calendar s (get s.key fs) here,
  overflows-of_answered calendar specs fs later,
)
