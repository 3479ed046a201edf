-- ===== src/Logistics/FormSchema/Answers.antt =====
-- form_schema.py: the payloads that `validate_payload` accepts, and what it returns for them.
use rcp_api.Base.{
  ◌≡◌, ◌≢◌, refl, sym, ap, ◌∙◌, ◌↔◌, inl, inr, String, true, false, not, some, List, [], ◌∷◌, ◌++◌,
  arith, forall, All, Bool-cases, Option-cases, eq_iff, All-imp,
}
use mathlib.Core.Path.{subst}
use rcp_api.Base.Json.{Value, null, obj, Fields, no_fields, field, get, keys}
use rcp_api.Base.Result.{ok, err, expect, ok-injective, >>=-eq-ok, require-eq-ok, expect-eq-ok}
use rcp_api.Logistics.FormSchema.{mem, has_repeat, Spec}
use rcp_api.Logistics.FormSchema.Checked.{spec_keys_of}
use rcp_api.Logistics.FormSchema.Payload.{
  Calendar, Problem, not_an_object, check_field, has_field, unknown_fields, check_fields, conclude,
  payload_object, validate_payload, overflow, overflows,
}
use rcp_api.Logistics.FormSchema.Answered.{
  IsIso, IsAnswered, check_field-IsAnswered, check_field-of_answered, overflows-of_answered,
}
use rcp_api.Logistics.FormSchema.Outcomes.{
  problems, answers, check_fields-split, OpenFor, IsOutcome, get-answers, keys-answers,
  check_fields-cong, stored_fields,
}

conclude_lem :
    (errors : List (String × Problem)) (coerced : Fields) (out : Value)
    → conclude (errors, coerced) ≡ ok out
    → (errors ≡ []) × (stored_fields out ≡ coerced) × (payload_object out ≡ some coerced)
unfolding conclude payload_object
conclude_lem [] no_fields out h = rw (← ok-injective null out h) (refl, refl, refl)
conclude_lem [] (field k v fs) out h =
    rw (← ok-injective (obj (field k v fs)) out h) (refl, refl, refl)
conclude_lem (e ∷ errors) coerced out h = cc

unknown_fields_none :
    (specs : List Spec) (ks : List String)
    → unknown_fields specs ks ≡ [] ↔ forall (has_field specs) ks ≡ true
unfolding unknown_fields
unknown_fields_none specs [] = ((λ _. refl), (λ _. refl))
unknown_fields_none specs (k ∷ ks) = elim (Bool-cases (has_field specs k)) [
  | inl known ↦ rw (unknown_fields, known) (unknown_fields_none specs ks)
  | inr unknown ↦ rw (unknown_fields, unknown) ((λ h. cc), (λ h. cc))
]

forall_weaken :
    (j : String) (js ks : List String)
    → forall (λ k. mem k js) ks ≡ true
    → forall (λ k. mem k (j ∷ js)) ks ≡ true
forall_weaken j js [] h = refl
forall_weaken j js (k ∷ ks) h = ground (arith, forall_weaken j js ks)

forall_self : (ks : List String) → forall (λ k. mem k ks) ks ≡ true
forall_self [] = refl
forall_self (k ∷ ks) = rw ((eq_iff k k).1 refl) (forall_weaken k ks ks (forall_self ks))

-- The payload is an object of defined fields, and each field is answered in the column.
pub record IsAccepted (calendar : Calendar) (specs : List Spec) (extra out : Value) : Type 0 where
  pub payload : Fields
  pub is_object : payload_object extra ≡ some payload
  pub only_defined : forall (has_field specs) (keys payload) ≡ true
  pub answered : All (λ s. IsAnswered calendar s (get s.key (stored_fields out))) specs
  pub nothing_else : forall (has_field specs) (keys (stored_fields out)) ≡ true

append-eq-nil : (xs ys : List (String × Problem)) → xs ++ ys ≡ [] → (xs ≡ []) × (ys ≡ [])
append-eq-nil [] ys h = (refl, h)
append-eq-nil (x ∷ xs) ys h = cc

-- The run of the loop behind an accepted payload.
record IsRun (calendar : Calendar) (specs : List Spec) (extra out : Value) : Type 0 where
  payload : Fields
  is_object : payload_object extra ≡ some payload
  all_known : unknown_fields specs (keys payload) ≡ []
  clean : problems calendar specs payload ≡ []
  returned : stored_fields out ≡ answers calendar specs payload no_fields
  reads_back : payload_object out ≡ some (stored_fields out)
  concluded : conclude (check_fields calendar specs payload [] no_fields) ≡ ok out

open_empty : (calendar : Calendar) (specs : List Spec) → OpenFor calendar specs no_fields
open_empty calendar [] = tt
open_empty calendar (s ∷ rest) = (refl, open_empty calendar rest)

conclude-no_overflow :
    (errors : List (String × Problem)) (coerced : Fields)
    → conclude (errors, coerced) ≢ err overflow
unfolding conclude
conclude-no_overflow [] no_fields = λ h. cc
conclude-no_overflow [] (field k v fs) = λ h. cc
conclude-no_overflow (e ∷ errors) coerced = λ h. cc

-- Only an infinite answer to a field of integers ends in the `OverflowError`.
pub validate_payload-overflow :
    (calendar : Calendar) (specs : List Spec) (extra : Value)
    → validate_payload calendar specs extra ≡ err overflow
    → (payload : Fields) × (payload_object extra ≡ some payload) × (overflows specs payload ≡ true)
unfolding validate_payload
validate_payload-overflow calendar specs extra h = elim (Option-cases (payload_object extra)) [
  | inl e ↦ cc (rw e at h)
  | inr (payload, e) ↦ elim (Bool-cases (overflows specs payload)) [
    | inl infinite ↦ (payload, e, infinite)
    | inr finite ↦
        let (errors, coerced) =
          check_fields calendar specs payload (unknown_fields specs (keys payload)) no_fields in
        absurd (conclude-no_overflow errors coerced (rw (e, finite) at h))
  ]
]

module _ (calendar : Calendar) (specs : List Spec) (extra out : Value) where
  accepted-IsRun : validate_payload calendar specs extra ≡ ok out → IsRun calendar specs extra out
  unfolding validate_payload
  accepted-IsRun accepted =
      let (payload, e1, h0) = >>=-eq-ok (expect (payload_object extra) not_an_object) _ accepted in
      let (finite, h1) = require-eq-ok (not (overflows specs payload)) overflow _ h0 in
      let unknown = unknown_fields specs (keys payload) in
      let h2 : conclude
            (unknown ++ problems calendar specs payload, answers calendar specs payload no_fields)
          ≡ ok out =
        subst (λ r. conclude r ≡ ok out)
          (check_fields-split calendar specs payload unknown no_fields) h1 in
      let (none_wrong, returned, back) = conclude_lem _ _ out h2 in
      let (known, clean) = append-eq-nil unknown _ none_wrong in
      record {
        payload = payload;
        is_object = expect-eq-ok _ _ e1;
        all_known = known;
        clean = clean;
        returned = returned;
        reads_back = back ∙ ap some (sym returned);
        concluded = rw known at h1;
      }

  run-outcomes :
      (run : IsRun calendar specs extra out)
      → has_repeat (spec_keys_of specs) ≡ false
      → All (IsOutcome calendar run.payload (stored_fields out)) specs
  run-outcomes run distinct =
      get-answers calendar specs run.payload no_fields (stored_fields out) distinct
        (open_empty calendar specs) run.clean (sym run.returned)

  run-only_fields :
      IsRun calendar specs extra out → forall (has_field specs) (keys (stored_fields out)) ≡ true
  run-only_fields run = rw run.returned (
      keys-answers calendar (has_field specs) specs run.payload no_fields
        (forall_self (spec_keys_of specs)) refl)

  pub validate_payload-IsAccepted :
      has_repeat (spec_keys_of specs) ≡ false
      → validate_payload calendar specs extra ≡ ok out
      → IsAccepted calendar specs extra out
  validate_payload-IsAccepted distinct accepted =
      let run = accepted-IsRun accepted in
      record {
        payload = run.payload;
        is_object = run.is_object;
        only_defined = (unknown_fields_none specs (keys run.payload)).0 run.all_known;
        answered =
            All-imp (IsOutcome calendar run.payload (stored_fields out))
              (λ s. IsAnswered calendar s (get s.key (stored_fields out))) specs
              (λ s.
                check_field-IsAnswered calendar s (get s.key run.payload)
                  (get s.key (stored_fields out)))
              (run-outcomes run distinct);
        nothing_else = run-only_fields run;
      }

  validate_payload_idem :
      IsIso calendar
      → has_repeat (spec_keys_of specs) ≡ false
      → validate_payload calendar specs extra ≡ ok out
      → validate_payload calendar specs out ≡ ok out
  unfolding validate_payload
  validate_payload_idem iso distinct accepted =
      let run = accepted-IsRun accepted in
      let same =
        All-imp (IsOutcome calendar run.payload (stored_fields out))
          (λ s.
            check_field calendar s (get s.key (stored_fields out))
            ≡ check_field calendar s (get s.key run.payload))
          specs
          (λ s e.
            check_field-of_answered calendar s (get s.key (stored_fields out)) iso (
              check_field-IsAnswered calendar s (get s.key run.payload)
                (get s.key (stored_fields out)) e)
            ∙ sym e)
          (run-outcomes run distinct) in
      rw
        (
          run.reads_back,
          overflows-of_answered calendar specs (stored_fields out)
              (validate_payload-IsAccepted distinct accepted).answered,
          (unknown_fields_none specs (keys (stored_fields out))).1 (run-only_fields run),
          check_fields-cong calendar specs (stored_fields out) run.payload [] no_fields same,
        )
        run.concluded

  -- For a form with distinct keys, and a date.fromisoformat that reads what isoformat prints, an
  -- accepted payload has only fields of the form, and what is returned has no others, has each
  -- required field, and has for each field a value of its type: a text within its length, an
  -- option that is offered, a number that compares neither below the minimum nor above the maximum
  -- (as a NaN does). Validated again, it is accepted and stays as it is.
  pub validate_payload_lem :
      IsIso calendar
      → has_repeat (spec_keys_of specs) ≡ false
      → validate_payload calendar specs extra ≡ ok out
      → IsAccepted calendar specs extra out × (validate_payload calendar specs out ≡ ok out)
  validate_payload_lem iso distinct accepted =
      (validate_payload-IsAccepted distinct accepted, validate_payload_idem iso distinct accepted)
