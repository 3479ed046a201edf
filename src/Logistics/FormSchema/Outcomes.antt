-- ===== src/Logistics/FormSchema/Outcomes.antt =====
-- form_schema.py: the errors and the coerced values that the loop of `validate_payload` collects.
use rcp_api.Base.{
  ◌≡◌, refl, sym, ap, ◌∙◌, inl, inr, String, Bool, true, false, none, some, List, [], ◌∷◌, ◌++◌,
  arith, str_eq, forall, All, Bool-cases, eq_iff, str_eq_comm,
}
use mathlib.Core.List.{append_assoc, append-nil}
use rcp_api.Base.Json.{Value, obj, Fields, no_fields, field, get, keys}
use rcp_api.Base.Result.{ok, err, Result-cases}
use rcp_api.Logistics.FormSchema.{mem, has_repeat, Spec}
use rcp_api.Logistics.FormSchema.Checked.{spec_keys_of}
use rcp_api.Logistics.FormSchema.Payload.{Calendar, Problem, check_field, put, check_fields}

get-put_same : (k : String) (v : Value) (fs : Fields) → get k (put k v fs) ≡ some v
get-put_same k v no_fields = rw ((eq_iff k k).1 refl) refl
get-put_same k v (field j w fs) = ground (arith, get-put_same k v fs)

get-put_other :
    (k j : String) (v : Value) (fs : Fields) → str_eq j k ≡ false → get k (put j v fs) ≡ get k fs
get-put_other k j v no_fields other = rw other refl
get-put_other k j v (field i w fs) other = elim (Bool-cases (str_eq i j)) [
  | inl same ↦ let e : i ≡ j = (eq_iff i j).0 same in rw (same, e, other) refl
  | inr apart ↦ ground (arith, get-put_other k j v fs other)
]

keys-put :
    (p : String → Bool) (k : String) (v : Value) (fs : Fields)
    → p k ≡ true
    → forall p (keys fs) ≡ true
    → forall p (keys (put k v fs)) ≡ true
keys-put p k v no_fields here all = rw here refl
keys-put p k v (field j w fs) here all = ground (arith, keys-put p k v fs here)

mem_split :
    (k j : String) (js : List String)
    → mem k (j ∷ js) ≡ false
    → (str_eq k j ≡ false) × (mem k js ≡ false)
mem_split k j js h = ground arith

repeat_split :
    (j : String) (js : List String)
    → has_repeat (j ∷ js) ≡ false
    → (mem j js ≡ false) × (has_repeat js ≡ false)
repeat_split j js h = ground arith

forall_split :
    (p : String → Bool) (k : String) (ks : List String)
    → forall p (k ∷ ks) ≡ true
    → (p k ≡ true) × (forall p ks ≡ true)
forall_split p k ks h = ground arith

module _ (calendar : Calendar) where
  -- The errors of the fields, and the coerced values, without the accumulators.
  pub problems : List Spec → Fields → List (String × Problem)
  problems [] payload = []
  problems (s ∷ rest) payload = elim (check_field calendar s (get s.key payload)) [
    | err problem ↦ (s.key, problem) ∷ problems rest payload
    | ok out ↦ problems rest payload
  ]

  pub answers : List Spec → Fields → Fields → Fields
  answers [] payload coerced = coerced
  answers (s ∷ rest) payload coerced = elim (check_field calendar s (get s.key payload)) [
    | err problem ↦ answers rest payload coerced
    | ok none ↦ answers rest payload coerced
    | ok (some v) ↦ answers rest payload (put s.key v coerced)
  ]

  pub check_fields-split :
      (specs : List Spec) (payload : Fields) (errors : List (String × Problem)) (coerced : Fields)
      → check_fields calendar specs payload errors coerced
        ≡ (errors ++ problems specs payload, answers specs payload coerced)
  unfolding check_fields problems answers
  check_fields-split [] payload errors coerced = rw (append-nil errors) refl
  check_fields-split (s ∷ rest) payload errors coerced =
      elim (Result-cases (check_field calendar s (get s.key payload))) [
        | inl (none, e) ↦
            rw (check_fields, problems, answers, e) (check_fields-split rest payload errors coerced)
        | inl (some v, e) ↦
            rw (check_fields, problems, answers, e)
              (check_fields-split rest payload errors (put s.key v coerced))
        | inr (problem, e) ↦
            rw (check_fields, problems, answers, e)
              (check_fields-split rest payload (errors ++ (s.key, problem) ∷ []) coerced
                ∙ rw (append_assoc errors ((s.key, problem) ∷ []) (problems rest payload)) refl)
      ]

  get-answers_other :
      (k : String) (specs : List Spec) (payload coerced : Fields)
      → mem k (spec_keys_of specs) ≡ false
      → get k (answers specs payload coerced) ≡ get k coerced
  unfolding answers
  get-answers_other k [] payload coerced absent = refl
  get-answers_other k (s ∷ rest) payload coerced absent =
      let (apart, rest_absent) = mem_split k s.key (spec_keys_of rest) absent in
      elim (Result-cases (check_field calendar s (get s.key payload))) [
        | inl (none, e) ↦ rw (answers, e) (get-answers_other k rest payload coerced rest_absent)
        | inr (problem, e) ↦ rw (answers, e) (get-answers_other k rest payload coerced rest_absent)
        | inl (some v, e) ↦
            rw (answers, e)
              (get-answers_other k rest payload (put s.key v coerced) rest_absent
                ∙ get-put_other k s.key v coerced (str_eq_comm s.key k ∙ apart))
      ]

  -- No field of the form is in the dict yet.
  abbrev pub OpenFor : List Spec → Fields → Type 0
  OpenFor specs coerced = All (λ s. get s.key coerced ≡ none) specs

  still_open :
      (s : Spec) (v : Value) (coerced : Fields) (rest : List Spec)
      → mem s.key (spec_keys_of rest) ≡ false
      → OpenFor rest coerced
      → OpenFor rest (put s.key v coerced)
  still_open s v coerced [] absent new = tt
  still_open s v coerced (r ∷ rest) absent new =
      let (apart, others) = mem_split s.key r.key (spec_keys_of rest) absent in
      (get-put_other r.key s.key v coerced apart ∙ new.0, still_open s v coerced rest others new.1)

  -- What the loop finds out about the field is what ends up in the dict.
  abbrev pub IsOutcome : Fields → Fields → Spec → Type 0
  IsOutcome payload out s = check_field calendar s (get s.key payload) ≡ ok (get s.key out)

  pub get-answers :
      (specs : List Spec) (payload coerced out : Fields)
      → has_repeat (spec_keys_of specs) ≡ false
      → OpenFor specs coerced
      → problems specs payload ≡ []
      → answers specs payload coerced ≡ out
      → All (IsOutcome payload out) specs
  unfolding answers problems
  get-answers [] payload coerced out distinct new clean final = tt
  get-answers (s ∷ rest) payload coerced out distinct new clean final =
      let (absent, others) = repeat_split s.key (spec_keys_of rest) distinct in
      elim (Result-cases (check_field calendar s (get s.key payload))) [
        | inr (problem, e) ↦ cc (rw (problems, e) at clean)
        | inl (none, e) ↦
            let final' : answers rest payload coerced ≡ out = rw (answers, e) at final in
            let kept = get-answers_other s.key rest payload coerced absent in
            (
              e ∙ ap ok (sym (rw (← final', kept) new.0)),
              get-answers rest payload coerced out others new.1 (rw (problems, e) at clean) final',
            )
        | inl (some v, e) ↦
            let more = put s.key v coerced in
            let final' : answers rest payload more ≡ out = rw (answers, e) at final in
            let kept = get-answers_other s.key rest payload more absent in
            (
              e ∙ ap ok (sym (rw (← final', kept) (get-put_same s.key v coerced))),
              get-answers rest payload more out others (still_open s v coerced rest absent new.1)
                  (rw (problems, e) at clean) final',
            )
      ]

  pub keys-answers :
      (p : String → Bool) (specs : List Spec) (payload coerced : Fields)
      → forall p (spec_keys_of specs) ≡ true
      → forall p (keys coerced) ≡ true
      → forall p (keys (answers specs payload coerced)) ≡ true
  unfolding answers
  keys-answers p [] payload coerced all kept = kept
  keys-answers p (s ∷ rest) payload coerced all kept =
      let (here, later) = forall_split p s.key (spec_keys_of rest) all in
      elim (Result-cases (check_field calendar s (get s.key payload))) [
        | inl (none, e) ↦ rw (answers, e) (keys-answers p rest payload coerced later kept)
        | inr (problem, e) ↦ rw (answers, e) (keys-answers p rest payload coerced later kept)
        | inl (some v, e) ↦
            rw (answers, e)
              (keys-answers p rest payload (put s.key v coerced) later
                (keys-put p s.key v coerced here kept))
      ]

  -- The loop looks only at what `check_field` says.
  pub check_fields-cong :
      (specs : List Spec) (a b : Fields) (errors : List (String × Problem)) (coerced : Fields)
      → All (λ s. check_field calendar s (get s.key a) ≡ check_field calendar s (get s.key b)) specs
      → check_fields calendar specs a errors coerced ≡ check_fields calendar specs b errors coerced
  unfolding check_fields
  check_fields-cong [] a b errors coerced same = refl
  check_fields-cong (s ∷ rest) a b errors coerced same =
      elim (Result-cases (check_field calendar s (get s.key b))) [
        | inl (none, e) ↦
            rw (check_fields, same.0, e) (check_fields-cong rest a b errors coerced same.1)
        | inl (some v, e) ↦
            rw (check_fields, same.0, e)
              (check_fields-cong rest a b errors (put s.key v coerced) same.1)
        | inr (problem, e) ↦
            rw (check_fields, same.0, e)
              (check_fields-cong rest a b (errors ++ (s.key, problem) ∷ []) coerced same.1)
      ]

-- The dict that the column holds: null for none.
abbrev pub stored_fields : Value → Fields
stored_fields (obj fs) = fs
stored_fields _ = no_fields
