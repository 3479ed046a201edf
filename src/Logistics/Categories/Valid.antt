-- ===== src/Logistics/Categories/Valid.antt =====
-- inventory.py, resource_schema.py: the definitions that the categories' columns hold.
use rcp_api.Base.{
  ℕ, ◌≡◌, sym, inl, inr, Option, none, some, [], ◌∷◌, arith, ◌==◌, ◌++◌, All, All-append,
  All-update, All-first, Bool-cases, Option-cases,
}
use mathlib.Core.Path.{subst}
use rcp_api.Base.Json.{Value}
use rcp_api.Base.Result.{Result, ok, err, ok-injective, >>=-eq-ok, require-eq-ok, Result-cases}
use rcp_api.Base.Tx.{run}
use rcp_api.Logistics.FormSchema.Definition.{validate_definition as validate_form}
use rcp_api.Logistics.FormSchema.Accepted.{IsStored, validate_definition-IsStored}
use rcp_api.Logistics.Workflow.Definition.{validate_definition as validate_workflow}
use rcp_api.Logistics.Db.{ResourceCategory, Db}
use rcp_api.Logistics.Bodies.{
  CategoryError, bad_name, bad_unit, bad_shape, bad_form, bad_workflow, ResourceCategoryCreate,
  ResourceCategoryUpdate, lift, is_form_shape, is_workflow_shape, check_form_schema, check_workflow,
  if_sent, parse_create, parse_update,
}
use rcp_api.Logistics.Categories.{
  sent, get_category, new_category, create_category, set_fields, put_category, stamped,
  update_category, retired, retire, deactivate_category, post_category, patch_category,
}

-- What `validate_definition` of workflow.py returned for some body.
abbrev pub IsWorkflow : Value → Type 0
IsWorkflow stored = (raw : Value) × (validate_workflow raw ≡ ok stored)

pub record IsValid (category : ResourceCategory) : Type 0 where
  pub form_valid : IsStored category.form_schema
  pub workflow_valid : IsWorkflow category.workflow

abbrev pub AreValid : Db → Type 0
AreValid db = All IsValid db.categories

lift-eq-ok :
    {E A : Type 0} (wrap : E → CategoryError) (r : Result E A) (a : A)
    → lift wrap r ≡ ok a
    → r ≡ ok a
lift-eq-ok wrap (ok b) a h = cc
lift-eq-ok wrap (err e) a h = cc

check_form_schema_lem : (v stored : Value) → check_form_schema v ≡ ok stored → IsStored stored
unfolding check_form_schema
check_form_schema_lem v stored h =
    let (shape, h1) = require-eq-ok (is_form_shape v) bad_shape _ h in
    validate_definition-IsStored v stored (lift-eq-ok bad_form (validate_form v) stored h1)

check_workflow_lem : (v stored : Value) → check_workflow v ≡ ok stored → IsWorkflow stored
unfolding check_workflow
check_workflow_lem v stored h =
    let (shape, h1) = require-eq-ok (is_workflow_shape v) bad_shape _ h in
    (v, lift-eq-ok bad_workflow (validate_workflow v) stored h1)

-- A definition that was sent is one that was accepted.
abbrev SentValid : (Value → Type 0) → Option Value → Type 0
SentValid P none = Unit
SentValid P (some v) = P v

if_sent_lem :
    (check : Value → Result CategoryError Value) (P : Value → Type 0)
    → ((v stored : Value) → check v ≡ ok stored → P stored)
    → (v out : Option Value) → if_sent check v ≡ ok out
    → SentValid P out
if_sent_lem check P good none out h = subst (SentValid P) (ok-injective none out h) tt
if_sent_lem check P good (some v) out h =
    let (stored, e, h1) = >>=-eq-ok (check v) _ h in
    subst (SentValid P) (ok-injective (some stored) out h1) (good v stored e)

parse_create_lem :
    (body data' : ResourceCategoryCreate)
    → parse_create body ≡ ok data'
    → IsStored data'.form_schema × IsWorkflow data'.workflow
unfolding parse_create
parse_create_lem body data' h =
    let (t1, h1) = require-eq-ok _ bad_name _ h in
    let (t2, h2) = require-eq-ok _ bad_unit _ h1 in
    let (form_ok, e3, h3) = >>=-eq-ok (check_form_schema body.form_schema) _ h2 in
    let (flow, e4, h4) = >>=-eq-ok (check_workflow body.workflow) _ h3 in
    subst (λ (c : ResourceCategoryCreate). IsStored c.form_schema × IsWorkflow c.workflow)
      (ok-injective _ data' h4)
      (check_form_schema_lem body.form_schema form_ok e3, check_workflow_lem body.workflow flow e4)

parse_update_lem :
    (body data' : ResourceCategoryUpdate)
    → parse_update body ≡ ok data'
    → SentValid IsStored data'.form_schema × SentValid IsWorkflow data'.workflow
unfolding parse_update
parse_update_lem body data' h =
    let (t1, h1) = require-eq-ok _ bad_name _ h in
    let (t2, h2) = require-eq-ok _ bad_unit _ h1 in
    let (form_ok, e3, h3) = >>=-eq-ok (if_sent check_form_schema body.form_schema) _ h2 in
    let (flow, e4, h4) = >>=-eq-ok (if_sent check_workflow body.workflow) _ h3 in
    subst
      (λ (c : ResourceCategoryUpdate).
        SentValid IsStored c.form_schema × SentValid IsWorkflow c.workflow)
      (ok-injective _ data' h4)
      (
        if_sent_lem check_form_schema IsStored check_form_schema_lem body.form_schema form_ok e3,
        if_sent_lem check_workflow IsWorkflow check_workflow_lem body.workflow flow e4,
      )

set_fields_lem :
    (body : ResourceCategoryUpdate) (category changed : ResourceCategory)
    → set_fields body category ≡ some changed
    → (changed.form_schema ≡ sent body.form_schema category.form_schema)
      × (changed.workflow ≡ sent body.workflow category.workflow)
unfolding set_fields
set_fields_lem body category changed h = ground arith

sent-keeps :
    (P : Value → Type 0) (v : Option Value) (old : Value) → SentValid P v → P old → P (sent v old)
sent-keeps P none old new kept = kept
sent-keeps P (some v) old new kept = new

set_fields-IsValid :
    (body : ResourceCategoryUpdate) (category changed : ResourceCategory)
    → SentValid IsStored body.form_schema
    → SentValid IsWorkflow body.workflow
    → IsValid category
    → set_fields body category ≡ some changed
    → IsValid changed
set_fields-IsValid body category changed form flow valid h =
    let (same_form, same_flow) = set_fields_lem body category changed h in
    record {
      form_valid =
          subst IsStored (sym same_form)
            (sent-keeps IsStored body.form_schema _ form valid.form_valid);
      workflow_valid =
          subst IsWorkflow (sym same_flow)
            (sent-keeps IsWorkflow body.workflow _ flow valid.workflow_valid);
    }

put_category-AreValid :
    (category : ResourceCategory) (db : Db)
    → IsValid category
    → AreValid db
    → AreValid (put_category category db)
put_category-AreValid category db new valid =
    All-update IsValid (λ row. row.id == category.id) (λ _. category) (λ _ _ _. new) db.categories
      valid

post_category-AreValid :
    (id now tenant : ℕ) (body : ResourceCategoryCreate) (db : Db)
    → AreValid db
    → AreValid (run (post_category id now tenant body) db).1
unfolding post_category create_category new_category
post_category-AreValid id now tenant body db valid = elim (Result-cases (parse_create body)) [
  | inr (e, refused) ↦
      let same : (run (post_category id now tenant body) db).1 ≡ db = ground arith in
      subst AreValid (sym same) valid
  | inl (data', parsed) ↦
      let (form_ok, flow_ok) = parse_create_lem body data' parsed in
      let category = new_category id tenant now data' in
      let same : (run (post_category id now tenant body) db).1.categories
          ≡ db.categories ++ category ∷ [] =
        ground arith in
      subst (All IsValid) (sym same) (
        All-append IsValid db.categories (category ∷ []) valid
          (record { form_valid = form_ok; workflow_valid = flow_ok }, tt))
]

patch_category-AreValid :
    (stamp : ResourceCategory → ResourceCategory → ℕ) (tenant id : ℕ)
    (body : ResourceCategoryUpdate) (db : Db)
    → AreValid db
    → AreValid (run (patch_category stamp tenant id body) db).1
unfolding patch_category update_category stamped get_category
patch_category-AreValid stamp tenant id body db valid =
    let after = (run (patch_category stamp tenant id body) db).1 in
    elim (Result-cases (parse_update body)) [
      | inr (e, refused) ↦ let same : after ≡ db = ground arith in subst AreValid (sym same) valid
      | inl (data', parsed) ↦ elim (Option-cases (get_category tenant id db)) [
        | inl absent ↦ let same : after ≡ db = ground arith in subst AreValid (sym same) valid
        | inr (category, found) ↦ elim (Option-cases (set_fields data' category)) [
          | inl nulls ↦ let same : after ≡ db = ground arith in subst AreValid (sym same) valid
          | inr (changed, fields) ↦
              let (form_ok, flow_ok) = parse_update_lem body data' parsed in
              let old : IsValid category = All-first IsValid _ db.categories category valid found in
              let new : IsValid changed =
                set_fields-IsValid data' category changed form_ok flow_ok old fields in
              let written = stamped stamp category changed in
              let same : after.categories ≡ (put_category written db).categories = ground arith in
              subst (All IsValid) (sym same) (
                put_category-AreValid written db
                  (record { form_valid = new.form_valid; workflow_valid = new.workflow_valid })
                  valid)
        ]
      ]
    ]

deactivate_category-AreValid :
    (now tenant id : ℕ) (db : Db)
    → AreValid db
    → AreValid (run (deactivate_category now tenant id) db).1
unfolding deactivate_category retire get_category retired
deactivate_category-AreValid now tenant id db valid =
    let after = (run (deactivate_category now tenant id) db).1 in
    elim (Option-cases (get_category tenant id db)) [
      | inl absent ↦ let same : after ≡ db = ground arith in subst AreValid (sym same) valid
      | inr (category, found) ↦ elim (Bool-cases category.is_active) [
        | inr idle ↦ let same : after ≡ db = ground arith in subst AreValid (sym same) valid
        | inl live ↦
            let old : IsValid category = All-first IsValid _ db.categories category valid found in
            let same : after.categories ≡ (put_category (retired now category) db).categories =
              ground arith in
            subst (All IsValid) (sym same) (
              put_category-AreValid (retired now category) db
                (record { form_valid = old.form_valid; workflow_valid = old.workflow_valid }) valid)
      ]
    ]

-- Every route that writes categories, with what the caller and the session give it.
pub data CategoryCall : Type 0 where
  post : (id now tenant : ℕ) → ResourceCategoryCreate → CategoryCall
  patch :
      (stamp : ResourceCategory → ResourceCategory → ℕ) (tenant id : ℕ)
      → ResourceCategoryUpdate
      → CategoryCall
  delete : (now tenant id : ℕ) → CategoryCall

unfoldable pub after_call : CategoryCall → Db → Db
after_call (post id now tenant body) db = (run (post_category id now tenant body) db).1
after_call (patch stamp tenant id body) db = (run (patch_category stamp tenant id body) db).1
after_call (delete now tenant id) db = (run (deactivate_category now tenant id) db).1

-- Whatever body a client posts or patches, and whichever category it deletes, every category's
-- form_schema and workflow stay ones that validate_definition accepted, or null.
pub after_call-AreValid :
    (call : CategoryCall) (db : Db) → AreValid db → AreValid (after_call call db)
unfolding after_call
after_call-AreValid (post id now tenant body) db valid =
    post_category-AreValid id now tenant body db valid
after_call-AreValid (patch stamp tenant id body) db valid =
    patch_category-AreValid stamp tenant id body db valid
after_call-AreValid (delete now tenant id) db valid =
    deactivate_category-AreValid now tenant id db valid
