-- ===== src/Logistics/Intake/Admitted.antt =====
-- requests.py: what `create_request` does where the categories' definitions are valid.
use rcp_api.Base.{ℕ, ◌≡◌, ◌⊎◌, Bool, true, false, some, List, [], ◌∷◌, ◌++◌, ◌&&◌}
use rcp_api.Base.Json.{Fields}
use rcp_api.Base.Result.{Result, ok, err}
use rcp_api.Base.Tx.{run}
use rcp_api.Logistics.Workflow.Definition.Start.{IsStart}
use rcp_api.Logistics.FormSchema.{Spec}
use rcp_api.Logistics.FormSchema.Stored.{read_form}
use rcp_api.Logistics.FormSchema.Payload.{Calendar, overflows, payload_object}
use rcp_api.Logistics.FormSchema.Answers.{IsAccepted}
use rcp_api.Logistics.Db.{ResourceCategory, HelpRequest, Db, Principal}
use rcp_api.Logistics.Categories.{get_category}
use rcp_api.Logistics.Intake.{
  HelpRequestCreate, IntakeError, bad_stored, overflow_error, data_error, fits_columns, new_request,
  submitted, create_for,
}

-- The errors that the route, or pydantic before it, turns into a 404, 409 or 422.
abbrev pub is_documented : IntakeError → Bool
is_documented bad_stored = false
is_documented overflow_error = false
is_documented data_error = false
is_documented _ = true

module _ (calendar : Calendar) (storable : HelpRequest → Bool) (id now : ℕ) (by : Principal)
    (body : HelpRequestCreate) (db : Db) where
  -- The body is for an open category of the caller's tenant, which has a form.
  pub record IsAddressed : Type 0 where
    pub tenant : ℕ
    pub category : ResourceCategory
    pub specs : List Spec
    pub of_tenant : by.tenant_id ≡ some tenant
    pub in_category : get_category tenant body.category_id db ≡ some category
    pub is_open : category.is_active ≡ true
    pub has_form : read_form category.form_schema ≡ some specs

  -- The request that is to be stored: with answers to the form, in a state that the workflow
  -- starts in.
  pub record IsAdmitted (request : HelpRequest) : Type 0 where
    pub addressed : IsAddressed
    pub answers : IsAccepted calendar addressed.specs body.extra_fields request.extra_fields
    pub starts : IsStart addressed.category.workflow request.status
    pub row :
        request ≡ new_request id now addressed.tenant by body request.status request.extra_fields

  -- An answer to a field of integers is infinite.
  pub record IsOverflowing : Type 0 where
    pub addressed : IsAddressed
    pub payload : Fields
    pub is_object : payload_object body.extra_fields ≡ some payload
    pub infinite_answer : overflows addressed.specs payload ≡ true

  -- The row and the event that an admitted request adds.
  abbrev pub with_request : HelpRequest → Db
  with_request request = record db {
    requests = db.requests ++ request ∷ [];
    outbox = db.outbox ++ submitted request ∷ [];
  }

  abbrev pub can_store : HelpRequest → Bool
  can_store request = fits_columns request && storable request

  abbrev pub Outcome : Type 0
  Outcome = Result IntakeError HelpRequest × Db

  abbrev IsStored : Outcome → Type 0
  IsStored out =
      (r : HelpRequest) × IsAdmitted r × (can_store r ≡ true) × (out ≡ (ok r, with_request r))

  abbrev IsRefused : Outcome → Type 0
  IsRefused out = (e : IntakeError) × (is_documented e ≡ true) × (out ≡ (err e, db))

  -- The two ways to a 500.
  abbrev IsFailed : Outcome → Type 0
  IsFailed out =
      (IsOverflowing × (out ≡ (err overflow_error, db)))
      ⊎ ((r : HelpRequest) × IsAdmitted r × (can_store r ≡ false) × (out ≡ (err data_error, db)))

  abbrev pub IsOutcome : Outcome → Type 0
  IsOutcome out = IsStored out ⊎ (IsRefused out ⊎ IsFailed out)

  module _ (addressed : IsAddressed) where
    abbrev called : Outcome
    called = run (create_for calendar storable id now addressed.tenant by body) db
