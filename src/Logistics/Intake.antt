-- ===== src/Logistics/Intake.antt =====
-- services/logistics/app/services/requests.py: `create_request`, with the body of
-- app/schemas/request_schema.py.
pub mod Admitted
use rcp_api.Base.{
  ℕ, String, Bool, true, false, not, Option, none, some, List, [], ◌∷◌, ◌++◌, ◌&&◌, leb,
}
use rcp_api.Base.Text.{char_count}
use rcp_api.Base.Int.{ℤ, pos, leb_ℤ}
use rcp_api.Base.Json.{Value, null}
use rcp_api.Base.Result.{Result, ok, err}
use rcp_api.Base.Tx.{Tx, ◌>>=◌, ◌>>◌, pure, raise, raise_if, or_raise, gets, modify, commit}
use rcp_api.Logistics.Status.{RequestStatus}
use rcp_api.Logistics.Workflow.Definition.{initial_status}
use rcp_api.Logistics.FormSchema.{Spec}
use rcp_api.Logistics.FormSchema.Stored.{read_form}
use rcp_api.Logistics.FormSchema.Payload.{Calendar, FormValidationError, overflow, validate_payload}
use rcp_api.Logistics.Db.{
  ResourceCategory, UrgencyLevel, HelpRequest, submitted_data, Event, Db, emit, Principal,
}
use rcp_api.Logistics.Categories.{get_category}

-- `HelpRequestCreate`
pub record HelpRequestCreate : Type 0 where
  pub category_id : ℕ
  pub description : String
  pub quantity_needed : ℤ
  pub urgency : UrgencyLevel
  pub requester_name : Option String
  pub requester_phone : Option String
  pub area : Option String
  pub latitude : Option Value
  pub longitude : Option Value
  pub is_sensitive : Bool
  pub extra_fields : Value

-- `bad_quantity` is a body that pydantic refuses; `bad_stored` stands for the exceptions that
-- reading ill-formed stored definitions raises, `overflow_error` for the `OverflowError` of
-- `validate_payload`, and `data_error` for the database's refusal of the row at the flush.
pub data IntakeError : Type 0 where
  bad_quantity not_found closed bad_stored overflow_error data_error : IntakeError
  bad_fields : FormValidationError → IntakeError

-- `HelpRequest(…)`, with the id and the time that the new row gets
unfoldable pub new_request :
    (id now tenant : ℕ) → Principal → HelpRequestCreate → RequestStatus → Value → HelpRequest
new_request id now tenant by body status extra = record {
  id = id;
  tenant_id = tenant;
  requester_user_id = some by.user_id;
  verified_by_user_id = none;
  requester_name = body.requester_name;
  requester_phone = body.requester_phone;
  category_id = body.category_id;
  description = body.description;
  quantity_needed = body.quantity_needed;
  urgency = body.urgency;
  status = status;
  extra_fields = extra;
  area = body.area;
  latitude = body.latitude;
  longitude = body.longitude;
  is_sensitive = body.is_sensitive;
  verified_at = none;
  fulfilled_at = none;
  created_at = now;
}

-- `logistics.request.submitted`
abbrev pub submitted : HelpRequest → Event
submitted request = record {
  routing_key = "logistics.request.submitted";
  tenant_id = some request.tenant_id;
  payload =
      submitted_data request.id request.category_id request.urgency request.quantity_needed
        request.area request.status request.created_at;
}

abbrev checked_fields : {A : Type 0} → Result FormValidationError A → Tx Db IntakeError A
checked_fields (ok a) = pure a
checked_fields (err overflow) = raise overflow_error
checked_fields (err e) = raise (bad_fields e)

-- A text that a column `String(n)` holds
abbrev is_within : ℕ → Option String → Bool
is_within most none = true
is_within most (some s) = leb (char_count s) most

-- The columns of `help_requests`: `String(200)`, `String(30)`, `String(200)` and `Integer`.
unfoldable pub fits_columns : HelpRequest → Bool
fits_columns row =
    is_within 200 row.requester_name
    && is_within 30 row.requester_phone
    && is_within 200 row.area
    && leb_ℤ row.quantity_needed (pos 2147483647)

-- `storable` is whether PostgreSQL takes the texts and the JSON of the row: it has no NUL character
-- and no JSON for a NaN or an infinity.
module _ (calendar : Calendar) (storable : HelpRequest → Bool) where
  -- `create_request`, for a principal of a tenant
  unfoldable pub create_for :
      (id now tenant : ℕ) → Principal → HelpRequestCreate → Tx Db IntakeError HelpRequest
  create_for id now tenant by body = do
    found ← gets (get_category tenant body.category_id)
    category ← or_raise found not_found
    raise_if (not category.is_active) closed
    specs ← or_raise (read_form category.form_schema) bad_stored
    extra ← checked_fields (validate_payload calendar specs body.extra_fields)
    status ← or_raise (initial_status category.workflow) bad_stored
    let request = new_request id now tenant by body status extra
    raise_if (not (fits_columns request && storable request)) data_error
    modify (λ db. record db {
      requests = db.requests ++ request ∷ [];
      outbox = db.outbox ++ submitted request ∷ [];
    })
    commit
    pure request

  -- `create_request`: the query for a category of no tenant finds none.
  unfoldable pub create_request :
      (id now : ℕ) → Principal → HelpRequestCreate → Tx Db IntakeError HelpRequest
  create_request id now by body = elim by.tenant_id [
    | none ↦ raise not_found
    | some tenant ↦ create_for id now tenant by body
  ]

  -- The route `POST /api/requests`, where pydantic checks the body first.
  unfoldable pub submit_request :
      (id now : ℕ) → Principal → HelpRequestCreate → Tx Db IntakeError HelpRequest
  submit_request id now by body = do
    raise_if (not (leb_ℤ (pos 1) body.quantity_needed)) bad_quantity
    create_request id now by body
