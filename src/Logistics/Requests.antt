-- ===== src/Logistics/Requests.antt =====
-- services/logistics/app/services/requests.py: `get_request` and `change_status`, with the route
-- that joins them.
pub mod Moves
use rcp_api.Base.{
  ℕ, Bool, true, false, not, Option, none, some, List, ◌&&◌, ◌==◌, opt_eq, if◌then◌else◌, first,
  update, ◌++◌, [], ◌∷◌,
}
use rcp_api.Base.Json.{Value, null}
use rcp_api.Base.Result.{Result, ok, err}
use rcp_api.Base.Tx.{Tx, ◌>>=◌, ◌>>◌, pure, raise_if, or_raise, gets, modify, commit}
use rcp_api.Logistics.Status.{RequestStatus, verified, fulfilled, contains, eq_status}
use rcp_api.Logistics.Workflow.Definition.{allowed_next}
use rcp_api.Logistics.Db.{ResourceCategory, HelpRequest, status_data, Db, emit, Principal}

-- `bad_workflow` stands for the exceptions that reading an ill-formed stored workflow raises.
pub data RequestError : Type 0 where
  not_found bad_workflow : RequestError
  cannot_move : RequestStatus → RequestStatus → List RequestStatus → RequestError

unfoldable pub get_request : Option ℕ → ℕ → Db → Option HelpRequest
get_request tenant id db =
    first (λ (row : HelpRequest). (row.id == id) && opt_eq (some row.tenant_id) tenant) db.requests

-- `category.workflow if category else None`, where `request.category` is the related row
unfoldable pub workflow_of : HelpRequest → Db → Value
workflow_of request db =
    elim (first (λ (row : ResourceCategory). row.id == request.category_id) db.categories) [
      | none ↦ null
      | some category ↦ category.workflow
    ]

-- The assignments to the request's attributes.
unfoldable pub set_status : ℕ → RequestStatus → ℕ → HelpRequest → HelpRequest
set_status now new by request =
    if eq_status new verified
    then record request { status = new; verified_by_user_id = some by; verified_at = some now }
    else if eq_status new fulfilled
    then record request { status = new; fulfilled_at = some now }
    else record request { status = new }

-- `change_status`, on the request object that the session has read
unfoldable pub change_status :
    ℕ → HelpRequest → RequestStatus → Principal → Tx Db RequestError HelpRequest
change_status now request new by = do
  workflow ← gets (workflow_of request)
  allowed ← or_raise (allowed_next workflow request.status) bad_workflow
  raise_if (not (contains allowed new)) (cannot_move request.status new allowed)
  modify (λ db. record db {
    requests = update (λ row. row.id == request.id) (set_status now new by.user_id) db.requests;
  })
  emit "logistics.request.status-changed" (some request.tenant_id) (
      status_data request.id request.category_id request.quantity_needed request.status new
        request.requester_user_id by.user_id now)
  commit
  pure (set_status now new by.user_id request)

-- The route `PATCH /api/requests/{id}/status`.
unfoldable pub update_status : ℕ → ℕ → RequestStatus → Principal → Tx Db RequestError HelpRequest
unfolding change_status
update_status now id new by = do
  found ← gets (get_request by.tenant_id id)
  request ← or_raise found not_found
  change_status now request new by
