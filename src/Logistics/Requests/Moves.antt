-- ===== src/Logistics/Requests/Moves.antt =====
-- requests.py: how `change_status` and the status route move a request.
use rcp_api.Base.{ℕ, ◌≡◌, true, some, [], arith}
use rcp_api.Base.Json.{Value}
use rcp_api.Base.Result.{ok, err}
use rcp_api.Base.Tx.{run}
use rcp_api.Logistics.Status.{RequestStatus, verified, fulfilled, contains}
use rcp_api.Logistics.Workflow.{terminal_states}
use rcp_api.Logistics.Workflow.Definition.{validate_definition}
use rcp_api.Logistics.Workflow.Definition.Final.{allowed_next_final}
use rcp_api.Logistics.Db.{HelpRequest, Event, status_data, Db, Principal}
use rcp_api.Logistics.Requests.{cannot_move, get_request, workflow_of, update_status}

module _ (now : ℕ) (request : HelpRequest) (new : RequestStatus) (by : Principal) (db : Db) where
  abbrev pub announced : HelpRequest → Event
  announced old = record {
    routing_key = "logistics.request.status-changed";
    tenant_id = some old.tenant_id;
    payload =
        status_data old.id old.category_id old.quantity_needed old.status new old.requester_user_id
          by.user_id now;
  }

  -- The request after the move: the new status, and who verified it and when, or when it was
  -- fulfilled, if that is the new status.
  abbrev pub moved : HelpRequest → HelpRequest
  moved old = record old {
    status = new;
    verified_by_user_id = elim new [ verified ↦ some by.user_id | other ↦ old.verified_by_user_id ];
    verified_at = elim new [ verified ↦ some now | other ↦ old.verified_at ];
    fulfilled_at = elim new [ fulfilled ↦ some now | other ↦ old.fulfilled_at ];
  }

-- Under the platform's default workflow or one that validate_definition returned, the status
-- route moves no request out of a terminal state: it raises, and nothing changes.
pub terminal_stays :
    (now id : ℕ) (new : RequestStatus) (by : Principal) (db : Db) (request : HelpRequest)
    (raw : Value)
    → get_request by.tenant_id id db ≡ some request
    → validate_definition raw ≡ ok (workflow_of request db)
    → contains terminal_states request.status ≡ true
    → run (update_status now id new by) db ≡ (err (cannot_move request.status new []), db)
unfolding update_status
terminal_stays now id new by db request raw found valid final =
    let e = allowed_next_final raw (workflow_of request db) request.status valid final in
    ground arith
