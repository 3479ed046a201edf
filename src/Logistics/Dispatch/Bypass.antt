-- ===== src/Logistics/Dispatch/Bypass.antt =====
-- dispatch.py: `assign_task` and the workflow of the request's category.
use rcp_api.Base.{
  ◌&&◌, ap, ◌∙◌, ℕ, ◌≡◌, true, Option, some, List, [], ◌∷◌, arith, first, update, ◌==◌, opt_eq,
}
use rcp_api.Base.Result.{err}
use rcp_api.Base.Tx.{run}
use rcp_api.Logistics.Status.{RequestStatus, in_progress}
use rcp_api.Logistics.Workflow.{targets}
use rcp_api.Logistics.Workflow.Definition.{Definition, encode}
use rcp_api.Logistics.Workflow.Definition.Stored.{allowed_next-encode}
use rcp_api.Logistics.Db.{HelpRequest, Db, Principal}
use rcp_api.Logistics.Requests.{cannot_move, get_request, workflow_of, update_status}
use rcp_api.Logistics.Dispatch.{
  DispatchTaskCreate, replica_of, visible_request, can_dispatch, assign_task,
}
use rcp_api.Logistics.Dispatch.Assign.{Dispatchable, assign_task_passes}

visible_id :
    (tenant : Option ℕ) (id : ℕ) (rows : List HelpRequest) (request : HelpRequest)
    → visible_request tenant (first (λ (r : HelpRequest). r.id == id) rows) ≡ some request
    → request.id ≡ id
unfolding visible_request
visible_id tenant id [] request e = ground arith
visible_id tenant id (r ∷ rows) request e = ground (arith, visible_id tenant id rows request)

-- After the dispatch the route finds the request with its new status.
get_request_dispatched :
    (tenant : Option ℕ) (id : ℕ) (rows : List HelpRequest) (request : HelpRequest)
    → visible_request tenant (first (λ (r : HelpRequest). r.id == id) rows) ≡ some request
    → first
        (λ (r : HelpRequest). (r.id == id) && opt_eq (some r.tenant_id) tenant)
        (update (λ r. r.id == request.id) (λ r. record r { status = in_progress }) rows)
      ≡ some (record request { status = in_progress })
unfolding visible_request
get_request_dispatched tenant id [] request e = ground arith
get_request_dispatched tenant id (r ∷ rows) request e = ground (
  arith,
  visible_id tenant id (r ∷ rows) request,
  visible_id tenant id rows request,
  get_request_dispatched tenant id rows request,
)

-- A request whose stored workflow lists nothing after its status cannot be moved by the route.
stranded :
    (later id : ℕ) (new : RequestStatus) (by : Principal) (db : Db) (request : HelpRequest)
    (d : Definition)
    → get_request by.tenant_id id db ≡ some request
    → workflow_of request db ≡ encode d
    → targets d.transitions request.status ≡ []
    → run (update_status later id new by) db ≡ (err (cannot_move request.status new []), db)
unfolding update_status
stranded later id new by db request d e flow stuck =
    ground (arith, (allowed_next-encode d request.status).0)

same_workflow :
    (request : HelpRequest) (db db' : Db)
    → db'.categories ≡ db.categories
    → workflow_of (record request { status = in_progress }) db' ≡ workflow_of request db
unfolding workflow_of
same_workflow request db db' e = rw e

found_in :
    (tenant : Option ℕ) (id : ℕ) (rows : List HelpRequest) (db : Db) (o : Option HelpRequest)
    → db.requests ≡ rows
    → first (λ (r : HelpRequest). (r.id == id) && opt_eq (some r.tenant_id) tenant) rows ≡ o
    → get_request tenant id db ≡ o
unfolding get_request
found_in tenant id rows db o e h = rw e h

module _ (id now : ℕ) (by : Principal) (form : DispatchTaskCreate) (db : Db) where
  -- If the category's workflow has no way out of in_progress, a successful assign_task puts the
  -- request where the status route can never move it again, whatever the new status.
  pub assign_task_strands :
      (request : HelpRequest) (d : Definition) (later : ℕ) (new : RequestStatus)
      → visible_request by.tenant_id
          (first (λ (r : HelpRequest). r.id == form.request_id) db.requests)
        ≡ some request
      → can_dispatch request.status ≡ true
      → Dispatchable (replica_of form.volunteer_user_id db)
      → workflow_of request db ≡ encode d
      → targets d.transitions in_progress ≡ []
      → let db' = (run (assign_task id now by form) db).1 in
        run (update_status later form.request_id new by) db'
        ≡ (err (cannot_move in_progress new []), db')
  assign_task_strands request d later new e open_for fit flow stuck =
      let done = assign_task_passes id now by form db request e open_for fit in
      let db' = (run (assign_task id now by form) db).1 in
      stranded later form.request_id new by db' (record request { status = in_progress }) d
        (found_in by.tenant_id form.request_id _ db' _ (ap (λ p. p.1.requests) done)
          (get_request_dispatched by.tenant_id form.request_id db.requests request e))
        (same_workflow request db db' (ap (λ p. p.1.categories) done) ∙ flow) stuck
