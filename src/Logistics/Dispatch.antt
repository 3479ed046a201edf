-- ===== src/Logistics/Dispatch.antt =====
-- services/logistics/app/services/dispatch.py: assigning a volunteer to an approved request, and
-- the status of the task.
pub mod Assign
pub mod Bypass
use rcp_api.Base.{
  ℕ, String, Bool, true, false, not, Option, none, some, List, [], ◌∷◌, ◌++◌, ◌&&◌, ◌||◌, ◌==◌,
  opt_eq, str_eq, if◌then◌else◌, exists, first, update,
}
use rcp_api.Base.Result.{Result, ok, err}
use rcp_api.Base.Tx.{Tx, ◌>>=◌, ◌>>◌, pure, raise_if, or_raise, gets, modify, commit}
use rcp_api.Logistics.Status.{RequestStatus, approved, in_progress, eq_status}
use rcp_api.Logistics.Db.{
  ResourceCategory, HelpRequest, TaskStatus, assigned, accepted, completed, DispatchTask,
  UserReplica, task_data, task_status_data, Db, emit, Principal,
}

-- The `ValueError`s of this module.
pub data DispatchError : Type 0 where
  request_not_found not_approved volunteer_deactivated not_a_volunteer task_not_found :
      DispatchError

pub record DispatchTaskCreate : Type 0 where
  pub request_id : ℕ
  pub volunteer_user_id : ℕ
  pub title : String
  pub instructions : Option String

unfoldable pub replica_of : ℕ → Db → Option UserReplica
replica_of user db = first (λ (row : UserReplica). row.user_id == user) db.replicas

abbrev pub name_of : Option UserReplica → Option String
name_of none = none
name_of (some replica) = some replica.full_name

unfoldable pub category_name : HelpRequest → Db → Option String
category_name request db =
    elim (first (λ (row : ResourceCategory). row.id == request.category_id) db.categories) [
      | none ↦ none
      | some category ↦ some category.name
    ]

-- A known volunteer must be active and a volunteer; one that has no replica yet is accepted.
unfoldable pub check_volunteer : Option UserReplica → Tx Db DispatchError Unit
check_volunteer none = pure tt
check_volunteer (some replica) = do
  raise_if (not replica.is_active) volunteer_deactivated
  raise_if (not (exists (str_eq "volunteer") replica.roles)) not_a_volunteer

-- `request.tenant_id != principal.tenant_id` after `db.get`
unfoldable pub visible_request : Option ℕ → Option HelpRequest → Option HelpRequest
visible_request tenant none = none
visible_request tenant (some request) =
    if opt_eq (some request.tenant_id) tenant then some request else none

unfoldable pub can_dispatch : RequestStatus → Bool
can_dispatch s = eq_status s approved || eq_status s in_progress

unfoldable pub new_task : ℕ → Principal → ℕ → DispatchTaskCreate → DispatchTask
new_task id by tenant form = record {
  id = id;
  tenant_id = tenant;
  request_id = form.request_id;
  volunteer_user_id = form.volunteer_user_id;
  assigned_by_user_id = some by.user_id;
  title = form.title;
  instructions = form.instructions;
  status = assigned;
  accepted_at = none;
  completed_at = none;
}

-- `assign_task`, with the id of the new row. A request that is visible has the principal's tenant.
unfoldable pub assign_task :
    ℕ → ℕ → Principal → DispatchTaskCreate → Tx Db DispatchError DispatchTask
assign_task id now by form = do
  row ← gets (λ db. first (λ (r : HelpRequest). r.id == form.request_id) db.requests)
  request ← or_raise (visible_request by.tenant_id row) request_not_found
  raise_if (not (can_dispatch request.status)) not_approved
  replica ← gets (replica_of form.volunteer_user_id)
  check_volunteer replica
  let task = new_task id by request.tenant_id form
  modify (λ db. record db {
    requests =
        update (λ row. row.id == request.id) (λ row. record row { status = in_progress })
          db.requests;
    tasks = db.tasks ++ task ∷ [];
  })
  assigner ← gets (replica_of by.user_id)
  category ← gets (category_name request)
  emit "logistics.task.assigned" by.tenant_id
      (task_data task request category (name_of replica) (name_of assigner) now)
  commit
  pure task

pub set_task_status : ℕ → TaskStatus → DispatchTask → DispatchTask
set_task_status now accepted task = record task { status = accepted; accepted_at = some now }
set_task_status now completed task = record task { status = completed; completed_at = some now }
set_task_status now new task = record task { status = new }

pub visible_task : ℕ → Option DispatchTask → Option DispatchTask
visible_task tenant none = none
visible_task tenant (some task) = if task.tenant_id == tenant then some task else none

unfoldable pub update_task_status : ℕ → ℕ → ℕ → TaskStatus → Tx Db DispatchError DispatchTask
unfolding visible_task
update_task_status now tenant id new = do
  row ← gets (λ db. first (λ (t : DispatchTask). t.id == id) db.tasks)
  task ← or_raise (visible_task tenant row) task_not_found
  modify (λ db. record db {
    tasks = update (λ row. row.id == task.id) (set_task_status now new) db.tasks;
  })
  emit "logistics.task.status-changed" (some tenant)
      (task_status_data task.id task.request_id task.volunteer_user_id task.status new)
  commit
  pure (set_task_status now new task)
