-- ===== src/Logistics/Tests.antt =====
-- Runs of services/logistics at concrete rows.
use rcp_api.Base.{◌≡◌, inl, ◌↔◌, refl, true, false, none, some, List, [], ◌∷◌, arith}
use rcp_api.Base.Int.{pos, negsuc, ◌<ℤ◌}
use rcp_api.Base.Json.{Value, null, str, arr, obj, no_items, item, Fields, no_fields, field}
use rcp_api.Base.Result.{ok, err}
use rcp_api.Base.Tx.{run}
use rcp_api.Logistics.Status.{
  RequestStatus, pending, approved, in_progress, fulfilled, cancelled, contains, parse_status,
}
use rcp_api.Logistics.Workflow.{default_transitions, reachable_from}
use rcp_api.Logistics.Workflow.Reach.{Reachable}
use rcp_api.Logistics.Workflow.Explore.{reachable_from-Reachable}
use rcp_api.Logistics.Workflow.Definition.{
  Definition, encode, validate_object, validate_definition, allowed_next, initial_status,
}
use rcp_api.Logistics.Workflow.Definition.Checked.{IsWellFormed, validate_object-IsWellFormed}
use rcp_api.Logistics.Workflow.Definition.Stored.{allowed_next-encode}
use rcp_api.Logistics.Db.{
  ResourceCategory, InventoryItem, quantity_available, available, expired, HelpRequest, medium, Db,
  Principal,
}
use rcp_api.Logistics.Inventory.{take_stock, give_back, reserve_stock, release_stock}
use rcp_api.Logistics.Inventory.Stock.{IsStock, reserve_stock-IsStock}
use rcp_api.Logistics.Inventory.Release.{release_stock-IsStock, give_back-take_stock}
use rcp_api.Logistics.Inventory.Faults.{reserve_stock_negative, expired_becomes_available}
use rcp_api.Logistics.Requests.{cannot_move, get_request, workflow_of, update_status}
use rcp_api.Logistics.Requests.Moves.{terminal_stays}
use rcp_api.Logistics.Dispatch.{
  DispatchTaskCreate, not_approved, new_task, assign_task, visible_request, can_dispatch,
  replica_of,
}
use rcp_api.Logistics.Dispatch.Assign.{
  announcement, IsReason, assign_task_succeeds, assign_task_refuses,
}
use rcp_api.Logistics.Dispatch.Bypass.{assign_task_strands}
use rcp_api.Logistics.Replicas.{Inbox, is_user_update}
use rcp_api.Logistics.Replicas.Follows.{delivered, assign_task_follows}
use rcp_api.Iam.Db.{User, volunteer}

-- {"transitions": {"pending": ["approved"], "approved": ["fulfilled", "cancelled"]}}
abbrev hand_out : Value
hand_out = obj (
    field "transitions"
      (obj (
        field "pending" (arr (item (str "approved") no_items)) (
          field "approved" (arr (item (str "fulfilled") (item (str "cancelled") no_items)))
            no_fields)))
      no_fields)

abbrev hand_out_definition : Definition
hand_out_definition = record {
  initial = pending;
  transitions = (pending, approved ∷ []) ∷ (approved, fulfilled ∷ cancelled ∷ []) ∷ [];
}

abbrev food : ResourceCategory
food = record {
  id = 1;
  tenant_id = 7;
  name = "food";
  description = none;
  unit = "pack";
  form_schema = null;
  workflow = encode hand_out_definition;
  is_active = true;
  updated_at = 0;
}

abbrev rice : InventoryItem
rice = record {
  id = 3;
  tenant_id = 7;
  category_id = 1;
  name = "rice";
  quantity_total = pos 10;
  quantity_reserved = pos 0;
  status = available;
  expiry_date = none;
  storage_location = none;
  donor_name = none;
  created_at = 0;
  updated_at = 0;
}

abbrev asked : RequestStatus → HelpRequest
asked s = record {
  id = 5;
  tenant_id = 7;
  requester_user_id = some 20;
  verified_by_user_id = none;
  requester_name = none;
  requester_phone = none;
  category_id = 1;
  description = "rice for three";
  quantity_needed = pos 3;
  urgency = medium;
  status = s;
  extra_fields = null;
  area = none;
  latitude = none;
  longitude = none;
  is_sensitive = false;
  verified_at = none;
  fulfilled_at = none;
  created_at = 0;
}

abbrev shop : RequestStatus → Db
shop s = record {
  categories = food ∷ [];
  items = rice ∷ [];
  requests = asked s ∷ [];
  tasks = [];
  replicas = [];
  outbox = [];
}

abbrev coordinator : Principal
coordinator = record { user_id = 9; tenant_id = some 7; roles = "coordinator" ∷ [] }

abbrev form : DispatchTaskCreate
form = record { request_id = 5; volunteer_user_id = 30; title = "deliver"; instructions = none }

hand_out_accepted : validate_definition hand_out ≡ ok (encode hand_out_definition)
unfolding validate_definition parse_status reachable_from
hand_out_accepted = refl

rice-IsStock : IsStock (rice ∷ [])
rice-IsStock = ground arith

abbrev hand_out_fields : Fields
hand_out_fields =
    field "transitions"
      (obj (
        field "pending" (arr (item (str "approved") no_items)) (
          field "approved" (arr (item (str "fulfilled") (item (str "cancelled") no_items)))
            no_fields)))
      no_fields

reachable_from-Reachable_example :
    (seen : List RequestStatus) × (reachable_from pending default_transitions ≡ some seen)
    × ((s : RequestStatus) → Reachable pending default_transitions s ↔ (contains seen s ≡ true))
reachable_from-Reachable_example = reachable_from-Reachable pending default_transitions

validate_object-IsWellFormed_example : IsWellFormed hand_out_definition
unfolding validate_object parse_status reachable_from
validate_object-IsWellFormed_example =
    validate_object-IsWellFormed hand_out_fields hand_out_definition refl

allowed_next-encode_example :
    (allowed_next (encode hand_out_definition) approved ≡ some (fulfilled ∷ cancelled ∷ []))
    × (initial_status (encode hand_out_definition) ≡ some pending)
allowed_next-encode_example = allowed_next-encode hand_out_definition approved

terminal_stays_example :
    run (update_status 40 5 pending coordinator) (shop fulfilled)
    ≡ (err (cannot_move fulfilled pending []), shop fulfilled)
unfolding get_request workflow_of
terminal_stays_example =
    terminal_stays 40 5 pending coordinator (shop fulfilled) (asked fulfilled) hand_out refl
      hand_out_accepted refl

assign_task_succeeds_example : run (assign_task 8 40 coordinator form) (shop approved) ≡ (
  ok (new_task 8 coordinator 7 form),
  record (shop approved) {
    requests = asked in_progress ∷ [];
    tasks = new_task 8 coordinator 7 form ∷ [];
    outbox =
        announcement 8 40 coordinator form
          (shop approved)
          (asked approved)
          (new_task 8 coordinator 7 form)
        ∷ [];
  },
)
unfolding replica_of new_task
assign_task_succeeds_example =
    assign_task_succeeds 8 40 coordinator form (shop approved) (asked approved) refl refl (inl refl)
      tt

assign_task_refuses_example :
    IsReason 8 40 coordinator form (shop pending) not_approved
    × ((run (assign_task 8 40 coordinator form) (shop pending)).1 ≡ shop pending)
unfolding assign_task visible_request can_dispatch
assign_task_refuses_example =
    assign_task_refuses 8 40 coordinator form (shop pending) not_approved refl

assign_task_strands_example :
    let db' = (run (assign_task 8 40 coordinator form) (shop approved)).1 in
    run (update_status 50 5 fulfilled coordinator) db'
    ≡ (err (cannot_move in_progress fulfilled []), db')
unfolding visible_request can_dispatch replica_of workflow_of
assign_task_strands_example =
    assign_task_strands 8 40 coordinator form (shop approved) (asked approved) hand_out_definition
      50 fulfilled refl refl tt refl refl

reserve_stock-IsStock_example :
    IsStock (run (reserve_stock 40 coordinator 3 (pos 4)) (shop pending)).1.items
reserve_stock-IsStock_example =
    reserve_stock-IsStock 40 coordinator 3 (pos 4) (shop pending) (omega arith) rice-IsStock

release_stock-IsStock_example : IsStock (run (release_stock 40 7 3 (pos 4)) (shop pending)).1.items
release_stock-IsStock_example =
    release_stock-IsStock 40 7 3 (pos 4) (shop pending) (omega arith) rice-IsStock

give_back-take_stock_example : give_back (pos 4) (take_stock (pos 4) rice) ≡ rice
give_back-take_stock_example = give_back-take_stock (pos 4) rice (omega arith) (ground arith) refl

reserve_stock_negative_example :
    (result : InventoryItem) × ((run (reserve_stock 40 coordinator 3 (negsuc 1)) (shop pending)).0
      ≡ ok result)
    × (pos 10 <ℤ quantity_available result)
reserve_stock_negative_example =
    reserve_stock_negative 40 coordinator 3 1 (shop pending) rice refl (ground arith) refl

abbrev stale_rice : InventoryItem
stale_rice = record rice { status = expired }

expired_becomes_available_example :
    (give_back (pos 10) (take_stock (pos 10) stale_rice)).status ≡ available
unfolding quantity_available
expired_becomes_available_example =
    expired_becomes_available (pos 10) stale_rice (ground arith) refl refl (omega arith)

-- A volunteer who has registered in IAM, and the logistics service that has not heard of it.
abbrev helper : User
helper = record {
  id = 30;
  tenant_id = none;
  user_type = volunteer;
  email = "nimal@mail.lk";
  password_hash = "hash";
  full_name = "Nimal";
  phone = none;
  status = "active";
  granted = [];
  latitude = none;
  longitude = none;
  assigned_tenant_id = none;
  updated_at = 20;
}

abbrev inbox : Inbox
inbox = record { db = shop approved; processed = 70 ∷ [] }

assign_task_follows_example :
    (run (assign_task 8 40 coordinator form) (delivered 71 "iam.user.registered" helper inbox)).0
    ≡ ok (new_task 8 coordinator 7 form)
unfolding visible_request can_dispatch is_user_update
assign_task_follows_example =
    assign_task_follows 71 "iam.user.registered" helper inbox refl refl refl 8 40 coordinator form
      (asked approved) refl refl refl
