-- ===== src/Logistics/Db.antt =====
-- services/logistics/app/models: the rows of schema_logistics that the services read and write,
-- and the events that they put into the outbox. Ids and times are numbers.
use rcp_api.Base.{ℕ, String, Bool, Option, List, [], ◌∷◌, ◌++◌}
use rcp_api.Base.Int.{ℤ, ◌-ℤ◌}
use rcp_api.Base.Json.{Value}
use rcp_api.Base.Tx.{Tx, modify}
use rcp_api.Logistics.Status.{RequestStatus}

pub data InventoryStatus : Type 0 where
  available reserved depleted expired : InventoryStatus

pub data UrgencyLevel : Type 0 where
  low medium high critical : UrgencyLevel

pub data TaskStatus : Type 0 where
  assigned accepted in_progress completed declined cancelled : TaskStatus

pub record ResourceCategory : Type 0 where
  pub id : ℕ
  pub tenant_id : ℕ
  pub name : String
  pub description : Option String
  pub unit : String
  pub form_schema : Value
  pub workflow : Value
  pub is_active : Bool
  pub updated_at : ℕ

pub record InventoryItem : Type 0 where
  pub id : ℕ
  pub tenant_id : ℕ
  pub category_id : ℕ
  pub name : String
  pub quantity_total : ℤ
  pub quantity_reserved : ℤ
  pub status : InventoryStatus
  pub expiry_date : Option ℕ
  pub storage_location : Option String
  pub donor_name : Option String
  pub created_at : ℕ
  pub updated_at : ℕ

-- the property `quantity_available`
unfoldable pub quantity_available : InventoryItem → ℤ
unfolding ◌-ℤ◌
quantity_available item = item.quantity_total -ℤ item.quantity_reserved

pub record HelpRequest : Type 0 where
  pub id : ℕ
  pub tenant_id : ℕ
  pub requester_user_id : Option ℕ
  pub verified_by_user_id : Option ℕ
  pub requester_name : Option String
  pub requester_phone : Option String
  pub category_id : ℕ
  pub description : String
  pub quantity_needed : ℤ
  pub urgency : UrgencyLevel
  pub status : RequestStatus
  pub extra_fields : Value
  pub area : Option String
  pub latitude : Option Value
  pub longitude : Option Value
  pub is_sensitive : Bool
  pub verified_at : Option ℕ
  pub fulfilled_at : Option ℕ
  pub created_at : ℕ

pub record DispatchTask : Type 0 where
  pub id : ℕ
  pub tenant_id : ℕ
  pub request_id : ℕ
  pub volunteer_user_id : ℕ
  pub assigned_by_user_id : Option ℕ
  pub title : String
  pub instructions : Option String
  pub status : TaskStatus
  pub accepted_at : Option ℕ
  pub completed_at : Option ℕ

pub record UserReplica : Type 0 where
  pub user_id : ℕ
  pub tenant_id : Option ℕ
  pub full_name : String
  pub phone : Option String
  pub roles : List String
  pub is_active : Bool
  pub source_updated_at : ℕ

-- The `data` of an event.
pub data Payload : Type 0 where
  category_data : ResourceCategory → Payload
  item_data :
      (item_id category_id : ℕ) (name : String) (total reserved available : ℤ)
      → InventoryStatus
      → (updated_at : ℕ) → Payload
  low_stock_data : (item_id category_id : ℕ) (name : String) (available : ℤ) → Payload
  submitted_data :
      (request_id category_id : ℕ)
      → UrgencyLevel
      → (quantity_needed : ℤ) (area : Option String) → RequestStatus
      → (updated_at : ℕ) → Payload
  status_data :
      (request_id category_id : ℕ) (quantity_needed : ℤ) (old new : RequestStatus)
      → (requester_user_id : Option ℕ) (changed_by_user_id updated_at : ℕ) → Payload
  task_data :
      DispatchTask
      → HelpRequest
      → (category_name volunteer_name assigner_name : Option String) (assigned_at : ℕ) → Payload
  task_status_data : (task_id request_id volunteer_user_id : ℕ) (old new : TaskStatus) → Payload

-- What a service passes to `emit`.
pub record Event : Type 0 where
  pub routing_key : String
  pub tenant_id : Option ℕ
  pub payload : Payload

pub record Db : Type 0 where
  pub categories : List ResourceCategory
  pub items : List InventoryItem
  pub requests : List HelpRequest
  pub tasks : List DispatchTask
  pub replicas : List UserReplica
  pub outbox : List Event

-- app/events/publisher.py: a row of the outbox, in the transaction of the change.
abbrev pub emit : {E : Type 0} → String → Option ℕ → Payload → Tx Db E (Unit {0})
emit key tenant payload = modify λ db. record db {
  outbox = db.outbox ++ record { routing_key = key; tenant_id = tenant; payload = payload } ∷ [];
}

-- packages/common/rcp_common/auth.py: who makes the request.
pub record Principal : Type 0 where
  pub user_id : ℕ
  pub tenant_id : Option ℕ
  pub roles : List String
