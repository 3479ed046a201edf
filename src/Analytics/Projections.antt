-- ===== src/Analytics/Projections.antt =====
-- services/analytics/app/events/consumer.py with app/models/projection.py: the projections, which
-- the logistics events change. An event comes with the data that services/logistics gave it; ids are
-- UUIDs already, and times instants.
pub mod Delivery
pub mod Newest
pub mod Follows
use rcp_api.Base.{
  ℕ, String, Bool, true, false, not, Option, none, some, List, [], ◌∷◌, ◌++◌, ◌&&◌, ◌||◌, ◌==◌, ltb,
  first, exists, update, str_eq, if◌then◌else◌,
}
use rcp_api.Base.Opt.{◌>>=◌}
use rcp_api.Base.Int.{ℤ}
use rcp_api.Analytics.Upsert.{is_stale, upsert}
use rcp_api.Logistics.Status.{value}
use rcp_api.Logistics.Db.{
  InventoryStatus, available, reserved, depleted, expired, UrgencyLevel, low, medium, high,
  critical, Payload, category_data, item_data, submitted_data, status_data,
}

pub record CategoryProjection : Type 0 where
  pub category_id : ℕ
  pub tenant_id : ℕ
  pub name : String
  pub description : Option String
  pub unit : String
  pub is_active : Bool
  pub updated_at : Option ℕ

pub record InventoryProjection : Type 0 where
  pub item_id : ℕ
  pub tenant_id : ℕ
  pub category_id : ℕ
  pub name : String
  pub quantity_total : ℤ
  pub quantity_reserved : ℤ
  pub quantity_available : ℤ
  pub status : String
  pub updated_at : Option ℕ

pub record RequestProjection : Type 0 where
  pub request_id : ℕ
  pub tenant_id : ℕ
  pub category_id : ℕ
  pub quantity_needed : ℤ
  pub status : String
  pub urgency : String
  pub updated_at : Option ℕ

-- Of `processed_events` the ids.
pub record Db : Type 0 where
  pub categories : List CategoryProjection
  pub items : List InventoryProjection
  pub requests : List RequestProjection
  pub processed : List ℕ

pub record Envelope : Type 0 where
  pub event_id : ℕ
  pub event_type : String
  pub tenant_id : Option ℕ
  pub payload : Payload

abbrev pub inventory_status : InventoryStatus → String
inventory_status available = "available"
inventory_status reserved = "reserved"
inventory_status depleted = "depleted"
inventory_status expired = "expired"

abbrev pub urgency_value : UrgencyLevel → String
urgency_value low = "low"
urgency_value medium = "medium"
urgency_value high = "high"
urgency_value critical = "critical"

-- What `_upsert_category` reads of the data; `none` is a missing key.
unfoldable pub category_row : ℕ → Payload → Option CategoryProjection
category_row tenant (category_data c) = some (record {
  category_id = c.id;
  tenant_id = tenant;
  name = c.name;
  description = c.description;
  unit = c.unit;
  is_active = c.is_active;
  updated_at = some c.updated_at;
})
category_row tenant _ = none

-- `payload` of `_upsert_inventory`
unfoldable pub item_row : ℕ → Payload → Option InventoryProjection
item_row tenant (item_data item_id category_id name total taken free status updated_at) =
    some (record {
      item_id = item_id;
      tenant_id = tenant;
      category_id = category_id;
      name = name;
      quantity_total = total;
      quantity_reserved = taken;
      quantity_available = free;
      status = inventory_status status;
      updated_at = some updated_at;
    })
item_row tenant _ = none

-- `payload` of `_upsert_request`; a change of status carries `new_status`, and no urgency.
unfoldable pub request_row : ℕ → Payload → Option RequestProjection
request_row tenant (submitted_data request_id category_id urgency quantity area status updated_at) =
    some (record {
      request_id = request_id;
      tenant_id = tenant;
      category_id = category_id;
      quantity_needed = quantity;
      status = value status;
      urgency = urgency_value urgency;
      updated_at = some updated_at;
    })
request_row tenant (status_data request_id category_id quantity old new requester by updated_at) =
    some (record {
      request_id = request_id;
      tenant_id = tenant;
      category_id = category_id;
      quantity_needed = quantity;
      status = value new;
      urgency = "medium";
      updated_at = some updated_at;
    })
request_row tenant _ = none

-- The assignments of `_upsert_category`, which leave the tenant as it is
unfoldable pub overwrite_category : CategoryProjection → CategoryProjection → CategoryProjection
overwrite_category held incoming = record held {
  name = incoming.name;
  description = incoming.description;
  unit = incoming.unit;
  is_active = incoming.is_active;
  updated_at = incoming.updated_at;
}

-- `for key, value in payload.items(): setattr(row, key, value)`, on the row with that primary key
unfoldable pub overwrite_item : InventoryProjection → InventoryProjection → InventoryProjection
overwrite_item held incoming = record incoming { item_id = held.item_id }

unfoldable pub overwrite_request : RequestProjection → RequestProjection → RequestProjection
overwrite_request held incoming = record incoming { request_id = held.request_id }

abbrev pub upsert_category : CategoryProjection → List CategoryProjection → List CategoryProjection
upsert_category = upsert (λ c. c.category_id) (λ c. c.updated_at) overwrite_category

abbrev pub upsert_inventory :
    InventoryProjection → List InventoryProjection → List InventoryProjection
upsert_inventory = upsert (λ i. i.item_id) (λ i. i.updated_at) overwrite_item

abbrev pub upsert_request : RequestProjection → List RequestProjection → List RequestProjection
upsert_request = upsert (λ r. r.request_id) (λ r. r.updated_at) overwrite_request

-- The foreign key of `analytics_inventory_items`, which the database checks where a row is written.
unfoldable pub item_written : Db → InventoryProjection → Bool
item_written db incoming =
    elim (first (λ (row : InventoryProjection). row.item_id == incoming.item_id) db.items) [
      | none ↦ true
      | some held ↦ not (is_stale held.updated_at incoming.updated_at)
    ]

unfoldable pub breaks_key : Db → InventoryProjection → Bool
breaks_key db incoming =
    item_written db incoming
    && not
        (exists (λ (c : CategoryProjection). c.category_id == incoming.category_id) db.categories)

abbrev pub is_category_event : String → Bool
is_category_event kind =
    str_eq kind "logistics.resource-category.created"
    || str_eq kind "logistics.resource-category.updated"

abbrev pub is_request_event : String → Bool
is_request_event kind =
    str_eq kind "logistics.request.submitted" || str_eq kind "logistics.request.status-changed"

unfoldable pub apply_item : InventoryProjection → Db → Option Db
unfolding breaks_key
apply_item incoming db =
    if breaks_key db incoming
    then none
    else some (record db { items = upsert_inventory incoming db.items })

-- The branches of `_handle`; `none` is an exception.
unfoldable pub apply_event : ℕ → Envelope → Db → Option Db
unfolding category_row item_row request_row apply_item
apply_event tenant e db =
    if is_category_event e.event_type
    then (category_row tenant e.payload >>= λ row.
        some (record db { categories = upsert_category row db.categories }))
    else if str_eq e.event_type "logistics.inventory.item-updated"
    then (item_row tenant e.payload >>= λ row. apply_item row db)
    else if is_request_event e.event_type
    then (request_row tenant e.payload >>= λ row.
        some (record db { requests = upsert_request row db.requests }))
    else some db

-- `db.add(ProcessedEvent(…))`
abbrev pub record_event : ℕ → Db → Db
record_event id db = record db { processed = db.processed ++ id ∷ [] }

-- `_handle`: the work of an event that was not processed before is committed with its id.
unfoldable pub handle : Envelope → Db → Option Db
handle e db = do
  tenant ← e.tenant_id
  if exists (λ seen. seen == e.event_id) db.processed
      then some db
      else (apply_event tenant e db >>= λ work. some (record_event e.event_id work))

-- `_on_message`: whether the message is acknowledged, or dead-lettered, and the projections after.
unfoldable pub on_message : Envelope → Db → Bool × Db
on_message e db = elim (handle e db) [ none ↦ (false, db) | some after ↦ (true, after) ]
