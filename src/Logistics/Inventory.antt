-- ===== src/Logistics/Inventory.antt =====
-- services/logistics/app/services/inventory.py: stock that is reserved and released.
pub mod Stock
pub mod Release
pub mod Faults
pub mod Needs
use rcp_api.Base.{
  ℕ, String, Bool, true, false, Option, none, some, List, [], ◌∷◌, ◌++◌, ◌&&◌, ◌==◌, opt_eq,
  if◌then◌else◌, first, update,
}
use rcp_api.Base.Int.{ℤ, pos, negsuc, ◌+ℤ◌, ◌-ℤ◌, ltb_ℤ, leb_ℤ, eqb_ℤ}
use rcp_api.Base.Result.{Result, ok, err}
use rcp_api.Base.Tx.{Tx, ◌>>=◌, ◌>>◌, pure, raise_if, or_raise, gets, modify, commit}
use rcp_api.Logistics.Db
use rcp_api.Logistics.Db.{
  InventoryStatus, available, reserved, depleted, expired, InventoryItem, quantity_available,
  item_data, low_stock_data, Db, emit, Principal,
}

-- The `ValueError`s of this module.
pub data StockError : Type 0 where
  not_found : StockError
  only_available : ℤ → ℤ → StockError

abbrev pub low_stock_threshold : ℤ
low_stock_threshold = pos 5

abbrev is_reserved : InventoryStatus → Bool
is_reserved reserved = true
is_reserved _ = false

abbrev pub owned : ℕ → Option ℕ → InventoryItem → Bool
owned id tenant item = (item.id == id) && opt_eq (some item.tenant_id) tenant

-- `item.quantity_reserved += quantity` and the status that follows
pub take_stock : ℤ → InventoryItem → InventoryItem
unfolding quantity_available ◌+ℤ◌ ◌-ℤ◌
take_stock quantity item =
    let taken : InventoryItem = record item {
      quantity_reserved = item.quantity_reserved +ℤ quantity;
    } in
    if eqb_ℤ (quantity_available taken) (pos 0) then record taken { status = reserved } else taken

-- `max(0, item.quantity_reserved - quantity)` and the status that follows
pub give_back : ℤ → InventoryItem → InventoryItem
unfolding quantity_available ◌-ℤ◌
give_back quantity item =
    let rest = item.quantity_reserved -ℤ quantity in
    let given : InventoryItem = record item {
      quantity_reserved = if ltb_ℤ (pos 0) rest then rest else pos 0;
    } in
    if ltb_ℤ (pos 0) (quantity_available given) && is_reserved given.status
    then record given { status = available }
    else given

-- The event carries the `updated_at` that the row had before this change.
abbrev pub emit_item : Option ℕ → InventoryItem → Tx Db StockError Unit
emit_item tenant item = emit "logistics.inventory.item-updated" tenant (
    item_data item.id item.category_id item.name item.quantity_total item.quantity_reserved
      (quantity_available item) item.status item.updated_at)

abbrev emit_low_stock : Option ℕ → InventoryItem → Tx Db StockError Unit
emit_low_stock tenant item =
    if leb_ℤ (quantity_available item) low_stock_threshold
    then emit "logistics.inventory.low-stock" tenant
        (low_stock_data item.id item.category_id item.name (quantity_available item))
    else pure tt

abbrev same_status : InventoryStatus → InventoryStatus → Bool
same_status available available = true
same_status reserved reserved = true
same_status depleted depleted = true
same_status expired expired = true
same_status _ _ = false

-- `onupdate` of `updated_at`: the flush writes a row only if a column changed.
unfoldable pub flushed : ℕ → InventoryItem → InventoryItem → InventoryItem
flushed now old new =
    if eqb_ℤ old.quantity_reserved new.quantity_reserved && same_status old.status new.status
    then new
    else record new { updated_at = now }

-- The `UPDATE` of the row.
abbrev pub put_item : InventoryItem → Db → Db
put_item item db = record db {
  items =
      update (λ row. row.id == item.id)
        (λ row. record row {
          quantity_reserved = item.quantity_reserved;
          status = item.status;
          updated_at = item.updated_at;
        })
        db.items;
}

-- `reserve_stock`; the row is locked from the select to the commit. `db.refresh` reads the row as it
-- was written.
unfoldable pub reserve_stock : ℕ → Principal → ℕ → ℤ → Tx Db StockError InventoryItem
reserve_stock now principal item_id quantity = do
  found ← gets (λ db. first (owned item_id principal.tenant_id) db.items)
  item ← or_raise found not_found
  raise_if (ltb_ℤ (quantity_available item) quantity)
      (only_available (quantity_available item) quantity)
  let item' = take_stock quantity item
  emit_low_stock principal.tenant_id item'
  emit_item principal.tenant_id item'
  modify (put_item (flushed now item item'))
  commit
  pure (flushed now item item')

unfoldable pub release_stock : ℕ → ℕ → ℕ → ℤ → Tx Db StockError InventoryItem
release_stock now tenant item_id quantity = do
  found ← gets (λ db. first (owned item_id (some tenant)) db.items)
  item ← or_raise found not_found
  let item' = give_back quantity item
  emit_item (some tenant) item'
  modify (put_item (flushed now item item'))
  commit
  pure (flushed now item item')

pub record InventoryItemCreate : Type 0 where
  pub category_id : ℕ
  pub name : String
  pub quantity_total : ℤ
  pub expiry_date : Option ℕ
  pub storage_location : Option String
  pub donor_name : Option String

pub new_item : ℕ → ℕ → ℕ → InventoryItemCreate → InventoryItem
new_item id now tenant form = record {
  id = id;
  tenant_id = tenant;
  category_id = form.category_id;
  name = form.name;
  quantity_total = form.quantity_total;
  quantity_reserved = pos 0;
  status = available;
  expiry_date = form.expiry_date;
  storage_location = form.storage_location;
  donor_name = form.donor_name;
  created_at = now;
  updated_at = now;
}

-- `add_inventory_item`, with the id and the time of the new row
unfoldable pub add_inventory_item : ℕ → ℕ → ℕ → InventoryItemCreate → Tx Db StockError InventoryItem
add_inventory_item id now tenant form = do
  let item = new_item id now tenant form
  modify (λ db. record db { items = db.items ++ item ∷ [] })
  emit_item (some tenant) item
  commit
  pure item
