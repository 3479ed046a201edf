-- ===== src/Logistics/Inventory/Faults.antt =====
-- inventory.py at inputs that its callers do not exclude: the route of `reserve_stock` takes any
-- integer, and an expired item can be reserved.
use rcp_api.Base.{ℕ, ◌≡◌, some, arith, first}
use rcp_api.Base.Int.{ℤ, pos, negsuc, ◌<ℤ◌}
use rcp_api.Base.Result.{ok}
use rcp_api.Base.Tx.{run}
use rcp_api.Logistics.Db.{InventoryItem, quantity_available, available, expired, Db, Principal}
use rcp_api.Logistics.Inventory.{owned, take_stock, give_back, flushed, reserve_stock}
use rcp_api.Logistics.Inventory.Stock.{IsStocked, reserve_stock_found}

-- A negative quantity is not refused: for a sound item of which nothing is reserved,
-- reserve_stock succeeds, and more is available afterwards than there is.
pub reserve_stock_negative :
    (now : ℕ) (by : Principal) (id n : ℕ) (db : Db) (item : InventoryItem)
    → first (owned id by.tenant_id) db.items ≡ some item
    → IsStocked item
    → item.quantity_reserved ≡ pos 0
    → (result : InventoryItem) × ((run (reserve_stock now by id (negsuc n)) db).0 ≡ ok result)
      × (item.quantity_total <ℤ quantity_available result)
reserve_stock_negative now by id n db item e s none_reserved = (
  flushed now item (take_stock (negsuc n) item),
  ((reserve_stock_found now by id (negsuc n) db item e).1
      (unfold quantity_available in ground arith)).0,
  unfold take_stock flushed in ground arith,
)

-- An expired item whose whole free stock is reserved and then released is available again.
pub expired_becomes_available :
    (q : ℤ) (item : InventoryItem)
    → IsStocked item
    → item.status ≡ expired
    → q ≡ quantity_available item
    → pos 0 <ℤ q
    → (give_back q (take_stock q item)).status ≡ available
unfolding take_stock give_back
expired_becomes_available q item s e same some_left = ground arith
