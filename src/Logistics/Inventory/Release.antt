-- ===== src/Logistics/Inventory/Release.antt =====
-- inventory.py: `release_stock`, and releasing after reserving.
use rcp_api.Base.{ℕ, ◌≡◌, ◌∙◌, none, some, arith, first, Option-cases, inl, inr, All-first}
use rcp_api.Base.Int.{ℤ, pos, ◌≤ℤ◌, ◌<ℤ◌}
use rcp_api.Base.Result.{ok, err}
use rcp_api.Base.Tx.{run}
use rcp_api.Logistics.Db.{InventoryItem, available, Db}
use rcp_api.Logistics.Inventory.{
  not_found, owned, take_stock, give_back, flushed, put_item, release_stock,
}
use rcp_api.Logistics.Inventory.Stock.{
  IsStocked, IsStock, put_item-IsStock, flushed_id, flushed_total, flushed-IsStocked,
}

give_back_id : (q : ℤ) (item : InventoryItem) → (give_back q item).id ≡ item.id
unfolding give_back
give_back_id q item = ground arith

give_back_total :
    (q : ℤ) (item : InventoryItem) → (give_back q item).quantity_total ≡ item.quantity_total
unfolding give_back
give_back_total q item = ground arith

give_back-IsStocked :
    (q : ℤ) (item : InventoryItem) → pos 0 ≤ℤ q → IsStocked item → IsStocked (give_back q item)
unfolding give_back
give_back-IsStocked q item h s = ground arith

-- Releasing what was reserved restores the item, if the amount was positive and the item was
-- sound and available.
pub give_back-take_stock :
    (q : ℤ) (item : InventoryItem)
    → pos 0 <ℤ q
    → IsStocked item
    → item.status ≡ available
    → give_back q (take_stock q item) ≡ item
unfolding take_stock give_back
give_back-take_stock q item h s e = ground arith

module _ (now tenant id : ℕ) (q : ℤ) (db : Db) where
  release_stock_found :
      (item : InventoryItem)
      → first (owned id (some tenant)) db.items ≡ some item
      → ((run (release_stock now tenant id q) db).0 ≡ ok (flushed now item (give_back q item)))
        × ((run (release_stock now tenant id q) db).1.items
            ≡ (put_item (flushed now item (give_back q item)) db).items)
  unfolding release_stock
  release_stock_found item e = ground arith

  release_stock_missing :
      first (owned id (some tenant)) db.items ≡ none
      → run (release_stock now tenant id q) db ≡ (err not_found, db)
  unfolding release_stock
  release_stock_missing e = ground arith

  -- Releasing an amount that is not negative, of an item that is there or not, keeps what is
  -- reserved of every item between zero and its total.
  pub release_stock-IsStock :
      pos 0 ≤ℤ q → IsStock db.items → IsStock (run (release_stock now tenant id q) db).1.items
  release_stock-IsStock h s = elim (Option-cases (first (owned id (some tenant)) db.items)) [
    | inl missing ↦ rw (release_stock_missing missing) s
    | inr (item, e) ↦ rw ((release_stock_found item e).1) (
        put_item-IsStock _ item (flushed now item (give_back q item)) db
          (flushed_id now item (give_back q item) ∙ give_back_id q item)
          (flushed_total now item (give_back q item) ∙ give_back_total q item) e
          (flushed-IsStocked now item (give_back q item)
            (give_back-IsStocked q item h (All-first IsStocked _ db.items item s.stocked e)))
          s)
  ]
