-- ===== src/Logistics/Inventory/Stock.antt =====
-- inventory.py: the bounds of the stock, and `reserve_stock`.
use rcp_api.Base.{
  if◌then◌else◌, All-first, ℕ, ◌≡◌, refl, Bool, none, some, List, arith, All, first, Option-cases,
  inl, inr, ◌∙◌,
}
use rcp_api.Base.Int.{ℤ, pos, eqb_ℤ, ◌+ℤ◌, ◌-ℤ◌, ◌≤ℤ◌, ◌<ℤ◌, ≤ℤ_cases}
use rcp_api.Base.Tables.{IsKeyed, IsKeyed-update, All-update-first}
use rcp_api.Base.Result.{ok, err}
use rcp_api.Base.Tx.{run}
use rcp_api.Logistics.Db.{InventoryItem, reserved, quantity_available, Db, Principal}
use rcp_api.Logistics.Inventory.{
  not_found, only_available, owned, take_stock, flushed, put_item, reserve_stock,
}

-- What is reserved of an item is neither negative nor more than there is.
pub record IsStocked (item : InventoryItem) : Type 0 where
  pub not_negative : pos 0 ≤ℤ item.quantity_reserved
  pub within : item.quantity_reserved ≤ℤ item.quantity_total

pub record IsStock (items : List InventoryItem) : Type 0 where
  pub keyed : IsKeyed (λ (row : InventoryItem). row.id) items
  pub stocked : All IsStocked items

take_stock_id : (q : ℤ) (item : InventoryItem) → (take_stock q item).id ≡ item.id
unfolding take_stock
take_stock_id q item = ground arith

take_stock_total :
    (q : ℤ) (item : InventoryItem) → (take_stock q item).quantity_total ≡ item.quantity_total
unfolding take_stock
take_stock_total q item = ground arith

take_stock-IsStocked :
    (q : ℤ) (item : InventoryItem)
    → pos 0 ≤ℤ q
    → q ≤ℤ quantity_available item
    → IsStocked item
    → IsStocked (take_stock q item)
unfolding take_stock
take_stock-IsStocked q item h room s = ground arith

pub flushed_id : (now : ℕ) (old new : InventoryItem) → (flushed now old new).id ≡ new.id
unfolding flushed
flushed_id now old new = ground arith

pub flushed_total :
    (now : ℕ) (old new : InventoryItem) → (flushed now old new).quantity_total ≡ new.quantity_total
unfolding flushed
flushed_total now old new = ground arith

pub flushed-IsStocked :
    (now : ℕ) (old new : InventoryItem) → IsStocked new → IsStocked (flushed now old new)
unfolding flushed
flushed-IsStocked now old new s = ground arith

-- The write of one item that a query found keeps the stock sound, if the item is.
pub put_item-IsStock :
    (p : InventoryItem → Bool) (item item' : InventoryItem) (db : Db)
    → item'.id ≡ item.id
    → item'.quantity_total ≡ item.quantity_total
    → first p db.items ≡ some item
    → IsStocked item'
    → IsStock db.items
    → IsStock (put_item item' db).items
put_item-IsStock p item item' db same total e h s = rw same (record {
  keyed = IsKeyed-update (λ row. row.id) _ (λ row. refl) _ db.items s.keyed;
  stocked =
      All-update-first (λ row. row.id) p _ item IsStocked db.items s.keyed e s.stocked
        (record { not_negative = h.not_negative; within = rw (← total) h.within });
})

module _ (now : ℕ) (by : Principal) (id : ℕ) (q : ℤ) (db : Db) where
  -- `reserve_stock` of an item that the tenant has: too little available is an error that changes
  -- nothing; else the item becomes `take_stock q item`, and that is written to its row.
  pub reserve_stock_found :
      (item : InventoryItem)
      → first (owned id by.tenant_id) db.items ≡ some item
      → (quantity_available item <ℤ q
          → run (reserve_stock now by id q) db
            ≡ (err (only_available (quantity_available item) q), db))
        × (q ≤ℤ quantity_available item
            → ((run (reserve_stock now by id q) db).0 ≡ ok (flushed now item (take_stock q item)))
              × ((run (reserve_stock now by id q) db).1.items
                  ≡ (put_item (flushed now item (take_stock q item)) db).items))
  unfolding reserve_stock
  reserve_stock_found item e = (λ short. ground arith, λ room. ground arith)

  reserve_stock_missing :
      first (owned id by.tenant_id) db.items ≡ none
      → run (reserve_stock now by id q) db ≡ (err not_found, db)
  unfolding reserve_stock
  reserve_stock_missing e = ground arith

  -- The item after the reservation: what is reserved grows by the amount, and an item of which
  -- nothing is left is reserved.
  abbrev pub item_after : InventoryItem → InventoryItem
  item_after item = record item {
    quantity_reserved = item.quantity_reserved +ℤ q;
    status =
        if eqb_ℤ (item.quantity_total -ℤ (item.quantity_reserved +ℤ q)) (pos 0)
        then reserved
        else item.status;
    updated_at = now;
  }

  -- Reserving an amount that is not negative, of an item that is there or not, keeps what is
  -- reserved of every item between zero and its total.
  pub reserve_stock-IsStock :
      pos 0 ≤ℤ q → IsStock db.items → IsStock (run (reserve_stock now by id q) db).1.items
  reserve_stock-IsStock h s = elim (Option-cases (first (owned id by.tenant_id) db.items)) [
    | inl missing ↦ rw (reserve_stock_missing missing) s
    | inr (item, e) ↦
        let (refused, taken) = reserve_stock_found item e in
        elim (≤ℤ_cases q (quantity_available item)) [
          | inr short ↦ rw (refused short) s
          | inl room ↦ rw ((taken room).1) (
              put_item-IsStock _ item (flushed now item (take_stock q item)) db
                (flushed_id now item (take_stock q item) ∙ take_stock_id q item)
                (flushed_total now item (take_stock q item) ∙ take_stock_total q item) e
                (flushed-IsStocked now item (take_stock q item) (
                  take_stock-IsStocked q item h room
                    (All-first IsStocked _ db.items item s.stocked e)))
                s)
        ]
  ]
