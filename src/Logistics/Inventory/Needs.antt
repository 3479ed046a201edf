-- ===== src/Logistics/Inventory/Needs.antt =====
-- inventory.py: `get_donation_needs`, the shortages that volunteers see.
use rcp_api.Base.{
  ℕ, String, ◌≡◌, ◌↔◌, refl, true, List, [], ◌∷◌, ◌++◌, arith, ◌==◌, if◌then◌else◌, All, All-append,
  Bool-cases, inl, inr,
}
use rcp_api.Base.Int.{ℤ, pos, ◌-ℤ◌, ltb_ℤ, leb_ℤ, ◌≤ℤ◌, -ℤ_parts, eq_of_parts}
use rcp_api.Logistics.Db.{ResourceCategory, InventoryItem, quantity_available, Db}

-- An element of `needs_list`
pub record DonationNeed : Type 0 where
  pub id : ℕ
  pub tenant_id : ℕ
  pub name : String
  pub category_name : String
  pub unit : String
  pub needed_quantity : ℤ
  pub urgency : String

-- `needed_quantity` and `urgency`, by what is available
abbrev needed : ℤ → ℤ
needed available = if leb_ℤ (pos 0) available then pos 50 -ℤ available else pos 50

abbrev urgency_of : ℤ → String
urgency_of available = if leb_ℤ available (pos 0) then "CRITICAL" else "HIGH"

unfoldable pub donation_need : InventoryItem → ResourceCategory → DonationNeed
unfolding quantity_available
donation_need item category =
    let available = quantity_available item in
    record {
      id = item.id;
      tenant_id = item.tenant_id;
      name = item.name;
      category_name = category.name;
      unit = category.unit;
      needed_quantity = needed available;
      urgency = urgency_of available;
    }

-- The rows that the join finds for one item.
unfoldable pub needs_of : InventoryItem → List ResourceCategory → List DonationNeed
unfolding donation_need
needs_of item [] = []
needs_of item (category ∷ rest) =
    let others = needs_of item rest in
    if category.id == item.category_id then donation_need item category ∷ others else others

unfoldable pub all_needs : List InventoryItem → List ResourceCategory → List DonationNeed
unfolding needs_of
all_needs [] categories = []
all_needs (item ∷ items) categories =
    let others = all_needs items categories in
    if ltb_ℤ (quantity_available item) (pos 10) then needs_of item categories ++ others else others

unfoldable pub get_donation_needs : Db → List DonationNeed
unfolding all_needs
get_donation_needs db = all_needs db.items db.categories

-- Between 41 and 50 are asked for, and it is critical exactly if all 50 are.
pub record IsNeed (need : DonationNeed) : Type 0 where
  pub at_least : pos 41 ≤ℤ need.needed_quantity
  pub at_most : need.needed_quantity ≤ℤ pos 50
  pub critical : need.urgency ≡ "CRITICAL" ↔ need.needed_quantity ≡ pos 50

all_iff_critical : (a : ℤ) → urgency_of a ≡ "CRITICAL" ↔ needed a ≡ pos 50
all_iff_critical a = elim (Bool-cases (leb_ℤ a (pos 0))) [
  | inl none_left ↦
      rw none_left (
        (λ _. ground (arith, -ℤ_parts (pos 50) a, eq_of_parts (pos 50 -ℤ a) (pos 50))),
        (λ _. refl),
      )
  | inr some_left ↦ rw some_left ((λ h. cc), (λ h. ground (arith, -ℤ_parts (pos 50) a)))
]

donation_need-IsNeed :
    (item : InventoryItem) (category : ResourceCategory)
    → ltb_ℤ (quantity_available item) (pos 10) ≡ true
    → IsNeed (donation_need item category)
unfolding donation_need
donation_need-IsNeed item category short = record {
  at_least = ground (arith, -ℤ_parts (pos 50) (quantity_available item));
  at_most = ground (arith, -ℤ_parts (pos 50) (quantity_available item));
  critical = all_iff_critical (quantity_available item);
}

needs_of-IsNeed :
    (item : InventoryItem) (categories : List ResourceCategory)
    → ltb_ℤ (quantity_available item) (pos 10) ≡ true
    → All IsNeed (needs_of item categories)
unfolding needs_of
needs_of-IsNeed item [] short = tt
needs_of-IsNeed item (category ∷ rest) short = elim (Bool-cases (category.id == item.category_id)) [
  | inl same ↦
      rw (needs_of, same)
        (donation_need-IsNeed item category short, needs_of-IsNeed item rest short)
  | inr other ↦ rw (needs_of, other) (needs_of-IsNeed item rest short)
]

all_needs-IsNeed :
    (items : List InventoryItem) (categories : List ResourceCategory)
    → All IsNeed (all_needs items categories)
unfolding all_needs
all_needs-IsNeed [] categories = tt
all_needs-IsNeed (item ∷ items) categories =
    elim (Bool-cases (ltb_ℤ (quantity_available item) (pos 10))) [
      | inl short ↦
          rw (all_needs, short)
            (All-append IsNeed (needs_of item categories) (all_needs items categories)
              (needs_of-IsNeed item categories short) (all_needs-IsNeed items categories))
      | inr enough ↦ rw (all_needs, enough) (all_needs-IsNeed items categories)
    ]

pub get_donation_needs-IsNeed : (db : Db) → All IsNeed (get_donation_needs db)
unfolding get_donation_needs
get_donation_needs-IsNeed db = all_needs-IsNeed db.items db.categories
