-- ===== src/Logistics/Categories.antt =====
-- services/logistics/app/services/inventory.py: resource categories, with the routes that create and
-- change them.
pub mod Valid
use rcp_api.Base.{
  ℕ, String, Bool, true, false, Option, none, some, List, [], ◌∷◌, ◌++◌, ◌&&◌, ◌==◌, if◌then◌else◌,
  first, update, select,
}
use rcp_api.Base.Json.{Value}
use rcp_api.Base.Result.{Result, ok, err}
use rcp_api.Base.Tx.{Tx, ◌>>=◌, ◌>>◌, pure, raise, or_raise, gets, modify, commit}
use rcp_api.Logistics.Db.{ResourceCategory, category_data, Db, emit}
use rcp_api.Logistics.Bodies.{
  CategoryError, not_found, not_null, ResourceCategoryCreate, ResourceCategoryUpdate, parse_create,
  parse_update,
}

unfoldable pub get_category : ℕ → ℕ → Db → Option ResourceCategory
get_category tenant id db =
    first (λ (row : ResourceCategory). (row.id == id) && (row.tenant_id == tenant)) db.categories

-- `db.add(…)` and the flush, with the id and the time that the new row gets
unfoldable pub new_category : (id tenant now : ℕ) → ResourceCategoryCreate → ResourceCategory
new_category id tenant now body = record {
  id = id;
  tenant_id = tenant;
  name = body.name;
  description = body.description;
  unit = body.unit;
  form_schema = body.form_schema;
  workflow = body.workflow;
  is_active = true;
  updated_at = now;
}

-- `create_category`
unfoldable pub create_category :
    (id now tenant : ℕ) → ResourceCategoryCreate → Tx Db CategoryError ResourceCategory
unfolding new_category
create_category id now tenant body =
    let category = new_category id tenant now body in
    do
      modify λ db. record db { categories = db.categories ++ category ∷ [] }
      emit "logistics.resource-category.created" (some tenant) (category_data category)
      commit
      pure category

-- `setattr` of a field that was sent
abbrev pub sent {ℓ} : {A : Type ℓ} → Option A → A → A
sent none old = old
sent (some new) old = new

abbrev sent_text : Option (Option String) → String → Option String
sent_text none old = some old
sent_text (some new) old = new

abbrev sent_flag : Option (Option Bool) → Bool → Option Bool
sent_flag none old = some old
sent_flag (some new) old = new

-- The row after the assignments; `none` where a column that is not nullable would be null.
unfoldable pub set_fields : ResourceCategoryUpdate → ResourceCategory → Option ResourceCategory
set_fields body category = elim (sent_text body.name category.name) [
  | none ↦ none
  | some name ↦ elim (sent_text body.unit category.unit) [
    | none ↦ none
    | some unit ↦ elim (sent_flag body.is_active category.is_active) [
      | none ↦ none
      | some is_active ↦ some (record category {
        name = name;
        description = sent body.description category.description;
        unit = unit;
        form_schema = sent body.form_schema category.form_schema;
        workflow = sent body.workflow category.workflow;
        is_active = is_active;
      })
    ]
  ]
]

abbrev pub put_category : ResourceCategory → Db → Db
put_category category db = record db {
  categories = update (λ row. row.id == category.id) (λ row. category) db.categories;
}

-- The row that `updated_at` is read from: the flush sets it where a column changed. `stamp` gives
-- the time that it then is, from the row before and the row after the assignments.
unfoldable pub stamped :
    (ResourceCategory → ResourceCategory → ℕ)
    → ResourceCategory
    → ResourceCategory
    → ResourceCategory
stamped stamp before after = record after { updated_at = stamp before after }

-- `update_category`
unfoldable pub update_category :
    (stamp : ResourceCategory → ResourceCategory → ℕ) (tenant id : ℕ)
    → ResourceCategoryUpdate
    → Tx Db CategoryError ResourceCategory
unfolding stamped
update_category stamp tenant id body = do
  found ← gets (get_category tenant id)
  category ← or_raise found not_found
  changed ← or_raise (set_fields body category) not_null
  modify (put_category (stamped stamp category changed))
  emit "logistics.resource-category.updated" (some tenant)
      (category_data (stamped stamp category changed))
  commit
  pure (stamped stamp category changed)

-- The assignment of `deactivate_category`, with what the flush makes of `updated_at`
unfoldable pub retired : ℕ → ResourceCategory → ResourceCategory
retired now category = record category { is_active = false; updated_at = now }

unfoldable pub retire : (now tenant : ℕ) → ResourceCategory → Tx Db CategoryError ResourceCategory
unfolding retired
retire now tenant category = do
  modify (put_category (retired now category))
  emit "logistics.resource-category.updated" (some tenant) (category_data (retired now category))
  commit
  pure (retired now category)

-- `deactivate_category`
unfoldable pub deactivate_category : (now tenant id : ℕ) → Tx Db CategoryError ResourceCategory
unfolding retire
deactivate_category now tenant id = do
  found ← gets (get_category tenant id)
  category ← or_raise found not_found
  if category.is_active then retire now tenant category else pure category

-- A body, through pydantic and into the service: the routes `POST` and `PATCH` of categories.
abbrev checked : {A : Type 0} → Result CategoryError A → Tx Db CategoryError A
checked (ok a) = pure a
checked (err e) = raise e

unfoldable pub post_category :
    (id now tenant : ℕ) → ResourceCategoryCreate → Tx Db CategoryError ResourceCategory
post_category id now tenant body = do
  data' ← checked (parse_create body)
  create_category id now tenant data'

unfoldable pub patch_category :
    (stamp : ResourceCategory → ResourceCategory → ℕ) (tenant id : ℕ)
    → ResourceCategoryUpdate
    → Tx Db CategoryError ResourceCategory
patch_category stamp tenant id body = do
  data' ← checked (parse_update body)
  update_category stamp tenant id data'
