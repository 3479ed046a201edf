-- ===== src/Logistics/Bodies.antt =====
-- services/logistics/app/schemas/resource_schema.py: the bodies that create and change categories.
use rcp_api.Base.{ℕ, String, Bool, true, false, Option, none, some, ◌&&◌, leb}
use rcp_api.Base.Json.{Value, null, arr, obj, Items, no_items, item}
use rcp_api.Base.Text.{char_count}
use rcp_api.Base.Result.{Result, ok, err, ◌>>=◌, ◌>>◌, require}
use rcp_api.Logistics.FormSchema.Definition.{FormSchemaError, validate_definition as validate_form}
use rcp_api.Logistics.Workflow.Definition.{WorkflowError, validate_definition as validate_workflow}

-- The first five are a body that pydantic refuses; `not_null` is the database's IntegrityError.
pub data CategoryError : Type 0 where
  bad_name bad_unit bad_shape : CategoryError
  bad_form : FormSchemaError → CategoryError
  bad_workflow : WorkflowError → CategoryError
  not_found not_null : CategoryError

-- `ResourceCategoryCreate`; null for a definition that is left out
pub record ResourceCategoryCreate : Type 0 where
  pub name : String
  pub description : Option String
  pub unit : String
  pub form_schema : Value
  pub workflow : Value

-- `ResourceCategoryUpdate`: the outer option is whether the field was sent.
pub record ResourceCategoryUpdate : Type 0 where
  pub name : Option (Option String)
  pub description : Option (Option String)
  pub unit : Option (Option String)
  pub form_schema : Option Value
  pub workflow : Option Value
  pub is_active : Option (Option Bool)

unfoldable fits_length : ℕ → String → Bool
fits_length most s = leb 1 (char_count s) && leb (char_count s) most

abbrev all_objects : Items → Bool
all_objects no_items = true
all_objects (item (obj fs) vs) = all_objects vs
all_objects (item _ vs) = false

-- `list[dict[str, Any]] | None`
abbrev pub is_form_shape : Value → Bool
is_form_shape null = true
is_form_shape (arr vs) = all_objects vs
is_form_shape _ = false

-- `dict[str, Any] | None`
abbrev pub is_workflow_shape : Value → Bool
is_workflow_shape null = true
is_workflow_shape (obj fs) = true
is_workflow_shape _ = false

abbrev pub lift : {E A : Type 0} → (E → CategoryError) → Result E A → Result CategoryError A
lift wrap (ok a) = ok a
lift wrap (err e) = err (wrap e)

-- `_check_form_schema`
unfoldable pub check_form_schema : Value → Result CategoryError Value
check_form_schema v = do require (is_form_shape v) bad_shape; lift bad_form (validate_form v)

-- `_check_workflow`
unfoldable pub check_workflow : Value → Result CategoryError Value
check_workflow v = do
  require (is_workflow_shape v) bad_shape
  lift bad_workflow (validate_workflow v)

-- What pydantic makes of a body for `ResourceCategoryCreate`.
unfoldable pub parse_create : ResourceCategoryCreate → Result CategoryError ResourceCategoryCreate
unfolding fits_length
parse_create body = do
  require (fits_length 150 body.name) bad_name
  require (fits_length 50 body.unit) bad_unit
  form_schema ← check_form_schema body.form_schema
  workflow ← check_workflow body.workflow
  ok (record body { form_schema = form_schema; workflow = workflow })

-- A text that was not sent, or is null, is not measured.
abbrev fits_if_given : ℕ → Option (Option String) → Bool
fits_if_given most (some (some s)) = fits_length most s
fits_if_given most _ = true

abbrev pub if_sent :
    (Value → Result CategoryError Value) → Option Value → Result CategoryError (Option Value)
if_sent check none = ok none
if_sent check (some v) = check v >>= λ checked. ok (some checked)

-- What pydantic makes of a body for `ResourceCategoryUpdate`.
unfoldable pub parse_update : ResourceCategoryUpdate → Result CategoryError ResourceCategoryUpdate
unfolding fits_length
parse_update body = do
  require (fits_if_given 150 body.name) bad_name
  require (fits_if_given 50 body.unit) bad_unit
  form_schema ← if_sent check_form_schema body.form_schema
  workflow ← if_sent check_workflow body.workflow
  ok (record body { form_schema = form_schema; workflow = workflow })
