-- ===== src/Logistics/FormTests.antt =====
-- Runs of form_schema.py, of the categories and of the intake of requests at concrete values.
use rcp_api.Base.{ℕ, zero, suc, ◌≡◌, refl, String, true, false, Option, none, some, List, [], ◌∷◌}
use rcp_api.Base.Int.{pos}
use rcp_api.Base.Json.{Value, null, bool, int, str, arr, obj, no_items, item, no_fields, field}
use rcp_api.Base.Text.{strip}
use rcp_api.Base.Result.{ok}
use rcp_api.Logistics.FormSchema.{
  integer, select, whole, Spec, less, to_whole, parse_type, key_matches,
}
use rcp_api.Logistics.FormSchema.Definition.{
  validate_specs, validate_field_spec, valid_key, spec_of, valid_label, valid_help_text,
  check_options, check_range, check_max_length, is_blank_text, encode_specs, validate_definition,
}
use rcp_api.Logistics.FormSchema.Accepted.{validate_definition_idem, no_form}
use rcp_api.Logistics.FormSchema.Payload.{
  Calendar, check_fields, check_field, is_blank, coerce, coerce_as, coerce_integer, unknown_fields,
  overflows, validate_payload,
}
use rcp_api.Logistics.FormSchema.Answered.{IsIso}
use rcp_api.Logistics.FormSchema.Answers.{IsAccepted, validate_payload_lem}
use rcp_api.Logistics.Workflow.Definition.{validate_definition as validate_workflow}
use rcp_api.Logistics.Db.{ResourceCategory, medium, Db, Principal}
use rcp_api.Logistics.Bodies.{ResourceCategoryCreate}
use rcp_api.Logistics.Categories.Valid.{IsValid, AreValid, post, after_call, after_call-AreValid}
use rcp_api.Logistics.Intake.{HelpRequestCreate}

-- [{"key": "size", "type": "integer", "min": 1}, {"key": "kind", "label": "Kind", "type": "select", …}]
abbrev raw_form : Value
raw_form = arr (
    item
      (obj (
        field "key" (str "size")
          (field "type" (str "integer") (field "min" (int (pos 1)) no_fields))))
      (item
        (obj (
          field "key" (str "kind") (
            field "label" (str "Kind") (
              field "type" (str "select") (
                field "required" (bool true) (
                  field "options" (arr (item (str "tent") (item (str "hall") no_items)))
                    no_fields))))))
        no_items))

abbrev size : Spec
size = record {
  key = "size";
  label = "size";
  field_type = integer;
  required = false;
  help_text = none;
  options = [];
  minimum = some (whole (pos 1));
  maximum = none;
  max_length = none;
}

abbrev kind : Spec
kind = record {
  key = "kind";
  label = "Kind";
  field_type = select;
  required = true;
  help_text = none;
  options = "tent" ∷ "hall" ∷ [];
  minimum = none;
  maximum = none;
  max_length = none;
}

abbrev form : List Spec
form = size ∷ kind ∷ []

raw_form_accepted : validate_definition raw_form ≡ ok (arr (encode_specs form))
unfolding validate_definition validate_specs validate_field_spec valid_key key_matches spec_of
    parse_type valid_label strip valid_help_text check_options check_range check_max_length
raw_form_accepted = refl

validate_definition_idem_example :
    validate_definition (arr (encode_specs form)) ≡ ok (arr (encode_specs form))
validate_definition_idem_example =
    validate_definition_idem raw_form (arr (encode_specs form)) raw_form_accepted

-- A calendar that writes the ordinal in strokes.
strokes : ℕ → String
strokes zero = "1"
strokes (suc n) = String.◌∷◌ "1" (strokes n)

count_strokes : String → Option ℕ
count_strokes String.[] = none
count_strokes (String.◌∷◌ c s) = elim (count_strokes s) [ none ↦ some zero | some n ↦ some (suc n) ]

abbrev calendar : Calendar
calendar = record {
  date_fromisoformat = count_strokes;
  datetime_fromisoformat = λ s. none;
  isoformat = strokes;
}

count_strokes-strokes : (n : ℕ) → count_strokes (strokes n) ≡ some n
unfolding strokes count_strokes
count_strokes-strokes zero = refl
count_strokes-strokes (suc n) = rw (count_strokes-strokes n) refl

strokes_print : (n : ℕ) → is_blank_text (strokes n) ≡ false
unfolding strokes strip
strokes_print zero = refl
strokes_print (suc n) = refl

calendar-IsIso : IsIso calendar
calendar-IsIso = record { reads_back = count_strokes-strokes; prints = strokes_print }

abbrev answer : Value
answer = obj (field "kind" (str "hall") (field "size" (int (pos 3)) no_fields))

abbrev answer_stored : Value
answer_stored = obj (field "size" (int (pos 3)) (field "kind" (str "hall") no_fields))

answer_accepted : validate_payload calendar form answer ≡ ok answer_stored
unfolding validate_payload check_fields check_field is_blank coerce coerce_as coerce_integer
    to_whole less strip unknown_fields overflows
answer_accepted = refl

validate_payload_lem_example :
    IsAccepted calendar form answer answer_stored
    × (validate_payload calendar form answer_stored ≡ ok answer_stored)
validate_payload_lem_example =
    validate_payload_lem calendar form answer answer_stored calendar-IsIso refl answer_accepted

-- The pattern of a key admits a newline at its end.
key_with_newline : key_matches "size\n" ≡ true
unfolding key_matches
key_with_newline = refl

abbrev shelter : ResourceCategory
shelter = record {
  id = 2;
  tenant_id = 7;
  name = "shelter";
  description = none;
  unit = "place";
  form_schema = null;
  workflow = null;
  is_active = true;
  updated_at = 0;
}

abbrev shop : Db
shop = record {
  categories = shelter ∷ [];
  items = [];
  requests = [];
  tasks = [];
  replicas = [];
  outbox = [];
}

shelter-IsValid : IsValid shelter
unfolding validate_workflow
shelter-IsValid = record { form_valid = no_form; workflow_valid = (null, refl) }

abbrev water : ResourceCategoryCreate
water = record {
  name = "water";
  description = none;
  unit = "litre";
  form_schema = raw_form;
  workflow = null;
}

after_call-AreValid_example : AreValid (after_call (post 3 50 7 water) shop)
after_call-AreValid_example = after_call-AreValid (post 3 50 7 water) shop (shelter-IsValid, tt)

abbrev victim : Principal
victim = record { user_id = 20; tenant_id = some 7; roles = "victim" ∷ [] }

abbrev asked : HelpRequestCreate
asked = record {
  category_id = 2;
  description = "a place for three";
  quantity_needed = pos 3;
  urgency = medium;
  requester_name = none;
  requester_phone = none;
  area = none;
  latitude = none;
  longitude = none;
  is_sensitive = false;
  extra_fields = null;
}
