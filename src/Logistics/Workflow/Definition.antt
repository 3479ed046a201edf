-- ===== src/Logistics/Workflow/Definition.antt =====
-- `validate_definition`, `initial_status` and `allowed_next` of workflow.py, over the JSON values
-- that are submitted and stored.
pub mod Checked
pub mod Stored
pub mod Final
pub mod Start
use rcp_api.Base.{
  String, Bool, true, false, not, Option, none, some, List, [], ◌∷◌, str_eq, if◌then◌else◌, exists,
  forall,
}
use rcp_api.Base.Json.{
  Value, null, str, arr, obj, Items, no_items, item, Fields, no_fields, field, get, keys, truthy,
}
use rcp_api.Base.Result.{Result, ok, err, ◌>>=◌, ◌>>◌, require, expect}
use rcp_api.Logistics.Status.{RequestStatus, value, eq_status, contains, parse_status}
use rcp_api.Logistics.Workflow.{
  Transitions, targets, assign, default_initial, default_transitions, terminal_states,
  reachable_from,
}

-- The `WorkflowError`s, one for each message.
pub data WorkflowError : Type 0 where
  not_an_object unsupported_keys bad_transitions unreachable_states no_terminal : WorkflowError
  terminal_source no_targets duplicate_target self_transition initial_not_source :
      RequestStatus → WorkflowError
  not_a_status : Value → WorkflowError

pub record Definition : Type 0 where
  pub initial : RequestStatus
  pub transitions : Transitions

-- `_state`
unfoldable pub to_status : Value → Result WorkflowError RequestStatus
to_status v = expect (parse_status v) (not_a_status v)

pub to_statuses : Items → Result WorkflowError (List RequestStatus)
to_statuses no_items = ok []
to_statuses (item v vs) = do s ← to_status v; rest ← to_statuses vs; ok (s ∷ rest)

-- `len(set(parsed)) != len(parsed)`
abbrev pub has_duplicate : List RequestStatus → Bool
has_duplicate [] = false
has_duplicate (s ∷ rest) = if contains rest s then true else has_duplicate rest

-- `isinstance(targets, list) and targets`
pub listed : Value → Option Items
listed (arr (item v vs)) = some (item v vs)
listed _ = none

-- The body of the loop over `raw_transitions`, up to the assignment.
pub parse_targets : RequestStatus → Value → Result WorkflowError (List RequestStatus)
unfolding listed to_statuses to_status
parse_targets source next = do
  require (not (contains terminal_states source)) (terminal_source source)
  items ← expect (listed next) (no_targets source)
  parsed ← to_statuses items
  require (not (has_duplicate parsed)) (duplicate_target source)
  require (not (contains parsed source)) (self_transition source)
  ok parsed

pub parse_transitions : Fields → Transitions → Result WorkflowError Transitions
unfolding parse_targets
parse_transitions no_fields transitions = ok transitions
parse_transitions (field state next rest) transitions = do
  source ← to_status (str state)
  parsed ← parse_targets source next
  parse_transitions rest (assign source parsed transitions)

-- `isinstance(raw_transitions, dict) and raw_transitions`
pub transition_fields : Option Value → Option Fields
transition_fields (some (obj (field k v fs))) = some (field k v fs)
transition_fields _ = none

abbrev or_default : Option Value → Value
or_default none = str (value default_initial)
or_default (some v) = v

abbrev pub has_source : Transitions → RequestStatus → Bool
has_source transitions s = exists (λ entry. eq_status s entry.0) transitions

abbrev is_definition_key : String → Bool
is_definition_key k = if str_eq k "initial" then true else str_eq k "transitions"

-- The checks on what can be reached; the search always ends, so `none` does not occur.
pub check_reachable :
    RequestStatus → Transitions → Option (List RequestStatus) → Result WorkflowError Definition
check_reachable initial transitions none = err unreachable_states
check_reachable initial transitions (some reachable) = do
  require (forall (λ entry. contains reachable entry.0) transitions) unreachable_states
  require (exists (contains reachable) terminal_states) no_terminal
  ok (record { initial = initial; transitions = transitions })

unfoldable pub validate_object : Fields → Result WorkflowError Definition
unfolding parse_transitions transition_fields check_reachable
validate_object fs = do
  require (forall is_definition_key (keys fs)) unsupported_keys
  raw ← expect (transition_fields (get "transitions" fs)) bad_transitions
  transitions ← parse_transitions raw []
  initial ← to_status (or_default (get "initial" fs))
  require (has_source transitions initial) (initial_not_source initial)
  check_reachable initial transitions (reachable_from initial transitions)

abbrev encode_items : List RequestStatus → Items
encode_items [] = no_items
encode_items (s ∷ rest) = item (str (value s)) (encode_items rest)

abbrev encode_transitions : Transitions → Fields
encode_transitions [] = no_fields
encode_transitions ((source, next) ∷ rest) =
    field (value source) (arr (encode_items next)) (encode_transitions rest)

-- The dict that `validate_definition` returns, which is what the column holds.
pub encode : Definition → Value
encode d = obj (
    field "initial" (str (value d.initial))
      (field "transitions" (obj (encode_transitions d.transitions)) no_fields))

unfoldable pub validate_definition : Value → Result WorkflowError Value
unfolding validate_object encode
validate_definition null = ok null
validate_definition (obj fs) = do d ← validate_object fs; ok (encode d)
validate_definition _ = err not_an_object

-- `{RequestStatus(target) for target in targets}`; `none` is an exception.
read_items : Items → Option (List RequestStatus)
read_items no_items = some []
read_items (item v vs) = elim (parse_status v) [
  | none ↦ none
  | some s ↦ elim (read_items vs) [ none ↦ none | some rest ↦ some (s ∷ rest) ]
]

-- What `for target in targets` yields of a dict.
abbrev key_items : Fields → Items
key_items no_fields = no_items
key_items (field k v fs) = item (str k) (key_items fs)

-- A text is iterated by its characters, of which none is a status.
read_targets : Option Value → Option (List RequestStatus)
unfolding read_items
read_targets none = some []
read_targets (some (arr items)) = read_items items
read_targets (some (obj fs)) = read_items (key_items fs)
read_targets (some (str text)) = if str_eq text "" then some [] else none
read_targets (some _) = none

read_transitions : RequestStatus → Option Value → Option (List RequestStatus)
unfolding read_targets
read_transitions current none = some []
read_transitions current (some (obj ts)) = read_targets (get (value current) ts)
read_transitions current (some _) = none

stored_next : Value → RequestStatus → Option (List RequestStatus)
unfolding read_transitions
stored_next (obj fs) current = read_transitions current (get "transitions" fs)
stored_next _ current = none

unfoldable pub allowed_next : Value → RequestStatus → Option (List RequestStatus)
unfolding stored_next
allowed_next workflow current =
    if truthy workflow
    then stored_next workflow current
    else some (targets default_transitions current)

stored_initial : Value → Option RequestStatus
stored_initial (obj fs) = parse_status (or_default (get "initial" fs))
stored_initial _ = none

unfoldable pub initial_status : Value → Option RequestStatus
unfolding stored_initial parse_status
initial_status workflow = if truthy workflow then stored_initial workflow else some default_initial
