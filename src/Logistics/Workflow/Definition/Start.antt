-- ===== src/Logistics/Workflow/Definition/Start.antt =====
-- workflow.py: the state that a request starts in.
use rcp_api.Base.{
  ◌≡◌, refl, ◌≢◌, ◌∙◌, true, false, some, List, [], ◌∷◌, arith, All, Bool-cases, inl, inr,
}
use rcp_api.Base.Json.{Value, null, obj}
use rcp_api.Base.Result.{ok, >>=-eq-ok, ok-injective}
use rcp_api.Logistics.Status.{RequestStatus, pending, eq_status, eq_status_sound, contains}
use rcp_api.Logistics.Workflow.{Transitions, targets, default_transitions, terminal_states}
use rcp_api.Logistics.Workflow.Definition.{
  has_source, encode, validate_object, validate_definition, allowed_next, initial_status,
}
use rcp_api.Logistics.Workflow.Definition.Checked.{IsEntry, validate_object-IsWellFormed}
use rcp_api.Logistics.Workflow.Definition.Stored.{allowed_next-encode}

eq_status_comm : (s t : RequestStatus) → eq_status s t ≡ eq_status t s
eq_status_comm s t = ground arith

source_lem :
    (ts : Transitions) (s : RequestStatus)
    → All IsEntry ts
    → has_source ts s ≡ true
    → (contains terminal_states s ≡ false) × (targets ts s ≢ [])
source_lem [] s all h = cc
source_lem ((source, next) ∷ ts) s all h = elim (Bool-cases (eq_status source s)) [
  | inl same ↦ rw same (rw (eq_status_sound source s same) at all.0.not_terminal, all.0.not_empty)
  | inr other ↦ rw other (source_lem ts s all.1 (rw (eq_status_comm s source ∙ other) at h))
]

-- The state is one that the workflow starts in and does not end in.
pub record IsStart (stored : Value) (s : RequestStatus) : Type 0 where
  pub initial : initial_status stored ≡ some s
  pub not_final : contains terminal_states s ≡ false
  pub next : List RequestStatus
  pub moves : allowed_next stored s ≡ some next
  pub some_move : next ≢ []

pub validate_definition-IsStart :
    (raw stored : Value)
    → validate_definition raw ≡ ok stored
    → (s : RequestStatus) × IsStart stored s
unfolding validate_definition initial_status allowed_next
validate_definition-IsStart null stored valid = rw (← ok-injective null stored valid) (
  pending,
  record {
    initial = refl;
    not_final = refl;
    next = targets default_transitions pending;
    moves = refl;
    some_move = λ empty. cc;
  },
)
validate_definition-IsStart (obj fs) stored valid =
    let (d, accepted, e) = >>=-eq-ok (validate_object fs) _ valid in
    let formed = validate_object-IsWellFormed fs d accepted in
    let (not_final, filled) = source_lem d.transitions d.initial formed.entries formed.starts in
    rw (← ok-injective (encode d) stored e) (
      d.initial,
      record {
        initial = (allowed_next-encode d d.initial).1;
        not_final = not_final;
        next = targets d.transitions d.initial;
        moves = (allowed_next-encode d d.initial).0;
        some_move = filled;
      },
    )
validate_definition-IsStart _ stored valid = cc
