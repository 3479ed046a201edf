-- ===== src/Logistics/Workflow/Definition/Final.antt =====
-- workflow.py: terminal states in workflows that were accepted and in the default one.
use rcp_api.Base.{◌≡◌, refl, true, some, [], ◌∷◌, arith, All, ap, ◌∙◌, Bool-cases, inl, inr}
use rcp_api.Base.Json.{Value, null, obj}
use rcp_api.Base.Result.{ok, >>=-eq-ok, ok-injective}
use rcp_api.Logistics.Status.{RequestStatus, eq_status, eq_status_sound, contains}
use rcp_api.Logistics.Workflow.{Transitions, targets, terminal_states}
use rcp_api.Logistics.Workflow.Definition.{
  encode, validate_object, validate_definition, allowed_next,
}
use rcp_api.Logistics.Workflow.Definition.Checked.{IsEntry, validate_object-IsWellFormed}
use rcp_api.Logistics.Workflow.Definition.Stored.{allowed_next-encode}

targets_final :
    (ts : Transitions) (s : RequestStatus)
    → All IsEntry ts
    → contains terminal_states s ≡ true
    → targets ts s ≡ []
targets_final [] s all final = refl
targets_final ((source, next) ∷ ts) s all final = elim (Bool-cases (eq_status source s)) [
  | inl same ↦ cc (rw (eq_status_sound source s same) at all.0.not_terminal)
  | inr other ↦ rw other (targets_final ts s all.1 final)
]

default_final :
    (s : RequestStatus) → contains terminal_states s ≡ true → allowed_next null s ≡ some []
unfolding allowed_next
default_final s final = ground arith

-- A workflow that `validate_definition` returns, the default among them, allows nothing after a
-- terminal state.
pub allowed_next_final :
    (raw stored : Value) (s : RequestStatus)
    → validate_definition raw ≡ ok stored
    → contains terminal_states s ≡ true
    → allowed_next stored s ≡ some []
unfolding validate_definition
allowed_next_final null stored s valid final =
    rw (← ok-injective null stored valid) (default_final s final)
allowed_next_final (obj fs) stored s valid final =
    let (d, accepted, e) = >>=-eq-ok (validate_object fs) _ valid in
    let formed = validate_object-IsWellFormed fs d accepted in
    rw (← ok-injective (encode d) stored e)
      ((allowed_next-encode d s).0 ∙ ap some (targets_final d.transitions s formed.entries final))
allowed_next_final _ stored s valid final = cc
