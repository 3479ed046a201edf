-- ===== src/Logistics/Workflow.antt =====
-- services/logistics/app/services/workflow.py: the approval flow of a resource category.
pub mod Reach
pub mod Explore
pub mod Definition
use rcp_api.Base.{ℕ, zero, suc, Option, none, some, List, [], ◌∷◌, if◌then◌else◌}
use rcp_api.Logistics.Status.{
  RequestStatus, pending, verified, approved, in_progress, fulfilled, rejected, cancelled,
  eq_status, contains,
}

-- A Python dict from states to lists of states, in insertion order.
abbrev pub Transitions : Type 0
Transitions = List (RequestStatus × List RequestStatus)

-- `transitions.get(state, [])`
abbrev pub targets : Transitions → RequestStatus → List RequestStatus
targets [] s = []
targets ((source, next) ∷ rest) s = if eq_status source s then next else targets rest s

-- `transitions[source] = parsed`
abbrev pub assign : RequestStatus → List RequestStatus → Transitions → Transitions
assign source parsed [] = (source, parsed) ∷ []
assign source parsed ((s, next) ∷ rest) =
    if eq_status s source then (s, parsed) ∷ rest else (s, next) ∷ assign source parsed rest

abbrev pub default_initial : RequestStatus
default_initial = pending

abbrev pub default_transitions : Transitions
default_transitions =
    (pending, verified ∷ rejected ∷ cancelled ∷ [])
    ∷ (verified, approved ∷ rejected ∷ cancelled ∷ [])
    ∷ (approved, in_progress ∷ cancelled ∷ [])
    ∷ (in_progress, fulfilled ∷ cancelled ∷ [])
    ∷ []

abbrev pub terminal_states : List RequestStatus
terminal_states = fulfilled ∷ rejected ∷ cancelled ∷ []

-- The `seen` states and the `queue`, whose end, where `pop` and `append` work, is the head.
abbrev pub Work : Type 0
Work = List RequestStatus × List RequestStatus

-- The body of the `for` loop of `_reachable_from`.
pub mark : RequestStatus → Work → Work
mark target (seen, queue) =
    if contains seen target then (seen, queue) else (target ∷ seen, target ∷ queue)

pub visit : List RequestStatus → Work → Work
unfolding mark
visit [] work = work
visit (target ∷ rest) work = visit rest (mark target work)

-- The `while` loop, with fuel; `none` means that the fuel ran out.
pub explore : Transitions → ℕ → Work → Option (List RequestStatus)
explore transitions zero work = none
explore transitions (suc fuel) (seen, []) = some seen
explore transitions (suc fuel) (seen, s ∷ queue) =
    explore transitions fuel (visit (targets transitions s) (seen, queue))

-- Each of the seven states is queued at most once, so eight rounds are enough.
abbrev pub fuel : ℕ
fuel = 8

unfoldable pub reachable_from : RequestStatus → Transitions → Option (List RequestStatus)
unfolding explore visit
reachable_from initial transitions = explore transitions fuel (initial ∷ [], initial ∷ [])
