-- ===== src/Logistics/Workflow/Definition/Stored.antt =====
-- workflow.py: reading a stored definition back.
use rcp_api.Base.{Bool-cases, inl, inr, ◌≡◌, refl, some, List, [], ◌∷◌, arith, str_eq}
use rcp_api.Base.Json.{get}
use rcp_api.Logistics.Status.{
  RequestStatus, pending, verified, approved, in_progress, fulfilled, rejected, cancelled, value,
  eq_status, parse_status-value,
}
use rcp_api.Logistics.Workflow.{Transitions, targets}
use rcp_api.Logistics.Workflow.Definition.{
  Definition, encode_items, encode_transitions, encode, read_items, read_targets, allowed_next,
  initial_status,
}

value_eq : (s t : RequestStatus) → str_eq (value s) (value t) ≡ eq_status s t
value_eq = elim [
  | pending ↦ elim [ pending ↦ refl | _ ↦ refl ]
  | verified ↦ elim [ verified ↦ refl | _ ↦ refl ]
  | approved ↦ elim [ approved ↦ refl | _ ↦ refl ]
  | in_progress ↦ elim [ in_progress ↦ refl | _ ↦ refl ]
  | fulfilled ↦ elim [ fulfilled ↦ refl | _ ↦ refl ]
  | rejected ↦ elim [ rejected ↦ refl | _ ↦ refl ]
  | cancelled ↦ elim [ cancelled ↦ refl | _ ↦ refl ]
]

read_items-encode : (next : List RequestStatus) → read_items (encode_items next) ≡ some next
unfolding read_items
read_items-encode [] = refl
read_items-encode (s ∷ rest) = ground (arith, parse_status-value s, read_items-encode rest)

read_targets-encode :
    (ts : Transitions) (s : RequestStatus)
    → read_targets (get (value s) (encode_transitions ts)) ≡ some (targets ts s)
unfolding read_targets
read_targets-encode [] s = refl
read_targets-encode ((source, next) ∷ rest) s = elim (Bool-cases (eq_status source s)) [
  | inl same ↦ rw (value_eq source s, same) (read_items-encode next)
  | inr other ↦ rw (value_eq source s, other) (read_targets-encode rest s)
]

-- A stored workflow definition allows exactly the next states that it lists, and starts where it
-- says.
pub allowed_next-encode :
    (d : Definition) (s : RequestStatus)
    → (allowed_next (encode d) s ≡ some (targets d.transitions s))
      × (initial_status (encode d) ≡ some d.initial)
unfolding allowed_next initial_status encode
allowed_next-encode d s = (read_targets-encode d.transitions s, parse_status-value d.initial)
