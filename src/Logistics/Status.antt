-- ===== src/Logistics/Status.antt =====
-- services/logistics/app/models/request.py: the states of a help request.
use rcp_api.Base.{
  ℕ, String, ◌≡◌, refl, Bool, true, Option, none, some, List, [], ◌∷◌, arith, ◌==◌, str_eq,
  if◌then◌else◌, exists,
}
use rcp_api.Base.Json.{Value, str}

pub data RequestStatus : Type 0 where
  pending verified approved in_progress fulfilled rejected cancelled : RequestStatus

-- `status.value`
abbrev pub value : RequestStatus → String
value pending = "pending"
value verified = "verified"
value approved = "approved"
value in_progress = "in_progress"
value fulfilled = "fulfilled"
value rejected = "rejected"
value cancelled = "cancelled"

-- `list(RequestStatus)`
abbrev pub statuses : List RequestStatus
statuses = pending ∷ verified ∷ approved ∷ in_progress ∷ fulfilled ∷ rejected ∷ cancelled ∷ []

abbrev rank : RequestStatus → ℕ
rank pending = 0
rank verified = 1
rank approved = 2
rank in_progress = 3
rank fulfilled = 4
rank rejected = 5
rank cancelled = 6

abbrev pub eq_status : RequestStatus → RequestStatus → Bool
eq_status s t = rank s == rank t

pub eq_status_sound : (s t : RequestStatus) → eq_status s t ≡ true → s ≡ t
eq_status_sound s t h = ground arith

pub eq_status_refl : (s : RequestStatus) → eq_status s s ≡ true
eq_status_refl s = ground arith

-- `status in states`
abbrev pub contains : List RequestStatus → RequestStatus → Bool
contains states s = exists (eq_status s) states

-- `next(s for s in RequestStatus if s.value == text)`
abbrev pub find_status : List RequestStatus → String → Option RequestStatus
find_status [] text = none
find_status (s ∷ rest) text = if str_eq (value s) text then some s else find_status rest text

-- `RequestStatus(value)`; `none` is its `ValueError`.
unfoldable pub parse_status : Value → Option RequestStatus
parse_status (str text) = find_status statuses text
parse_status _ = none

-- A state is read back from the text that it is stored as.
pub parse_status-value : (s : RequestStatus) → parse_status (str (value s)) ≡ some s
unfolding parse_status
parse_status-value pending = refl
parse_status-value _ = refl
