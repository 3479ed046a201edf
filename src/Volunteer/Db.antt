-- ===== src/Volunteer/Db.antt =====
-- services/volunteer/app/models: the rows of schema_volunteer, and the events of its outbox.
use rcp_api.Base.{ℕ, String, Bool, true, false, Option, List, [], ◌∷◌, ◌++◌}
use rcp_api.Base.Json.{Value}
use rcp_api.Base.Tx.{Tx, modify}

pub data EventStatus : Type 0 where
  declared broadcasting team_formed closed : EventStatus

pub data RequirementStatus : Type 0 where
  open_bucket fulfilled : RequirementStatus

pub data AssignmentStatus : Type 0 where
  notified accepted declined rejected_full en_route completed : AssignmentStatus

pub record VolunteerProfile : Type 0 where
  pub id : ℕ
  pub user_id : ℕ
  pub full_name : String
  pub phone : Option String
  pub is_active : Bool
  pub source_updated_at : Option ℕ
  pub base_district : Option String
  pub city : Option String
  pub available_status : Bool
  pub skills : List String
  pub created_at : ℕ

pub record DisasterEvent : Type 0 where
  pub id : ℕ
  pub tenant_id : ℕ
  pub title : String
  pub description : Option String
  pub source_district : String
  pub broadcast_type : String
  pub target_districts : List String
  pub status : EventStatus
  pub created_by : ℕ
  pub latitude : Option Value
  pub longitude : Option Value

pub record EventRequirement : Type 0 where
  pub id : ℕ
  pub event_id : ℕ
  pub skill : String
  pub required_count : ℕ
  pub filled_count : ℕ
  pub status : RequirementStatus

pub record EventVolunteerMapping : Type 0 where
  pub id : ℕ
  pub event_id : ℕ
  pub requirement_id : ℕ
  pub volunteer_id : ℕ
  pub status : AssignmentStatus
  pub responded_at : Option ℕ

-- One entry of the team of `volunteer.team.formed`: the related rows that it is read from.
pub record Member : Type 0 where
  pub volunteer : Option VolunteerProfile
  pub requirement : Option EventRequirement

-- The `data` of an event.
pub data Payload : Type 0 where
  notified_data :
      (event_id requirement_id volunteer_user_id : ℕ) (skill source_district title : String)
      → Payload
  fulfilled_data : (event_id requirement_id : ℕ) (skill : String) (required_count : ℕ) → Payload
  team_data : (event_id : ℕ) (title source_district : String) (team : List Member) → Payload
  assignment_data :
      (event_id requirement_id volunteer_user_id : ℕ) (status : AssignmentStatus) → Payload
  declared_data :
      DisasterEvent
      → (resolved_districts : List String) (requirements : List (String × ℕ)) → (occurred_at : ℕ)
      → Payload

-- What a service passes to `emit`.
pub record Event : Type 0 where
  pub routing_key : String
  pub tenant_id : Option ℕ
  pub payload : Payload

pub record Db : Type 0 where
  pub events : List DisasterEvent
  pub requirements : List EventRequirement
  pub mappings : List EventVolunteerMapping
  pub profiles : List VolunteerProfile
  pub processed : List ℕ
  pub outbox : List Event

-- app/events/publisher.py
abbrev pub emit : {E : Type 0} → String → Option ℕ → Payload → Tx Db E (Unit {0})
emit key tenant payload = modify λ db. record db {
  outbox = db.outbox ++ record { routing_key = key; tenant_id = tenant; payload = payload } ∷ [];
}

-- `status == AssignmentStatus.NOTIFIED`, and so on
abbrev pub is_notified : AssignmentStatus → Bool
is_notified notified = true
is_notified _ = false

abbrev pub is_accepted : AssignmentStatus → Bool
is_accepted accepted = true
is_accepted _ = false

abbrev pub is_en_route : AssignmentStatus → Bool
is_en_route en_route = true
is_en_route _ = false

abbrev pub is_open : RequirementStatus → Bool
is_open open_bucket = true
is_open fulfilled = false

abbrev pub is_fulfilled : RequirementStatus → Bool
is_fulfilled open_bucket = false
is_fulfilled fulfilled = true

abbrev pub is_team_formed : EventStatus → Bool
is_team_formed team_formed = true
is_team_formed _ = false
