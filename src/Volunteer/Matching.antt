-- ===== src/Volunteer/Matching.antt =====
-- services/volunteer/app/services/matching.py: the answers of the volunteers. Accepting is first
-- come, first served, by one conditional `UPDATE`; the other answers walk a fixed table.
pub mod Quota
pub mod Accept
pub mod Answers
use rcp_api.Base.{
  ℕ, ◌+◌, String, Bool, true, false, not, Option, none, some, List, [], ◌∷◌, map, ◌&&◌, ◌==◌, ltb,
  leb, if◌then◌else◌, exists, first, select, count, update,
}
use rcp_api.Base.Result.{Result, ok, err}
use rcp_api.Base.Tx.{Tx, ◌>>=◌, ◌>>◌, pure, raise, raise_if, or_raise, gets, modify, commit}
use rcp_api.Volunteer.Db.{
  AssignmentStatus, notified, accepted, declined, rejected_full, en_route, completed, fulfilled,
  team_formed, VolunteerProfile, DisasterEvent, EventRequirement, EventVolunteerMapping, Member,
  fulfilled_data, team_data, assignment_data, Db, emit, is_notified, is_accepted, is_en_route,
  is_fulfilled, is_team_formed,
}

-- `AssignmentError`, by message, and `QuotaFullError`; `no_row` is the exception of `.one()`, or of
-- an attribute of `None`, where a foreign key does not lead to a row.
pub data AssignmentError : Type 0 where
  not_found quota_full no_row : AssignmentError
  already : AssignmentStatus → AssignmentError
  cannot_move : AssignmentStatus → AssignmentStatus → AssignmentError
  not_direct : AssignmentStatus → AssignmentError

-- The join of the mapping with the profile of the user who answers.
pub owns : ℕ → ℕ → Db → EventVolunteerMapping → Bool
owns mapping_id user db m =
    (m.id == mapping_id)
    && exists (λ (p : VolunteerProfile). (p.id == m.volunteer_id) && (p.user_id == user))
        db.profiles

-- Step 1: the guarded update of the mapping.
pub claimable : ℕ → EventVolunteerMapping → Bool
claimable id m = (m.id == id) && is_notified m.status

pub claim : ℕ → EventVolunteerMapping → EventVolunteerMapping
claim now m = record m { status = accepted; responded_at = some now }

pub reject : ℕ → EventVolunteerMapping → EventVolunteerMapping
reject now m = record m { status = rejected_full; responded_at = some now }

-- Step 2: the quota gate.
pub has_room : ℕ → EventRequirement → Bool
has_room id r = (r.id == id) && ltb r.filled_count r.required_count

pub fill : EventRequirement → EventRequirement
fill r = record r { filled_count = r.filled_count + 1 }

pub close_bucket : EventRequirement → EventRequirement
close_bucket r = record r { status = fulfilled }

pub form_team : DisasterEvent → DisasterEvent
form_team event = record event { status = team_formed }

-- The team of the event: who has accepted, as `status == ACCEPTED` says.
pub team_of : ℕ → Db → List Member
team_of event_id db =
    map
      (λ m. record {
        volunteer = first (λ (p : VolunteerProfile). p.id == m.volunteer_id) db.profiles;
        requirement = first (λ (r : EventRequirement). r.id == m.requirement_id) db.requirements;
      })
      (select (λ (m : EventVolunteerMapping). (m.event_id == event_id) && is_accepted m.status)
        db.mappings)

pub open_left : ℕ → Db → ℕ
open_left event_id db =
    count (λ (r : EventRequirement). (r.event_id == event_id) && not (is_fulfilled r.status))
      db.requirements

-- The end of `_mark_requirement_fulfilled`: the team is formed when no bucket is left.
pub announce_team : DisasterEvent → Tx Db AssignmentError Unit
announce_team event = do
  left ← gets (open_left event.id)
  team ← gets (team_of event.id)
  if (left == 0) && not (is_team_formed event.status)
      then (do
        modify (λ db. record db { events = update (λ e. e.id == event.id) form_team db.events })
        emit "volunteer.team.formed" (some event.tenant_id)
            (team_data event.id event.title event.source_district team))
      else pure tt

-- `_mark_requirement_fulfilled`
pub mark_requirement_fulfilled : ℕ → Tx Db AssignmentError Unit
unfolding announce_team
mark_requirement_fulfilled requirement_id = do
  row ← gets (λ db. first (λ (r : EventRequirement). r.id == requirement_id) db.requirements)
  requirement ← or_raise row no_row
  parent ← gets (λ db. first (λ (e : DisasterEvent). e.id == requirement.event_id) db.events)
  event ← or_raise parent no_row
  modify (λ db. record db {
    requirements = update (λ r. r.id == requirement.id) close_bucket db.requirements;
  })
  emit "volunteer.requirement.fulfilled" (some event.tenant_id)
      (fulfilled_data event.id requirement.id requirement.skill requirement.required_count)
  announce_team event

-- What `accept_assignment` does with what the quota gate returned: nothing, or the row that it
-- incremented.
pub settle :
    ℕ
    → EventVolunteerMapping
    → Option EventRequirement
    → Tx Db AssignmentError EventVolunteerMapping
unfolding mark_requirement_fulfilled
settle now mapping none = do
  modify (λ db. record db { mappings = update (λ m. m.id == mapping.id) (reject now) db.mappings })
  commit
  raise quota_full
settle now mapping (some row) = do
  if leb row.required_count (row.filled_count + 1)
      then mark_requirement_fulfilled mapping.requirement_id
      else pure tt
  commit
  pure (claim now mapping)

unfoldable pub accept_assignment : ℕ → ℕ → ℕ → Tx Db AssignmentError EventVolunteerMapping
accept_assignment now mapping_id user = do
  found ← gets (λ db. first (owns mapping_id user db) db.mappings)
  mapping ← or_raise found not_found
  claimed ← gets (λ db. count (claimable mapping.id) db.mappings)
  raise_if (claimed == 0) (already mapping.status)
  modify (λ db. record db { mappings = update (claimable mapping.id) (claim now) db.mappings })
  row ← gets (λ db. first (has_room mapping.requirement_id) db.requirements)
  modify (λ db. record db {
    requirements = update (has_room mapping.requirement_id) fill db.requirements;
  })
  settle now mapping row

-- `_TRANSITIONS.get(new_status)`: the states from which it may be entered.
pub allowed_from : AssignmentStatus → Option (AssignmentStatus → Bool)
allowed_from declined = some is_notified
allowed_from en_route = some is_accepted
allowed_from completed = some (λ s. if is_en_route s then true else is_accepted s)
allowed_from _ = none

-- `f"volunteer.assignment.{new_status.value.lower().replace('_', '-')}"`
abbrev assignment_key : AssignmentStatus → String
assignment_key notified = "volunteer.assignment.notified"
assignment_key accepted = "volunteer.assignment.accepted"
assignment_key declined = "volunteer.assignment.declined"
assignment_key rejected_full = "volunteer.assignment.rejected-full"
assignment_key en_route = "volunteer.assignment.en-route"
assignment_key completed = "volunteer.assignment.completed"

pub answer : ℕ → AssignmentStatus → EventVolunteerMapping → EventVolunteerMapping
answer now new m = record m { status = new; responded_at = some now }

unfoldable pub transition_assignment :
    ℕ → ℕ → ℕ → AssignmentStatus → Tx Db AssignmentError EventVolunteerMapping
transition_assignment now mapping_id user new = do
  test ← or_raise (allowed_from new) (not_direct new)
  found ← gets (λ db. first (owns mapping_id user db) db.mappings)
  mapping ← or_raise found not_found
  changed ← gets (λ db.
      count (λ (m : EventVolunteerMapping). (m.id == mapping.id) && test m.status) db.mappings)
  raise_if (changed == 0) (cannot_move mapping.status new)
  modify (λ db. record db {
    mappings = update (λ m. (m.id == mapping.id) && test m.status) (answer now new) db.mappings;
  })
  parent ← gets (λ db. first (λ (e : DisasterEvent). e.id == mapping.event_id) db.events)
  event ← or_raise parent no_row
  emit (assignment_key new) (some event.tenant_id)
      (assignment_data mapping.event_id mapping.requirement_id user new)
  commit
  pure (answer now new mapping)
