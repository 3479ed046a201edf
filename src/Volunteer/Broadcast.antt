-- ===== src/Volunteer/Broadcast.antt =====
-- services/volunteer/app/services/matching.py: a disaster is declared, and the volunteers of the
-- resolved districts are notified, bucket by bucket. Also the consumer that triggers it.
pub mod Asked
pub mod Candidates
pub mod Buckets
pub mod Notices
use rcp_api.Base.{
  ℕ, ◌+◌, String, Bool, true, false, not, Option, none, some, List, [], ◌∷◌, ◌++◌, map, ◌&&◌, ◌==◌,
  leb, exists, first, select, update, str_eq, if◌then◌else◌,
}
use rcp_api.Base.Json.{Value}
use rcp_api.Base.Result.{Result, ok, err}
use rcp_api.Base.Tx.{Tx, ◌>>=◌, ◌>>◌, pure, raise, gets, modify, commit}
use rcp_api.Volunteer.Db.{
  EventStatus, declared, broadcasting, open_bucket, notified, VolunteerProfile, DisasterEvent,
  EventRequirement, EventVolunteerMapping, notified_data, declared_data, Db, emit, is_open,
}
use rcp_api.Volunteer.Districts.{DistrictError, mem, resolve_broadcast_districts}

-- The value of a result that may be an exception.
abbrev pub lift : {A : Type 0} → Result DistrictError A → Tx Db DistrictError A
lift r s = (r, s)

pub record DisasterEventCreate : Type 0 where
  pub title : String
  pub description : Option String
  pub source_district : String
  pub broadcast_type : String
  pub target_districts : List String
  pub latitude : Option Value
  pub longitude : Option Value
  pub requirements : List (String × ℕ)

pub new_event : ℕ → ℕ → ℕ → DisasterEventCreate → DisasterEvent
new_event id tenant creator form = record {
  id = id;
  tenant_id = tenant;
  title = form.title;
  description = form.description;
  source_district = form.source_district;
  broadcast_type = form.broadcast_type;
  target_districts = form.target_districts;
  status = declared;
  created_by = creator;
  latitude = form.latitude;
  longitude = form.longitude;
}

-- One bucket for each requirement, with consecutive fresh ids.
pub new_requirements : ℕ → ℕ → List (String × ℕ) → List EventRequirement
new_requirements id event [] = []
new_requirements id event ((skill, required) ∷ rest) =
    record {
      id = id;
      event_id = event;
      skill = skill;
      required_count = required;
      filled_count = 0;
      status = open_bucket;
    }
    ∷ new_requirements (id + 1) event rest

-- `declare_event`, with the ids of the event and of its first bucket, and the time
unfoldable pub declare_event :
    ℕ → ℕ → ℕ → ℕ → ℕ → DisasterEventCreate → Tx Db DistrictError DisasterEvent
declare_event id first_id now tenant creator form = do
  resolved ←
      lift
        (resolve_broadcast_districts form.broadcast_type form.source_district form.target_districts)
  let event = new_event id tenant creator form
  modify (λ db. record db {
    events = db.events ++ event ∷ [];
    requirements = db.requirements ++ new_requirements first_id id form.requirements;
  })
  emit "volunteer.disaster.declared" (some tenant)
      (declared_data event resolved form.requirements now)
  commit
  pure event

-- `ORDER BY created_at`
unfoldable pub insert_created : VolunteerProfile → List VolunteerProfile → List VolunteerProfile
insert_created v [] = v ∷ []
insert_created v (x ∷ xs) =
    let rest = insert_created v xs in
    if leb v.created_at x.created_at then v ∷ (x ∷ xs) else x ∷ rest

unfoldable pub by_created : List VolunteerProfile → List VolunteerProfile
by_created [] = []
by_created (v ∷ vs) = insert_created v (by_created vs)

-- The WHERE of `_find_candidates`.
abbrev pub matches : List String → String → VolunteerProfile → Bool
matches districts skill v =
    v.available_status
    && (v.is_active
        && ((elim v.base_district [ none ↦ false | some d ↦ mem d districts ])
            && mem skill v.skills))

abbrev pub has_id : List ℕ → ℕ → Bool
has_id ids id = exists (λ x. x == id) ids

unfoldable pub find_candidates : List String → String → List ℕ → Db → List VolunteerProfile
find_candidates districts skill excluded db =
    select (λ v. not (has_id excluded v.id))
      (by_created (select (matches districts skill) db.profiles))

unfoldable pub new_mapping :
    ℕ → DisasterEvent → EventRequirement → VolunteerProfile → EventVolunteerMapping
new_mapping id event requirement v = record {
  id = id;
  event_id = event.id;
  requirement_id = requirement.id;
  volunteer_id = v.id;
  status = notified;
  responded_at = none;
}

-- The inner loop: one mapping and one event for each volunteer; `ids n` is the id of the mapping that
-- is added as number n.
unfoldable pub notify_all :
    (ℕ → ℕ) → DisasterEvent → EventRequirement → List VolunteerProfile → ℕ → Tx Db DistrictError ℕ
notify_all ids event requirement [] count = pure count
notify_all ids event requirement (v ∷ vs) count = do
  modify (λ db. record db {
    mappings = db.mappings ++ new_mapping (ids count) event requirement v ∷ [];
  })
  emit "volunteer.assignment.notified" (some event.tenant_id) (
      notified_data event.id requirement.id v.user_id requirement.skill event.source_district
        event.title)
  notify_all ids event requirement vs (count + 1)

-- The outer loop, with the set `already_mapped`.
unfoldable pub match_buckets :
    (ℕ → ℕ)
    → DisasterEvent
    → List String
    → List EventRequirement
    → List ℕ
    → ℕ
    → Tx Db DistrictError ℕ
match_buckets ids event districts [] mapped count = pure count
match_buckets ids event districts (r ∷ rs) mapped count =
    if is_open r.status
    then (do
      found ← gets (find_candidates districts r.skill mapped)
      count' ← notify_all ids event r found count
      match_buckets ids event districts rs (mapped ++ map (λ (v : VolunteerProfile). v.id) found)
          count')
    else match_buckets ids event districts rs mapped count

abbrev pub can_match : EventStatus → Bool
can_match declared = true
can_match broadcasting = true
can_match _ = false

abbrev pub mapped_ids : ℕ → Db → List ℕ
mapped_ids event db =
    map (λ (m : EventVolunteerMapping). m.volunteer_id)
      (select (λ (m : EventVolunteerMapping). m.event_id == event) db.mappings)

abbrev pub buckets_of : ℕ → Db → List EventRequirement
buckets_of event db = select (λ (r : EventRequirement). r.event_id == event) db.requirements

-- `run_matching`, with the event that it locked.
pub match_event : (ℕ → ℕ) → DisasterEvent → Tx Db DistrictError ℕ
match_event ids event = do
  districts ← lift (
      resolve_broadcast_districts event.broadcast_type event.source_district event.target_districts)
  mapped ← gets (mapped_ids event.id)
  buckets ← gets (buckets_of event.id)
  count ← match_buckets ids event districts buckets mapped 0
  modify (λ db. record db {
    events =
        update (λ (e : DisasterEvent). e.id == event.id) (λ e. record e { status = broadcasting })
          db.events;
  })
  commit
  pure count

pub match_found : (ℕ → ℕ) → Option DisasterEvent → Tx Db DistrictError ℕ
match_found ids none = pure 0
match_found ids (some event) = if can_match event.status then match_event ids event else pure 0

unfoldable pub run_matching : (ℕ → ℕ) → ℕ → Tx Db DistrictError ℕ
unfolding match_found
run_matching ids event_id = do
  event ← gets (λ db. first (λ (e : DisasterEvent). e.id == event_id) db.events)
  match_found ids event

-- `_handle` of disaster_events.py: the envelope's id, and the event that it is about
unfoldable pub handle_declared : (ℕ → ℕ) → ℕ → ℕ → Tx Db DistrictError (Unit {0})
handle_declared ids envelope event_id = do
  seen ← gets (λ db. has_id db.processed envelope)
  if seen then pure tt else (do
    modify (λ db. record db { processed = db.processed ++ envelope ∷ [] })
    count ← run_matching ids event_id
    commit)
