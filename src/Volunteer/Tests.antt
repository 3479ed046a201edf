-- ===== src/Volunteer/Tests.antt =====
-- Runs of services/volunteer at concrete rows.
use rcp_api.Base.{
  inr, ℕ, ◌≡◌, refl, String, true, none, some, List, [], ◌∷◌, ◌++◌, arith, All, forall, length,
}
use rcp_api.Base.Result.{ok}
use rcp_api.Base.Tx.{run}
use rcp_api.Volunteer.Db.{
  broadcasting, open_bucket, notified, declined, VolunteerProfile, DisasterEvent, EventRequirement,
  EventVolunteerMapping, Db,
}
use rcp_api.Volunteer.Districts.{
  adjacency, is_valid_district, resolve_targets, resolve_broadcast_districts,
}
use rcp_api.Volunteer.Districts.Broadcast.{resolve_sound}
use rcp_api.Volunteer.Broadcast.{run_matching}
use rcp_api.Volunteer.Broadcast.Candidates.{IsNotice}
use rcp_api.Volunteer.Broadcast.Notices.{has_mapping, IsAsked, run_matching_notifies}
use rcp_api.Volunteer.Profiles.{UserData, Envelope, handle}
use rcp_api.Volunteer.Profiles.Delivery.{deliver_all, handle_again}
use rcp_api.Volunteer.Matching.{accept_assignment, transition_assignment}
use rcp_api.Volunteer.Matching.Answers.{transition_assignment-IsQuota}
use rcp_api.Volunteer.Matching.Accept.{IsQuota, accept_assignment-IsQuota}

abbrev nimal : VolunteerProfile
nimal = record {
  id = 11;
  user_id = 21;
  full_name = "Nimal";
  phone = none;
  is_active = true;
  source_updated_at = some 0;
  base_district = some "Galle";
  city = none;
  available_status = true;
  skills = "boat_driver" ∷ [];
  created_at = 0;
}

abbrev flood : DisasterEvent
flood = record {
  id = 1;
  tenant_id = 7;
  title = "flood";
  description = none;
  source_district = "Galle";
  broadcast_type = "RADIUS_L1";
  target_districts = [];
  status = broadcasting;
  created_by = 9;
  latitude = none;
  longitude = none;
}

abbrev boats : EventRequirement
boats = record {
  id = 2;
  event_id = 1;
  skill = "boat_driver";
  required_count = 1;
  filled_count = 0;
  status = open_bucket;
}

abbrev asked : EventVolunteerMapping
asked = record {
  id = 3;
  event_id = 1;
  requirement_id = 2;
  volunteer_id = 11;
  status = notified;
  responded_at = none;
}

abbrev river : Db
river = record {
  events = flood ∷ [];
  requirements = boats ∷ [];
  mappings = asked ∷ [];
  profiles = nimal ∷ [];
  processed = [];
  outbox = [];
}

river-IsQuota : IsQuota river
river-IsQuota = ground arith

accept_assignment-IsQuota_example : IsQuota (run (accept_assignment 40 3 21) river).1
accept_assignment-IsQuota_example = accept_assignment-IsQuota 40 3 21 river river-IsQuota

-- The same flood before anyone was notified.
abbrev quiet_river : Db
quiet_river = record river { mappings = [] }

run_matching_notifies_example :
    (new : List EventVolunteerMapping) × ((run (run_matching (λ n. n) 1) quiet_river).0
      ≡ ok (length new))
    × ((run (run_matching (λ n. n) 1) quiet_river).1.mappings ≡ [] ++ new)
    × All
        (IsNotice flood
          ("Galle" ∷ [])
          quiet_river.requirements
          (nimal ∷ [])
          (has_mapping 1 quiet_river))
        new
    × All
        (λ r. All (IsAsked flood ("Galle" ∷ []) quiet_river new r) (nimal ∷ []))
        quiet_river.requirements
unfolding resolve_broadcast_districts adjacency
run_matching_notifies_example =
    run_matching_notifies (λ n. n) 1 quiet_river flood ("Galle" ∷ []) refl (inr refl) refl

resolve_sound_example : forall is_valid_district ("Galle" ∷ "Kandy" ∷ []) ≡ true
unfolding resolve_broadcast_districts resolve_targets adjacency
resolve_sound_example =
    resolve_sound "TARGETED" "Jaffna" ("Kandy" ∷ "Galle" ∷ "Kandy" ∷ []) ("Galle" ∷ "Kandy" ∷ [])
      refl

abbrev identity : String → ℕ → UserData
identity name time = record {
  user_type = some "VOLUNTEER";
  user_id = 21;
  full_name = name;
  phone = none;
  is_active = none;
  updated_at = time;
}

abbrev registered : Envelope
registered = record {
  event_id = 100;
  event_type = "iam.user.registered";
  user = identity "Nimal" 5;
}

abbrev renamed : Envelope
renamed = record { event_id = 101; event_type = "iam.user.updated"; user = identity "Nimal P" 6 }

handle_again_example :
    let db' = deliver_all ((14, 10, renamed) ∷ []) (handle 12 9 registered river) in
    handle 13 11 registered db' ≡ db'
handle_again_example = handle_again 12 9 13 11 registered ((14, 10, renamed) ∷ []) river

transition_assignment-IsQuota_example :
    IsQuota (run (transition_assignment 40 3 21 declined) river).1
transition_assignment-IsQuota_example =
    transition_assignment-IsQuota 40 3 21 declined river river-IsQuota
