-- ===== src/Volunteer/Profiles.antt =====
-- services/volunteer/app/events/consumers/iam.py: the profiles as copies of IAM's users.
pub mod Delivery
use rcp_api.Base.{
  ℕ, ◌+◌, String, Bool, true, false, Option, none, some, List, [], ◌∷◌, ◌++◌, ◌==◌, ◌||◌, leb,
  first, exists, update, str_eq, if◌then◌else◌,
}
use rcp_api.Base.Result.{Result}
use rcp_api.Base.Tx.{Tx, ◌>>=◌, ◌>>◌, pure, gets, modify, commit}
use rcp_api.Volunteer.Db.{VolunteerProfile, Db}

-- The `data` of an IAM event, parsed: ids as UUIDs, times as instants. Of a deactivation only the
-- user's id is read.
pub record UserData : Type 0 where
  pub user_type : Option String
  pub user_id : ℕ
  pub full_name : String
  pub phone : Option String
  pub is_active : Option Bool
  pub updated_at : ℕ

pub record Envelope : Type 0 where
  pub event_id : ℕ
  pub event_type : String
  pub user : UserData

-- `data.get("is_active", True)`
abbrev pub active_or_true : Option Bool → Bool
active_or_true none = true
active_or_true (some b) = b

abbrev pub is_volunteer : Option String → Bool
is_volunteer none = false
is_volunteer (some kind) = str_eq kind "VOLUNTEER"

-- The row that a first event inserts, with its id and its time.
unfoldable pub new_profile : ℕ → ℕ → UserData → VolunteerProfile
new_profile id now user = record {
  id = id;
  user_id = user.user_id;
  full_name = user.full_name;
  phone = user.phone;
  is_active = active_or_true user.is_active;
  source_updated_at = some user.updated_at;
  base_district = none;
  city = none;
  available_status = false;
  skills = [];
  created_at = now;
}

-- `profile.source_updated_at is None or profile.source_updated_at <= source_updated_at`
abbrev pub not_stale : Option ℕ → ℕ → Bool
not_stale none t = true
not_stale (some held) t = leb held t

unfoldable pub refresh_profile : UserData → VolunteerProfile → VolunteerProfile
refresh_profile user p =
    if not_stale p.source_updated_at user.updated_at
    then record p {
      full_name = user.full_name;
      phone = user.phone;
      is_active = active_or_true user.is_active;
      source_updated_at = some user.updated_at;
    }
    else p

-- The two branches of `_upsert_profile`; `user_id` is unique.
unfoldable pub upsert_rows : ℕ → ℕ → UserData → List VolunteerProfile → List VolunteerProfile
upsert_rows id now user rows =
    if exists (λ (p : VolunteerProfile). p.user_id == user.user_id) rows
    then update (λ p. p.user_id == user.user_id) (refresh_profile user) rows
    else rows ++ new_profile id now user ∷ []

pub deactivate : VolunteerProfile → VolunteerProfile
deactivate p = record p { is_active = false; available_status = false }

-- What `_handle` does to the table, by the type of the event.
unfoldable pub apply_event : ℕ → ℕ → Envelope → List VolunteerProfile → List VolunteerProfile
apply_event id now e rows =
    if str_eq e.event_type "iam.user.registered" || str_eq e.event_type "iam.user.updated"
    then (if is_volunteer e.user.user_type then upsert_rows id now e.user rows else rows)
    else if str_eq e.event_type "iam.user.deactivated"
    then update (λ p. p.user_id == e.user.user_id) deactivate rows
    else rows

unfoldable pub handle : ℕ → ℕ → Envelope → Db → Db
handle id now e db = if exists (λ seen. seen == e.event_id) db.processed then db else record db {
  profiles = apply_event id now e db.profiles;
  processed = db.processed ++ e.event_id ∷ [];
}
