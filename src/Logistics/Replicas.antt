-- ===== src/Logistics/Replicas.antt =====
-- services/logistics/app/events/consumers/iam.py: the replicas as copies of IAM's users.
pub mod Follows
use rcp_api.Base.{
  ℕ, String, Bool, true, false, Option, none, some, List, [], ◌∷◌, ◌++◌, ◌==◌, ◌||◌, leb, exists,
  update, str_eq, if◌then◌else◌,
}
use rcp_api.Logistics.Db.{UserReplica, Db}

-- The `data` of an event on a user, parsed: `roles` and `is_active` may be left out. Of a
-- deactivation only the user's id is read.
pub record ReplicaData : Type 0 where
  pub user_id : ℕ
  pub full_name : String
  pub phone : Option String
  pub roles : Option (List String)
  pub is_active : Option Bool
  pub updated_at : ℕ

pub record IamEnvelope : Type 0 where
  pub event_id : ℕ
  pub event_type : String
  pub tenant_id : Option ℕ
  pub user : ReplicaData

-- The session of the consumer: the tables of the services, and `processed_events`.
pub record Inbox : Type 0 where
  pub db : Db
  pub processed : List ℕ

-- `data.get("roles", [])`
abbrev pub roles_or_none : Option (List String) → List String
roles_or_none none = []
roles_or_none (some names) = names

-- `data.get("is_active", True)`
abbrev pub active_unless_said : Option Bool → Bool
active_unless_said none = true
active_unless_said (some b) = b

unfoldable pub new_replica : Option ℕ → ReplicaData → UserReplica
new_replica tenant user = record {
  user_id = user.user_id;
  tenant_id = tenant;
  full_name = user.full_name;
  phone = user.phone;
  roles = roles_or_none user.roles;
  is_active = active_unless_said user.is_active;
  source_updated_at = user.updated_at;
}

-- The branch of a known user: the tenant stays, and a stale event is ignored.
unfoldable pub refresh_replica : ReplicaData → UserReplica → UserReplica
refresh_replica user held =
    if leb held.source_updated_at user.updated_at
    then record held {
      full_name = user.full_name;
      phone = user.phone;
      roles = roles_or_none user.roles;
      is_active = active_unless_said user.is_active;
      source_updated_at = user.updated_at;
    }
    else held

unfoldable pub upsert_replica : Option ℕ → ReplicaData → List UserReplica → List UserReplica
upsert_replica tenant user rows =
    if exists (λ (row : UserReplica). row.user_id == user.user_id) rows
    then update (λ row. row.user_id == user.user_id) (refresh_replica user) rows
    else rows ++ new_replica tenant user ∷ []

unfoldable pub deactivate_replica : ReplicaData → List UserReplica → List UserReplica
deactivate_replica user rows =
    update (λ (row : UserReplica). row.user_id == user.user_id)
      (λ row. record row { is_active = false }) rows

-- `event_type in ("iam.user.registered", "iam.user.updated")`
unfoldable pub is_user_update : String → Bool
is_user_update kind = str_eq kind "iam.user.registered" || str_eq kind "iam.user.updated"

unfoldable pub apply_iam : IamEnvelope → List UserReplica → List UserReplica
apply_iam e rows =
    if is_user_update e.event_type
    then upsert_replica e.tenant_id e.user rows
    else if str_eq e.event_type "iam.user.deactivated"
    then deactivate_replica e.user rows
    else rows

abbrev pub already_processed : IamEnvelope → Inbox → Bool
already_processed e inbox = exists (λ seen. seen == e.event_id) inbox.processed

unfoldable pub handle_iam : IamEnvelope → Inbox → Inbox
handle_iam e inbox = if already_processed e inbox then inbox else record {
  db = record inbox.db { replicas = apply_iam e inbox.db.replicas };
  processed = inbox.processed ++ e.event_id ∷ [];
}
