-- ===== src/Iam/Db.antt =====
-- services/iam/app/models: the rows of schema_iam, and the events of its outbox. An id is a number,
-- a time a number of seconds.
use rcp_api.Base.{ℕ, String, Bool, true, false, not, Option, List, [], ◌∷◌, ◌++◌, str_eq, select}
use rcp_api.Base.Json.{Value}
use rcp_api.Base.Tx.{Tx, modify}

pub data UserType : Type 0 where
  super_admin volunteer victim donator tenant_admin coordinator : UserType

-- `user_type in GLOBAL_USER_TYPES`
abbrev pub is_global_type : UserType → Bool
is_global_type volunteer = true
is_global_type victim = true
is_global_type donator = true
is_global_type _ = false

-- `user_type in TENANT_USER_TYPES`
abbrev pub is_tenant_type : UserType → Bool
is_tenant_type tenant_admin = true
is_tenant_type coordinator = true
is_tenant_type _ = false

-- `user_type.value.lower()`
abbrev pub implicit_role : UserType → String
implicit_role super_admin = "super_admin"
implicit_role volunteer = "volunteer"
implicit_role victim = "victim"
implicit_role donator = "donator"
implicit_role tenant_admin = "tenant_admin"
implicit_role coordinator = "coordinator"

pub record Tenant : Type 0 where
  pub id : ℕ
  pub name : String
  pub slug : String
  pub description : Option String
  pub status : String
  pub latitude : Option Value
  pub longitude : Option Value

-- `granted` is the roles of `role_assignments`.
pub record User : Type 0 where
  pub id : ℕ
  pub tenant_id : Option ℕ
  pub user_type : UserType
  pub email : String
  pub password_hash : String
  pub full_name : String
  pub phone : Option String
  pub status : String
  pub granted : List String
  pub latitude : Option Value
  pub longitude : Option Value
  pub assigned_tenant_id : Option ℕ
  pub updated_at : ℕ

abbrev pub roles : User → List String
roles user =
    implicit_role user.user_type
    ∷ select (λ r. not (str_eq r (implicit_role user.user_type))) user.granted

abbrev pub is_active : User → Bool
is_active user = str_eq user.status "active"

pub record RefreshToken : Type 0 where
  pub id : ℕ
  pub user_id : ℕ
  pub token_hash : String
  pub expires_at : ℕ
  pub rotated_from : Option ℕ
  pub revoked_at : Option ℕ

-- What `_user_registered_payload` reads of a user.
pub record UserData : Type 0 where
  pub user_id : ℕ
  pub tenant_id : Option ℕ
  pub user_type : UserType
  pub email : String
  pub full_name : String
  pub phone : Option String
  pub roles : List String
  pub is_active : Bool
  pub updated_at : ℕ

-- The `data` of an event.
pub data Payload : Type 0 where
  tenant_created : (tenant_id : ℕ) (name slug : String) → Payload
  tenant_status : (tenant_id : ℕ) (status : String) → Payload
  tenant_deactivated : (tenant_id : ℕ) (status : String) (occurred_at : ℕ) → Payload
  user_data : UserData → Payload
  user_deactivated :
      (user_id : ℕ) (tenant_id : Option ℕ) (status : String) (occurred_at : ℕ) → Payload
  user_status : UserData → (status : String) → Payload

-- What a service passes to `emit`.
pub record Event : Type 0 where
  pub routing_key : String
  pub tenant_id : Option ℕ
  pub payload : Payload

pub record Db : Type 0 where
  pub tenants : List Tenant
  pub users : List User
  pub tokens : List RefreshToken
  pub outbox : List Event

-- app/events/publisher.py
abbrev pub emit : {E : Type 0} → String → Option ℕ → Payload → Tx Db E (Unit {0})
emit key tenant payload = modify λ db. record db {
  outbox = db.outbox ++ record { routing_key = key; tenant_id = tenant; payload = payload } ∷ [];
}
