-- ===== src/Iam/Auth.antt =====
-- services/iam/app/services/auth.py: registration, login, the rotation of refresh tokens, and
-- passwords. What happens outside of this service is given by a `Platform`.
pub mod Registration
pub mod Tokens
pub mod Tenancy
pub mod Revoked
pub mod Rotation
pub mod Login
pub mod Stamps
use rcp_api.Base.{
  ℕ, ◌+◌, ◌*◌, String, Bool, true, false, not, Option, none, some, List, [], ◌∷◌, ◌++◌, ◌&&◌, ◌||◌,
  ◌==◌, ltb, if◌then◌else◌, first, exists, select, update, str_eq, opt_eq, is_some,
}
use rcp_api.Base.Json.{Value}
use rcp_api.Base.Tx.{Tx, ◌>>=◌, ◌>>◌, pure, raise_if, or_raise, gets, modify, commit}
use rcp_api.Iam.Db.{
  UserType, tenant_admin, is_global_type, is_tenant_type, Tenant, User, roles, is_active,
  RefreshToken, UserData, tenant_created, user_data, Db, emit,
}

-- The exceptions, by message: `integrity` is a unique index that refuses a row, `no_coordinate` the
-- `TypeError` of a subtraction from a coordinate that is NULL.
pub data AuthError : Type 0 where
  tenant_suspended user_disabled invalid_current_password integrity no_coordinate : AuthError
  wrong_type : UserType → AuthError

-- The claims of an access token.
pub record Claims : Type 0 where
  pub sub : ℕ
  pub user_type : UserType
  pub roles : List String
  pub tenant_id : Option ℕ
  pub iat : ℕ
  pub exp : ℕ
  pub jti : ℕ

-- argon2 (with its salt), SHA-256, the signature of a token, floats, and the settings.
pub record Platform : Type 0 where
  pub hash_password : ℕ → String → String
  pub verify_password : String → String → Bool
  pub sha256 : String → String
  pub sign : Claims → String
  pub haversine : Value → Value → Value → Value → Value
  pub less : Value → Value → Bool
  pub access_token_ttl_minutes : ℕ
  pub refresh_token_ttl_days : ℕ

-- What a request draws: the time, ids for new rows, a random token and a salt.
pub record Draw : Type 0 where
  pub now : ℕ
  pub id : ℕ
  pub admin_id : ℕ
  pub raw_token : String
  pub salt : ℕ

pub record TokenPair : Type 0 where
  pub access_token : String
  pub refresh_token : String
  pub expires_in : ℕ

-- `_user_registered_payload`
abbrev pub user_registered_payload : User → UserData
user_registered_payload user = record {
  user_id = user.id;
  tenant_id = user.tenant_id;
  user_type = user.user_type;
  email = user.email;
  full_name = user.full_name;
  phone = user.phone;
  roles = roles user;
  is_active = is_active user;
  updated_at = user.updated_at;
}

-- `UPDATE refresh_tokens SET revoked_at = now WHERE …`
unfoldable pub revoke : ℕ → RefreshToken → RefreshToken
revoke now token = record token { revoked_at = some now }

abbrev pub is_live_of : ℕ → RefreshToken → Bool
is_live_of user token = (token.user_id == user) && not (is_some token.revoked_at)

unfoldable pub revoke_live : ℕ → ℕ → Tx Db AuthError Unit
revoke_live now user =
    modify λ db. record db { tokens = update (is_live_of user) (revoke now) db.tokens }

abbrev pub put_user : User → Db → Db
put_user user db = record db { users = update (λ u. u.id == user.id) (λ _. user) db.users }

abbrev pub get_user_by_id : ℕ → Db → Option User
get_user_by_id id db = first (λ (u : User). u.id == id) db.users
