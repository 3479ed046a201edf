-- ===== src/Iam/Auth/Registration.antt =====
-- auth.py: the registration of tenants, of their users, and of the users of the mobile app.
use rcp_api.Base.{
  ℕ, String, Bool, not, Option, none, some, List, [], ◌∷◌, ◌++◌, ◌&&◌, if◌then◌else◌, exists,
  select, str_eq, opt_eq, is_some,
}
use rcp_api.Base.Json.{Value}
use rcp_api.Base.Tx.{Tx, ◌>>=◌, ◌>>◌, pure, raise_if, or_raise, gets, modify, commit}
use rcp_api.Iam.Db.{
  UserType, tenant_admin, is_global_type, is_tenant_type, Tenant, User, tenant_created, user_data,
  Db, emit,
}
use rcp_api.Iam.Auth.{
  AuthError, integrity, no_coordinate, wrong_type, Platform, Draw, user_registered_payload,
}

-- The indexes uq_users_tenant_email and uq_users_global_email.
abbrev pub same_login : User → User → Bool
same_login new user = opt_eq user.tenant_id new.tenant_id && str_eq user.email new.email

-- `db.add(user)`, `db.flush()`
unfoldable pub add_user : User → Tx Db AuthError Unit
add_user user = do
  taken ← gets (λ db. exists (same_login user) db.users)
  raise_if taken integrity
  modify (λ db. record db { users = db.users ++ user ∷ [] })

pub record TenantOnboard : Type 0 where
  pub name : String
  pub slug : String
  pub description : Option String
  pub admin_email : String
  pub admin_password : String
  pub admin_full_name : String

pub record TenantUserRegister : Type 0 where
  pub email : String
  pub password : String
  pub full_name : String
  pub phone : Option String
  pub user_type : UserType

pub record GlobalUserRegister : Type 0 where
  pub email : String
  pub password : String
  pub full_name : String
  pub phone : Option String
  pub user_type : UserType
  pub latitude : Option Value
  pub longitude : Option Value

unfoldable pub blank_user :
    ℕ → ℕ → Option ℕ → UserType → String → String → String → Option String → User
blank_user id now tenant kind email hash name phone = record {
  id = id;
  tenant_id = tenant;
  user_type = kind;
  email = email;
  password_hash = hash;
  full_name = name;
  phone = phone;
  status = "active";
  granted = [];
  latitude = none;
  longitude = none;
  assigned_tenant_id = none;
  updated_at = now;
}

-- `t.longitude`, which the distance is computed from
abbrev pub coordinate : Option Value → Tx Db AuthError Value
coordinate v = or_raise v no_coordinate

module _ (platform : Platform) where
  unfoldable pub onboard_tenant : Draw → TenantOnboard → Tx Db AuthError Tenant
  onboard_tenant draw form = do
    taken ← gets (λ db. exists (λ (t : Tenant). str_eq t.slug form.slug) db.tenants)
    raise_if taken integrity
    let tenant : Tenant = record {
      id = draw.id;
      name = form.name;
      slug = form.slug;
      description = form.description;
      status = "active";
      latitude = none;
      longitude = none;
    }
    modify (λ db. record db { tenants = db.tenants ++ tenant ∷ [] })
    let admin =
        blank_user draw.admin_id draw.now (some draw.id) tenant_admin form.admin_email
          (platform.hash_password draw.salt form.admin_password) form.admin_full_name none
    add_user admin
    emit "iam.tenant.created" (some draw.id) (tenant_created draw.id form.name form.slug)
    emit "iam.user.registered" (some draw.id) (user_data (user_registered_payload admin))
    commit
    pure tenant

  unfoldable pub register_tenant_user : Draw → Tenant → TenantUserRegister → Tx Db AuthError User
  register_tenant_user draw tenant form = do
    raise_if (not (is_tenant_type form.user_type)) (wrong_type form.user_type)
    let user =
        blank_user draw.id draw.now (some tenant.id) form.user_type form.email
          (platform.hash_password draw.salt form.password) form.full_name form.phone
    add_user user
    emit "iam.user.registered" (some tenant.id) (user_data (user_registered_payload user))
    commit
    pure user

  -- The loop of `get_nearest_tenant_id`; `none` is no tenant, with `float('inf')`, which
  -- every distance is below.
  unfoldable pub nearest :
      Value → Value → List Tenant → Option (Value × ℕ) → Tx Db AuthError (Option (Value × ℕ))
  nearest lat lon [] best = pure best
  nearest lat lon (t ∷ ts) best = do
    lat' ← coordinate t.latitude
    lon' ← coordinate t.longitude
    let distance = platform.haversine lat lon lat' lon'
    nearest lat lon ts (elim best [
      | none ↦ some (distance, t.id)
      | some (shortest, id) ↦
          some (if platform.less distance shortest then (distance, t.id) else (shortest, id))
    ])

  -- `get_nearest_tenant_id`, over the active tenants with a latitude
  unfoldable pub get_nearest_tenant_id : Value → Value → Tx Db AuthError (Option ℕ)
  get_nearest_tenant_id lat lon = do
    tenants ←
        gets
          (λ db. select (λ (t : Tenant). str_eq t.status "active" && is_some t.latitude) db.tenants)
    best ← nearest lat lon tenants none
    pure (elim best [ none ↦ none | some (distance, id) ↦ some id ])

  unfoldable pub nearest_if_known : Option Value → Option Value → Tx Db AuthError (Option ℕ)
  nearest_if_known (some lat) (some lon) = get_nearest_tenant_id lat lon
  nearest_if_known _ _ = pure none

  unfoldable pub register_global_user : Draw → GlobalUserRegister → Tx Db AuthError User
  register_global_user draw form = do
    raise_if (not (is_global_type form.user_type)) (wrong_type form.user_type)
    assigned ← nearest_if_known form.latitude form.longitude
    let blank =
        blank_user draw.id draw.now none form.user_type form.email
          (platform.hash_password draw.salt form.password) form.full_name form.phone
    let user = record blank {
      latitude = form.latitude;
      longitude = form.longitude;
      assigned_tenant_id = assigned;
    }
    add_user user
    emit "iam.user.registered" none (user_data (user_registered_payload user))
    commit
    pure user
