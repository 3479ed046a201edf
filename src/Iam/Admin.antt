-- ===== src/Iam/Admin.antt =====
-- services/iam/app/services/admin.py: the life of tenants and users, as a super admin sets it.
pub mod Lockout
use rcp_api.Base.{
  ℕ, String, Bool, true, false, not, Option, none, some, List, [], ◌∷◌, ◌++◌, ◌&&◌, ◌||◌, ◌==◌,
  if◌then◌else◌, first, exists, update, str_eq, opt_eq, is_some,
}
use rcp_api.Base.Tx.{Tx, ◌>>=◌, ◌>>◌, pure, gets, modify, commit}
use rcp_api.Iam.Db.{
  super_admin, Tenant, User, is_active, RefreshToken, UserData, tenant_status, tenant_deactivated,
  user_data, user_deactivated, user_status, Db, emit,
}
use rcp_api.Iam.Auth.{
  AuthError, Platform, Draw, user_registered_payload, revoke, is_live_of, revoke_live, put_user,
  get_user_by_id,
}
use rcp_api.Iam.Auth.Registration.{add_user, blank_user}
use rcp_api.Iam.Auth.Tokens.{set_password}

-- `status in ("suspended", "disabled", "inactive")`
abbrev pub closes_tenant : String → Bool
closes_tenant status =
    str_eq status "suspended" || (str_eq status "disabled" || str_eq status "inactive")

-- `status in ("disabled", "banned")`
abbrev pub closes_user : String → Bool
closes_user status = str_eq status "disabled" || str_eq status "banned"

-- A live token of one of the tenant's users.
unfoldable pub is_live_in : ℕ → List User → RefreshToken → Bool
is_live_in tenant users token =
    exists (λ (u : User). opt_eq u.tenant_id (some tenant) && (u.id == token.user_id)) users
    && not (is_some token.revoked_at)

-- The block that revokes the tokens and announces the tenant's end.
pub close_tenant : ℕ → ℕ → String → Tx Db AuthError Unit
close_tenant now tenant status = do
  modify (λ db. record db { tokens = update (is_live_in tenant db.users) (revoke now) db.tokens })
  emit "iam.tenant.deactivated" (some tenant) (tenant_deactivated tenant status now)

pub set_status_of : ℕ → String → Option Tenant → Tx Db AuthError (Option Tenant)
set_status_of now status none = pure none
set_status_of now status (some tenant) = do
  modify (λ db. record db {
    tenants =
        update (λ (t : Tenant). t.id == tenant.id) (λ t. record t { status = status }) db.tenants;
  })
  if closes_tenant status then close_tenant now tenant.id status else pure tt
  emit "iam.tenant.status_changed" (some tenant.id) (tenant_status tenant.id status)
  commit
  pure (some (record tenant { status = status }))

unfoldable pub set_tenant_status : ℕ → ℕ → String → Tx Db AuthError (Option Tenant)
unfolding set_status_of close_tenant
set_tenant_status now tenant_id status = do
  tenant ← gets (λ db. first (λ (t : Tenant). t.id == tenant_id) db.tenants)
  set_status_of now status tenant

abbrev pub close_user : ℕ → User → Tx Db AuthError Unit
close_user now user = do
  revoke_live now user.id
  emit "iam.user.deactivated" user.tenant_id
      (user_deactivated user.id user.tenant_id user.status now)

abbrev pub with_status : ℕ → String → User → User
with_status now status user = record user {
  status = status;
  updated_at = if str_eq user.status status then user.updated_at else now;
}

abbrev payload_at : ℕ → User → UserData
payload_at now user = record (user_registered_payload user) { updated_at = now }

pub set_status_of_user : ℕ → String → Option User → Tx Db AuthError (Option User)
set_status_of_user now status none = pure none
set_status_of_user now status (some user) = do
  let user' = with_status now status user
  modify (put_user user')
  if closes_user status then close_user now user' else pure tt
  emit "iam.user.updated" user.tenant_id (user_status (payload_at now user') status)
  commit
  pure (some user')

unfoldable pub set_user_status : ℕ → ℕ → String → Tx Db AuthError (Option User)
unfolding set_status_of_user
set_user_status now user_id status = do
  user ← gets (get_user_by_id user_id)
  set_status_of_user now status user

pub record SuperAdminCreate : Type 0 where
  pub email : String
  pub password : String
  pub full_name : String
  pub phone : Option String

module _ (platform : Platform) where
  pub promote : Draw → SuperAdminCreate → Tx Db AuthError (Option User)
  promote draw form = do
    let user =
        blank_user draw.id draw.now none super_admin form.email
          (platform.hash_password draw.salt form.password) form.full_name form.phone
    add_user user
    emit "iam.user.registered" none (user_data (user_registered_payload user))
    commit
    pure (some user)

  unfoldable pub create_super_admin : Draw → SuperAdminCreate → Tx Db AuthError (Option User)
  unfolding promote
  create_super_admin draw form = do
    taken ←
        gets (λ db.
          exists (λ (u : User). opt_eq u.tenant_id none && str_eq u.email form.email) db.users)
    if taken then pure none else promote draw form

  pub reset_password_of : Draw → String → Option User → Tx Db AuthError (Option User)
  reset_password_of draw new none = pure none
  reset_password_of draw new (some user) = do
    modify (put_user (set_password platform draw new user))
    revoke_live draw.now user.id
    commit
    pure (some (set_password platform draw new user))

  unfoldable pub admin_reset_user_password : Draw → ℕ → String → Tx Db AuthError (Option User)
  unfolding reset_password_of
  admin_reset_user_password draw user_id new = do
    user ← gets (get_user_by_id user_id)
    reset_password_of draw new user
