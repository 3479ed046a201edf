-- ===== src/Iam/Admin/Lockout.antt =====
-- admin.py: the refresh tokens that are left when a user is disabled, a tenant suspended or a password
-- reset.
use rcp_api.Base.{
  ℕ, ◌≡◌, refl, sym, String, true, false, some, List, [], ◌∷◌, arith, ◌==◌, ◌&&◌, first, exists,
  update, All, Bool-cases, opt_eq, if_elim, inl, inr,
}
use mathlib.Core.Path.{subst}
use rcp_api.Base.Tx.{run}
use rcp_api.Iam.Db.{Tenant, User, RefreshToken, Db}
use rcp_api.Iam.Auth.{Platform, Draw, revoke, is_live_of, revoke_live, get_user_by_id}
use rcp_api.Iam.Auth.Revoked.{IsLocked, All-revoke_live}
use rcp_api.Iam.Admin.{
  closes_tenant, closes_user, is_live_in, set_status_of, close_tenant, set_tenant_status,
  set_status_of_user, set_user_status, reset_password_of, admin_reset_user_password,
}

module _ (user_id : ℕ) (db : Db) (user : User) (found : get_user_by_id user_id db ≡ some user) where
  disabled_tokens :
      (now : ℕ) (status : String)
      → closes_user status ≡ true
      → (run (set_user_status now user_id status) db).1.tokens
        ≡ update (is_live_of user.id) (revoke now) db.tokens
  unfolding set_user_status set_status_of_user revoke_live
  disabled_tokens now status closing = rw (run, found) (rw closing refl)

  -- Disabling or banning a user leaves the user without a live refresh token.
  pub set_user_status-IsLocked :
      (now : ℕ) (status : String)
      → closes_user status ≡ true
      → IsLocked user.id (run (set_user_status now user_id status) db).1
  set_user_status-IsLocked now status closing =
      subst (All (λ (t : RefreshToken). is_live_of user.id t ≡ false))
        (sym (disabled_tokens now status closing)) (All-revoke_live now user.id db.tokens)

  reset_tokens :
      (platform : Platform) (draw : Draw) (new : String)
      → (run (admin_reset_user_password platform draw user_id new) db).1.tokens
        ≡ update (is_live_of user.id) (revoke draw.now) db.tokens
  unfolding admin_reset_user_password reset_password_of revoke_live
  reset_tokens platform draw new = rw (run, found) refl

  -- So does a password that an admin sets.
  pub admin_reset_user_password-IsLocked :
      (platform : Platform) (draw : Draw) (new : String)
      → IsLocked user.id (run (admin_reset_user_password platform draw user_id new) db).1
  admin_reset_user_password-IsLocked platform draw new =
      subst (All (λ (t : RefreshToken). is_live_of user.id t ≡ false))
        (sym (reset_tokens platform draw new)) (All-revoke_live draw.now user.id db.tokens)

member_live :
    (tenant : ℕ) (user : User) (users : List User) (t : RefreshToken)
    → exists (λ (u : User). opt_eq u.tenant_id (some tenant) && (u.id == user.id)) users ≡ true
    → is_live_of user.id t ≡ true
    → is_live_in tenant users t ≡ true
unfolding is_live_in
member_live tenant user users t member live =
    let mine : t.user_id ≡ user.id = ground arith in rw mine (ground arith)

All-revoke_members :
    (now tenant : ℕ) (user : User) (users : List User) (tokens : List RefreshToken)
    → exists (λ (u : User). opt_eq u.tenant_id (some tenant) && (u.id == user.id)) users ≡ true
    → All
        (λ (t : RefreshToken). is_live_of user.id t ≡ false)
        (update (is_live_in tenant users) (revoke now) tokens)
unfolding revoke
All-revoke_members now tenant user users [] member = tt
All-revoke_members now tenant user users (t ∷ ts) member = (
  if_elim (λ (x : RefreshToken). is_live_of user.id x ≡ false) (is_live_in tenant users t)
      (λ live. ground arith)
      (λ spent. elim (Bool-cases (is_live_of user.id t)) [
        | inr spent_too ↦ spent_too
        | inl live ↦ cc (member_live tenant user users t member live, spent)
      ]),
  All-revoke_members now tenant user users ts member,
)

module _ (now tenant_id : ℕ) (status : String) (db : Db) (tenant : Tenant) where
  suspended_tokens :
      first (λ (t : Tenant). t.id == tenant_id) db.tenants ≡ some tenant
      → closes_tenant status ≡ true
      → (run (set_tenant_status now tenant_id status) db).1.tokens
        ≡ update (is_live_in tenant.id db.users) (revoke now) db.tokens
  unfolding set_tenant_status set_status_of close_tenant
  suspended_tokens found closing = rw (run, found) (rw closing refl)

  -- A status that closes a tenant leaves none of its users with a live refresh token.
  pub set_tenant_status-IsLocked :
      (user : User)
      → first (λ (t : Tenant). t.id == tenant_id) db.tenants ≡ some tenant
      → closes_tenant status ≡ true
      → exists (λ (u : User). opt_eq u.tenant_id (some tenant.id) && (u.id == user.id)) db.users
        ≡ true
      → IsLocked user.id (run (set_tenant_status now tenant_id status) db).1
  set_tenant_status-IsLocked user found closing member =
      subst (All (λ (t : RefreshToken). is_live_of user.id t ≡ false))
        (sym (suspended_tokens found closing))
        (All-revoke_members now tenant.id user db.users db.tokens member)
