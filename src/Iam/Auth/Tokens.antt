-- ===== src/Iam/Auth/Tokens.antt =====
-- auth.py: login, the rotation of refresh tokens, and the user's own profile and password.
use rcp_api.Base.{
  ℕ, ◌+◌, ◌*◌, String, Bool, true, false, not, Option, none, some, [], ◌∷◌, ◌++◌, ◌&&◌, ◌==◌, ltb,
  if◌then◌else◌, first, exists, update, str_eq, opt_eq, is_some,
}
use rcp_api.Base.Tx.{Tx, ◌>>=◌, ◌>>◌, pure, raise_if, gets, modify, commit}
use rcp_api.Iam.Db.{Tenant, User, roles, is_active, RefreshToken, user_data, Db, emit}
use rcp_api.Iam.Auth.{
  AuthError, tenant_suspended, user_disabled, invalid_current_password, integrity, Platform, Draw,
  TokenPair, user_registered_payload, revoke, revoke_live, put_user, get_user_by_id,
}

pub record LoginRequest : Type 0 where
  pub tenant_slug : Option String
  pub email : String
  pub password : String

pub record ProfileUpdate : Type 0 where
  pub full_name : Option String
  pub phone : Option String

module _ (platform : Platform) where
  -- `create_access_token`
  abbrev pub access_token : Draw → User → Option ℕ → String
  access_token draw user tenant = platform.sign (record {
    sub = user.id;
    user_type = user.user_type;
    roles = roles user;
    tenant_id = tenant;
    iat = draw.now;
    exp = draw.now + platform.access_token_ttl_minutes * 60;
    jti = draw.id;
  })

  -- `user.assigned_tenant_id or user.tenant_id`
  abbrev pub effective_tenant : User → Option ℕ
  effective_tenant user = elim user.assigned_tenant_id [ none ↦ user.tenant_id | some t ↦ some t ]

  unfoldable pub new_token : Draw → User → Option ℕ → RefreshToken
  new_token draw user rotated_from = record {
    id = draw.id;
    user_id = user.id;
    token_hash = platform.sha256 draw.raw_token;
    expires_at = draw.now + platform.refresh_token_ttl_days * 86400;
    rotated_from = rotated_from;
    revoked_at = none;
  }

  abbrev pub pair_of : Draw → User → TokenPair
  pair_of draw user = record {
    access_token = access_token draw user (effective_tenant user);
    refresh_token = draw.raw_token;
    expires_in = platform.access_token_ttl_minutes * 60;
  }

  -- `_issue_pair`; the unique index on the hash refuses a token that is there
  unfoldable pub issue_pair : Draw → User → Option ℕ → Tx Db AuthError TokenPair
  issue_pair draw user rotated_from = do
    let token = new_token draw user rotated_from
    taken ←
        gets (λ db. exists (λ (t : RefreshToken). str_eq t.token_hash token.token_hash) db.tokens)
    raise_if taken integrity
    modify (λ db. record db { tokens = db.tokens ++ token ∷ [] })
    commit
    pure (pair_of draw user)

  -- The end of `login`, with the user that the query found.
  unfoldable pub admit : Draw → String → Option User → Tx Db AuthError (Option TokenPair)
  admit draw password none = pure none
  admit draw password (some user) =
      if platform.verify_password password user.password_hash
      then (do
        raise_if (not (is_active user)) user_disabled
        pair ← issue_pair draw user none
        pure (some pair))
      else pure none

  abbrev pub login_user : Option ℕ → String → Db → Option User
  login_user tenant email db =
      first (λ (u : User). opt_eq u.tenant_id tenant && str_eq u.email email) db.users

  -- The portal's half of `login`, with the tenant of the slug.
  unfoldable pub login_at : Draw → LoginRequest → Option Tenant → Tx Db AuthError (Option TokenPair)
  unfolding admit issue_pair
  login_at draw form none = pure none
  login_at draw form (some tenant) = do
    raise_if (not (str_eq tenant.status "active")) tenant_suspended
    user ← gets (login_user (some tenant.id) form.email)
    admit draw form.password user

  unfoldable pub login_with :
      Draw → LoginRequest → Option String → Tx Db AuthError (Option TokenPair)
  login_with draw form none = do
    user ← gets (login_user none form.email)
    admit draw form.password user
  login_with draw form (some slug) = do
    tenant ← gets (λ db. first (λ (t : Tenant). str_eq t.slug slug) db.tenants)
    login_at draw form tenant

  unfoldable pub login : Draw → LoginRequest → Tx Db AuthError (Option TokenPair)
  unfolding login_with
  login draw form = login_with draw form form.tenant_slug

  -- The reuse of a spent token: every token of the user is revoked.
  unfoldable pub revoke_all : ℕ → ℕ → Tx Db AuthError (Option TokenPair)
  revoke_all now user = do
    modify (λ db. record db {
      tokens = update (λ (t : RefreshToken). t.user_id == user) (revoke now) db.tokens;
    })
    commit
    pure none

  -- The end of `refresh`, with the user of a token that is live.
  unfoldable pub rotate : Draw → RefreshToken → Option User → Tx Db AuthError (Option TokenPair)
  rotate draw spent none = pure none
  rotate draw spent (some user) =
      if is_active user
      then (do
        modify (λ db. record db {
          tokens = update (λ (t : RefreshToken). t.id == spent.id) (revoke draw.now) db.tokens;
        })
        pair ← issue_pair draw user (some spent.id)
        pure (some pair))
      else pure none

  unfoldable pub refresh_record : Draw → Option RefreshToken → Tx Db AuthError (Option TokenPair)
  refresh_record draw none = pure none
  refresh_record draw (some token) =
      if ltb token.expires_at draw.now
      then pure none
      else if is_some token.revoked_at
      then revoke_all draw.now token.user_id
      else (do user ← gets (get_user_by_id token.user_id); rotate draw token user)

  abbrev pub token_of : String → Db → Option RefreshToken
  token_of raw db =
      first (λ (t : RefreshToken). str_eq t.token_hash (platform.sha256 raw)) db.tokens

  unfoldable pub refresh : Draw → String → Tx Db AuthError (Option TokenPair)
  unfolding refresh_record
  refresh draw raw = do token ← gets (token_of raw); refresh_record draw token

  unfoldable pub set_password : Draw → String → User → User
  set_password draw password user = record user {
    password_hash = platform.hash_password draw.salt password;
    updated_at = draw.now;
  }

  -- The end of `change_user_password`.
  unfoldable pub change_password_of : Draw → String → String → Option User → Tx Db AuthError Bool
  change_password_of draw current new none = pure false
  change_password_of draw current new (some user) = do
    raise_if (not (platform.verify_password current user.password_hash)) invalid_current_password
    modify (put_user (set_password draw new user))
    revoke_live draw.now user.id
    commit
    pure true

  unfoldable pub change_user_password : Draw → ℕ → String → String → Tx Db AuthError Bool
  unfolding change_password_of
  change_user_password draw user_id current new = do
    user ← gets (get_user_by_id user_id)
    change_password_of draw current new user

-- `if data.phone is not None: user.phone = data.phone`, and so on
unfoldable pub set_profile : ProfileUpdate → User → User
set_profile form user = record user {
  full_name = elim form.full_name [ none ↦ user.full_name | some name ↦ name ];
  phone = elim form.phone [ none ↦ user.phone | some phone ↦ some phone ];
}

abbrev same_text : Option String → Option String → Bool
same_text none none = true
same_text (some a) (some b) = str_eq a b
same_text _ _ = false

-- `onupdate` of `updated_at`: the flush writes a row only if a column changed.
unfoldable pub touch : ℕ → User → User → User
touch now old new =
    if str_eq old.full_name new.full_name && same_text old.phone new.phone
    then new
    else record new { updated_at = now }

-- The event is built before the flush that sets `updated_at`.
unfoldable pub update_profile_of : ℕ → ProfileUpdate → Option User → Tx Db AuthError (Option User)
update_profile_of now form none = pure none
update_profile_of now form (some user) = do
  let user' = set_profile form user
  emit "iam.user.updated" user.tenant_id (user_data (user_registered_payload user'))
  modify (put_user (touch now user user'))
  commit
  pure (some (touch now user user'))

unfoldable pub update_user_profile : ℕ → ℕ → ProfileUpdate → Tx Db AuthError (Option User)
unfolding update_profile_of
update_user_profile now user_id form = do
  user ← gets (get_user_by_id user_id)
  update_profile_of now form user
