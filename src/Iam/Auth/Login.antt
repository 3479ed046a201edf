-- ===== src/Iam/Auth/Login.antt =====
-- auth.py: who gets a token pair from `login`.
use rcp_api.Base.{
  ℕ, ◌≡◌, refl, String, true, Option, none, some, arith, inl, inr, first, Bool-cases, Option-cases,
  opt_eq, str_eq, first_sound, ◌&&◌,
}
use rcp_api.Base.Result.{ok}
use rcp_api.Base.Tx.{Session, run}
use rcp_api.Iam.Db.{Tenant, User, is_active, Db}
use rcp_api.Iam.Auth.{Platform, Draw, TokenPair}
use rcp_api.Iam.Auth.Tokens.{
  LoginRequest, admit, issue_pair, pair_of, login_user, login_at, login_with, login,
}

-- The user is one of those whom the request may log in: of the active tenant that it names, or, if it
-- names none, of the global pool.
abbrev pub InScope : Option String → Db → User → Type 0
InScope none db user = opt_eq user.tenant_id none ≡ true
InScope (some slug) db user =
    (t : Tenant) × (first (λ (t : Tenant). str_eq t.slug slug) db.tenants ≡ some t)
    × (str_eq t.status "active" ≡ true)
    × (opt_eq user.tenant_id (some t.id) ≡ true)

module _ (platform : Platform) (draw : Draw) (pair : TokenPair) where
  admit_sound :
      (password : String) (o : Option User) (s : Session Db)
      → (admit platform draw password o s).0 ≡ ok (some pair)
      → (user : User) × (o ≡ some user)
        × (platform.verify_password password user.password_hash ≡ true)
        × (is_active user ≡ true)
        × (pair ≡ pair_of platform draw user)
  unfolding admit issue_pair
  admit_sound password none s h = cc
  admit_sound password (some user) s h = (user, refl, ground arith, ground arith, ground arith)

  in_scope :
      (tenant : Option ℕ) (email : String) (db : Db) (user : User)
      → login_user platform tenant email db ≡ some user
      → (opt_eq user.tenant_id tenant ≡ true) × (str_eq user.email email ≡ true)
  in_scope tenant email db user found =
      let both =
        first_sound (λ (u : User). opt_eq u.tenant_id tenant && str_eq u.email email) db.users user
          found in
      (ground arith, ground arith)

  login_with_sound :
      (form : LoginRequest) (slug : Option String) (s : Session Db)
      → (login_with platform draw form slug s).0 ≡ ok (some pair)
      → (user : User) × InScope slug s.work user
        × (str_eq user.email form.email ≡ true)
        × (platform.verify_password form.password user.password_hash ≡ true)
        × (is_active user ≡ true)
        × (pair ≡ pair_of platform draw user)
  unfolding login_with login_at
  login_with_sound form none s h =
      let (user, found, right, active, e) =
        admit_sound form.password (login_user platform none form.email s.work) s h in
      let (scope, mail) = in_scope none form.email s.work user found in
      (user, scope, mail, right, active, e)
  login_with_sound form (some slug) s h =
      elim (Option-cases (first (λ (t : Tenant). str_eq t.slug slug) s.work.tenants)) [
        | inl missing ↦ cc (rw missing at h)
        | inr (t, named) ↦ elim (Bool-cases (str_eq t.status "active")) [
          | inr suspended ↦ cc (rw (named, suspended) at h)
          | inl open_tenant ↦
              let (user, found, right, active, e) =
                admit_sound form.password (login_user platform (some t.id) form.email s.work) s
                  (rw (named, open_tenant) at h) in
              let (scope, mail) = in_scope (some t.id) form.email s.work user found in
              (user, (t, named, open_tenant, scope), mail, right, active, e)
        ]
      ]

-- A token pair is issued only for an active user with that e-mail and password, of the active tenant
-- that the request names or else of the global pool, and it is that user's pair.
pub login_sound :
    (platform : Platform) (draw : Draw) (form : LoginRequest) (db : Db) (pair : TokenPair)
    → (run (login platform draw form) db).0 ≡ ok (some pair)
    → (user : User) × InScope form.tenant_slug db user
      × (str_eq user.email form.email ≡ true)
      × (platform.verify_password form.password user.password_hash ≡ true)
      × (is_active user ≡ true)
      × (pair ≡ pair_of platform draw user)
unfolding login
login_sound platform draw form db pair h =
    login_with_sound platform draw pair form form.tenant_slug (record { durable = db; work = db }) h
