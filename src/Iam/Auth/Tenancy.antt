-- ===== src/Iam/Auth/Tenancy.antt =====
-- auth.py: the three registrations and the pairing of user types and tenants, which the CHECK
-- constraint ck_users_type_tenancy asks for. The model does not enforce the constraint.
use rcp_api.Base.{
  ℕ, ◌≡◌, refl, true, false, Option, none, some, List, [], ◌∷◌, ◌++◌, arith, inl, inr, exists, All,
  All-append, Bool-cases, Option-cases, select, ◌&&◌, ◌⊎◌, is_some, str_eq,
}
use rcp_api.Base.Json.{Value}
use rcp_api.Base.Result.{Result-cases}
use rcp_api.Base.Tx.{Session, run}
use rcp_api.Iam.Db.{is_tenant_type, is_global_type, tenant_admin, UserType, Tenant, User, Db}
use rcp_api.Iam.Auth.{Platform, Draw}
use rcp_api.Iam.Auth.Registration.{
  add_user, same_login, blank_user, TenantOnboard, TenantUserRegister, GlobalUserRegister,
  onboard_tenant, register_tenant_user, register_global_user, nearest, get_nearest_tenant_id,
  nearest_if_known,
}

-- A user of a tenant's type has a tenant, and only such a user has one.
abbrev pub IsPaired : User → Type 0
IsPaired user = is_tenant_type user.user_type ≡ is_some user.tenant_id

abbrev pub ArePaired : Db → Type 0
ArePaired db = All IsPaired db.users

-- A registration adds no user, or one that is paired.
abbrev Adds : Db → Db → Type 0
Adds db db' =
    (db'.users ≡ db.users) ⊎ ((user : User) × IsPaired user × (db'.users ≡ db.users ++ user ∷ []))

Adds-ArePaired : (db db' : Db) → Adds db db' → ArePaired db → ArePaired db'
Adds-ArePaired db db' (inl same) old = rw same old
Adds-ArePaired db db' (inr (user, new, e)) old =
    rw e (All-append IsPaired db.users (user ∷ []) old (new, tt))

nearest_keeps :
    (platform : Platform) (lat lon : Value) (ts : List Tenant) (best : Option (Value × ℕ))
    (s : Session Db)
    → (nearest platform lat lon ts best s).1 ≡ s
unfolding nearest
nearest_keeps platform lat lon [] best s = refl
nearest_keeps platform lat lon (t ∷ ts) best s = elim (Option-cases t.latitude) [
  | inl missing ↦ rw missing refl
  | inr (lat', e) ↦ elim (Option-cases t.longitude) [
    | inl missing ↦ rw (e, missing) refl
    | inr (lon', e') ↦ rw (e, e') (nearest_keeps platform lat lon ts _ s)
  ]
]

nearest_if_known_keeps :
    (platform : Platform) (lat lon : Option Value) (s : Session Db)
    → (nearest_if_known platform lat lon s).1 ≡ s
unfolding nearest_if_known get_nearest_tenant_id
nearest_if_known_keeps platform none lon s = refl
nearest_if_known_keeps platform (some lat) none s = refl
nearest_if_known_keeps platform (some lat) (some lon) s = ground (
  arith,
  nearest_keeps platform lat lon
      (select (λ (t : Tenant). str_eq t.status "active" && is_some t.latitude) s.work.tenants) none
      s,
)

module _ (platform : Platform) (draw : Draw) (db : Db) where
  onboard_tenant-Adds :
      (form : TenantOnboard) → Adds db (run (onboard_tenant platform draw form) db).1
  unfolding onboard_tenant add_user blank_user
  onboard_tenant-Adds form =
      let admin =
        blank_user draw.admin_id draw.now (some draw.id) tenant_admin form.admin_email
          (platform.hash_password draw.salt form.admin_password) form.admin_full_name none in
      elim (Bool-cases (exists (λ (t : Tenant). str_eq t.slug form.slug) db.tenants)) [
        | inl taken ↦ inl (ground arith)
        | inr free ↦ elim (Bool-cases (exists (same_login admin) db.users)) [
          | inl used ↦ inl (ground arith)
          | inr new ↦ inr (admin, refl, ground arith)
        ]
      ]

  register_tenant_user-Adds :
      (tenant : Tenant) (form : TenantUserRegister)
      → Adds db (run (register_tenant_user platform draw tenant form) db).1
  unfolding register_tenant_user add_user blank_user
  register_tenant_user-Adds tenant form =
      let user =
        blank_user draw.id draw.now (some tenant.id) form.user_type form.email
          (platform.hash_password draw.salt form.password) form.full_name form.phone in
      elim (Bool-cases (is_tenant_type form.user_type)) [
        | inr wrong ↦ inl (ground arith)
        | inl right ↦ elim (Bool-cases (exists (same_login user) db.users)) [
          | inl used ↦ inl (ground arith)
          | inr new ↦ inr (user, right, ground arith)
        ]
      ]

  global_user : GlobalUserRegister → Option ℕ → User
  unfolding blank_user
  global_user form assigned =
      record (blank_user draw.id draw.now none form.user_type form.email
        (platform.hash_password draw.salt form.password) form.full_name form.phone) {
          latitude = form.latitude;
          longitude = form.longitude;
          assigned_tenant_id = assigned;
        }

  global_unbound : (kind : UserType) → is_global_type kind ≡ true → is_tenant_type kind ≡ false
  global_unbound kind h = ground arith

  register_global_user-Adds :
      (form : GlobalUserRegister) → Adds db (run (register_global_user platform draw form) db).1
  unfolding register_global_user add_user blank_user global_user
  register_global_user-Adds form =
      let start : Session Db = record { durable = db; work = db } in
      let kept = nearest_if_known_keeps platform form.latitude form.longitude start in
      elim (Bool-cases (is_global_type form.user_type)) [
        | inr wrong ↦ inl (ground arith)
        | inl right ↦
            elim (Result-cases (nearest_if_known platform form.latitude form.longitude start).0) [
              | inr (e, failed) ↦ inl (ground arith)
              | inl (assigned, found) ↦
                  elim (Bool-cases (exists (same_login (global_user form assigned)) db.users)) [
                    | inl used ↦ inl (ground arith)
                    | inr new ↦ inr (
                      global_user form assigned,
                      global_unbound form.user_type right,
                      ground arith,
                    )
                  ]
            ]
      ]

-- Each registration, whatever it is asked for and whether it raises, keeps the pairing: a user has a
-- tenant exactly if the type is one of the tenants'.
pub registrations-ArePaired :
    (platform : Platform) (draw : Draw) (db : Db) (tenant : Tenant) (onboard : TenantOnboard)
    (bound : TenantUserRegister) (global : GlobalUserRegister)
    → ArePaired db
    → ArePaired (run (onboard_tenant platform draw onboard) db).1
      × ArePaired (run (register_tenant_user platform draw tenant bound) db).1
      × ArePaired (run (register_global_user platform draw global) db).1
registrations-ArePaired platform draw db tenant onboard bound global old = (
  Adds-ArePaired db (run (onboard_tenant platform draw onboard) db).1
      (onboard_tenant-Adds platform draw db onboard) old,
  Adds-ArePaired db (run (register_tenant_user platform draw tenant bound) db).1
      (register_tenant_user-Adds platform draw db tenant bound) old,
  Adds-ArePaired db (run (register_global_user platform draw global) db).1
      (register_global_user-Adds platform draw db global) old,
)
