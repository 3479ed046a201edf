-- ===== src/Iam/Tests.antt =====
-- Runs of services/iam at concrete rows, with a platform that hashes by marking the text.
use rcp_api.Base.{
  ℕ, ◌≡◌, refl, String, Bool, true, false, none, some, [], ◌∷◌, str_eq, update, ◌==◌,
}
use rcp_api.Base.Result.{Result, ok}
use rcp_api.Base.Tx.{run}
use rcp_api.Iam.Db.{user_data, coordinator, volunteer, Tenant, User, RefreshToken, Db}
use rcp_api.Iam.Auth.{AuthError, Platform, Draw}
use rcp_api.Iam.Auth.Registration.{
  TenantOnboard, TenantUserRegister, GlobalUserRegister, onboard_tenant, register_tenant_user,
  register_global_user,
}
use rcp_api.Iam.Auth.Tokens.{
  ProfileUpdate, update_user_profile, LoginRequest, new_token, pair_of, login, login_with, login_at,
  admit, issue_pair, refresh, change_user_password,
}
use rcp_api.Iam.Auth.Stamps.{renaming, update_user_profile_stamp}
use rcp_api.Iam.Auth.Tenancy.{ArePaired, registrations-ArePaired}
use rcp_api.Iam.Auth.Login.{InScope, login_sound}
use rcp_api.Iam.Auth.Rotation.{AllRevoked, refresh_reused}
use rcp_api.Iam.Auth.Revoked.{with_hash, IsLocked, change_password_locks}
use rcp_api.Iam.Admin.{set_user_status, set_tenant_status}
use rcp_api.Iam.Admin.Lockout.{set_user_status-IsLocked, set_tenant_status-IsLocked}

abbrev plain : Platform
plain = record {
  hash_password = λ salt password. password;
  verify_password = λ password hash. str_eq password hash;
  sha256 = λ raw. raw;
  sign = λ claims. "signed";
  haversine = λ lat lon lat' lon'. lat;
  less = λ a b. false;
  access_token_ttl_minutes = 15;
  refresh_token_ttl_days = 30;
}

abbrev galle : Tenant
galle = record {
  id = 7;
  name = "Galle";
  slug = "galle";
  description = none;
  status = "active";
  latitude = none;
  longitude = none;
}

abbrev kamala : User
kamala = record {
  id = 21;
  tenant_id = some 7;
  user_type = coordinator;
  email = "kamala@galle.lk";
  password_hash = "first password";
  full_name = "Kamala";
  phone = none;
  status = "active";
  granted = [];
  latitude = none;
  longitude = none;
  assigned_tenant_id = none;
  updated_at = 5;
}

abbrev session_token : RefreshToken
session_token = record {
  id = 31;
  user_id = 21;
  token_hash = "raw one";
  expires_at = 1000;
  rotated_from = none;
  revoked_at = none;
}

abbrev office : Db
office = record {
  tenants = galle ∷ [];
  users = kamala ∷ [];
  tokens = session_token ∷ [];
  outbox = [];
}

abbrev draw_at : ℕ → String → Draw
draw_at now raw = record { now = now; id = 40; admin_id = 41; raw_token = raw; salt = 3 }

abbrev district : TenantOnboard
district = record {
  name = "Matara";
  slug = "matara";
  description = none;
  admin_email = "admin@matara.lk";
  admin_password = "a long password";
  admin_full_name = "Admin";
}

abbrev clerk : TenantUserRegister
clerk = record {
  email = "clerk@galle.lk";
  password = "a long password";
  full_name = "Clerk";
  phone = none;
  user_type = coordinator;
}

abbrev helper : GlobalUserRegister
helper = record {
  email = "nimal@mail.lk";
  password = "a long password";
  full_name = "Nimal";
  phone = none;
  user_type = volunteer;
  latitude = none;
  longitude = none;
}

abbrev portal_login : LoginRequest
portal_login = record {
  tenant_slug = some "galle";
  email = "kamala@galle.lk";
  password = "first password";
}

abbrev new_name : ProfileUpdate
new_name = record { full_name = some "Kamala P"; phone = none }

registrations-ArePaired_example :
    ArePaired (run (onboard_tenant plain (draw_at 50 "") district) office).1
    × ArePaired (run (register_tenant_user plain (draw_at 50 "") galle clerk) office).1
    × ArePaired (run (register_global_user plain (draw_at 50 "") helper) office).1
registrations-ArePaired_example =
    registrations-ArePaired plain (draw_at 50 "") office galle district clerk helper (refl, tt)

refresh_reused_example :
    ((run (refresh plain (draw_at 60 "raw two") "raw one") office).0
      ≡ ok (some (pair_of plain (draw_at 60 "raw two") kamala)))
    × ((run
          (refresh plain (draw_at 70 "raw three") "raw one")
          (run (refresh plain (draw_at 60 "raw two") "raw one") office).1).0
        ≡ ok none)
    × AllRevoked 21
        (run
          (refresh plain (draw_at 70 "raw three") "raw one")
          (run (refresh plain (draw_at 60 "raw two") "raw one") office).1).1
refresh_reused_example =
    refresh_reused plain (draw_at 60 "raw two") (draw_at 70 "raw three") "raw one" office
      session_token kamala refl refl refl refl refl refl refl

abbrev changing : Result AuthError Bool × Db
changing =
    run (change_user_password plain (draw_at 60 "") 21 "first password" "second password") office

change_password_locks_example :
    (changing.0 ≡ ok true)
    × (changing.1.users
        ≡ update
            (λ (u : User). u.id == 21)
            (λ _.
              with_hash plain (draw_at 60 "") 21 "first password" "second password" office kamala)
            office.users)
    × IsLocked 21 changing.1
change_password_locks_example =
    change_password_locks plain (draw_at 60 "") 21 "first password" "second password" office kamala
      refl refl

login_sound_example :
    (user : User) × InScope (some "galle") office user
    × (str_eq user.email "kamala@galle.lk" ≡ true)
    × (plain.verify_password "first password" user.password_hash ≡ true)
    × (str_eq user.status "active" ≡ true)
    × (pair_of plain (draw_at 60 "raw two") kamala ≡ pair_of plain (draw_at 60 "raw two") user)
unfolding login login_with login_at admit issue_pair new_token
login_sound_example =
    login_sound plain (draw_at 60 "raw two") portal_login office
      (pair_of plain (draw_at 60 "raw two") kamala) refl

set_user_status-IsLocked_example : IsLocked 21 (run (set_user_status 60 21 "banned") office).1
set_user_status-IsLocked_example = set_user_status-IsLocked 21 office kamala refl 60 "banned" refl

set_tenant_status-IsLocked_example : IsLocked 21 (run (set_tenant_status 60 7 "suspended") office).1
set_tenant_status-IsLocked_example =
    set_tenant_status-IsLocked 60 7 "suspended" office galle kamala refl refl refl

update_user_profile_stamp_example :
    let db' =
      (run (update_user_profile 60 21 (renaming 60 21 none "Kamala P" office kamala)) office).1 in
    (db'.users
      ≡ update
          (λ (u : User). u.id == 21)
          (λ _. record kamala { full_name = "Kamala P"; updated_at = 60 })
          office.users)
    × (db'.outbox
        ≡ record {
          routing_key = "iam.user.updated";
          tenant_id = some 7;
          payload = user_data (record {
            user_id = 21;
            tenant_id = some 7;
            user_type = coordinator;
            email = "kamala@galle.lk";
            full_name = "Kamala P";
            phone = none;
            roles = "coordinator" ∷ [];
            is_active = true;
            updated_at = 5;
          });
        }
          ∷ [])
update_user_profile_stamp_example =
    update_user_profile_stamp 60 21 none "Kamala P" office kamala refl refl
