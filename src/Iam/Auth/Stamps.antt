-- ===== src/Iam/Auth/Stamps.antt =====
-- auth.py: the time that a profile update announces.
use rcp_api.Base.{
  ℕ, ◌≡◌, refl, String, false, Option, none, some, [], ◌∷◌, ◌++◌, ◌==◌, update, str_eq,
}
use rcp_api.Base.Tx.{run}
use rcp_api.Iam.Db.{User, roles, is_active, user_data, Db}
use rcp_api.Iam.Auth.{get_user_by_id}
use rcp_api.Iam.Auth.Tokens.{
  ProfileUpdate, set_profile, touch, update_profile_of, update_user_profile,
}

-- The phone number that is kept if none is sent.
abbrev pub or_kept : Option String → Option String → Option String
or_kept phone old = elim phone [ none ↦ old | some new ↦ some new ]

module _ (now user_id : ℕ) (phone : Option String) (name : String) (db : Db) (user : User) where
  abbrev pub renaming : ProfileUpdate
  renaming = record { full_name = some name; phone = phone }

  -- A profile update that changes a user's name, and the phone number or not, gives the row the
  -- new name, the number and the present time. What it announces has the new name and the number,
  -- and the old updated_at: the time of the user's last change before this one.
  pub update_user_profile_stamp :
      get_user_by_id user_id db ≡ some user
      → str_eq user.full_name name ≡ false
      → let db' = (run (update_user_profile now user_id renaming) db).1 in
        (db'.users
          ≡ update
              (λ u. u.id == user.id)
              (λ _. record user {
                full_name = name;
                phone = or_kept phone user.phone;
                updated_at = now;
              })
              db.users)
        × (db'.outbox
            ≡ db.outbox
              ++ record {
                routing_key = "iam.user.updated";
                tenant_id = user.tenant_id;
                payload = user_data (record {
                  user_id = user.id;
                  tenant_id = user.tenant_id;
                  user_type = user.user_type;
                  email = user.email;
                  full_name = name;
                  phone = or_kept phone user.phone;
                  roles = roles user;
                  is_active = is_active user;
                  updated_at = user.updated_at;
                });
              }
                ∷ [])
  unfolding update_user_profile update_profile_of set_profile touch
  update_user_profile_stamp found renamed = rw (run, found, renamed) (refl, refl)
