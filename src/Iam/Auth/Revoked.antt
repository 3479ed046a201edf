-- ===== src/Iam/Auth/Revoked.antt =====
-- auth.py: users without a live refresh token, in `refresh` and `change_user_password`.
use rcp_api.Base.{
  ℕ, ◌≡◌, refl, sym, ap, String, true, false, none, some, List, [], ◌∷◌, arith, ◌==◌, update, All,
  All-first, is_some, if_elim,
}
use mathlib.Core.Path.{subst}
use rcp_api.Base.Result.{ok}
use rcp_api.Base.Tx.{run}
use rcp_api.Iam.Db.{User, RefreshToken, Db}
use rcp_api.Iam.Auth.{Platform, Draw, revoke, is_live_of, revoke_live, get_user_by_id}
use rcp_api.Iam.Auth.Tokens.{
  refresh_record, token_of, refresh, revoke_all, change_password_of, change_user_password,
  set_password,
}

-- No refresh token of the user is live.
abbrev pub IsLocked : ℕ → Db → Type 0
IsLocked user db = All (λ (t : RefreshToken). is_live_of user t ≡ false) db.tokens

pub All-revoke_live :
    (now user : ℕ) (tokens : List RefreshToken)
    → All (λ t. is_live_of user t ≡ false) (update (is_live_of user) (revoke now) tokens)
unfolding revoke
All-revoke_live now user [] = tt
All-revoke_live now user (t ∷ ts) = (
  if_elim (λ (x : RefreshToken). is_live_of user x ≡ false) (is_live_of user t)
      (λ live. ground arith) (λ spent. spent),
  All-revoke_live now user ts,
)

module _ (platform : Platform) (draw : Draw) (raw : String) (db : Db) where
  revoked_refresh :
      (t : RefreshToken)
      → token_of platform raw db ≡ some t
      → is_some t.revoked_at ≡ true
      → (run (refresh platform draw raw) db).0 ≡ ok none
  unfolding refresh refresh_record revoke_all
  revoked_refresh t found spent = ground arith

  -- Whoever presents a token of a user without live tokens gets no token pair.
  pub locked_refresh :
      (t : RefreshToken)
      → token_of platform raw db ≡ some t
      → IsLocked t.user_id db
      → (run (refresh platform draw raw) db).0 ≡ ok none
  locked_refresh t found locked =
      let dead =
        All-first (λ (x : RefreshToken). is_live_of t.user_id x ≡ false) _ db.tokens t locked
          found in
      revoked_refresh t found (ground arith)

module _ (platform : Platform) (draw : Draw) (user_id : ℕ) (current new : String) (db : Db) where
  abbrev password_changed : User → Db
  password_changed user = record db {
    users =
        update (λ (u : User). u.id == user.id) (λ _. set_password platform draw new user) db.users;
    tokens = update (is_live_of user.id) (revoke draw.now) db.tokens;
  }

  change_password_right :
      (user : User)
      → get_user_by_id user_id db ≡ some user
      → platform.verify_password current user.password_hash ≡ true
      → run (change_user_password platform draw user_id current new) db
        ≡ (ok true, password_changed user)
  unfolding change_user_password change_password_of revoke_live set_password
  change_password_right user found right = rw found (rw right refl)

  -- The user's row after the change: the hash of the new password, and the time.
  abbrev pub with_hash : User → User
  with_hash user = record user {
    password_hash = platform.hash_password draw.salt new;
    updated_at = draw.now;
  }

  -- With the right current password the call returns true; the user's row has the hash of the new
  -- password and the time and is else as it was, no other row changes, and no refresh token of the
  -- user is live.
  pub change_password_locks :
      (user : User)
      → get_user_by_id user_id db ≡ some user
      → platform.verify_password current user.password_hash ≡ true
      → let (r, db') = run (change_user_password platform draw user_id current new) db in
        (r ≡ ok true)
        × (db'.users ≡ update (λ u. u.id == user.id) (λ _. with_hash user) db.users)
        × IsLocked user.id db'
  unfolding set_password
  change_password_locks user found right =
      let e = change_password_right user found right in
      (
        ap (λ p. p.0) e,
        ap (λ p. p.1.users) e,
        subst (IsLocked user.id) (sym (ap (λ p. p.1) e))
            (All-revoke_live draw.now user.id db.tokens),
      )
