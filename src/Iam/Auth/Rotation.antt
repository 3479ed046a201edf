-- ===== src/Iam/Auth/Rotation.antt =====
-- auth.py: the rotation of refresh tokens, and the detection of reuse.
use rcp_api.Base.{
  ℕ, ◌≡◌, refl, sym, ap, ◌∙◌, String, Bool, true, false, none, some, List, [], ◌∷◌, ◌++◌, arith,
  ◌==◌, first, update, exists, All, is_some, ltb, if_elim, str_eq,
}
use mathlib.Core.Path.{subst}
use rcp_api.Base.Result.{ok}
use rcp_api.Base.Tx.{run}
use rcp_api.Iam.Db.{User, is_active, RefreshToken, Db}
use rcp_api.Iam.Auth.{Platform, Draw, revoke, get_user_by_id}
use rcp_api.Iam.Auth.Tokens.{
  refresh_record, rotate, issue_pair, new_token, pair_of, token_of, refresh, revoke_all,
}

module _ {ℓ} {A : Type ℓ} where
  -- A row that a query found is found again after an update that changes it and keeps the test.
  first-update-append :
      (p q : A → Bool) (f : A → A) (xs ys : List A) (x : A)
      → ((y : A) → p (f y) ≡ p y)
      → first p xs ≡ some x
      → q x ≡ true
      → first p (update q f xs ++ ys) ≡ some (f x)
  first-update-append p q f [] ys x same found hit = cc
  first-update-append p q f (y ∷ xs) ys x same found hit =
      ground (arith, same y, first-update-append p q f xs ys x same)

  exists-update :
      (p q : A → Bool) (f : A → A) (xs : List A)
      → ((y : A) → p (f y) ≡ p y)
      → exists p (update q f xs) ≡ exists p xs
  exists-update p q f [] same = refl
  exists-update p q f (y ∷ xs) same = ground (arith, same y, exists-update p q f xs same)

-- Every token of the user is revoked.
abbrev pub AllRevoked : ℕ → Db → Type 0
AllRevoked user db =
    All (λ (t : RefreshToken). (t.user_id == user) ≡ true → is_some t.revoked_at ≡ true) db.tokens

module _ (platform : Platform) (draw : Draw) (raw : String) (db : Db) (t : RefreshToken)
    (user : User) where
  abbrev pub rotated : Db
  rotated = record db {
    tokens =
        update (λ (x : RefreshToken). x.id == t.id) (revoke draw.now) db.tokens
        ++ new_token platform draw user (some t.id) ∷ [];
  }

  pub refresh_rotates :
      token_of platform raw db ≡ some t
      → ltb t.expires_at draw.now ≡ false
      → t.revoked_at ≡ none
      → get_user_by_id t.user_id db ≡ some user
      → is_active user ≡ true
      → exists
          (λ (x : RefreshToken). str_eq x.token_hash (platform.sha256 draw.raw_token))
          db.tokens
        ≡ false
      → run (refresh platform draw raw) db ≡ (ok (some (pair_of platform draw user)), rotated)
  unfolding refresh refresh_record rotate issue_pair new_token revoke
  refresh_rotates found fresh live known active unused =
      let still =
        exists-update (λ (x : RefreshToken). str_eq x.token_hash (platform.sha256 draw.raw_token))
          (λ x. x.id == t.id) (revoke draw.now) db.tokens (λ x. refl)
        ∙ unused in
      ground arith

module _ (platform : Platform) (draw : Draw) (raw : String) (db : Db) (t : RefreshToken) where
  refresh_reuse :
      token_of platform raw db ≡ some t
      → ltb t.expires_at draw.now ≡ false
      → is_some t.revoked_at ≡ true
      → run (refresh platform draw raw) db ≡ (
        ok none,
        record db {
          tokens =
              update (λ (x : RefreshToken). x.user_id == t.user_id) (revoke draw.now) db.tokens;
        },
      )
  unfolding refresh refresh_record revoke_all
  refresh_reuse found fresh spent = rw (found, fresh, spent) refl

All-revoke_user :
    (now user : ℕ) (tokens : List RefreshToken)
    → All
        (λ (t : RefreshToken). (t.user_id == user) ≡ true → is_some t.revoked_at ≡ true)
        (update (λ (t : RefreshToken). t.user_id == user) (revoke now) tokens)
unfolding revoke
All-revoke_user now user [] = tt
All-revoke_user now user (t ∷ ts) = (
  if_elim (λ (x : RefreshToken). (x.user_id == user) ≡ true → is_some x.revoked_at ≡ true)
      (t.user_id == user) (λ mine _. refl) (λ other same. cc),
  All-revoke_user now user ts,
)

-- The token gives nothing, and all tokens of the user are revoked then.
abbrev Spent : Platform → Draw → String → ℕ → Db → Type 0
Spent platform again raw user db =
    ((run (refresh platform again raw) db).0 ≡ ok none)
    × AllRevoked user (run (refresh platform again raw) db).1

-- After a refresh that returned a new pair, the old token is worth nothing while it has not expired:
-- presenting it again returns nothing, and every refresh token of its user is revoked.
pub refresh_reused :
    (platform : Platform) (draw again : Draw) (raw : String) (db : Db) (t : RefreshToken)
    (user : User)
    → token_of platform raw db ≡ some t
    → ltb t.expires_at draw.now ≡ false
    → ltb t.expires_at again.now ≡ false
    → t.revoked_at ≡ none
    → get_user_by_id t.user_id db ≡ some user
    → is_active user ≡ true
    → exists (λ (x : RefreshToken). str_eq x.token_hash (platform.sha256 draw.raw_token)) db.tokens
      ≡ false
    → let (first_answer, db') = run (refresh platform draw raw) db in
      let (second_answer, db'') = run (refresh platform again raw) db' in
      (first_answer ≡ ok (some (pair_of platform draw user)))
      × (second_answer ≡ ok none)
      × AllRevoked t.user_id db''
unfolding revoke
refresh_reused platform draw again raw db t user found fresh later live known active unused =
    let once = refresh_rotates platform draw raw db t user found fresh live known active unused in
    let hit : (t.id == t.id) ≡ true = ground arith in
    let spent =
      first-update-append (λ (x : RefreshToken). str_eq x.token_hash (platform.sha256 raw))
        (λ x. x.id == t.id) (revoke draw.now) db.tokens
        (new_token platform draw user (some t.id) ∷ []) t (λ x. refl) found hit in
    let twice =
      refresh_reuse platform again raw (rotated platform draw raw db t user) (revoke draw.now t)
        spent later refl in
    let rest = subst (Spent platform again raw t.user_id) (sym (ap (λ p. p.1) once)) (
      ap (λ p. p.0) twice,
      subst (AllRevoked t.user_id) (sym (ap (λ p. p.1) twice))
          (All-revoke_user again.now t.user_id _),
    ) in
    (ap (λ p. p.0) once, rest.0, rest.1)
