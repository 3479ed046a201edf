-- ===== src/Common/Auth.antt =====
-- packages/common/rcp_common/auth.py: the verification of access tokens in the services that consume
-- them. The JWT library, `uuid` and IAM's endpoint are parameters; times are milliseconds.
pub mod Access
use rcp_api.Base.{
  ℕ, ◌+◌, String, Bool, true, false, not, Option, none, some, List, [], ◌∷◌, ◌&&◌, ltb, exists,
  str_eq, is_some, if◌then◌else◌,
}
use rcp_api.Base.Json.{Value, str, arr, Items, no_items, item, Fields, get, truthy}
use rcp_api.Base.Opt.{◌>>=◌}
use rcp_api.Base.Result.{Result, ok, err}

-- `jose.jwt` and `uuid.UUID`, with `none` for a JWTError or a ValueError. Of the header the
-- algorithm and the key id are read; `decode` allows RS256 only, and checks issuer and audience.
pub record Library (Key : Type 0) : Type 0 where
  pub get_unverified_header : String → Option (Option String × Option String)
  pub decode : String → Key → (issuer audience : String) → Option Fields
  pub uuid : String → Option ℕ

pub record Principal : Type 0 where
  pub user_id : ℕ
  pub tenant_id : Option ℕ
  pub user_type : Option Value
  pub roles : List String

pub record JwksCache (Key : Type 0) : Type 0 where
  pub keys : List (String × Key)
  pub fetched_at : ℕ

abbrev pub find_key : {Key : Type 0} → String → List (String × Key) → Option Key
find_key kid [] = none
find_key kid ((k, key) ∷ rest) = if str_eq k kid then some key else find_key kid rest

-- What the two calls of the clock return, and what IAM's endpoint answers, if it does.
pub record Attempt (Key : Type 0) : Type 0 where
  pub now : ℕ
  pub later : ℕ
  pub answer : Option (List (String × Key))
  pub answered_at : ℕ

module _ {Key : Type 0} where
  -- The condition of the refresh: the keys are too old, or the key is unknown and they are older than
  -- five seconds.
  unfoldable pub needs_fetch : (ttl : ℕ) → Attempt Key → String → JwksCache Key → Bool
  needs_fetch ttl attempt kid cache =
      if ltb (cache.fetched_at + ttl) attempt.now
      then true
      else not (is_some (find_key kid cache.keys)) && ltb (cache.fetched_at + 5000) attempt.later

  -- `_fetch`; `none` is an httpx.HTTPError
  unfoldable pub fetch : Attempt Key → JwksCache Key → Option (JwksCache Key)
  fetch attempt cache =
      attempt.answer >>= λ keys. some (record { keys = keys; fetched_at = attempt.answered_at })

  -- `get_key`: the key, if there is one, or the exception of the fetch; and the cache after it.
  unfoldable pub get_key :
      (ttl : ℕ) → Attempt Key → String → JwksCache Key → Option (Option Key) × JwksCache Key
  unfolding needs_fetch fetch
  get_key ttl attempt kid cache =
      if needs_fetch ttl attempt kid cache
      then elim (fetch attempt cache) [
        | none ↦ (none, cache)
        | some fresh ↦ (some (find_key kid fresh.keys), fresh)
      ]
      else (some (find_key kid cache.keys), cache)

abbrev text_of : Value → Option String
text_of (str s) = some s
text_of _ = none

abbrev pub texts_of : Items → Option (List String)
texts_of no_items = some []
texts_of (item v vs) = text_of v >>= λ s. texts_of vs >>= λ ss. some (s ∷ ss)

-- `uuid.UUID(raw_tenant) if raw_tenant else None`
abbrev pub tenant_of : {Key : Type 0} → Library Key → Option Value → Option (Option ℕ)
tenant_of library none = some none
tenant_of library (some v) =
    if truthy v then (text_of v >>= λ s. library.uuid s >>= λ id. some (some id)) else some none

-- `tuple(claims.get("roles", []))`, of a list of texts
abbrev roles_of : Option Value → Option (List String)
roles_of none = some []
roles_of (some (arr vs)) = texts_of vs
roles_of (some _) = none

abbrev is_rs256 : Option String → Bool
is_rs256 none = false
is_rs256 (some alg) = str_eq alg "RS256"

-- `header.get("kid", "")`
abbrev pub kid_or_empty : Option String → String
kid_or_empty none = ""
kid_or_empty (some kid) = kid

module _ {Key : Type 0} (library : Library Key) where
  unfoldable pub principal_of : Fields → Option Principal
  principal_of claims = do
    raw ← get "sub" claims
    sub ← text_of raw
    user_id ← library.uuid sub
    tenant_id ← tenant_of library (get "tenant_id" claims)
    roles ← roles_of (get "roles" claims)
    some (record {
      user_id = user_id;
      tenant_id = tenant_id;
      user_type = get "user_type" claims;
      roles = roles;
    })

  -- `verify` from the key on
  unfoldable pub decoded : (issuer audience token : String) → Option (Option Key) → Option Principal
  decoded issuer audience token found = do
    known ← found
    key ← known
    claims ← library.decode token key issuer audience
    principal_of claims

  -- `verify`; `none` is an AuthError
  unfoldable pub verify :
      (ttl : ℕ) (issuer audience : String)
      → Attempt Key
      → String
      → JwksCache Key
      → Option Principal × JwksCache Key
  unfolding get_key decoded
  verify ttl issuer audience attempt token cache = elim (library.get_unverified_header token) [
    | none ↦ (none, cache)
    | some (alg, kid) ↦
        let (found, after) = get_key ttl attempt (kid_or_empty kid) cache in
        if is_rs256 alg then (decoded issuer audience token found, after) else (none, cache)
  ]

-- The answers of the dependencies that refuse a request.
pub data Refusal : Type 0 where
  missing_bearer invalid_token tenant_scoped insufficient : Refusal

unfoldable pub status_code : Refusal → ℕ
status_code missing_bearer = 401
status_code invalid_token = 401
status_code tenant_scoped = 403
status_code insufficient = 403

-- `PrincipalDependency`, with the token of the bearer credentials
unfoldable pub authenticate :
    {Key : Type 0}
    → Library Key
    → (ttl : ℕ) (issuer audience : String) → Attempt Key
    → Option String
    → JwksCache Key
    → Result Refusal Principal × JwksCache Key
unfolding verify
authenticate library ttl issuer audience attempt none cache = (err missing_bearer, cache)
authenticate library ttl issuer audience attempt (some token) cache =
    let (verified, after) = verify library ttl issuer audience attempt token cache in
    (elim verified [ none ↦ err invalid_token | some principal ↦ ok principal ], after)

-- `set(roles) & set(principal.roles)`
abbrev pub shares : List String → List String → Bool
shares roles held = exists (λ r. exists (λ h. str_eq r h) held) roles

-- `require_any_role`
unfoldable pub require_any_role : List String → Principal → Result Refusal Principal
require_any_role roles principal =
    if shares roles principal.roles then ok principal else err insufficient

-- `require_tenant_role`
unfoldable pub require_tenant_role : List String → Principal → Result Refusal Principal
require_tenant_role roles principal =
    if is_some principal.tenant_id
    then if shares roles principal.roles then ok principal else err insufficient
    else err tenant_scoped
