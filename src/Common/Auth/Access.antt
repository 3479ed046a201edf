-- ===== src/Common/Auth/Access.antt =====
-- auth.py and services/iam/app/core/security.py: an access token that IAM issues, in a service that
-- consumes it.
use rcp_api.Base.{
  ℕ, ◌+◌, ◌*◌, ◌≡◌, refl, String, false, Option, none, some, List, [], ◌∷◌, is_some, str_eq,
  if◌then◌else◌,
}
use rcp_api.Base.Int.{pos}
use rcp_api.Base.Json.{int, str, arr, Items, no_items, item, Fields, no_fields, field, get}
use rcp_api.Base.Result.{Result, ok, err, ◌>>=◌}
use rcp_api.Iam.Db.{
  UserType, User, super_admin, volunteer, victim, donator, tenant_admin, coordinator, roles,
}
use rcp_api.Iam.Auth.{Claims, Platform, Draw}
use rcp_api.Iam.Auth.Tokens.{access_token, effective_tenant}
use rcp_api.Common.Auth.{
  Library, Principal, JwksCache, Attempt, get_key, principal_of, verify, Refusal, tenant_scoped,
  insufficient, authenticate, shares, require_tenant_role, texts_of, tenant_of, decoded,
}

-- `user_type.value`
abbrev type_text : UserType → String
type_text super_admin = "SUPER_ADMIN"
type_text volunteer = "VOLUNTEER"
type_text victim = "VICTIM"
type_text donator = "DONATOR"
type_text tenant_admin = "TENANT_ADMIN"
type_text coordinator = "COORDINATOR"

abbrev to_items : List String → Items
to_items [] = no_items
to_items (s ∷ rest) = item (str s) (to_items rest)

-- The tenant's claim, which is left out for none
abbrev tenant_claim : (ℕ → String) → Option ℕ → Fields
tenant_claim print none = no_fields
tenant_claim print (some t) = field "tenant_id" (str (print t)) no_fields

-- `claims` of `create_access_token`, with `str` of a UUID, and the time as a number
unfoldable pub claim_fields : (print : ℕ → String) (issuer audience : String) → Claims → Fields
claim_fields print issuer audience claims = field "sub" (str (print claims.sub)) (
    field "user_type" (str (type_text claims.user_type)) (
      field "roles" (arr (to_items claims.roles)) (
        field "iss" (str issuer) (
          field "aud" (str audience) (
            field "iat" (int (pos claims.iat)) (
              field "exp" (int (pos claims.exp))
                (field "jti" (str (print claims.jti)) (tenant_claim print claims.tenant_id))))))))

-- The library accepts a token that IAM signed with these claims, and reads it: its header, its
-- claims, and the ids in them.
pub record Reads {Key : Type 0} (library : Library Key) (platform : Platform) (print : ℕ → String)
    (issuer audience : String) (kid : String) (key : Key) (c : Claims) : Type 0 where
  pub header : library.get_unverified_header (platform.sign c) ≡ some (some "RS256", some kid)
  pub claims :
      library.decode (platform.sign c) key issuer audience
      ≡ some (claim_fields print issuer audience c)
  pub parses : (id : ℕ) → library.uuid (print id) ≡ some id
  pub prints : (id : ℕ) → str_eq (print id) "" ≡ false

texts_of-to_items : (ss : List String) → texts_of (to_items ss) ≡ some ss
texts_of-to_items [] = refl
texts_of-to_items (s ∷ ss) = rw (texts_of-to_items ss) refl

-- The principal that the claims name.
abbrev pub named_by : Claims → Principal
named_by c = record {
  user_id = c.sub;
  tenant_id = c.tenant_id;
  user_type = some (str (type_text c.user_type));
  roles = c.roles;
}

module _ {Key : Type 0} (library : Library Key) (platform : Platform) (print : ℕ → String)
    (issuer audience kid : String) (key : Key) (c : Claims)
    (reads : Reads library platform print issuer audience kid key c) where
  tenant_of-claim_fields :
      (t : Option ℕ) → tenant_of library (get "tenant_id" (tenant_claim print t)) ≡ some t
  tenant_of-claim_fields none = refl
  tenant_of-claim_fields (some t) = rw (reads.prints t, reads.parses t) refl

  principal_of-claim_fields :
      principal_of library (claim_fields print issuer audience c) ≡ some (named_by c)
  unfolding principal_of claim_fields
  principal_of-claim_fields =
      rw (reads.parses c.sub, tenant_of-claim_fields c.tenant_id, texts_of-to_items c.roles) refl

  -- While the key is in the cache and the cache is current, the token is accepted, for what it says.
  pub verify_issued :
      (ttl : ℕ) (attempt : Attempt Key) (cache : JwksCache Key)
      → get_key ttl attempt kid cache ≡ (some (some key), cache)
      → verify library ttl issuer audience attempt (platform.sign c) cache
        ≡ (some (named_by c), cache)
  unfolding verify decoded
  verify_issued ttl attempt cache cached =
      rw (reads.header, verify, cached, decoded, reads.claims, principal_of-claim_fields) refl

-- The claims of the token that IAM issues for a user, with the tenant that it acts for.
abbrev pub issued : Platform → Draw → User → Claims
issued platform draw user = record {
  sub = user.id;
  user_type = user.user_type;
  roles = roles user;
  tenant_id = effective_tenant platform user;
  iat = draw.now;
  exp = draw.now + platform.access_token_ttl_minutes * 60;
  jti = draw.id;
}

module _ {Key : Type 0} (library : Library Key) (platform : Platform) (print : ℕ → String)
    (issuer audience kid : String) (key : Key) (draw : Draw) (user : User) (allowed : List String)
    (ttl : ℕ) (attempt : Attempt Key) (cache : JwksCache Key) where
  -- A request with that token, to an endpoint for these roles of a tenant.
  abbrev pub tenant_request : Result Refusal Principal
  tenant_request =
      (authenticate library ttl issuer audience attempt
        (some (access_token platform draw user (effective_tenant platform user))) cache).0
      >>= require_tenant_role allowed

  -- If the JWT library accepts the token that IAM issues for a user, and its key is in the cache
  -- and current, a service lets the user through to an endpoint for some roles of a tenant
  -- exactly if the user acts for a tenant and has one of the roles.
  pub tenant_request_lem :
      Reads library platform print issuer audience kid key (issued platform draw user)
      → get_key ttl attempt kid cache ≡ (some (some key), cache)
      → tenant_request ≡ (
          if is_some (effective_tenant platform user)
          then if shares allowed (roles user)
            then ok (named_by (issued platform draw user))
            else err insufficient
          else err tenant_scoped)
  unfolding authenticate require_tenant_role
  tenant_request_lem reads cached =
      let verified =
        verify_issued library platform print issuer audience kid key (issued platform draw user)
          reads ttl attempt cache cached in
      rw (authenticate, verified) refl
