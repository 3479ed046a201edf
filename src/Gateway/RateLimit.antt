-- ===== src/Gateway/RateLimit.antt =====
-- gateway/app/ratelimit.py: the token bucket in memory. Times are milliseconds, tokens thousandths, so
-- that a rate per second is one of thousandths per millisecond.
pub mod Bound
use rcp_api.Base.{
  ℕ, ◌+◌, ◌-◌, ◌*◌, min, String, Bool, true, false, Option, none, some, List, [], ◌∷◌, ltb, str_eq,
  ◌==◌, ◌&&◌, if◌then◌else◌,
}
use rcp_api.Base.Text.{is_empty, strip}
use Prim.Native.Char.{code}

-- `_Bucket`
pub record Bucket : Type 0 where
  pub tokens : ℕ
  pub updated_at : ℕ

-- The settings that the limiter reads.
pub record Settings : Type 0 where
  pub rate_limit_rps : ℕ
  pub rate_limit_burst : ℕ
  pub rate_limit_trust_forwarded : Bool

-- `self._buckets`
abbrev pub Buckets : Type 0
Buckets = List (String × Bucket)

abbrev pub get_bucket : String → Buckets → Option Bucket
get_bucket client [] = none
get_bucket client ((c, b) ∷ rest) = if str_eq c client then some b else get_bucket client rest

abbrev pub put_bucket : String → Bucket → Buckets → Buckets
put_bucket client bucket [] = (client, bucket) ∷ []
put_bucket client bucket ((c, b) ∷ rest) =
    let others = put_bucket client bucket rest in
    if str_eq c client then (c, bucket) ∷ rest else (c, b) ∷ others

module _ (settings : Settings) where
  abbrev pub burst : ℕ
  burst = settings.rate_limit_burst * 1000

  -- `self._buckets.get(client_key)`, or a full bucket. The source stamps a new one with a second
  -- reading of the clock, some microseconds later than `now`.
  abbrev pub bucket_of : ℕ → String → Buckets → Bucket
  bucket_of now client buckets = elim (get_bucket client buckets) [
    | none ↦ record { tokens = burst; updated_at = now }
    | some b ↦ b
  ]

  -- The tokens after the refill; the clock is monotonic.
  abbrev pub refilled : ℕ → Bucket → ℕ
  refilled now b = min burst (b.tokens + (now - b.updated_at) * settings.rate_limit_rps)

  -- `_allow`
  unfoldable pub allow : ℕ → String → Buckets → Bool × Buckets
  allow now client buckets =
      let filled = refilled now (bucket_of now client buckets) in
      if ltb filled 1000
      then (false, put_bucket client (record { tokens = filled; updated_at = now }) buckets)
      else (true, put_bucket client (record { tokens = filled - 1000; updated_at = now }) buckets)

-- `forwarded.split(",")[0]`
abbrev before_comma : String → String
before_comma String.[] = String.[]
before_comma (String.◌∷◌ c s) =
    let rest = before_comma s in if code c == b',' then String.[] else String.◌∷◌ c rest

-- What `dispatch` reads of a request: the path, the header x-forwarded-for and the peer's address.
pub record Request : Type 0 where
  pub path : String
  pub forwarded : String
  pub host : Option String

abbrev peer : Request → String
peer request = elim request.host [ none ↦ "unknown" | some h ↦ h ]

-- `_client_key`
unfoldable pub client_key : Settings → Request → String
client_key settings request =
    if settings.rate_limit_trust_forwarded
    then if is_empty request.forwarded then peer request else strip (before_comma request.forwarded)
    else peer request

-- `dispatch`: whether the request goes on; else the answer is a 429.
unfoldable pub dispatch : Settings → ℕ → Request → Buckets → Bool × Buckets
unfolding client_key
dispatch settings now request buckets =
    if str_eq request.path "/health"
    then (true, buckets)
    else allow settings now (client_key settings request) buckets

-- Requests as they come, each with the time that the clock shows.
abbrev pub Calls : Type 0
Calls = List (ℕ × Request)

-- Whether a request counts against the bucket of the client.
abbrev pub is_limited_by : Settings → String → Request → Bool
is_limited_by settings client request =
    if str_eq request.path "/health" then false else str_eq (client_key settings request) client

-- How many of them the middleware lets through on the account of a client.
unfoldable pub admitted : Settings → String → Calls → Buckets → ℕ
unfolding dispatch
admitted settings client [] buckets = 0
admitted settings client ((now, request) ∷ calls) buckets =
    let (on, after) = dispatch settings now request buckets in
    (if on && is_limited_by settings client request then 1 else 0)
    + admitted settings client calls after
