-- ===== src/Gateway/Proxy.antt =====
-- gateway/app/proxy.py with the table of gateway/app/core/config.py: routing and forwarding.
pub mod Routes
pub mod Headers
use rcp_api.Base.{
  ℕ, String, Bool, true, false, not, Option, none, some, List, [], ◌∷◌, ◌&&◌, ◌==◌, leb, exists,
  select, str_eq, if◌then◌else◌,
}
use rcp_api.Base.Text.{char_count, is_empty, lowers_to}
use Prim.Native.Char.{code}

-- The settings with the services' addresses.
pub record Urls : Type 0 where
  pub iam_url : String
  pub logistics_url : String
  pub analytics_url : String
  pub volunteer_url : String

-- A prefix and the service that it belongs to.
abbrev pub Route : Type 0
Route = String × String

-- `ROUTE_TABLE`
abbrev pub route_table : Urls → List Route
route_table urls =
    ("/api/auth", urls.iam_url)
    ∷ ("/api/admin", urls.iam_url)
    ∷ ("/.well-known", urls.iam_url)
    ∷ ("/api/requests", urls.logistics_url)
    ∷ ("/api/inventory", urls.logistics_url)
    ∷ ("/api/volunteers", urls.logistics_url)
    ∷ ("/api/reports", urls.analytics_url)
    ∷ ("/api/volunteer", urls.volunteer_url)
    ∷ ("/api/alerts", urls.logistics_url)
    ∷ []

-- `path == prefix or path.startswith(prefix + "/")`
abbrev pub is_under : String → String → Bool
is_under String.[] String.[] = true
is_under (String.◌∷◌ c s) String.[] = code c == b'/'
is_under String.[] (String.◌∷◌ d prefix) = false
is_under (String.◌∷◌ c s) (String.◌∷◌ d prefix) =
    let rest = is_under s prefix in (code c == code d) && rest

-- `max(matches, key=len)`, the first of the longest
unfoldable pub longest : List Route → Option Route
unfolding char_count
longest [] = none
longest (route ∷ routes) = elim (longest routes) [
  | none ↦ some route
  | some best ↦ if leb (char_count best.0) (char_count route.0) then some route else some best
]

unfoldable pub resolve_upstream : List Route → String → Option String
unfolding longest
resolve_upstream table path = elim (longest (select (λ route. is_under path route.0) table)) [
  | none ↦ none
  | some route ↦ some route.1
]

-- The headers of a request in their order; a name may come twice.
abbrev pub HeaderList : Type 0
HeaderList = List (String × String)

-- `_HOP_BY_HOP`
abbrev pub hop_by_hop : List String
hop_by_hop =
    "connection" ∷ "keep-alive" ∷ "proxy-authenticate" ∷ "proxy-authorization" ∷ "te" ∷ "trailers"
    ∷ "transfer-encoding" ∷ "upgrade" ∷ "host" ∷ "content-length" ∷ []

-- `key.lower() in _HOP_BY_HOP`, for a name of ASCII characters
unfoldable pub is_hop : String → Bool
is_hop key = exists (λ name. lowers_to key name) hop_by_hop

-- `headers[key] = value`
abbrev pub set_header : String → String → HeaderList → HeaderList
set_header key value [] = (key, value) ∷ []
set_header key value ((k, v) ∷ rest) =
    let others = set_header key value rest in
    if str_eq k key then (k, value) ∷ rest else (k, v) ∷ others

-- The dict comprehension over `headers.items()`.
unfoldable pub copy_headers : HeaderList → HeaderList → HeaderList
unfolding is_hop
copy_headers [] acc = acc
copy_headers ((k, v) ∷ rest) acc = elim (is_hop k) [
  | true ↦ copy_headers rest acc
  | false ↦ copy_headers rest (set_header k v acc)
]

-- `if traceparent: headers["traceparent"] = traceparent`
abbrev pub with_trace : Option String → HeaderList → HeaderList
with_trace none headers = headers
with_trace (some t) headers = if is_empty t then headers else set_header "traceparent" t headers

-- The headers that `forward` sends, with the traceparent of the request and the peer's address.
unfoldable pub outgoing : HeaderList → (traceparent host : Option String) → HeaderList
unfolding copy_headers
outgoing headers traceparent host =
    let copied = copy_headers headers [] in
    let traced : HeaderList = with_trace traceparent copied in
    elim host [ none ↦ traced | some h ↦ set_header "X-Forwarded-For" h traced ]

pub record Request : Type 0 where
  pub method : String
  pub path : String
  pub query : String
  pub headers : HeaderList
  pub body : String
  pub traceparent : Option String
  pub host : Option String

pub record Response : Type 0 where
  pub status_code : ℕ
  pub headers : HeaderList
  pub content : String

-- `_client.request`, with the address, the path, the query, the headers and the content; `none` is
-- an httpx.HTTPError.
abbrev pub Client : Type 0
Client = (method upstream path query : String) → HeaderList → (content : String) → Option Response

-- A `JSONResponse` with a detail
abbrev pub refused : ℕ → String → Response
refused status detail = record { status_code = status; headers = []; content = detail }

unfoldable pub forward : Urls → Client → Request → Response
unfolding resolve_upstream outgoing
forward urls client request = elim (resolve_upstream (route_table urls) request.path) [
  | none ↦ refused 404 "No route for path"
  | some upstream ↦
      elim (client request.method upstream request.path request.query
        (outgoing request.headers request.traceparent request.host) request.body) [
          | none ↦ refused 502 "Upstream service unavailable"
          | some response ↦ record response { headers = copy_headers response.headers [] }
        ]
]
