-- ===== src/Gateway/Tests.antt =====
-- Runs of the gateway at concrete requests.
use rcp_api.Base.{◌≡◌, ◌≤◌, ◌+◌, ◌*◌, ◌-◌, ◌⊎◌, refl, false, none, some, [], ◌∷◌, arith}
use rcp_api.Gateway.RateLimit.{Settings, Request, Calls, burst, admitted}
use rcp_api.Gateway.RateLimit.Bound.{admitted_bound}
use rcp_api.Gateway.Proxy.{Urls, Route, route_table, resolve_upstream, outgoing}
use rcp_api.Gateway.Proxy.Routes.{IsLongest, matches, resolve_upstream_lem}

abbrev urls : Urls
urls = record {
  iam_url = "http://iam";
  logistics_url = "http://logistics";
  analytics_url = "http://analytics";
  volunteer_url = "http://volunteer";
}

abbrev settings : Settings
settings = record { rate_limit_rps = 20; rate_limit_burst = 1; rate_limit_trust_forwarded = false }

abbrev request : Request
request = record { path = "/api/requests"; forwarded = ""; host = some "10.0.0.1" }

-- The second request comes too early.
abbrev calls : Calls
calls = (100, request) ∷ (110, request) ∷ (160, request) ∷ []

admitted_bound_example :
    admitted settings "10.0.0.1" calls [] * 1000 ≤ burst settings + (160 - 100) * 20
admitted_bound_example =
    admitted_bound settings "10.0.0.1" 100 calls (omega arith, (omega arith, (omega arith, tt)))

resolve_upstream_lem_example :
    ((resolve_upstream (route_table urls) "/api/volunteers/5" ≡ none)
      × (matches (route_table urls) "/api/volunteers/5" ≡ []))
    ⊎ ((best : Route) × (resolve_upstream (route_table urls) "/api/volunteers/5" ≡ some best.1)
        × IsLongest (matches (route_table urls) "/api/volunteers/5") best)
resolve_upstream_lem_example = resolve_upstream_lem (route_table urls) "/api/volunteers/5"

-- The two services with a common prefix, and the payments, which have no route.
volunteers_go_to_logistics :
    resolve_upstream (route_table urls) "/api/volunteers/5" ≡ some "http://logistics"
unfolding resolve_upstream
volunteers_go_to_logistics = refl

events_go_to_volunteer :
    resolve_upstream (route_table urls) "/api/volunteer/events" ≡ some "http://volunteer"
unfolding resolve_upstream
events_go_to_volunteer = refl

payments_have_no_route : resolve_upstream (route_table urls) "/api/payments" ≡ none
unfolding resolve_upstream
payments_have_no_route = refl

-- What the client wrote goes on beside the peer's address.
forwarded_twice :
    outgoing (("x-forwarded-for", "1.2.3.4") ∷ []) none (some "10.0.0.1")
    ≡ ("x-forwarded-for", "1.2.3.4") ∷ ("X-Forwarded-For", "10.0.0.1") ∷ []
unfolding outgoing
forwarded_twice = refl
