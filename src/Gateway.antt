-- ===== src/Gateway.antt =====
-- gateway/app: the rate limiter and the routing of requests.
pub mod RateLimit
pub mod Proxy
mod Tests
