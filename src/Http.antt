-- ===== src/Http.antt =====
-- The browser's calls of the gateway: src/framework/http.
pub mod RateLimit
pub mod Tests
