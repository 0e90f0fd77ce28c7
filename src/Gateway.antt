-- ===== src/Gateway.antt =====
-- The gateway page: src/app/gateway, its configuration and the enforcement controls.
pub mod Config
pub mod Enforcement
pub mod Panel
pub mod Tests
