-- ===== src/Proxy.antt =====
-- The gateway proxy of src/lib/proxy.
pub mod Headers
pub mod ClientIp
pub mod Request
pub mod System
pub mod Tests
