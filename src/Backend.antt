-- ===== src/Backend.antt =====
-- The backend handler (internal/proxy/backend.go): the URL of a backend and its API key (`Target`),
-- one request through the reverse proxy (`Proxying`), the fallback chain (`Fallback`), and what
-- holds of them.
mod Tests
pub mod Target
pub mod Proxying
pub mod Fallback
