-- ===== src/Http.antt =====
-- src/http: the dashboard's API.
pub mod Auth
pub mod Cases
pub mod Config
pub mod Policy
mod Tests
