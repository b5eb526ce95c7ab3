-- ===== src/Gateway.antt =====
-- src/finserve/gateway: the admission of requests.
pub mod Admission
pub mod BodyLimit
mod Tests
