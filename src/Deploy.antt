-- ===== src/Deploy.antt =====
-- The deployments that GitHub reports (backend/app/deployment_services.py).
pub mod Payload
pub mod Rows
pub mod Upsert
pub mod Ordered
pub mod Repeated
pub mod Samples
mod Tests
