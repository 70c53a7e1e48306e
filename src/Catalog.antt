-- ===== src/Catalog.antt =====
-- The services of a workspace and their dependencies (backend/app/operations_services.py).
pub mod Graph
pub mod Cycles
pub mod Fuel
pub mod Accepted
pub mod Services
pub mod Shapes
pub mod Kept
pub mod Sequence
pub mod Samples
mod Tests
