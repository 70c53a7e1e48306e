-- ===== src/Impact.antt =====
-- `calculate_blast_radius` of backend/app/engines.py: which services a change reaches, and in how
-- many hops.
pub mod Graph
pub mod Result
pub mod Marks
pub mod Rules
pub mod Reached
pub mod Ends
pub mod Hops
pub mod Samples
mod Tests
