-- ===== src/Incident.antt =====
-- The incident lifecycle of backend/app/operations_services.py. A text for people (titles, details,
-- messages) stands as what it is made from.
pub mod Status
pub mod Record
pub mod Update
pub mod Later
pub mod History
pub mod Refused
pub mod Samples
mod Tests
