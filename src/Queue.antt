-- ===== src/Queue.antt =====
-- backend/app/job_queue.py and backend/app/job_models.py: the durable background job queue.
pub mod Payload
pub mod Job
pub mod Lifecycle
pub mod Enqueue
pub mod Run
pub mod Validity
pub mod Invariant
pub mod Claim
pub mod Session
pub mod Trace
pub mod Worker
pub mod Leases
pub mod Retry
pub mod Samples
mod Tests
