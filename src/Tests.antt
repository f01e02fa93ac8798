-- ===== src/Tests.antt =====
-- Sample data, runs on it, and the theorems at concrete inputs.
pub mod Delivery
pub mod Samples
pub mod Requests
pub mod Retry
pub mod Steps
pub mod Handler
pub mod Records
pub mod Access
pub mod Migrations
pub mod Messages
pub mod Publisher
pub mod Exposition
pub mod Serving
pub mod Recovery
