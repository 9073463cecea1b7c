-- ===== src/Protocol.antt =====
-- The master (src/master) and the clients (src/client) together: what one side writes, the other reads.
pub mod Reports
pub mod Tasks
pub mod Arrival
pub mod Data
pub mod Session
pub mod Ended
mod Tests
