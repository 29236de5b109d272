-- ===== src/Config.antt =====
-- src/config: the business configuration and its validation. A Go `error` is a value that names
-- the check that failed, with the names that the message quotes.
pub mod Stage
pub mod Business
pub mod Topology
pub mod System
pub mod Endpoint
pub mod Defaults
pub mod Snapshot
pub mod Validate
pub mod Samples
pub mod Examples
