-- ===== src/Storage.antt =====
-- crates/storage: the tables of migrations/*.sql, the statements that the crate sends, and its
-- public functions, over a server that may refuse any request.
pub mod Tables
pub mod Session
pub mod Statements
pub mod Calls
pub mod Blocks
pub mod Rows
pub mod Faults
pub mod Partitions
pub mod Creation
pub mod Loop
pub mod Members
pub mod Ranges
pub mod Inserts
pub mod Outcome
pub mod Effects
pub mod Agreement
pub mod Atomic
pub mod Replay
