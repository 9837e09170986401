-- ===== src/Api.antt =====
-- crates/api/src/schema.rs: the queries of the GraphQL interface.
pub mod Address
pub mod Record
pub mod Printed
pub mod Query
pub mod Order
pub mod Pages
pub mod Accepts
pub mod Count
pub mod Status
pub mod Latest
