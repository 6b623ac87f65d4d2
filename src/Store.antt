-- ===== src/Store.antt =====
-- The crate resolve-store: the tables of the SQLite schema, and the transactions of `SqliteStore`
-- over them.
pub mod Error
pub mod Sql
pub mod Tables
pub mod Codec
pub mod GuardRows
pub mod Tx
pub mod Guards
pub mod Claims
pub mod Goals
pub mod Recovery
pub mod Outcomes
pub mod Descriptions
pub mod Commitments
pub mod Protocol
