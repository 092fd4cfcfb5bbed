-- ===== src/Database.antt =====
-- The database layer (src/database): the schema's names, the model classes and their records, the SQL
-- statements, the query functions, connections and transactions.
pub mod Enums
pub mod Models
pub mod Errors
pub mod Connection
pub mod Records
pub mod Tables
pub mod Sql
pub mod Fetch
pub mod Schema
pub mod Integrity
pub mod Queries
