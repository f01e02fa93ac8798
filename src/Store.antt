-- ===== src/Store.antt =====
-- store/store.js over the tables of db/migrations/001_initial_schema.sql
pub mod Tables
pub mod Sql
pub mod Save
pub mod Updates
