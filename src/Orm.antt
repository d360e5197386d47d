-- ===== src/Orm.antt =====
-- include/webcrown/orm/databases/postgres/: the statements that the mapper writes from a table's
-- description, and what it does with the answers of the database.
pub mod Schema
pub mod Query
pub mod Value
pub mod Database
pub mod Insert
pub mod Select
pub mod Update
pub mod Tests
mod Witness
