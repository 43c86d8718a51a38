-- ===== src/Db.antt =====
-- db/local_services_db.py and db/models.py: the three tables and the CRUD methods of
-- `LocalServicesDbMixin`. A writer transaction that raises leaves the tables as they were, so a
-- method returns its result with the new tables, or the exception alone.
pub mod Vip
pub mod Rows
pub mod Tables
pub mod Services
pub mod Backends
pub mod Bindings
pub mod Consistency
pub mod Schema
pub mod Migrations
