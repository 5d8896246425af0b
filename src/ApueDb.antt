-- ===== src/ApueDb.antt =====
-- apue_db.c, apue_db.h: a database of records in an index file and a data file.
pub mod State
pub mod Entry
pub mod Chain
pub mod Ops
pub mod Open
mod Tests
pub mod Frame
pub mod EndToEnd
pub mod Database
mod Witnesses
