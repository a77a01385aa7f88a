-- ===== src/Db.antt =====
-- crates/mh-db/src/lib.rs: the SQLite database of the records. The tables are lists of rows, and
-- each SQL statement of the code is a function on them, as SQLite documents it: `Tables` has the
-- rows and the statements that write, `Fingerprint` the fingerprint of a record's content,
-- `Ingest` the transaction that takes a batch of records, `Query` the statements that read,
-- `Schema` which files are opened.
pub mod Tables
pub mod Fingerprint
pub mod Ingest
pub mod Query
pub mod Schema
