-- ===== src/Domain.antt =====
-- crates/mh-domain/src/lib.rs: the source record and its validation. Field labels, which only
-- error messages show, are native texts; the `extra` and `metadata` objects are JSON members.
pub mod Uri
pub mod Date
pub mod Record
