-- ===== src/Cli.antt =====
-- crates/mh-cli/src/main.rs: the options of `mh discover`, and the state of a run's source in the
-- database; crates/mh-cli/src/view.rs: the options of `mh view`.
pub mod Discover
pub mod State
pub mod View
