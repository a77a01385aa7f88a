-- ===== src/Ui.antt =====
-- crates/mh-cli/src/ui.rs: the local UI server. `Target` has the parsing of request targets,
-- `Http` requests and responses, `Read` the reading of a request from the socket, `Authority` the
-- checks of the host, the origin and the token, `Manage` the state of discovery runs and its
-- threads, `Routes` the handlers and their dispatch, `Database` what they ask of the database,
-- `Options` the command line of the server.
pub mod Target
pub mod Http
pub mod Read
pub mod Authority
pub mod Manage
pub mod Routes
pub mod Options
pub mod Database
