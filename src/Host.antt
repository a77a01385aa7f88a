-- ===== src/Host.antt =====
-- crates/mh-host/src/lib.rs: the plugin host. `Error` has its errors, `Spool` the records and logs
-- of a run, `Machine` the process and what the host sends to it, `Requests` the parsing of a
-- plugin's requests, `Handle` the handlers of a plugin's messages, `ReadLoop` the loop that
-- reads them, `Discover` a whole run, `Entry` the ways to start one, `Provider` the fetch provider,
-- `Process` the end of the process, `Plugins` the definitions of plugins in a directory.
pub mod Error
pub mod Spool
pub mod Requests
pub mod Machine
pub mod Handle
pub mod ReadLoop
pub mod Discover
pub mod Plugins
pub mod Process
pub mod Provider
pub mod Entry
