-- ===== src/Fetch.antt =====
-- crates/mh-fetch/src/lib.rs: the host's fetch broker. `Address` has the IP address rules, `Policy`
-- the checks of a URL and of headers, `Broker` the redirect loop over the two seams (resolver and
-- transport), `Transport` the production transport over an HTTP client.
pub mod Address
pub mod Policy
pub mod Transport
pub mod Broker
