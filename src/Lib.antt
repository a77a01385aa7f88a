-- ===== src/Lib.antt =====
-- magazine-core: a host that runs source plugins as child processes, checks the records that they
-- emit, fetches URLs on their behalf, and stores the records.
--
-- The program's parts and how they interact. A plugin talks to the host in frames over its standard
-- input and output: a length prefix and a JSON message (crates/mh-protocol). The host
-- (crates/mh-host) sends `initialize` and `discover`, and reads until the response to each. Between
-- them the plugin may send records and logs, which the host spools within limits, and may ask for
-- state and for fetches. A record is checked against the contract of crates/mh-domain. A fetch goes
-- through the broker of crates/mh-fetch, which checks the URL, the headers and the resolved
-- addresses of each hop. A run ends with checks of the exit status and of the number of records.
-- The records of a run go into the database (crates/mh-db) in one transaction, and the state that a
-- plugin asks for comes from there. The UI server (crates/mh-cli) reads the database, and starts
-- and cancels runs in threads of its own for requests that have its token.
--
-- Files and code:
--   Base     numbers, lists, options and Rust's `Result`, shared by all.
--   Text     Rust's strings: a text is the list of its characters; UTF-8, `trim`, `parse::<usize>`.
--   Json     `serde_json::Value` with its accessors.
--   Protocol crates/mh-protocol/src: `Framing` is framing.rs (`read_frame`, `write_frame`),
--            `Message` is message.rs, `Canonical` is `canonical_json` of framing.rs.
--   Domain   crates/mh-domain/src/lib.rs: `Uri` is `is_absolute_uri`, `Date` is
--            `is_valid_yyyy_mm_dd`, `Record` is `SourceRecord` and its `validate`.
--   Fetch    crates/mh-fetch/src/lib.rs: `Address` has `forbidden_ip` and the address policies,
--            `Policy` the checks of URLs, headers and hosts, `Broker` the redirect loop
--            (`fetch_with_address_policy`), `Transport` the body of `ReqwestTransport::send`.
--   Host     crates/mh-host/src/lib.rs: `Error` is `HostError`, `Spool` is `RunState` and
--            `spool_records`, `Requests` the `require_*` and `parse_*` functions, `Machine` the
--            process as the host sees it (`send`), `Handle` is `handle_plugin_message` and what it
--            calls, `ReadLoop` is `read_until_response`, `Discover` is
--            `run_discover_with_providers_and_cancel`, `Entry` its callers, `Provider` is
--            `SafeFetchProvider`, `Process` is `wait_or_terminate` and `terminate_tree`,
--            `Plugins` is `discover_plugins` and the rules for environment declarations.
--   Db       crates/mh-db/src/lib.rs: `Tables` the rows and the SQL statements that write them,
--            `Fingerprint` is `content_fingerprint`, `Ingest` is `ingest_records` and what it
--            calls, `Query` the methods that read, `Schema` which files `Database::open` takes.
--   Cli      crates/mh-cli/src/main.rs and view.rs: `Discover` is `parse_discover_options`, `State`
--            is `DbStateProvider`, `View` the options of `mh view`.
--   Ui       crates/mh-cli/src/ui.rs: `Read` is `read_http_request_until`, `Target` the parsing of
--            targets and queries, `Http` requests and responses, `Authority` is
--            `require_loopback_host` and `require_management_request`, `Manage` the run state and
--            its threads, `Routes` is `handle_request` with its handlers, `Database` what they ask
--            of `Db`, `Options` is `parse_ui_options`.
--   Ext      crates/mh-cli/src/ui_ext: `Path` is registry/path.rs, `Broker` is broker.rs.
--   Tests    runs on concrete inputs.
--
-- State. A handler is a function from the `Machine` to a result and the machine after it: the
-- plugin's standard input, the messages that went into it, the shutdowns of the process, each with
-- the messages before it, and the spool. An error keeps what was changed before it. A reader is the
-- list of what its reads will meet, so that a stream may come in any parts. The redirect loop also
-- gives the requests that it handed to the transport, in order.
--
-- The database is the list of rows of each table; a statement is a function on them that may fail,
-- and a transaction threads them through its statements. The UI server is a state of runs, tokens
-- and threads with a step for what a handler or a thread does while it holds the lock, in any
-- order.
--
-- Parameters. The JSON library's parser and printer and the derived readers, the `url` crate, the
-- syntax of headers, the HTTP client, the resolver, base64, the provider of state and the texts of
-- errors are arguments of the definitions that use them; so are SQLite's failures and its clock,
-- the initialization of a file that the UI asks for, and whether the thread that reads a plugin's
-- output has ended when it is joined. The clock, the channel from the reader's thread and the
-- process are scripts: each round of the host's loop has a `Tick`, each hop of a fetch a number,
-- each read of the UI server an `Attempt`.
--
-- Bounds and fuel. Lengths and sizes saturate at 2^64 - 1 where the code's do. Times are
-- nanoseconds without an upper bound. The redirect loop runs over `max_redirects + 1` rounds, as
-- the code's `for` does. The read loop runs over its ticks: it has no fuel of its own, and one
-- whose ticks are used up is still waiting; so are the loops of `Process` over what they see. The
-- loop under `read_frame` takes one event a step. A request of the UI is read over its attempts,
-- and one that has used them up is still being read. A reader of pages has one page more than there
-- are posts. The ids of posts are i64, and an insertion behind the last one fails.
--
-- Not modelled: the SQL text itself, the pragmas and the indexes of the database; the listener of
-- the UI server with its limit on connections, its token and its page; the manifests, the HTTP
-- server, the shell page, the provider process and the opening of files of the UI extensions; the
-- printing of the command line; the inspection of manifests for the UI; the start of the process
-- with its reader thread; and the Python SDK.
pub mod Base
pub mod Text
pub mod Json
pub mod Protocol
pub mod Domain
pub mod Fetch
pub mod Host
pub mod Cli
pub mod Db
pub mod Ext
pub mod Ui
mod Tests
