-- ===== src/Lib.antt =====
-- A verification library of fips-dropbox, a file drop that sends encrypted prints to vendors by
-- links with access codes.
--
-- The parts of the program, and the files that model them:
-- - crates/cng/src/lib.rs: Cng. The status checks round Windows CNG and DPAPI. Cng.Handles has the
--   same functions as the native calls that they make, with the pointers, the lengths and the
--   handles that are opened and dropped; the rest of the model uses Cng. What Windows computes is a
--   field of the record Platform, an instance argument of everything else; so are the clock,
--   the generators of random bytes and identifiers, the failures of SQLite and of the file system,
--   and serde_json, hex, base64 and uuid. What depends on the moment of a call takes the number of
--   the call, which the world counts.
-- - crates/crypto/src: Crypto (hash.rs, mac.rs, rand.rs, kdf.rs, aead.rs, lib.rs), Crypto.Compare
--   (constant_time_eq), Crypto.Kek (kek.rs) and Crypto.Token (token.rs).
-- - crates/audit/src/lib.rs: Audit. Event has its records, Audit.Lines the lines of a file.
-- - crates/storage/src: Storage. Rows are the tables of migrations/0001_initial.sql, Records the
--   structs, Decode the row_to_... functions, Queries the way statements are run; Shares, Users,
--   Vendors, Sessions, ApiTokens and Prints are the files of those names, and Open is Store::open.
--   Ledger is what the table of shares promises, with its columns and its order forgotten, and
--   Ledger.Requests ties its steps to the clock of the calls.
-- - crates/service/src/lib.rs: Service. Auth, Create, Redeem, View and Tokens hold the methods of
--   App; History runs them in sequence.
-- - crates/web/src: Web. Strings, Cookies and Csv are the helpers of lib.rs, Pages what the templates
--   show, Extract is auth.rs, SignIn, AuditLog, Sharing, Minting and Upload.Post hold the handlers,
--   and Router sends a route to its handler. What axum, askama, time and http compute is a field of
--   the record Http; a request is its headers and a Route, with the path, query or form read.
-- - crates/notifier/src: Notifier (lib.rs and smtp.rs). The crate lettre is the record Lettre.
-- - crates/app/src: Startup (config.rs), Startup.Args and Startup.Init (init_cmd.rs), Startup.Run
--   (main.rs). The environment, files of settings and prompts are the record Host.
--
-- Text has Rust's str, as code points whose lengths and slices count UTF-8 bytes. Result adds to a
-- result the panic that unwinds. Effect is code that changes a state: what was written before an
-- error or a panic stays written. World is the state: the tables, the blobs, the audit file and the
-- log, the KEK file, the poison flags of the two mutexes, and the messages handed to the senders. A
-- statement is a function on the tables, in place of SQL text; the engine may refuse any call, with
-- no effect. A method of App holds the store's mutex, or the audit log's alone, from its first step
-- to its last but for the messages of create_share; so a history is a sequence of whole requests.
--
-- Numbers are natural numbers. Columns are i64 in the program and are never negative; u32 fields are
-- cut to 32 bits where a row is decoded. Instants are nanoseconds since the epoch, and arithmetic on
-- them panics from the year 10000. Every loop is a recursion on its list; no fuel is used but the
-- digits that a number can have, and in parse_loop, where the number of arguments is enough, since
-- each round takes one or two of them.
--
-- Not modelled: crates/sender-agent (prints a notice), tracing and what is printed, the listener and
-- the serve loop of crates/app, and the templates of crates/web.
--
-- Prelude, Effect and Storage.Stable carry the shared lemmas: Effect.Keeps has the rules for what
-- an action leaves true, Effect.Gives for what it answers, Effect.Succeeds and Effect.Runs for
-- actions that succeed; Storage.Stable says which properties of the world requests keep.
-- Tests holds concrete runs.
pub mod Prelude
pub mod Text
pub mod Result
pub mod Effect
pub mod Time
pub mod Errors
pub mod Event
pub mod Platform
pub mod Cng
pub mod Storage
pub mod World
pub mod Crypto
pub mod Audit
pub mod Service
pub mod Web
pub mod Notifier
pub mod Startup
pub mod Tests
