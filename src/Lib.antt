-- ===== src/Lib.antt =====
-- HOM Local: a private memory for coding agents. A brain process keeps memories, sessions,
-- permissions and a tamper-evident ledger in SQLite and answers signed JSON-RPC requests on a Unix
-- socket; an ingress process serves HTTP and a user interface and calls the brain as a client.
-- This library models the core that every request passes, the permissions that bound what an agent
-- may do, and the ledger that both are recorded in.
--
-- A request is a line of JSON with a `hom` envelope. The brain looks its method up in the table of
-- scopes, verifies the envelope (client, clock, nonce, body hash, scopes, signature), asks the
-- security policy, and queues it for a worker, whose mailbox is a weighted priority queue. What
-- changes state is appended to the ledger, whose events are chained by SHA-256 over canonical JSON.
--
-- The files:
--   Prelude, I64: shared names; results; i64 with its wrap-around, and its decimal texts.
--   Json (crates/hom-shared/src/canonical_json.rs): the writer, `canonical_json` and `write_value`.
--     An object is a list of fields with distinct keys, in any order; the sorted keys are sorted
--     by insertion. The depth limit is the source's 32; the recursion is over the value.
--   Crypto (crates/hom-shared/src/crypto.rs): signing and verifying a payload over base64, keys
--     and Ed25519, which are parameters; it fills the interface of Envelope.
--   Envelope (crates/hom-shared/src/envelope.rs): `EnvelopeVerifier` as a record, `verify_body` and
--     `verify_request` as functions from a state and a clock to a state and a result. The map of
--     clients is the list that it is collected from, with the last entry of a key; the set of
--     nonces is a list of keys. Clock, Keys, Admission, Replay, Refusals
--     and Payload hold its theorems.
--   Methods (crates/hom-brain/src/ipc/server.rs, ipc/router.rs, services/security_policy.rs,
--     workers/mod.rs, lib.rs): the tables of methods, as lists of names.
--   Policy (crates/hom-brain/src/services/security_policy.rs): `evaluate_request` and the canaries.
--     The scan for secrets is an interface, which Secrets fills with SecurityGate.
--   Codes, SecurityGate (crates/hom-brain/src/services/security_gate.rs): texts as lists of code
--     points, and `secret_matches` with its scans and filters. Bytes are read only where they are
--     ASCII, so that windows of 11 bytes are windows of 11 code points. Card, Luhn and Filters hold
--     theorems.
--   Permissions (crates/hom-brain/src/services/permissions.rs): the parameters of requests; Grants
--     has the table `grant_ledger_entries` as a list of rows, Handlers the operations on it with
--     their ledger events, System the grants that the program gives itself, Settings the
--     `PermissionState`, Gate the validation and the `enforce_` functions, Sync and Profile the
--     handlers that keep settings and grants in step. An operation in one transaction gives a store
--     or an error; one of several transactions gives a store with a result. The clock and new ids
--     are arguments. The ledger is an interface, which Recorded fills with Ledger. Confirmed, Revoked,
--     Single, Latest, Upsert, Steps, Check, Gone, Returns, Failures, Narrowing, Stored and Roots
--     hold theorems.
--   Ipc (crates/hom-brain/src/ipc/server.rs): `process_frame`, from the parsed line to the dispatch.
--   Queue (crates/hom-brain/src/ipc/router.rs): `WeightedQueue`, with `push`, `pop` and the cursor.
--     The loop of `pop` counts the 21 slots of the schedule down.
--   Ledger (crates/hom-brain/src/db/storage.rs): tables as lists in the order of their row ids;
--     `append_ledger_tx`, `ledger_row_status`, `verify_ledger_sequence`, `verify_ledger_conn`.
--     Store has the tables, appending and the report, Mutation the recorded changes of events,
--     Repair `repair_segmented_ledger`; Chain, Sound, Append, Tamper,
--     Written and Restore hold theorems.
--   RateLimit (crates/hom-ingress/src/rate_limit.rs): `RateLimiter::check` with the clock as an
--     argument; seconds are natural numbers, since the clock gives none below zero.
--   Tests: runs of the models, and each theorem at an input that meets its hypotheses.
--
-- No definition runs on fuel: every loop is over a list, a value, the fixed number of slots, or the
-- decimal digits of an i64, of which there are at most 20.
-- Machine integers: the clock test and the age of a nonce are on i64 with wrap-around, as a release
-- build compiles them. Counters that only grow by one from zero are natural numbers.
--
-- serde_json, SHA-256, base64, Ed25519 and Unicode's lower case are parameters: functions, or
-- records of functions, that the definitions take. What a theorem asks of them stands among its
-- hypotheses: that digests have 64 hexadecimal digits, that a payload's text parses back, that
-- every text and every i64 is written, that two texts do not collide, that what a key signs its
-- public key verifies, that base64 decodes what it encoded.
--
-- Not modelled: SQL, file and socket I/O; the services behind the methods other than the
-- permissions (recall, sessions, gates, imports, nightly jobs, reasoning); everything on
-- floating-point numbers (ranking, vectors, trust); the HTTP server and the user interface of the
-- ingress.
mod Tests
pub mod Codes
pub mod Crypto
pub mod Envelope
pub mod I64
pub mod Ipc
pub mod Json
pub mod Ledger
pub mod Methods
pub mod Permissions
pub mod Policy
pub mod Prelude
pub mod Queue
pub mod RateLimit
pub mod SecurityGate
