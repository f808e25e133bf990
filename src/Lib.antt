-- ===== src/Lib.antt =====
-- hubert: a store of Gordian envelopes under ARIDs, written once, so that parties who share an ARID
-- can pass messages. Each store implements the trait `KvStore` (src/kv_store.rs): `put`, `get`, which
-- polls until a timeout, and `exists`.
--
-- KvStore is that trait, with the six stores as implementations of it and the promise that a store is
-- written once. Memory is `MemoryKv` of src/server/memory_kv.rs, Sqlite is `SqliteKv` of
-- src/server/sqlite_kv.rs (Sqlite.Open its `new`), and Storage the choice between them in
-- src/server/server_kv.rs. Server is src/server/server.rs: the handlers of POST /put and POST /get over
-- that storage, in Server.Routes the health check, the routes and the server's construction, and in
-- Server.Backends the two storages compared. Client is `ServerKvClient` of src/server/kv.rs, which posts to them. Mainline is `MainlineDhtKv` of
-- src/mainline/kv.rs, Ipfs is `IpfsKv` of src/ipfs/kv.rs and src/ipfs/value.rs, and Hybrid is
-- `HybridKv` of src/hybrid/kv.rs, which keeps small envelopes in the first and puts references to the
-- second there for large ones; Hybrid.Reference is src/hybrid/reference.rs. AridDerivation is
-- src/arid_derivation.rs, Logging is src/logging.rs, and Error the error types of src/error.rs and the
-- files error.rs.
--
-- Cli is the program `hubert` of src/bin/hubert.rs over these: Cli.Options the tests on the options and
-- the defaults, Cli.Stores the functions that put in and get from each backend, Cli.Check the tests
-- whether a backend is available, Cli.Main the commands generate, put, get and check, Cli.Start the
-- command server, and Cli.Program `main`. Cli.Serving joins a machine to a server whose routes are
-- answered by their handlers.
-- Base holds what the modules share: numbers, lists, association lists, operations that may fail (Io)
-- and polling loops (Poll). Text holds the parts of Rust's `str` that the code calls. Examples holds
-- small instances of the parameters and the theorems at them.
--
-- Each definition has the name of the function or type that it models, in its module. A store's
-- state is a record with the clock that it reads; an operation takes the state and returns a result
-- and the new state. A critical section under a lock is one step. An operation of several critical
-- sections has one definition for each, and the relations `Step` and `Reach` of Memory.WriteOnce and
-- Sqlite.WriteOnce interleave the sections of any number of threads with the passing of time. Those of
-- Ipfs.Steps are whole operations of a store and of its clones, and the work of others. The modules
-- named Race order the sections of two threads.
--
-- Numbers are natural numbers; the casts and wrap-arounds of the code are written out (`as_i64`,
-- `saturating_add`, `wrapping_mul`). Texts and byte vectors are lists of numbers.
--
-- A polling loop runs on fuel, which counts its passes, and takes as a parameter what the rest of the
-- world does in a sleep. The theorems on `get` say how many passes are enough: two for each second of
-- the timeout and one more where the loop sleeps half a second, one for each second and one more
-- where it sleeps a second. The loop over the years in `timestamp` has fuel for the day's number
-- divided by 365 and one round more, and panics where the year is no longer an `i32`.
--
-- Parameters, with what the code relies on as records of laws: the ARIDs, envelopes and codecs
-- (Gordian, Hybrid.Api), HKDF, ChaCha20 and hex (Crypto), the statements of SQLite (Sqlite.Statements),
-- the file system and the opening of a database (Sqlite.Open), HTTP (Client.Http, Client.Connected and
-- Cli.Serving), serde_json (Json), the DHT (Mainline.Dht and Mainline.Network), the Kubo daemon
-- (Ipfs.Kubo, Ipfs.Promises and Ipfs.Growth), and what else the command line meets (Cli.Platform and
-- Cli.Program).
--
-- Not modelled: the year of `timestamp` past the largest `i32` in a build without checks for
-- overflow; where `verbose` prints what; the parsing of arguments by clap; axum and the listening
-- socket; the loop that waits for the DHT's bootstrap; the tests. `Instant::now() + duration` is taken
-- not to overflow.
pub mod AridDerivation
pub mod Base
pub mod Cli
pub mod Client
pub mod Error
pub mod Examples
pub mod Gordian
pub mod Hybrid
pub mod Ipfs
pub mod Json
pub mod KvStore
pub mod Logging
pub mod Mainline
pub mod Memory
pub mod Server
pub mod Sqlite
pub mod Storage
pub mod Text
pub mod Time
