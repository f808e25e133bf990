-- ===== src/Cli.antt =====
-- bin/hubert.rs: the command line. A command is an operation on the machine that it runs on, with the
-- lines that it prints; an error is the message with which the process ends. What `--verbose` prints
-- is left out, and the parsing of the arguments is clap's.
pub mod Check
pub mod Cid
pub mod DhtExchange
pub mod Ends
pub mod Exchange
pub mod Health
pub mod HybridExchange
pub mod IpfsExchange
pub mod Main
pub mod Options
pub mod Program
pub mod Serving
pub mod Start
pub mod Restart
pub mod Stores
pub mod Validation
use hubert_rust.Base.{ℕ, Bool, Option, List, [], ◌∷◌, ◌++◌, leb, ◌&&◌}
use hubert_rust.Base.Lists.{Bytes}
use hubert_rust.Base.Io.{Result, ok, Io}
use hubert_rust.Gordian.{Gordian}
use hubert_rust.Json.{Json}
use hubert_rust.AridDerivation.{Crypto}
use hubert_rust.Mainline.{Dht}
use hubert_rust.Ipfs.Kubo.{Daemon}
use hubert_rust.Hybrid.Api.{Envelopes}
use hubert_rust.Client.{Http, HttpResponse}

pub data StorageBackend : Type 0 where
  mainline ipfs hybrid server : StorageBackend

-- The arguments of each command, as clap hands them over.
pub record PutOptions : Type 0 where
  pub storage : StorageBackend
  pub host : Option Bytes
  pub port : Option ℕ
  pub arid : Bytes
  pub envelope : Bytes
  pub ttl : Option ℕ
  pub pin : Bool

pub record GetOptions : Type 0 where
  pub storage : StorageBackend
  pub host : Option Bytes
  pub port : Option ℕ
  pub arid : Bytes
  pub timeout : ℕ

pub record CheckOptions : Type 0 where
  pub storage : StorageBackend
  pub host : Option Bytes
  pub port : Option ℕ

pub data GenerateType : Type 0 where
  arid : GenerateType
  envelope : ℕ → GenerateType

-- Those of `server`, and `--verbose`, which the server's configuration takes over.
pub record ServerOptions : Type 0 where
  pub port : Option ℕ
  pub sqlite : Option Bytes
  pub verbose : Bool

pub data Commands : Type 0 where
  generate : GenerateType → Commands
  put : PutOptions → Commands
  get : GetOptions → Commands
  check : CheckOptions → Commands
  server : ServerOptions → Commands

-- The libraries and the networks behind the program.
pub record Platform : Type 1 where
  pub gordian : Gordian
  pub envelopes : Envelopes gordian
  pub crypto : Crypto
  pub dht : Dht
  pub daemon : Daemon
  pub http : Http
  pub json : Json
  -- `Envelope::new(ByteString::new(bytes))`
  pub byte_envelope : Bytes → gordian.Envelope
  -- `Dht::client()`, with its error, and the wait for its bootstrap
  pub start_dht : dht.Net → Result (Unit {0}) Bytes × dht.Net
  -- `Testnet::new_async(5)`
  pub testnet : dht.Net → Result (Unit {0}) Bytes × dht.Net
  -- a POST with a timeout of its own
  pub post_within : ℕ → Bytes → http.World → Result HttpResponse Bytes × http.World
  -- `tokio::time::timeout` of a GET: nothing if it elapsed
  pub get_within : ℕ → Bytes → http.World → Option (Result HttpResponse Bytes) × http.World
  -- `Display` of a `StatusCode`
  pub status_text : ℕ → Bytes

-- `StatusCode::is_success`
abbrev pub is_success : ℕ → Bool
is_success status = leb 200 status && leb status 299

module _ (P : Platform) where
  -- The DHT, the daemon and HTTP as one process meets them; what `ARID::new` and `random_data` return
  -- in it, each of which a command calls once at most; and the lines printed so far.
  pub record Machine : Type 0 where
    pub net : P.dht.Net
    pub node : P.daemon.Node
    pub web : P.http.World
    pub new_arid : P.gordian.Arid
    pub random_data : ℕ → Bytes
    pub stdout : List Bytes

  abbrev pub Run : Type 0 → Type 0
  Run A = Io Machine Bytes A

  unfoldable pub println : Bytes → Run (Unit {0})
  println line m = (ok tt, record m { stdout = m.stdout ++ (line ∷ []) })
