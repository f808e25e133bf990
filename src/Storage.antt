-- ===== src/Storage.antt =====
-- server/server_kv.rs: `ServerKv`, the storage that the server was set up with. `block_on` of a
-- future that never sleeps runs it.
pub mod Agreement
pub mod Clocks
pub mod Gets
pub mod Puts
use hubert_rust.Base.{ℕ, Option, none, some}
use hubert_rust.Base.Lists.{Bytes}
use hubert_rust.Base.Io.{Result, ok, err, map_ok, map_err}
use hubert_rust.Error.{Error, to_string}
use hubert_rust.Gordian.{Gordian}
use hubert_rust.Memory
use hubert_rust.Memory.{Memory}
use hubert_rust.Sqlite
use hubert_rust.Sqlite.{SqliteKv}
use hubert_rust.Sqlite.Statements.{Database}

module _ (G : Gordian) (Q : Database) where
  open G use {Arid, Envelope}

  pub data ServerKv : Type 0 where
    memory : Memory G → ServerKv
    sqlite : SqliteKv G Q → ServerKv

  -- `ServerKv::memory` and `ServerKv::sqlite`
  abbrev pub new_memory : ℕ → ServerKv
  new_memory now = memory (Memory.new G now)

  abbrev pub new_sqlite : SqliteKv G Q → ServerKv
  new_sqlite store = sqlite store

  -- `map(|_| ()).map_err(|e| e.to_string())`
  abbrev pub reply : Result Bytes Error → Result (Unit {0}) Bytes
  reply r = map_err to_string (map_ok (λ _. tt) r)

  unfoldable pub put_sync : Arid → Envelope → ℕ → ServerKv → Result (Unit {0}) Bytes × ServerKv
  put_sync arid envelope ttl_seconds (memory s) =
      let (r, s') = Memory.put G arid envelope (some ttl_seconds) s in (reply r, memory s')
  put_sync arid envelope ttl_seconds (sqlite s) =
      let (r, s') = Sqlite.put G Q arid envelope (some ttl_seconds) s in (reply r, sqlite s')

  -- `ok().flatten()`, where `s` is the state of a loop that did not end.
  abbrev found :
      {S : Type 0}
      → (S → ServerKv)
      → S
      → Option (Result (Option Envelope) Error × S)
      → Option Envelope × ServerKv
  found kv s none = (none, kv s)
  found kv s (some (ok r, s')) = (r, kv s')
  found kv s (some (err _, s')) = (none, kv s')

  -- `get` with a timeout of 0 makes one pass, after which no sleep follows.
  unfoldable pub get_sync : Arid → ServerKv → Option Envelope × ServerKv
  get_sync arid (memory s) = found memory s (Memory.get G (λ _ s. s) 1 arid (some 0) s)
  get_sync arid (sqlite s) = found sqlite s (Sqlite.get G Q (λ _ s. s) 1 arid (some 0) s)
