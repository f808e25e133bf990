-- ===== src/KvStore.antt =====
-- kv_store.rs: the trait `KvStore`, and each store as an implementation of it.
pub mod WriteOnce
pub mod Kept
pub mod Local
pub mod Network
pub mod Remote
pub mod Stores
use hubert_rust.Base.{ℕ, Bool, Option, some}
use hubert_rust.Base.Lists.{Bytes}
use hubert_rust.Base.Io.{Result, Io}
use hubert_rust.Error.{Error}
use hubert_rust.Gordian.{Gordian}
use hubert_rust.AridDerivation.{Crypto}
use hubert_rust.Memory
use hubert_rust.Memory.{Memory}
use hubert_rust.Sqlite
use hubert_rust.Sqlite.{SqliteKv}
use hubert_rust.Sqlite.Statements.{Database}
use hubert_rust.Client
use hubert_rust.Client.{Http}
use hubert_rust.Mainline
use hubert_rust.Mainline.{Dht, MainlineDhtKv}
use hubert_rust.Ipfs
use hubert_rust.Ipfs.{IpfsKv}
use hubert_rust.Ipfs.Kubo.{Daemon}
use hubert_rust.Hybrid
use hubert_rust.Hybrid.{HybridKv}
use hubert_rust.Hybrid.Api.{Envelopes}

-- `State` is what the store and the world behind it are. A loop's fuel counts its passes; nothing is
-- returned where it runs out.
pub record KvStore (G : Gordian) : Type 1 where
  pub State : Type 0
  pub put : G.Arid → G.Envelope → Option ℕ → Io State Error Bytes
  pub get : ℕ → G.Arid → Option ℕ → State → Option (Result (Option G.Envelope) Error × State)
  pub exists : ℕ → G.Arid → State → Option (Result Bool Error × State)

module _ (G : Gordian) where
  -- `sleep` is what the rest of the world does while the store sleeps.
  abbrev pub memory : (ℕ → Memory G → Memory G) → KvStore G
  memory sleep = record {
    State = Memory G;
    put = Memory.put G;
    get = Memory.get G sleep;
    exists = λ fuel arid s. some (Memory.exists G arid s);
  }

  abbrev pub sqlite : (Q : Database) → (ℕ → SqliteKv G Q → SqliteKv G Q) → KvStore G
  sqlite Q sleep = record {
    State = SqliteKv G Q;
    put = Sqlite.put G Q;
    get = Sqlite.get G Q sleep;
    exists = λ fuel arid s. some (Sqlite.exists G Q arid s);
  }

  abbrev pub client : Http → Bytes → KvStore G
  client H base_url = record {
    State = H.World;
    put = Client.put G H base_url;
    get = λ fuel. Client.get G H fuel base_url;
    exists = λ fuel. Client.exists G H fuel base_url;
  }

  abbrev pub mainline : Crypto → (D : Dht) → MainlineDhtKv → KvStore G
  mainline K D kv = record {
    State = D.Net;
    put = Mainline.put G K D kv;
    get = λ fuel. Mainline.get G K D fuel kv;
    exists = λ fuel arid s. some (Mainline.exists G K D kv arid s);
  }

  abbrev pub ipfs : (K : Crypto) → (N : Daemon) → IpfsKv → KvStore G
  ipfs K N kv = record {
    State = Ipfs.Session G K N;
    put = Ipfs.put G K N kv;
    get = λ fuel. Ipfs.get G K N fuel kv;
    exists = λ fuel arid s. some (Ipfs.exists G K N arid s);
  }

  -- `reference_arid` is what `ARID::new` returns in `put`.
  abbrev pub hybrid :
      (V : Envelopes G) → (K : Crypto) → (D : Dht) → (N : Daemon) → HybridKv → G.Arid → KvStore G
  hybrid V K D N kv reference_arid = record {
    State = Hybrid.World G V K D N;
    put = Hybrid.put G V K D N kv reference_arid;
    get = λ fuel. Hybrid.get G V K D N fuel kv;
    exists = λ fuel arid s. some (Hybrid.exists G V K D N kv arid s);
  }
