-- ===== src/KvStore/Stores.antt =====
-- The stores of the repository that keep the promise.
use hubert_rust.Base.{ℕ}
use hubert_rust.Gordian.{Gordian, IsLawful}
use hubert_rust.AridDerivation.{Crypto}
use hubert_rust.KvStore.{memory, sqlite, client, mainline, hybrid, ipfs}
use hubert_rust.KvStore.WriteOnce.{Always, IsWriteOnce}
use hubert_rust.KvStore.Local.{memory-IsWriteOnce, sqlite-IsWriteOnce}
use hubert_rust.Base.Lists.{Bytes}
use hubert_rust.Client.{Http}
use hubert_rust.Client.Connected.{IsConnected}
use hubert_rust.KvStore.Remote.{client-IsWriteOnce}
use hubert_rust.KvStore.Network.{mainline-IsWriteOnce, hybrid-IsWriteOnce}
use hubert_rust.Memory.{Memory}
use hubert_rust.Sqlite.{SqliteKv}
use hubert_rust.Sqlite.Statements.{Database, IsTable}
use hubert_rust.Mainline.{Dht, MainlineDhtKv}
use hubert_rust.Ipfs.Kubo.{Daemon}
use hubert_rust.KvStore.Kept.{ipfs-IsWriteOnce}
use hubert_rust.Ipfs.{IpfsKv}
use hubert_rust.Ipfs.Promises.{IsDaemon}
use hubert_rust.Ipfs.Growth.{IsLasting}
use hubert_rust.Ipfs.Cache.{IsTrue}
use hubert_rust.Ipfs.Steps.{opened, opened-IsTrue}
use hubert_rust.Hybrid.{HybridKv}
use hubert_rust.Hybrid.Api.{Envelopes}

-- All six stores keep the promise of the trait, with any time and any work of others between two
-- polls: at an ARID at which `get` has just returned an envelope, or `exists` has just answered yes,
-- every `put` whose time to live is a `u64` fails. `MemoryKv`, `SqliteKv`, `ServerKvClient` joined to a
-- server over either of these, `MainlineDhtKv` and `HybridKv` do so in every state, and `IpfsKv`, on a
-- daemon that keeps its keys and loses names between two requests only, in every state that it comes to
-- from an empty cache of keys.
pub write_once :
    (G : Gordian) (C : IsLawful G) (K : Crypto) (V : Envelopes G) (D : Dht) (N : Daemon)
    (Q : Database) (L : IsTable Q) (H : Http) (base_url : Bytes) (S : IsConnected G Q H base_url)
    (W : IsDaemon N) (U : IsLasting N W) (between : ℕ → Memory G → Memory G)
    (between' : ℕ → SqliteKv G Q → SqliteKv G Q) (dht : MainlineDhtKv) (kv : IpfsKv)
    (both : HybridKv) (reference_arid : G.Arid)
    → IsWriteOnce (memory G between) Always
      × IsWriteOnce (sqlite G Q between') Always
      × IsWriteOnce (client G H base_url) Always
      × IsWriteOnce (mainline G K D dht) Always
      × IsWriteOnce (hybrid G V K D N both reference_arid) Always
      × IsWriteOnce (ipfs G K N kv) (IsTrue G K N W)
      × ((n : N.Node) → IsTrue G K N W (opened G K N W U n))
write_once G C K V D N Q L H base_url S W U between between' dht kv both reference_arid = (
  memory-IsWriteOnce G between,
  sqlite-IsWriteOnce G Q L between',
  client-IsWriteOnce G Q L H C base_url S,
  mainline-IsWriteOnce G K D dht,
  hybrid-IsWriteOnce G V K D N both reference_arid,
  ipfs-IsWriteOnce G K N W U kv,
  opened-IsTrue G K N W U,
)
