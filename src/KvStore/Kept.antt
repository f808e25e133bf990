-- ===== src/KvStore/Kept.antt =====
-- `IpfsKv` is written once.
use hubert_rust.Base.{◌≡◌, true, Bool, Option, some, arith}
use hubert_rust.Base.Io.{Result, ok}
use hubert_rust.Error.{Error}
use hubert_rust.Gordian.{Gordian}
use hubert_rust.AridDerivation.{Crypto}
use hubert_rust.KvStore.{ipfs}
use hubert_rust.KvStore.WriteOnce.{IsWriteOnce}
use hubert_rust.Ipfs
use hubert_rust.Ipfs.{IpfsKv, Session}
use hubert_rust.Ipfs.Kubo.{Daemon}
use hubert_rust.Ipfs.Promises.{IsDaemon}
use hubert_rust.Ipfs.Growth.{IsLasting}
use hubert_rust.Ipfs.Cache.{IsTrue, IsSafe-refl}
use hubert_rust.Ipfs.Uploads.{put_impl-IsSafe}
use hubert_rust.Ipfs.Reads.{exists_impl-same}
use hubert_rust.Ipfs.WriteOnce.{get_impl-IsSafe, get_impl-refuses, exists_impl-refuses}

module _ (G : Gordian) (K : Crypto) (D : Daemon) (W : IsDaemon D) (U : IsLasting D W) where
  exists_impl-result :
      (k : G.Arid) (s s' : Session G K D) (r : Result Bool Error)
      → ◌≡◌ {A = Option (Result Bool Error × Session G K D)}
          (some (Ipfs.exists G K D k s))
          (some (r, s'))
      → ((Ipfs.exists G K D k s).0 ≡ r) × (s' ≡ s)
  exists_impl-result k s s' r h = ground (arith, exists_impl-same G K D k s)

  pub ipfs-IsWriteOnce : (kv : IpfsKv) → IsWriteOnce (ipfs G K D kv) (IsTrue G K D W)
  ipfs-IsWriteOnce kv = record {
    put_keeps =
        λ k e ttl s v. (put_impl-IsSafe G K D W U kv k e ttl s (IsSafe-refl G K D W s v)).cache;
    get_keeps = λ fuel k timeout s s' r v h.
        (get_impl-IsSafe G K D W U s.node fuel kv k timeout s s' r h
          (IsSafe-refl G K D W s v)).cache;
    exists_keeps = λ fuel k s s' r v h. rw (exists_impl-result k s s' r h).1 v;
    read = λ fuel k timeout s s' e v h e' ttl u.
        get_impl-refuses G K D W U fuel kv k timeout s s' e v h e' ttl;
    checked = λ fuel k s s' v h e ttl u.
        let (there, same) = exists_impl-result k s s' (ok true) h in
        rw same (exists_impl-refuses G K D W U kv k s v there e ttl);
  }
