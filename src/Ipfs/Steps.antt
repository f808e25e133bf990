-- ===== src/Ipfs/Steps.antt =====
-- Sequences of operations of `IpfsKv` (ipfs/kv.rs) and of other users of its daemon.
use hubert_rust.Base.{ℕ, ◌≡◌, Option, some, [], bytes_eq}
use hubert_rust.Base.Assoc.{lookup}
use hubert_rust.Error.{Error}
use hubert_rust.Gordian.{Gordian}
use hubert_rust.AridDerivation.{Crypto}
use hubert_rust.Ipfs.Kubo.{Daemon}
use hubert_rust.Ipfs.Promises.{IsDaemon}
use hubert_rust.Ipfs.Growth.{Ages, IsLasting}
use hubert_rust.Ipfs.Cache.{IsTrue, IsSafe, IsSafe-moved}
use hubert_rust.Ipfs.Uploads.{put_impl-IsSafe}
use hubert_rust.Ipfs.Reads.{Answer, exists_impl-same}
use hubert_rust.Ipfs.WriteOnce.{get_impl-IsSafe}
use hubert_rust.Ipfs.{IpfsKv, Session, put_impl, get_impl, exists_impl}

module _ (G : Gordian) (K : Crypto) (D : Daemon) (W : IsDaemon D) (U : IsLasting D W) where
  open G use {Arid, Envelope}

  -- One operation of a store at the daemon with this cache, whatever its settings, or what time and
  -- others do to the daemon: names expire, content that is not pinned is collected, keys stay, and
  -- others publish under their own keys.
  pub data Step : Session G K D → Session G K D → Type 0 where
    store :
        (s : Session G K D) (kv : IpfsKv) (k : Arid) (e : Envelope) (ttl : Option ℕ)
        → Step s (put_impl G K D kv k e ttl s).1
    look :
        (s t : Session G K D) (fuel : ℕ) (kv : IpfsKv) (k : Arid) (timeout : Option ℕ)
        (r : Answer G K D)
        → get_impl G K D fuel kv k timeout s ≡ some (r, t)
        → Step s t
    check : (s : Session G K D) (k : Arid) → Step s (exists_impl G K D k s).1
    outside : (s : Session G K D) (n : D.Node) → Ages D W s.node n → Step s (record s { node = n })

  pub data Reach (s : Session G K D) : Session G K D → Type 0 where
    here : Reach s s
    next : {t u : Session G K D} → Reach s t → Step t u → Reach s u

  -- A store that has just been made.
  abbrev pub opened : D.Node → Session G K D
  opened n = record { node = n; key_cache = [] }

  pub opened-IsTrue : (n : D.Node) → IsTrue G K D W (opened n)
  unfolding lookup
  opened-IsTrue n name info h = cc

  Step-IsSafe :
      {m : D.Node} {s t : Session G K D} → Step s t → IsSafe G K D W m s → IsSafe G K D W m t
  Step-IsSafe (store s kv k e ttl) h = put_impl-IsSafe G K D W U kv k e ttl s h
  Step-IsSafe {m} (look s t fuel kv k timeout r q) h =
      get_impl-IsSafe G K D W U m fuel kv k timeout s t r q h
  Step-IsSafe (check s k) h = rw (exists_impl-same G K D k s) h
  Step-IsSafe (outside s n g) h = IsSafe-moved G K D W n s h g

  pub Reach-IsSafe :
      {m : D.Node} {s t : Session G K D} → Reach s t → IsSafe G K D W m s → IsSafe G K D W m t
  Reach-IsSafe here h = h
  Reach-IsSafe (next r st) h = Step-IsSafe st (Reach-IsSafe r h)
