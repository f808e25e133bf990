-- ===== src/Ipfs/Growth.antt =====
-- What `IpfsKv` relies on to be written once: which keys, content and names stay in the daemon.
use hubert_rust.Base.{ℕ, ◌≤◌, ◌<◌, ◌≡◌, refl, ◌≢◌, ◌∙◌, arith, Bool, true, false, Option, some}
use hubert_rust.Base.Lists.{Bytes}
use hubert_rust.Base.Io.{err}
use hubert_rust.Ipfs.Kubo.{Daemon}
use hubert_rust.Ipfs.Promises.{IsDaemon}
use hubert_rust.Ipfs.{says_unpublished}

module _ (D : Daemon) (W : IsDaemon D) where
  -- The second node may be later than the first: every key is there, every name whose record has not
  -- expired by then, and all content that was pinned.
  pub record Ages (m n : D.Node) : Type 0 where
    pub later : D.now m ≤ D.now n
    pub keys : (name id : Bytes) → W.key_of m name ≡ some id → W.key_of n name ≡ some id
    pub names :
        (id path : Bytes)
        → W.published m id ≡ some path
        → D.now n < W.expires m id
        → (W.published n id ≡ some path) × (W.expires n id ≡ W.expires m id)
    pub contents :
        (cid bytes : Bytes)
        → W.content m cid ≡ some bytes
        → W.pinned m cid ≡ true
        → (W.content n cid ≡ some bytes) × (W.pinned n cid ≡ true)

  pub Ages-refl : (n : D.Node) → Ages n n
  Ages-refl n = record {
    later = omega arith;
    keys = λ name id h. h;
    names = λ id path h soon. (h, refl);
    contents = λ cid bytes h pin. (h, pin);
  }

  pub Ages-trans : {l m n : D.Node} → Ages l m → Ages m n → Ages l n
  Ages-trans {l} {m} {n} f g = record {
    later = omega (arith, f.later, g.later);
    keys = λ name id h. g.keys name id (f.keys name id h);
    names = λ id path h soon.
        let (there, same) = f.names id path h (omega (arith, g.later)) in
        let (there', same') = g.names id path there (omega (arith, same)) in (there', same' ∙ same);
    contents = λ cid bytes h pin.
        let (there, held) = f.contents cid bytes h pin in g.contents cid bytes there held;
  }

  -- A request that removes nothing: names expire and content is collected between two requests.
  pub record Grows (m n : D.Node) : Type 0 where
    pub ages : Ages m n
    pub names : (id path : Bytes) → W.published m id ≡ some path → W.published n id ≡ some path

  pub Grows-refl : (n : D.Node) → Grows n n
  Grows-refl n = record { ages = Ages-refl n; names = λ id path h. h }

  -- A request for a key, an upload and a pin remove nothing. A publication under one key's id leaves
  -- the other ids and what is pinned. While the store sleeps, time passes. A name that is published is
  -- not reported as unpublished.
  pub record IsLasting : Type 0 where
    pub key_gen : (name : Bytes) (n : D.Node) → Grows n (D.key_gen name n).1
    pub add : (bytes : Bytes) (n : D.Node) → Grows n (D.add bytes n).1
    pub pin_add :
        (cid : Bytes) (recursive : Bool) (n : D.Node) → Grows n (D.pin_add cid recursive n).1
    pub sleep : (nanos : ℕ) (n : D.Node) → Ages n (D.sleep nanos n)
    pub name_publish_later :
        (path : Bytes) (lifetime : Option Bytes) (key : Bytes) (n : D.Node)
        → D.now n ≤ D.now (D.name_publish path lifetime key n).1
    pub name_publish :
        (path : Bytes) (lifetime : Option Bytes) (key id other old : Bytes) (n : D.Node)
        → W.key_of n key ≡ some id
        → id ≢ other
        → W.published n other ≡ some old
        → (W.published (D.name_publish path lifetime key n).1 other ≡ some old)
          × (W.expires (D.name_publish path lifetime key n).1 other ≡ W.expires n other)
    pub resolvable :
        (id path message : Bytes) (n : D.Node)
        → W.published n id ≡ some path
        → D.name_resolve id n ≡ err message
        → says_unpublished message ≡ false
