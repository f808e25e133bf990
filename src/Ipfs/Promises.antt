-- ===== src/Ipfs/Promises.antt =====
-- What `IpfsKv` relies on of the daemon.
use hubert_rust.Base.{◌+◌, ◌≤◌, ◌≡◌, Bool, true, Option, some, List, ℕ}
use hubert_rust.Base.Lists.{Bytes}
use hubert_rust.Base.Io.{ok}
use hubert_rust.Ipfs.Kubo.{Key, Daemon}
use hubert_rust.Ipfs.{find_key, join_chunks}

-- The daemon's keys by name, what is published under a key's id and the time at which that expires,
-- the content of a CID, and whether it is pinned. An operation that succeeds does what it says, and
-- neither `add` nor `pin_add` nor `name_publish` removes a key or content.
pub record IsDaemon (D : Daemon) : Type 0 where
  pub key_of : D.Node → Bytes → Option Bytes
  pub published : D.Node → Bytes → Option Bytes
  pub content : D.Node → Bytes → Option Bytes
  pub expires : D.Node → Bytes → ℕ
  pub pinned : D.Node → Bytes → Bool
  pub key_list_ok :
      (n : D.Node) (keys : List Key) (name : Bytes) (key : Key)
      → D.key_list n ≡ ok keys
      → find_key name keys ≡ some key
      → key_of n name ≡ some key.id
  pub key_list_complete :
      (n : D.Node) (keys : List Key) (name id : Bytes)
      → D.key_list n ≡ ok keys
      → key_of n name ≡ some id
      → (key : Key) × (find_key name keys ≡ some key) × (key.id ≡ id)
  pub key_gen_ok :
      (name id : Bytes) (n : D.Node)
      → (D.key_gen name n).0 ≡ ok id
      → key_of (D.key_gen name n).1 name ≡ some id
  pub add_ok :
      (bytes cid : Bytes) (n : D.Node)
      → (D.add bytes n).0 ≡ ok cid
      → content (D.add bytes n).1 cid ≡ some bytes
  pub pin_add_ok :
      (cid : Bytes) (n : D.Node) (u : Unit {0})
      → (D.pin_add cid true n).0 ≡ ok u
      → pinned (D.pin_add cid true n).1 cid ≡ true
  pub name_publish_ok :
      (path : Bytes) (lifetime : Option Bytes) (name id : Bytes) (n : D.Node) (u : Unit {0})
      → (D.name_publish path lifetime name n).0 ≡ ok u
      → key_of n name ≡ some id
      → published (D.name_publish path lifetime name n).1 id ≡ some path
  pub name_resolve_ok :
      (id path : Bytes) (n : D.Node) → D.name_resolve id n ≡ ok path → published n id ≡ some path
  pub cat_ok :
      (cid bytes : Bytes) (chunks : List Bytes) (n : D.Node)
      → D.cat cid n ≡ ok chunks
      → content n cid ≡ some bytes
      → join_chunks chunks ≡ bytes
  pub add_keeps_key :
      (bytes name id : Bytes) (n : D.Node)
      → key_of n name ≡ some id
      → key_of (D.add bytes n).1 name ≡ some id
  pub pin_add_keeps_key :
      (cid : Bytes) (recursive : Bool) (name id : Bytes) (n : D.Node)
      → key_of n name ≡ some id
      → key_of (D.pin_add cid recursive n).1 name ≡ some id
  pub name_publish_keeps_key :
      (path : Bytes) (lifetime : Option Bytes) (key name id : Bytes) (n : D.Node)
      → key_of n name ≡ some id
      → key_of (D.name_publish path lifetime key n).1 name ≡ some id
  pub pin_add_keeps_content :
      (cid : Bytes) (recursive : Bool) (c bytes : Bytes) (n : D.Node)
      → content n c ≡ some bytes
      → content (D.pin_add cid recursive n).1 c ≡ some bytes
  pub name_publish_keeps_content :
      (path : Bytes) (lifetime : Option Bytes) (key c bytes : Bytes) (n : D.Node)
      → content n c ≡ some bytes
      → content (D.name_publish path lifetime key n).1 c ≡ some bytes
  pub name_publish_keeps_pin :
      (path : Bytes) (lifetime : Option Bytes) (key cid : Bytes) (n : D.Node)
      → pinned n cid ≡ true
      → pinned (D.name_publish path lifetime key n).1 cid ≡ true
  pub sleep_passes : (nanos : ℕ) (n : D.Node) → D.now n + nanos ≤ D.now (D.sleep nanos n)
