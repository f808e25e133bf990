-- ===== src/Examples/Daemon.antt =====
-- A small daemon that keeps the promises.
use mathlib.Core.Option
use mathlib.Core.List.{append-nil}
use hubert_rust.Base.{
  ℕ, ◌+◌, ◌≡◌, refl, true, Option, none, some, List, [], ◌∷◌, arith, if◌then◌else◌, bytes_beq,
  bytes_eq, beq_refl,
}
use hubert_rust.Base.Lists.{Bytes, text}
use hubert_rust.Base.Io.{Result, ok, err}
use hubert_rust.AridDerivation.Laws.{}
use hubert_rust.Mainline.Network.{}
use hubert_rust.Ipfs
use hubert_rust.Ipfs.{IpfsKv, KeyInfo, Session, find_key, lifetime}
use hubert_rust.Ipfs.Kubo.{Key, Daemon}
use hubert_rust.Ipfs.Promises.{IsDaemon}
use hubert_rust.Ipfs.{says_unpublished}
use hubert_rust.Base.{Bool, false, ◌||◌}
use hubert_rust.Hybrid.Reference.{}

-- A daemon whose content is addressed by itself: `blocks` says what is there. Names last for two days
-- of its clock.
pub record Node : Type 0 where
  pub keys : List Key
  pub names : Bytes → Option Bytes
  pub blocks : Bytes → Bool
  pub pins : Bytes → Bool
  pub clock : ℕ

abbrev pub published : Bytes → Option Key → Node → Result (Unit {0}) Bytes × Node
published path none n = (err (text "no such key"), n)
published path (some key) n =
    (ok tt, record n { names = λ id. if bytes_beq key.id id then some path else n.names id })

abbrev pub generated : Bytes → Option Key → Node → Result Bytes Bytes × Node
generated name (some key) n = (err (text "key with given name already exists"), n)
generated name none n = (ok name, record n { keys = record { name = name; id = name } ∷ n.keys })

abbrev pub or_error : {A : Type 0} → Bytes → Option A → Result A Bytes
or_error message none = err message
or_error message (some a) = ok a

abbrev pub held : Bytes → Bool → Option Bytes
held cid true = some cid
held cid false = none

abbrev pub kubo : Daemon
kubo = record {
  Node = Node;
  key_list = λ n. ok n.keys;
  key_gen = λ name n. generated name (find_key name n.keys) n;
  name_resolve = λ id n. or_error (text "could not resolve name") (n.names id);
  name_publish = λ path lifetime name n. published path (find_key name n.keys) n;
  add = λ bytes n. (ok bytes, record n { blocks = λ cid. bytes_beq bytes cid || n.blocks cid });
  cat =
      λ cid n. or_error (text "no such block") (Option.map (λ b. b ∷ []) (held cid (n.blocks cid)));
  pin_add = λ cid recursive n. (ok tt, record n { pins = λ c. bytes_beq cid c || n.pins c });
  now = λ n. n.clock;
  sleep = λ nanos n. record n { clock = n.clock + nanos };
}

abbrev pub key_of : Node → Bytes → Option Bytes
key_of n name = Option.map (λ key. key.id) (find_key name n.keys)

pub key_list_ok :
    (n : Node) (keys : List Key) (name : Bytes) (key : Key)
    → kubo.key_list n ≡ ok keys
    → find_key name keys ≡ some key
    → key_of n name ≡ some key.id
key_list_ok n keys name key h f = ground arith

pub key_list_complete :
    (n : Node) (keys : List Key) (name id : Bytes) (o : Option Key)
    → kubo.key_list n ≡ ok keys
    → find_key name n.keys ≡ o
    → Option.map (λ key. key.id) o ≡ some id
    → (key : Key) × (find_key name keys ≡ some key) × (key.id ≡ id)
key_list_complete n keys name id none h q f = cc
key_list_complete n keys name id (some key) h q f = (key, cc, cc)

pub generated_ok :
    (name id : Bytes) (n : Node) (o : Option Key)
    → (generated name o n).0 ≡ ok id
    → key_of (generated name o n).1 name ≡ some id
generated_ok name id n (some key) h = cc
generated_ok name id n none h = ground (arith, beq_refl bytes_eq name)

pub add_ok :
    (bytes cid : Bytes) (n : Node)
    → (kubo.add bytes n).0 ≡ ok cid
    → held cid ((kubo.add bytes n).1.blocks cid) ≡ some bytes
add_ok bytes cid n h = ground (arith, beq_refl bytes_eq cid)

pub published_ok :
    (path name id : Bytes) (n : Node) (u : Unit {0}) (o : Option Key)
    → (published path o n).0 ≡ ok u
    → Option.map (λ key. key.id) o ≡ some id
    → (published path o n).1.names id ≡ some path
published_ok path name id n u none h k = cc
published_ok path name id n u (some key) h k = ground (arith, beq_refl bytes_eq id)

pub resolved_ok :
    (path message : Bytes) (o : Option Bytes) → or_error message o ≡ ok path → o ≡ some path
resolved_ok path message none h = cc
resolved_ok path message (some p) h = cc

pub cat_ok :
    (bytes : Bytes) (chunks : List Bytes) (message : Bytes) (o : Option Bytes)
    → or_error message (Option.map (λ b. b ∷ []) o) ≡ ok chunks
    → o ≡ some bytes
    → Ipfs.join_chunks chunks ≡ bytes
unfolding Ipfs.join_chunks
cat_ok bytes chunks message none h q = cc
cat_ok bytes chunks message (some b) h q = ground (arith, append-nil b)

pub published-keys :
    (path : Bytes) (o : Option Key) (n : Node)
    → ((published path o n).1.keys ≡ n.keys) × ((published path o n).1.blocks ≡ n.blocks)
published-keys path none n = (refl, refl)
published-keys path (some key) n = (refl, refl)

pub published-pins :
    (path : Bytes) (o : Option Key) (n : Node)
    → ((published path o n).1.pins ≡ n.pins) × ((published path o n).1.clock ≡ n.clock)
published-pins path none n = (refl, refl)
published-pins path (some key) n = (refl, refl)

abbrev pub kubo-IsDaemon : IsDaemon kubo
kubo-IsDaemon = record {
  key_of = key_of;
  published = λ n id. n.names id;
  content = λ n cid. held cid (n.blocks cid);
  expires = λ n id. 172_800_000_000_000;
  pinned = λ n cid. n.pins cid;
  key_list_ok = key_list_ok;
  key_list_complete =
      λ n keys name id h f. key_list_complete n keys name id (find_key name n.keys) h refl f;
  key_gen_ok = λ name id n h. generated_ok name id n (find_key name n.keys) h;
  add_ok = add_ok;
  pin_add_ok = λ cid n u h. rw (beq_refl bytes_eq cid) refl;
  name_publish_keeps_pin =
      λ path lifetime key cid n h. rw (published-pins path (find_key key n.keys) n).0 h;
  name_publish_ok =
      λ path lifetime name id n u h k. published_ok path name id n u (find_key name n.keys) h k;
  name_resolve_ok = λ id path n h. resolved_ok path (text "could not resolve name") (n.names id) h;
  cat_ok = λ cid bytes chunks n h q.
      cat_ok bytes chunks (text "no such block") (held cid (n.blocks cid)) h q;
  add_keeps_key = λ bytes name id n h. h;
  pin_add_keeps_key = λ cid recursive name id n h. h;
  name_publish_keeps_key =
      λ path lifetime key name id n h. rw (published-keys path (find_key key n.keys) n).0 h;
  pin_add_keeps_content = λ cid recursive c bytes n h. h;
  name_publish_keeps_content =
      λ path lifetime key c bytes n h. rw (published-keys path (find_key key n.keys) n).1 h;
  sleep_passes = λ nanos n. omega arith;
}
