-- ===== src/Ipfs.antt =====
-- ipfs/kv.rs and ipfs/value.rs: `IpfsKv`. Its state is the daemon and the cache of keys. What
-- `verbose` prints is left out.
pub mod Cache
pub mod Growth
pub mod Kept
pub mod Keys
pub mod Kubo
pub mod Lifetime
pub mod Polling
pub mod Promises
pub mod Race
pub mod Reads
pub mod RoundTrip
pub mod Steps
pub mod Stored
pub mod Uploads
pub mod WriteOnce
use hubert_rust.Base.{
  ℕ, zero, suc, ◌+◌, ◌*◌, ◌/◌, Bool, true, false, Option, none, some, List, [], ◌∷◌, ◌++◌, ltb, leb,
  ◌||◌, bytes_eq, bytes_beq, if◌then◌else◌,
}
use hubert_rust.Base.Assoc.{lookup, insert}
use hubert_rust.Base.Lists.{Bytes, text, length, find}
use hubert_rust.Base.Io.{Result, ok, err, map_err, map_ok, Io, pure, fail, lift, ◌>>=◌, ◌>>◌}
use hubert_rust.Base.Poll.{Pass, done, again, poll}
use hubert_rust.Text.Decimal.{decimal}
use hubert_rust.Text.Search.{contains, strip_prefix}
use hubert_rust.Error.{
  Error, already_exists, ipfs, envelope_too_large, daemon_error, IpfsError,
  unexpected_ipns_path_format,
}
use hubert_rust.Gordian.{Gordian}
use hubert_rust.AridDerivation.{Crypto, derive_ipfs_key_name, obfuscate_with_arid}
use hubert_rust.Time.{from_secs, from_millis}
use hubert_rust.Ipfs.Kubo.{Key, Daemon}

-- The fields of `IpfsKv` beside the client and the cache.
pub record IpfsKv : Type 0 where
  pub max_envelope_size : ℕ
  pub resolve_timeout : ℕ
  pub pin_content : Bool

-- `IpfsKv::new`: the URL that it is given is not used. The setters follow.
abbrev pub new : Bytes → IpfsKv
new _rpc_url = record {
  max_envelope_size = 10 * 1024 * 1024;
  resolve_timeout = from_secs 30;
  pin_content = false;
}

abbrev pub with_max_size : ℕ → IpfsKv → IpfsKv
with_max_size size kv = record kv { max_envelope_size = size }

abbrev pub with_resolve_timeout : ℕ → IpfsKv → IpfsKv
with_resolve_timeout timeout kv = record kv { resolve_timeout = timeout }

abbrev pub with_pin_content : Bool → IpfsKv → IpfsKv
with_pin_content pin kv = record kv { pin_content = pin }

pub record KeyInfo : Type 0 where
  pub peer_id : Bytes

-- The errors that mean that a name is not published.
unfoldable pub says_unpublished : Bytes → Bool
says_unpublished err_str =
    contains (text "could not resolve name") err_str
    || (contains (text "no link named") err_str || contains (text "not found") err_str)

-- The time to live as the lifetime of an IPNS record.
unfoldable pub lifetime : ℕ → Bytes
lifetime secs =
    if ltb secs 60
    then decimal secs ++ text "s"
    else if ltb secs 3600
    then decimal (secs / 60) ++ text "m"
    else if ltb secs 86400
    then decimal (secs / 3600) ++ text "h"
    else decimal (secs / 86400) ++ text "d"

abbrev pub lifetime_of : Option ℕ → Option Bytes
lifetime_of none = none
lifetime_of (some secs) = some (lifetime secs)

-- `cat_bytes` joins the chunks of the stream.
unfoldable pub join_chunks : List Bytes → Bytes
join_chunks [] = []
join_chunks (chunk ∷ chunks) = chunk ++ join_chunks chunks

-- `keys.iter().find(|k| k.name == key_name)`
abbrev pub find_key : Bytes → List Key → Option Key
find_key key_name keys = find (λ k. bytes_beq k.name key_name) keys

module _ (G : Gordian) (K : Crypto) (D : Daemon) where
  open G use {Arid, arid_ur, Envelope, to_cbor_data, from_cbor_data, cbor_error}
  open D use {Node, key_list, key_gen, name_resolve, name_publish, add, cat, pin_add, now, sleep}

  -- The daemon, and the cache of keys that the store's clones share.
  pub record Session : Type 0 where
    pub node : Node
    pub key_cache : List (Bytes × KeyInfo)

  -- A request that reads, or that writes, with its error as `IpfsError`.
  pub ask : {A : Type 0} → (Node → Result A Bytes) → Io Session Error A
  ask q s = (map_err (λ e. ipfs (daemon_error e)) (q s.node), s)

  pub request : {A : Type 0} → (Node → Result A Bytes × Node) → Io Session Error A
  request q s =
      let (r, node') = q s.node in
      (map_err (λ e. ipfs (daemon_error e)) r, record s { node = node' })

  -- The functions of value.rs.
  abbrev pub add_bytes : Bytes → Io Session Error Bytes
  add_bytes bytes = request (add bytes)

  abbrev pub cat_bytes : Bytes → Io Session Error Bytes
  cat_bytes cid = do chunks ← ask (cat cid); pure (join_chunks chunks)

  abbrev pub pin_cid : Bytes → Bool → Io Session Error (Unit {0})
  pin_cid cid recursive = request (pin_add cid recursive)

  remember : Bytes → KeyInfo → Io Session Error KeyInfo
  remember key_name info s =
      (ok info, record s { key_cache = insert bytes_eq key_name info s.key_cache })

  -- The part of `get_or_create_key` behind the cache.
  list_or_generate : Bytes → Io Session Error KeyInfo
  unfolding ask request remember
  list_or_generate key_name = do
    keys ← ask key_list
    elim (find_key key_name keys) [
      | some key ↦ remember key_name (record { peer_id = key.id })
      | none ↦ do id ← request (key_gen key_name); remember key_name (record { peer_id = id })
    ]

  unfoldable pub get_or_create_key : Arid → Io Session Error KeyInfo
  unfolding list_or_generate
  get_or_create_key arid s =
      let key_name = derive_ipfs_key_name G K arid in
      elim (lookup bytes_eq key_name s.key_cache) [
        | some info ↦ (ok info, s)
        | none ↦ list_or_generate key_name s
      ]

  unfoldable pub is_published : Bytes → Io Session Error Bool
  is_published peer_id s = elim (name_resolve peer_id s.node) [
    | ok _ ↦ (ok true, s)
    | err e ↦ if says_unpublished e then (ok false, s) else (err (ipfs (daemon_error e)), s)
  ]

  -- `publish_once` behind its test.
  unfoldable pub send_name : Bytes → Bytes → Option ℕ → Io Session Error (Unit {0})
  unfolding request
  send_name key_name cid ttl_seconds =
      request (name_publish (text "/ipfs/" ++ cid) (lifetime_of ttl_seconds) key_name)

  unfoldable pub publish_once :
      Bytes → Bytes → Bytes → Option ℕ → Arid → Io Session Error (Unit {0})
  unfolding is_published send_name
  publish_once key_name peer_id cid ttl_seconds arid = do
    published ← is_published peer_id
    if published then fail (already_exists (arid_ur arid)) else send_name key_name cid ttl_seconds

  -- One round of `resolve_with_retry_timeout`: the content identifier, `none` for a name that is not
  -- published, or an error.
  unfoldable pub resolve_pass : Bytes → ℕ → Session → Pass Session (Result (Option Bytes) Error)
  resolve_pass peer_id deadline s = elim (name_resolve peer_id s.node) [
    | ok path ↦ elim (strip_prefix (text "/ipfs/") path) [
      | some cid ↦ done (ok (some cid)) s
      | none ↦ done (err (ipfs (unexpected_ipns_path_format path))) s
    ]
    | err e ↦
        if says_unpublished e
        then done (ok none) s
        else if leb deadline (now s.node)
        then done (err (ipfs IpfsError.timeout)) s
        else again s
  ]

  unfoldable pub resolve_with_retry_timeout :
      ℕ → Bytes → ℕ → Session → Option (Result (Option Bytes) Error × Session)
  resolve_with_retry_timeout fuel peer_id timeout s =
      poll (resolve_pass peer_id (now s.node + timeout))
        (λ t. record t { node = sleep (from_millis 1000) t.node }) fuel s

  unfoldable pub pin_if : Bool → Bytes → Io Session Error (Unit {0})
  pin_if true cid = pin_cid cid true
  pin_if false cid = pure tt

  -- `put_impl` from the CID on.
  unfoldable pub finish : IpfsKv → Arid → Option ℕ → KeyInfo → Bytes → Io Session Error Bytes
  finish kv arid ttl_seconds key_info cid = do
    pin_if kv.pin_content cid
    publish_once (derive_ipfs_key_name G K arid) key_info.peer_id cid ttl_seconds arid
    pure (text "ipns://" ++ (key_info.peer_id ++ (text " -> ipfs://" ++ cid)))

  -- `put_impl` from the key on.
  unfoldable pub upload : IpfsKv → Arid → Envelope → Option ℕ → KeyInfo → Io Session Error Bytes
  upload kv arid envelope ttl_seconds key_info = do
    cid ← add_bytes (obfuscate_with_arid G K arid (to_cbor_data envelope))
    finish kv arid ttl_seconds key_info cid

  unfoldable pub put_impl : IpfsKv → Arid → Envelope → Option ℕ → Io Session Error Bytes
  put_impl kv arid envelope ttl_seconds =
      let size = length (obfuscate_with_arid G K arid (to_cbor_data envelope)) in
      if ltb kv.max_envelope_size size
      then fail (ipfs (envelope_too_large size))
      else do key_info ← get_or_create_key arid; upload kv arid envelope ttl_seconds key_info

  abbrev Answer : Type 0
  Answer = Result (Option Envelope) Error

  -- `get_impl` from the content identifier on.
  unfoldable pub fetch : Arid → Bytes → Io Session Error (Option Envelope)
  unfolding ask
  fetch arid cid = do
    obfuscated_bytes ← cat_bytes cid
    lift (
        map_err cbor_error
          (map_ok some (from_cbor_data (obfuscate_with_arid G K arid obfuscated_bytes))))

  unfoldable pub after_resolve : Arid → Result (Option Bytes) Error × Session → Answer × Session
  after_resolve arid (err e, s) = (err e, s)
  after_resolve arid (ok none, s) = (ok none, s)
  after_resolve arid (ok (some cid), s) = fetch arid cid s

  abbrev pub resolve_timeout_of : IpfsKv → Option ℕ → ℕ
  resolve_timeout_of kv none = kv.resolve_timeout
  resolve_timeout_of kv (some seconds) = from_secs seconds

  unfoldable pub get_impl : ℕ → IpfsKv → Arid → Option ℕ → Session → Option (Answer × Session)
  get_impl fuel kv arid timeout_seconds s = elim (key_list s.node) [
    | err e ↦ some (err (ipfs (daemon_error e)), s)
    | ok keys ↦ elim (find_key (derive_ipfs_key_name G K arid) keys) [
      | none ↦ some (ok none, s)
      | some key ↦
          elim (resolve_with_retry_timeout fuel key.id (resolve_timeout_of kv timeout_seconds) s) [
            | none ↦ none
            | some r ↦ some (after_resolve arid r)
          ]
    ]
  ]

  unfoldable pub exists_impl : Arid → Io Session Error Bool
  unfolding ask is_published
  exists_impl arid = do
    keys ← ask key_list
    elim (find_key (derive_ipfs_key_name G K arid) keys) [
      | none ↦ pure false
      | some key ↦ is_published key.id
    ]

  -- The methods of `KvStore`.
  abbrev pub put : IpfsKv → Arid → Envelope → Option ℕ → Io Session Error Bytes
  put = put_impl

  abbrev pub get : ℕ → IpfsKv → Arid → Option ℕ → Session → Option (Answer × Session)
  get = get_impl

  abbrev pub exists : Arid → Io Session Error Bool
  exists = exists_impl
