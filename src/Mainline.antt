-- ===== src/Mainline.antt =====
-- mainline/kv.rs: `MainlineDhtKv`. The DHT client and ed25519 are parameters: what a request does to
-- the network, and what happens in a sleep. What `verbose` prints is left out.
pub mod Network
pub mod Waiting
use hubert_rust.Base.{
  ℕ, zero, suc, ◌+◌, ◌*◌, ◌%◌, ◌^◌, Bool, true, false, Option, none, some, List, [], ◌∷◌, ◌++◌, ltb,
  leb, if◌then◌else◌,
}
use hubert_rust.Base.Lists.{Bytes, text, length, take, get_or}
use hubert_rust.Base.Io.{Result, ok, err, map_err, map_ok, Io, lift}
use hubert_rust.Base.Poll.{Pass, done, again, poll}
use hubert_rust.Error.{
  Error, already_exists, mainline, MainlineError, value_too_large, put_mutable_error,
}
use hubert_rust.Gordian.{Gordian}
use hubert_rust.AridDerivation.{Crypto, derive_mainline_key, obfuscate_with_arid}
use hubert_rust.Time.{from_secs, from_millis}

-- What `MutableItem::new` is given: the seed of the signing key, the value, the sequence number and
-- the salt.
pub record MutableItem : Type 0 where
  pub signer : Bytes
  pub value : Bytes
  pub seq : ℕ
  pub salt : Option Bytes

pub record Dht : Type 1 where
  pub Net : Type 0
  -- `SigningKey::from_bytes(&seed).verifying_key().to_bytes()`
  pub verifying_key : Bytes → Bytes
  -- the value of the item that `get_mutable_most_recent` finds under a public key and a salt
  pub get_mutable_most_recent : Bytes → Option Bytes → Net → Option Bytes
  pub put_mutable : MutableItem → Net → Result (Unit {0}) Bytes × Net
  pub now : Net → ℕ
  pub sleep : ℕ → Net → Net

-- The fields of `MainlineDhtKv` beside the client.
pub record MainlineDhtKv : Type 0 where
  pub max_value_size : ℕ
  pub salt : Option Bytes

-- `MainlineDhtKv::new`, `with_max_size` and `with_salt`
abbrev pub new : MainlineDhtKv
new = record { max_value_size = 1000; salt = none }

abbrev pub with_max_size : ℕ → MainlineDhtKv → MainlineDhtKv
with_max_size size kv = record kv { max_value_size = size }

abbrev pub with_salt : Bytes → MainlineDhtKv → MainlineDhtKv
with_salt salt kv = record kv { salt = some salt }

-- `for i in 20..32 { seed[i] = key_bytes[i % 20].wrapping_mul(i as u8) }`, with the rounds left
unfoldable pub extend_seed : Bytes → ℕ → ℕ → Bytes
extend_seed key_bytes zero i = []
extend_seed key_bytes (suc left) i =
    (get_or key_bytes (i % 20) 0 * i) % 2 ^ 8 ∷ extend_seed key_bytes left (i + 1)

-- `timeout_seconds.unwrap_or(30)`
abbrev pub default_timeout : Option ℕ → ℕ
default_timeout none = 30
default_timeout (some seconds) = seconds

module _ (G : Gordian) (K : Crypto) (D : Dht) where
  open G use {Arid, arid_ur, Envelope, to_cbor_data, from_cbor_data, cbor_error}
  open K use {hex_encode}
  open D use {Net, verifying_key, get_mutable_most_recent, put_mutable, now, sleep}

  -- The 32 bytes that `SigningKey::from_bytes` is given.
  unfoldable pub derive_signing_key : Arid → Bytes
  unfolding extend_seed
  derive_signing_key arid =
      let key_bytes = derive_mainline_key G K arid in
      take 20 key_bytes ++ extend_seed key_bytes 12 20

  abbrev pub pubkey : Arid → Bytes
  pubkey arid = verifying_key (derive_signing_key arid)

  -- The item of a first write.
  abbrev pub item : MainlineDhtKv → Arid → Envelope → MutableItem
  item kv arid envelope = record {
    signer = derive_signing_key arid;
    value = obfuscate_with_arid G K arid (to_cbor_data envelope);
    seq = 1;
    salt = kv.salt;
  }

  unfoldable pub put_impl : MainlineDhtKv → Arid → Envelope → Io Net Error Bytes
  put_impl kv arid envelope net =
      let obfuscated = obfuscate_with_arid G K arid (to_cbor_data envelope) in
      if ltb kv.max_value_size (length obfuscated)
      then (err (mainline (value_too_large (length obfuscated))), net)
      else elim (get_mutable_most_recent (pubkey arid) kv.salt net) [
        | some _ ↦ (err (already_exists (arid_ur arid)), net)
        | none ↦
            let (r, net') = put_mutable (item kv arid envelope) net in
            (
              map_ok (λ _. text "dht://" ++ hex_encode (pubkey arid))
                  (map_err (λ e. mainline (put_mutable_error e)) r),
              net',
            )
      ]

  abbrev Answer : Type 0
  Answer = Result (Option Envelope) Error

  unfoldable pub get_pass : MainlineDhtKv → Arid → ℕ → Net → Pass Net Answer
  get_pass kv arid deadline net = elim (get_mutable_most_recent (pubkey arid) kv.salt net) [
    | some obfuscated_bytes ↦
        done
          (map_err cbor_error
            (map_ok some (from_cbor_data (obfuscate_with_arid G K arid obfuscated_bytes))))
          net
    | none ↦ if leb deadline (now net) then done (ok none) net else again net
  ]

  unfoldable pub get_impl : ℕ → MainlineDhtKv → Arid → Option ℕ → Net → Option (Answer × Net)
  get_impl fuel kv arid timeout_seconds net =
      let deadline = now net + from_secs (default_timeout timeout_seconds) in
      poll (get_pass kv arid deadline) (sleep (from_millis 1000)) fuel net

  unfoldable pub exists_impl : MainlineDhtKv → Arid → Io Net Error Bool
  exists_impl kv arid net = (
    ok (elim (get_mutable_most_recent (pubkey arid) kv.salt net) [ none ↦ false | some _ ↦ true ]),
    net,
  )

  -- The methods of `KvStore`; the time to live is ignored.
  abbrev pub put : MainlineDhtKv → Arid → Envelope → Option ℕ → Io Net Error Bytes
  put kv arid envelope ttl_seconds = put_impl kv arid envelope

  abbrev pub get : ℕ → MainlineDhtKv → Arid → Option ℕ → Net → Option (Answer × Net)
  get = get_impl

  abbrev pub exists : MainlineDhtKv → Arid → Io Net Error Bool
  exists = exists_impl
