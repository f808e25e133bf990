-- ===== src/Hybrid.antt =====
-- hybrid/kv.rs: `HybridKv`, a Mainline store in front of an IPFS store. What `verbose` prints is left
-- out.
pub mod Api
pub mod Polling
pub mod Reference
pub mod References
pub mod RoundTrip
pub mod Held
use hubert_rust.Base.{ℕ, Bool, Option, none, some, ◌++◌, leb, if◌then◌else◌}
use hubert_rust.Base.Lists.{Bytes, text, length}
use hubert_rust.Base.Io.{Result, ok, err, map_ok, Io, pure, ◌>>=◌, ◌>>◌}
use hubert_rust.Error.{Error, HybridError, hybrid, content_not_found}
use hubert_rust.Gordian.{Gordian}
use hubert_rust.AridDerivation.{Crypto}
use hubert_rust.Mainline
use hubert_rust.Mainline.{Dht, MainlineDhtKv}
use hubert_rust.Ipfs
use hubert_rust.Ipfs.{IpfsKv, Session}
use hubert_rust.Ipfs.Kubo.{Daemon}
use hubert_rust.Hybrid.Api.{Envelopes}
use hubert_rust.Hybrid.Reference.{
  create_reference_envelope, is_reference_envelope, extract_reference_arid,
}

pub record HybridKv : Type 0 where
  pub dht : MainlineDhtKv
  pub ipfs : IpfsKv
  pub dht_size_limit : ℕ

abbrev pub new : Bytes → HybridKv
new ipfs_rpc_url = record {
  dht = Mainline.new;
  ipfs = Ipfs.new ipfs_rpc_url;
  dht_size_limit = 1000;
}

abbrev pub with_dht_size_limit : ℕ → HybridKv → HybridKv
with_dht_size_limit limit kv = record kv { dht_size_limit = limit }

abbrev pub with_pin_content : Bool → HybridKv → HybridKv
with_pin_content pin kv = record kv { ipfs = Ipfs.with_pin_content pin kv.ipfs }

module _ (G : Gordian) (V : Envelopes G) (K : Crypto) (D : Dht) (N : Daemon) where
  open G use {Arid, arid_ur, Envelope}

  -- The DHT, and the daemon with the cache of keys. Each moves on in the requests to it and in the
  -- sleeps between them.
  pub record World : Type 0 where
    pub net : D.Net
    pub session : Session G K N

  unfoldable pub in_dht : {A : Type 0} → Io D.Net Error A → Io World Error A
  in_dht m w = let (r, net') = m w.net in (r, record w { net = net' })

  unfoldable pub in_ipfs : {A : Type 0} → Io (Session G K N) Error A → Io World Error A
  in_ipfs m w = let (r, session') = m w.session in (r, record w { session = session' })

  unfoldable pub fits_in_dht : HybridKv → Envelope → Bool
  fits_in_dht kv envelope = leb (length (V.tagged_cbor_data envelope)) kv.dht_size_limit

  unfoldable pub put_direct : HybridKv → Arid → Envelope → Option ℕ → Io World Error Bytes
  unfolding in_dht
  put_direct kv arid envelope ttl_seconds = do
    in_dht (Mainline.put G K D kv.dht arid envelope ttl_seconds)
    pure (text "Stored in DHT at ARID: " ++ arid_ur arid)

  unfoldable pub put_indirect : HybridKv → Arid → Arid → Envelope → Option ℕ → Io World Error Bytes
  unfolding in_dht in_ipfs
  put_indirect kv reference_arid arid envelope ttl_seconds =
      let envelope_size = length (V.tagged_cbor_data envelope) in
      let reference = create_reference_envelope G V reference_arid envelope_size in
      do
        in_ipfs (Ipfs.put G K N kv.ipfs reference_arid envelope ttl_seconds)
        in_dht (Mainline.put G K D kv.dht arid reference ttl_seconds)
        pure (
            text "Stored in IPFS (ref: "
            ++ (arid_ur reference_arid ++ (text ") via DHT at ARID: " ++ arid_ur arid)))

  -- `reference_arid` is what `ARID::new` returns.
  unfoldable pub put_impl : HybridKv → Arid → Arid → Envelope → Option ℕ → Io World Error Bytes
  unfolding fits_in_dht
  put_impl kv reference_arid arid envelope ttl_seconds =
      if fits_in_dht kv envelope
      then put_direct kv arid envelope ttl_seconds
      else put_indirect kv reference_arid arid envelope ttl_seconds

  abbrev Answer : Type 0
  Answer = Result (Option Envelope) Error

  -- What `get_impl` makes of the answer of the IPFS store.
  abbrev of_ipfs : Answer → Answer
  of_ipfs (err e) = err e
  of_ipfs (ok (some actual)) = ok (some actual)
  of_ipfs (ok none) = err (hybrid content_not_found)

  -- `get_impl` from a reference envelope on.
  unfoldable pub dereference :
      ℕ → HybridKv → Option ℕ → Result Arid HybridError → World → Option (Answer × World)
  dereference fuel kv timeout_seconds (err e) w = some (err (hybrid e), w)
  dereference fuel kv timeout_seconds (ok reference_arid) w =
      elim (Ipfs.get G K N fuel kv.ipfs reference_arid timeout_seconds w.session) [
        | none ↦ none
        | some r ↦ some (of_ipfs r.0, record w { session = r.1 })
      ]

  -- `get_impl` from the answer of the DHT on.
  unfoldable pub follow : ℕ → HybridKv → Option ℕ → Answer → World → Option (Answer × World)
  unfolding dereference
  follow fuel kv timeout_seconds (err e) w = some (err e, w)
  follow fuel kv timeout_seconds (ok none) w = some (ok none, w)
  follow fuel kv timeout_seconds (ok (some envelope)) w =
      let indirect = dereference fuel kv timeout_seconds (extract_reference_arid G V envelope) w in
      if is_reference_envelope G V envelope then indirect else some (ok (some envelope), w)

  -- The fuel is that of each of the two loops.
  unfoldable pub get_impl : ℕ → HybridKv → Arid → Option ℕ → World → Option (Answer × World)
  unfolding follow
  get_impl fuel kv arid timeout_seconds w =
      elim (Mainline.get G K D fuel kv.dht arid timeout_seconds w.net) [
        | none ↦ none
        | some r ↦ follow fuel kv timeout_seconds r.0 (record w { net = r.1 })
      ]

  -- The methods of `KvStore`.
  abbrev pub put : HybridKv → Arid → Arid → Envelope → Option ℕ → Io World Error Bytes
  put = put_impl

  abbrev pub get : ℕ → HybridKv → Arid → Option ℕ → World → Option (Answer × World)
  get = get_impl

  unfoldable pub exists : HybridKv → Arid → Io World Error Bool
  unfolding in_dht
  exists kv arid = in_dht (Mainline.exists G K D kv.dht arid)
