-- ===== src/Hybrid/Held.antt =====
-- What an accepted `put` of `HybridKv` leaves in the DHT and in IPFS, and what `get` makes of it.
use hubert_rust.Base.{
  ℕ, suc, ◌≡◌, refl, ◌∙◌, false, Option, some, ◌⊎◌, inl, inr, arith, leb, Bool-cases,
}
use hubert_rust.Base.Lists.{Bytes, length}
use hubert_rust.Base.Io.{ok}
use hubert_rust.Gordian.{Gordian, IsLawful}
use hubert_rust.AridDerivation.{Crypto, obfuscate_with_arid}
use hubert_rust.Mainline.{Dht}
use hubert_rust.Mainline.Network.{IsDht, item_at}
use hubert_rust.Ipfs.Kubo.{Daemon}
use hubert_rust.Ipfs.Promises.{IsDaemon}
use hubert_rust.Ipfs.Keys.{CacheIsTrue}
use hubert_rust.Ipfs.Stored.{IsStored, IsStored-node}
use hubert_rust.Ipfs.Kept.{put_impl-IsStored}
use hubert_rust.Ipfs.RoundTrip.{IsAnswering, get_stored}
use hubert_rust.Hybrid.Api.{Envelopes, AreEnvelopes}
use hubert_rust.Hybrid.Reference.{create_reference_envelope, is_reference_envelope}
use hubert_rust.Hybrid.{HybridKv, World, put_impl, get_impl, follow}
use hubert_rust.Hybrid.RoundTrip.{
  get_of_item, follow_reference, put_small, put_large, put_direct-ok, put_indirect-ok,
}

module _ (G : Gordian) (V : Envelopes G) (K : Crypto) (D : Dht) (N : Daemon) (L : IsLawful G)
    (A : AreEnvelopes V) (W : IsDht D) (P : IsDaemon N) (kv : HybridKv) where
  open G use {Arid, Envelope, to_cbor_data}

  -- The DHT has `e` for `k`.
  abbrev Has : Arid → Envelope → World G V K D N → Type 0
  Has k e w = item_at G K D kv.dht k w.net ≡ some (obfuscate_with_arid G K k (to_cbor_data e))

  -- `e` is at `k`, itself or through a reference.
  abbrev pub IsHeld : Arid → Envelope → World G V K D N → Type 0
  IsHeld k e w =
      (Has k e w × (is_reference_envelope G V e ≡ false))
      ⊎ ((reference_arid : Arid) × (size : ℕ) × Has k
            (create_reference_envelope G V reference_arid size) w
          × IsStored G K N P reference_arid e w.session)

  pub put-IsHeld :
      (reference_arid k : Arid) (e : Envelope) (ttl : Option ℕ) (w : World G V K D N)
      (receipt : Bytes)
      → CacheIsTrue G K N P reference_arid w.session
      → is_reference_envelope G V e ≡ false
      → (put_impl G V K D N kv reference_arid k e ttl w).0 ≡ ok receipt
      → IsHeld k e (put_impl G V K D N kv reference_arid k e ttl w).1
  put-IsHeld reference_arid k e ttl w receipt true_cache plain h =
      elim (Bool-cases (leb (length (V.tagged_cbor_data e)) kv.dht_size_limit)) [
        | inl small ↦
            let same = put_small G V K D N L A W P kv reference_arid k e ttl (ground arith) in
            rw same
              (inl (put_direct-ok G V K D N L A W P kv k e ttl w receipt (rw same at h), plain))
        | inr large ↦
            let same = put_large G V K D N L A W P kv reference_arid k e ttl (ground arith) in
            let (there, b, uploaded, session) =
              put_indirect-ok G V K D N L A W P kv reference_arid k e ttl w receipt
                (rw same at h) in
            rw same (
              inr (
                reference_arid,
                length (V.tagged_cbor_data e),
                there,
                rw session (
                    put_impl-IsStored G K N P kv.ipfs reference_arid e ttl w.session b true_cache
                      uploaded),
              ))
      ]

  pub get-IsHeld :
      (fuel : ℕ) (k : Arid) (e : Envelope) (timeout : Option ℕ) (w : World G V K D N)
      → IsHeld k e w
      → IsAnswering G K N L P w.session.node
      → get_impl G V K D N (suc fuel) kv k timeout w ≡ some (ok (some e), w)
  unfolding follow
  get-IsHeld fuel k e timeout w (inl (there, plain)) up =
      get_of_item G V K D N L A W P fuel kv k e timeout w there ∙ rw (follow, plain) refl
  get-IsHeld fuel k e timeout w (inr (reference_arid, size, there, stored)) up =
      let (content, _) =
        get_stored G K N L P fuel kv.ipfs reference_arid e timeout w.session stored up in
      get_of_item G V K D N L A W P fuel kv k (create_reference_envelope G V reference_arid size)
        timeout w there
      ∙ follow_reference G V K D N L A W P (suc fuel) kv reference_arid size e timeout w content

  -- A world with the same items and the same node holds the same.
  pub IsHeld-same :
      (k : Arid) (e : Envelope) (w w' : World G V K D N)
      → item_at G K D kv.dht k w'.net ≡ item_at G K D kv.dht k w.net
      → w'.session.node ≡ w.session.node
      → IsHeld k e w
      → IsHeld k e w'
  IsHeld-same k e w w' items node (inl (there, plain)) = inl (items ∙ there, plain)
  IsHeld-same k e w w' items node (inr (reference_arid, size, there, stored)) = inr (
    reference_arid,
    size,
    items ∙ there,
    IsStored-node G K N P reference_arid e w.session w'.session node stored,
  )
