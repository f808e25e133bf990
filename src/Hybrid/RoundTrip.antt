-- ===== src/Hybrid/RoundTrip.antt =====
-- `get` of `HybridKv` after an accepted `put`, on either side of the size limit.
use hubert_rust.Base.{ℕ, suc, ◌≤◌, ◌<◌, ◌≡◌, refl, ◌∙◌, true, false, Option, some, arith}
use hubert_rust.Base.Lists.{Bytes, length}
use hubert_rust.Base.Io.{ok, bind-ok}
use hubert_rust.Gordian.{Gordian, IsLawful}
use hubert_rust.AridDerivation.{Crypto, obfuscate_with_arid}
use hubert_rust.Mainline.{Dht}
use hubert_rust.Mainline
use hubert_rust.Mainline.Network.{IsDht, item_at, put_impl-stored, get_impl-found}
use hubert_rust.Ipfs
use hubert_rust.Ipfs.Kubo.{Daemon}
use hubert_rust.Ipfs.Promises.{IsDaemon}
use hubert_rust.Ipfs.Keys.{CacheIsTrue}
use hubert_rust.Ipfs.RoundTrip.{IsAnswering, ipfs_get-put}
use hubert_rust.Hybrid.Api.{Envelopes, AreEnvelopes}
use hubert_rust.Hybrid.Reference.{create_reference_envelope, is_reference_envelope}
use hubert_rust.Hybrid.References.{extract_reference_arid-create}
use hubert_rust.Hybrid.{
  HybridKv, World, fits_in_dht, put_direct, put_indirect, put_impl, get_impl, exists, follow,
  dereference, in_dht, in_ipfs,
}

module _ (G : Gordian) (V : Envelopes G) (K : Crypto) (D : Dht) (N : Daemon) (L : IsLawful G)
    (A : AreEnvelopes V) (W : IsDht D) (P : IsDaemon N) where
  open G use {Arid, Envelope, to_cbor_data}

  -- `get` follows what the DHT has for the ARID.
  pub get_of_item :
      (fuel : ℕ) (kv : HybridKv) (k : Arid) (e : Envelope) (timeout : Option ℕ)
      (w : World G V K D N)
      → item_at G K D kv.dht k w.net ≡ some (obfuscate_with_arid G K k (to_cbor_data e))
      → get_impl G V K D N (suc fuel) kv k timeout w
        ≡ follow G V K D N (suc fuel) kv timeout (ok (some e)) w
  unfolding get_impl
  get_of_item fuel kv k e timeout w there =
      rw (get_impl, get_impl-found G K D L fuel kv.dht k e timeout w.net there) refl

  exists_of_item :
      (kv : HybridKv) (k : Arid) (item : Bytes) (w : World G V K D N)
      → item_at G K D kv.dht k w.net ≡ some item
      → exists G V K D N kv k w ≡ (ok true, w)
  unfolding exists in_dht Mainline.exists_impl
  exists_of_item kv k item w there = ground arith

  -- `get` at a reference whose content IPFS has.
  pub follow_reference :
      (fuel : ℕ) (kv : HybridKv) (reference_arid : Arid) (size : ℕ) (e : Envelope)
      (timeout : Option ℕ) (w : World G V K D N)
      → Ipfs.get G K N fuel kv.ipfs reference_arid timeout w.session ≡ some (ok (some e), w.session)
      → follow G V K D N fuel kv timeout
          (ok (some (create_reference_envelope G V reference_arid size)))
          w
        ≡ some (ok (some e), w)
  unfolding follow dereference
  follow_reference fuel kv reference_arid size e timeout w content =
      let (recognised, extracted) = extract_reference_arid-create G V A reference_arid size in
      rw (follow, recognised, extracted, dereference, content) refl

  pub put_small :
      (kv : HybridKv) (reference_arid k : Arid) (e : Envelope) (ttl : Option ℕ)
      → length (V.tagged_cbor_data e) ≤ kv.dht_size_limit
      → put_impl G V K D N kv reference_arid k e ttl ≡ put_direct G V K D N kv k e ttl
  unfolding put_impl fits_in_dht
  put_small kv reference_arid k e ttl small = ground arith

  pub put_large :
      (kv : HybridKv) (reference_arid k : Arid) (e : Envelope) (ttl : Option ℕ)
      → kv.dht_size_limit < length (V.tagged_cbor_data e)
      → put_impl G V K D N kv reference_arid k e ttl
        ≡ put_indirect G V K D N kv reference_arid k e ttl
  unfolding put_impl fits_in_dht
  put_large kv reference_arid k e ttl large = ground arith

  -- An accepted direct `put` is an accepted `put` in the DHT.
  pub put_direct-ok :
      (kv : HybridKv) (k : Arid) (e : Envelope) (ttl : Option ℕ) (w : World G V K D N)
      (receipt : Bytes)
      → (put_direct G V K D N kv k e ttl w).0 ≡ ok receipt
      → item_at G K D kv.dht k (put_direct G V K D N kv k e ttl w).1.net
        ≡ some (obfuscate_with_arid G K k (to_cbor_data e))
  unfolding put_direct in_dht
  put_direct-ok kv k e ttl w receipt h =
      let (b, sent, rest) = bind-ok (in_dht G V K D N (Mainline.put G K D kv.dht k e ttl)) _ w h in
      rw rest (put_impl-stored G K D W kv.dht k e w.net b sent)

  -- An accepted indirect `put` is an accepted `put` in IPFS, and one of a reference in the DHT.
  pub put_indirect-ok :
      (kv : HybridKv) (reference_arid k : Arid) (e : Envelope) (ttl : Option ℕ)
      (w : World G V K D N) (receipt : Bytes)
      → (put_indirect G V K D N kv reference_arid k e ttl w).0 ≡ ok receipt
      → let w' = (put_indirect G V K D N kv reference_arid k e ttl w).1 in
        let reference =
          create_reference_envelope G V reference_arid (length (V.tagged_cbor_data e)) in
        (item_at G K D kv.dht k w'.net ≡ some (obfuscate_with_arid G K k (to_cbor_data reference)))
        × (b : Bytes) × ((Ipfs.put G K N kv.ipfs reference_arid e ttl w.session).0 ≡ ok b)
        × (w'.session ≡ (Ipfs.put G K N kv.ipfs reference_arid e ttl w.session).1)
  unfolding put_indirect in_dht in_ipfs
  put_indirect-ok kv reference_arid k e ttl w receipt h =
      let reference =
        create_reference_envelope G V reference_arid (length (V.tagged_cbor_data e)) in
      let upload = Ipfs.put G K N kv.ipfs reference_arid e ttl in
      let point = Mainline.put G K D kv.dht k reference ttl in
      let (b, sent, rest) = bind-ok (in_ipfs G V K D N upload) _ w h in
      let w' = (in_ipfs G V K D N upload w).1 in
      let (c, pointed, last) = bind-ok (in_dht G V K D N point) _ w' (rw rest at h) in
      (
        rw (rest, last) (put_impl-stored G K D W kv.dht k reference w'.net c pointed),
        b,
        sent,
        rw (rest, last) refl,
      )

  -- If a `put` of an envelope within the size limit was accepted, and the envelope is not itself
  -- shaped like a reference, the next `get` returns it, in its first pass, and asks only the DHT.
  pub hybrid_get-put_small :
      (fuel : ℕ) (kv : HybridKv) (reference_arid k : Arid) (e : Envelope) (ttl timeout : Option ℕ)
      (w : World G V K D N) (receipt : Bytes)
      → length (V.tagged_cbor_data e) ≤ kv.dht_size_limit
      → is_reference_envelope G V e ≡ false
      → (put_impl G V K D N kv reference_arid k e ttl w).0 ≡ ok receipt
      → let w' = (put_impl G V K D N kv reference_arid k e ttl w).1 in
        get_impl G V K D N (suc fuel) kv k timeout w' ≡ some (ok (some e), w')
  unfolding follow
  hybrid_get-put_small fuel kv reference_arid k e ttl timeout w receipt small plain h =
      let same = put_small kv reference_arid k e ttl small in
      let w' = (put_impl G V K D N kv reference_arid k e ttl w).1 in
      let accepted = rw same at h in
      let there = put_direct-ok kv k e ttl w receipt accepted in
      get_of_item fuel kv k e timeout w' (rw same there) ∙ rw (follow, plain) refl

  -- If a `put` of an envelope above the size limit was accepted, where the cache of IPFS keys is true
  -- and the daemon answers afterwards, the next `get` at the ARID returns that envelope: it finds the
  -- reference in the DHT and follows it to IPFS. `exists` asks only the DHT and says yes.
  pub hybrid_get-put_large :
      (fuel : ℕ) (kv : HybridKv) (reference_arid k : Arid) (e : Envelope) (ttl timeout : Option ℕ)
      (w : World G V K D N) (receipt : Bytes)
      → kv.dht_size_limit < length (V.tagged_cbor_data e)
      → CacheIsTrue G K N P reference_arid w.session
      → (put_impl G V K D N kv reference_arid k e ttl w).0 ≡ ok receipt
      → IsAnswering G K N L P (put_impl G V K D N kv reference_arid k e ttl w).1.session.node
      → let w' = (put_impl G V K D N kv reference_arid k e ttl w).1 in
        (get_impl G V K D N (suc fuel) kv k timeout w' ≡ some (ok (some e), w'))
        × (exists G V K D N kv k w' ≡ (ok true, w'))
  hybrid_get-put_large fuel kv reference_arid k e ttl timeout w receipt large true_cache h up =
      let same = put_large kv reference_arid k e ttl large in
      let w' = (put_indirect G V K D N kv reference_arid k e ttl w).1 in
      let size = length (V.tagged_cbor_data e) in
      let reference = create_reference_envelope G V reference_arid size in
      let accepted = rw same at h in
      let answering = rw same at up in
      let (there, b, uploaded, session) =
        put_indirect-ok kv reference_arid k e ttl w receipt accepted in
      let (content, _) =
        ipfs_get-put G K N L P fuel kv.ipfs reference_arid e ttl timeout w.session b true_cache
          uploaded (rw session at answering) in
      rw same (
        get_of_item fuel kv k reference timeout w' there
            ∙ follow_reference (suc fuel) kv reference_arid size e timeout w' (rw session content),
        exists_of_item kv k (obfuscate_with_arid G K k (to_cbor_data reference)) w' there,
      )
