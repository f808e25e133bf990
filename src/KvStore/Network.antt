-- ===== src/KvStore/Network.antt =====
-- `MainlineDhtKv` and `HybridKv` are written once, as one client sees the network.
use hubert_rust.Base.{
  ℕ, ◌≡◌, refl, Bool, true, false, Option, none, some, arith, ltb, Bool-cases, inl, inr,
}
use hubert_rust.Base.Lists.{Bytes, length}
use hubert_rust.Base.Io.{Result, ok, err}
use hubert_rust.Base.Poll.{done, poll_ends}
use hubert_rust.Error.{Error, already_exists, value_too_large, HybridError}
use hubert_rust.Gordian.{Gordian}
use hubert_rust.AridDerivation.{Crypto, obfuscate_with_arid}
use hubert_rust.KvStore.{mainline, hybrid}
use hubert_rust.KvStore.WriteOnce.{Always, IsWriteOnce}
use hubert_rust.Mainline
use hubert_rust.Mainline.{Dht, MainlineDhtKv}
use hubert_rust.Ipfs
use hubert_rust.Ipfs.Kubo.{Daemon}
use hubert_rust.Hybrid
use hubert_rust.Hybrid.{HybridKv}
use hubert_rust.Hybrid.Api.{Envelopes}
use hubert_rust.Hybrid.Reference.{extract_reference_arid, create_reference_envelope}

module _ (G : Gordian) (K : Crypto) (D : Dht) (kv : MainlineDhtKv) where
  open G use {Arid, arid_ur, Envelope}

  -- The DHT returns something at the key of `k`.
  abbrev Taken : Arid → D.Net → Type 0
  Taken k net =
      (value : Bytes) × (D.get_mutable_most_recent (Mainline.pubkey G K D k) kv.salt net
        ≡ some value)

  mainline_read :
      (k : Arid) (deadline : ℕ) (net net' : D.Net) (e : Envelope)
      → Mainline.get_pass G K D kv k deadline net ≡ done (ok (some e)) net'
      → Taken k net'
  unfolding Mainline.get_pass
  mainline_read k deadline net net' e h =
      go (D.get_mutable_most_recent (Mainline.pubkey G K D k) kv.salt net) refl
    where
      go :
          (o : Option Bytes)
          → D.get_mutable_most_recent (Mainline.pubkey G K D k) kv.salt net ≡ o
          → Taken k net'
      go (some value) q = (value, ground arith)
      go none q = absurd (ground arith)

  pub mainline_found :
      (fuel : ℕ) (k : Arid) (timeout : Option ℕ) (net net' : D.Net) (e : Envelope)
      → Mainline.get G K D fuel kv k timeout net ≡ some (ok (some e), net')
      → Taken k net'
  unfolding Mainline.get_impl
  mainline_found fuel k timeout net net' e h =
      let (t, q) = poll_ends _ _ fuel net _ net' h in mainline_read k _ t net' e q

  pub mainline_refuses :
      (k : Arid) (net : D.Net)
      → Taken k net
      → (e : Envelope) (ttl : Option ℕ)
      → (error : Error) × (Mainline.put G K D kv k e ttl net ≡ (err error, net))
  unfolding Mainline.put_impl
  mainline_refuses k net (value, h) e ttl =
      let size = length (obfuscate_with_arid G K k (G.to_cbor_data e)) in
      elim (Bool-cases (ltb kv.max_value_size size)) [
        | inl large ↦ (Error.mainline (value_too_large size), rw large refl)
        | inr small ↦ (already_exists (arid_ur k), rw (small, h) refl)
      ]

  pub mainline_checked :
      (k : Arid) (net : D.Net) → (Mainline.exists G K D kv k net).0 ≡ ok true → Taken k net
  unfolding Mainline.exists_impl
  mainline_checked k net h =
      go (D.get_mutable_most_recent (Mainline.pubkey G K D k) kv.salt net) refl
    where
      go :
          (o : Option Bytes)
          → D.get_mutable_most_recent (Mainline.pubkey G K D k) kv.salt net ≡ o
          → Taken k net
      go (some value) q = (value, q)
      go none q = absurd (ground arith)

  mainline_same :
      (k : Arid) (net net' : D.Net) (r : Result Bool Error)
      → ◌≡◌ {A = Option (Result Bool Error × D.Net)}
          (some (Mainline.exists G K D kv k net))
          (some (r, net'))
      → ((Mainline.exists G K D kv k net).0 ≡ r) × (net' ≡ net)
  unfolding Mainline.exists_impl
  mainline_same k net net' r h = ground arith

  pub mainline-IsWriteOnce : IsWriteOnce (mainline G K D kv) Always
  mainline-IsWriteOnce = record {
    put_keeps = λ k e ttl s v. tt;
    get_keeps = λ fuel k timeout s s' r v h. tt;
    exists_keeps = λ fuel k s s' r v h. tt;
    read = λ fuel k timeout s s' e v h e' ttl u.
        let (error, q) = mainline_refuses k s' (mainline_found fuel k timeout s s' e h) e' ttl in
        (error, rw q refl);
    checked = λ fuel k s s' v h e ttl u.
        let (there, same) = mainline_same k s s' (ok true) h in
        let (error, q) = mainline_refuses k s (mainline_checked k s there) e ttl in
        (error, rw (same, q) refl);
  }

module _ (G : Gordian) (V : Envelopes G) (K : Crypto) (D : Dht) (N : Daemon) (kv : HybridKv) where
  open G use {Arid, arid_ur, Envelope}

  abbrev World : Type 0
  World = Hybrid.World G V K D N

  abbrev Answer : Type 0
  Answer = Result (Option Envelope) Error

  -- From the answer of the DHT on, the DHT is left alone.
  dereference-net :
      (fuel : ℕ) (timeout : Option ℕ) (r : Result Arid HybridError) (w w' : World) (a : Answer)
      → Hybrid.dereference G V K D N fuel kv timeout r w ≡ some (a, w')
      → w'.net ≡ w.net
  unfolding Hybrid.dereference
  dereference-net fuel timeout (err e) w w' a h = ground arith
  dereference-net fuel timeout (ok arid) w w' a h = ground arith

  follow-net :
      (fuel : ℕ) (timeout : Option ℕ) (r : Answer) (w w' : World) (a : Answer)
      → Hybrid.follow G V K D N fuel kv timeout r w ≡ some (a, w')
      → w'.net ≡ w.net
  unfolding Hybrid.follow
  follow-net fuel timeout (err e) w w' a h = ground arith
  follow-net fuel timeout (ok none) w w' a h = ground arith
  follow-net fuel timeout (ok (some e)) w w' a h =
      ground (arith, dereference-net fuel timeout (extract_reference_arid G V e) w w' a)

  -- Something was found only where the DHT had something.
  follow_found :
      (fuel : ℕ) (timeout : Option ℕ) (r : Answer) (w w' : World) (e : Envelope)
      → Hybrid.follow G V K D N fuel kv timeout r w ≡ some (ok (some e), w')
      → (found : Envelope) × (r ≡ ok (some found))
  unfolding Hybrid.follow
  follow_found fuel timeout (err e') w w' e h = absurd (ground arith)
  follow_found fuel timeout (ok none) w w' e h = absurd (ground arith)
  follow_found fuel timeout (ok (some found)) w w' e h = (found, refl)

  hybrid_found :
      (fuel : ℕ) (k : Arid) (timeout : Option ℕ) (w w' : World) (e : Envelope)
      → Hybrid.get G V K D N fuel kv k timeout w ≡ some (ok (some e), w')
      → Taken G K D kv.dht k w'.net
  unfolding Hybrid.get_impl
  hybrid_found fuel k timeout w w' e h = go (Mainline.get G K D fuel kv.dht k timeout w.net) refl
    where
      go :
          (o : Option (Answer × D.Net))
          → Mainline.get G K D fuel kv.dht k timeout w.net ≡ o
          → Taken G K D kv.dht k w'.net
      go none q = absurd (ground arith)
      go (some (r, net)) q =
          let after = rw (Hybrid.get_impl, q) at h in
          let (found, read) = follow_found fuel timeout r (record w { net = net }) w' e after in
          rw (follow-net fuel timeout r (record w { net = net }) w' (ok (some e)) after)
            (mainline_found G K D kv.dht fuel k timeout w.net net found (rw read at q))

  hybrid_refuses :
      (k reference_arid : Arid) (w : World)
      → Taken G K D kv.dht k w.net
      → (e : Envelope) (ttl : Option ℕ)
      → (error : Error) × ((Hybrid.put G V K D N kv reference_arid k e ttl w).0 ≡ err error)
  unfolding Hybrid.put_impl Hybrid.put_direct Hybrid.put_indirect Hybrid.in_dht Hybrid.in_ipfs
  hybrid_refuses k reference_arid w taken e ttl =
      go (Hybrid.fits_in_dht G V K D N kv e) refl
        (Ipfs.put G K N kv.ipfs reference_arid e ttl w.session).0 refl
    where
      go :
          (small : Bool)
          → Hybrid.fits_in_dht G V K D N kv e ≡ small
          → (r : Result Bytes Error) → (Ipfs.put G K N kv.ipfs reference_arid e ttl w.session).0 ≡ r
          → (error : Error) × ((Hybrid.put G V K D N kv reference_arid k e ttl w).0 ≡ err error)
      go true fits r q =
          let (error, refused) = mainline_refuses G K D kv.dht k w.net taken e ttl in
          (error, ground (arith, refused))
      go false fits (err error) q = (error, ground arith)
      go false fits (ok _) q =
          let size = length (V.tagged_cbor_data e) in
          let (error, refused) =
            mainline_refuses G K D kv.dht k w.net taken
              (create_reference_envelope G V reference_arid size) ttl in
          (error, ground (arith, refused))

  hybrid_checked :
      (k : Arid) (w w' : World)
      → ◌≡◌ {A = Option (Result Bool Error × World)}
          (some (Hybrid.exists G V K D N kv k w))
          (some (ok true, w'))
      → Taken G K D kv.dht k w'.net
  unfolding Hybrid.exists Hybrid.in_dht Mainline.exists_impl
  hybrid_checked k w w' h = mainline_checked G K D kv.dht k w'.net (ground arith)

  pub hybrid-IsWriteOnce :
      (reference_arid : Arid) → IsWriteOnce (hybrid G V K D N kv reference_arid) Always
  hybrid-IsWriteOnce reference_arid = record {
    put_keeps = λ k e ttl s v. tt;
    get_keeps = λ fuel k timeout s s' r v h. tt;
    exists_keeps = λ fuel k s s' r v h. tt;
    read = λ fuel k timeout w w' e v h e' ttl u.
        hybrid_refuses k reference_arid w' (hybrid_found fuel k timeout w w' e h) e' ttl;
    checked = λ fuel k w w' v h e ttl u.
        hybrid_refuses k reference_arid w' (hybrid_checked k w w' h) e ttl;
  }
