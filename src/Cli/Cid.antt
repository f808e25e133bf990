-- ===== src/Cli/Cid.antt =====
-- What `hubert put --storage hybrid` prints of the CID.
use hubert_rust.Base.{ℕ, ◌≡◌, refl, Bool, true, false, none, ◌++◌, arith}
use hubert_rust.Base.Lists.{Bytes, text, length}
use hubert_rust.Base.Io.{Result, ok, err}
use hubert_rust.Text.Search.{contains}
use hubert_rust.Text.Colons.{has_no_url, contains-has_no_url}
use hubert_rust.Error.{Error}
use hubert_rust.Gordian.{Gordian}
use hubert_rust.AridDerivation.{Crypto}
use hubert_rust.Mainline
use hubert_rust.Mainline.{Dht}
use hubert_rust.Ipfs
use hubert_rust.Ipfs.Kubo.{Daemon}
use hubert_rust.Hybrid
use hubert_rust.Hybrid.{HybridKv}
use hubert_rust.Hybrid.Api.{Envelopes}
use hubert_rust.Hybrid.Reference.{create_reference_envelope}
use hubert_rust.Cli.{Platform, Machine}
use hubert_rust.Cli.Stores.{local_url, world_of, open_mainline, open_hybrid, put_hybrid}

-- The UR of an ARID is `ur:arid/` and letters: no colon in it stands before a slash.
pub record IsUr (G : Gordian) : Type 0 where
  pub alone : (k : G.Arid) → has_no_url false (G.arid_ur k) ≡ true
  pub before :
      (k : G.Arid) (rest : Bytes)
      → has_no_url false rest ≡ true
      → has_no_url false (G.arid_ur k ++ rest) ≡ true

module _ (G : Gordian) (V : Envelopes G) (K : Crypto) (D : Dht) (N : Daemon) (U : IsUr G)
    (kv : HybridKv) (reference_arid k : G.Arid) (e : G.Envelope) (w : Hybrid.World G V K D N) where
  abbrev pointed : Result Bytes Error
  pointed =
      (Mainline.put G K D kv.dht k
        (create_reference_envelope G V reference_arid (length (V.tagged_cbor_data e))) none w.net).0

  put_direct-receipt :
      (sent : Result Bytes Error)
      → (Mainline.put G K D kv.dht k e none w.net).0 ≡ sent
      → (receipt : Bytes) → (Hybrid.put_direct G V K D N kv k e none w).0 ≡ ok receipt
      → receipt ≡ text "Stored in DHT at ARID: " ++ G.arid_ur k
  unfolding Hybrid.put_direct Hybrid.in_dht
  put_direct-receipt (ok _) q receipt h = ground arith
  put_direct-receipt (err _) q receipt h = absurd (ground arith)

  put_indirect-receipt :
      (uploaded : Result Bytes Error)
      → (Ipfs.put G K N kv.ipfs reference_arid e none w.session).0 ≡ uploaded
      → (sent : Result Bytes Error) → pointed ≡ sent
      → (receipt : Bytes)
      → (Hybrid.put_indirect G V K D N kv reference_arid k e none w).0 ≡ ok receipt
      → receipt
        ≡ text "Stored in IPFS (ref: "
          ++ (G.arid_ur reference_arid ++ (text ") via DHT at ARID: " ++ G.arid_ur k))
  unfolding Hybrid.put_indirect Hybrid.in_dht Hybrid.in_ipfs
  put_indirect-receipt (err _) p sent q receipt h = absurd (ground arith)
  put_indirect-receipt (ok _) p (err _) q receipt h = absurd (ground arith)
  put_indirect-receipt (ok _) p (ok _) q receipt h = ground arith

  -- No receipt of `HybridKv` has a URL in it.
  put-receipt :
      (receipt : Bytes)
      → (Hybrid.put G V K D N kv reference_arid k e none w).0 ≡ ok receipt
      → contains (text "ipfs://") receipt ≡ false
  unfolding Hybrid.put_impl has_no_url
  put-receipt receipt h = contains-has_no_url receipt (go (Hybrid.fits_in_dht G V K D N kv e) refl)
    where
      go :
          (small : Bool)
          → Hybrid.fits_in_dht G V K D N kv e ≡ small
          → has_no_url false receipt ≡ true
      go true fits = rw (put_direct-receipt _ refl receipt (ground arith)) (U.alone k)
      go false fits =
          rw (put_indirect-receipt _ refl _ refl receipt (ground arith))
            (U.before reference_arid (text ") via DHT at ARID: " ++ G.arid_ur k) (U.alone k))

module _ (P : Platform) (U : IsUr P.gordian) where
  -- `hubert put --storage hybrid` prints nothing, whatever becomes of it and also with `--pin`: the CID
  -- that the command looks for stands in no receipt of `HybridKv`.
  pub put_hybrid_prints_nothing :
      (k : P.gordian.Arid) (e : P.gordian.Envelope) (port : ℕ) (pin : Bool) (m : Machine P)
      → (put_hybrid P k e port pin m).1.stdout ≡ m.stdout
  unfolding put_hybrid open_hybrid open_mainline
  put_hybrid_prints_nothing k e port pin m = go (P.start_dht m.net).0 refl stored.0 refl
    where
      joined : Machine P
      joined = record m { net = (P.start_dht m.net).1 }

      stored : Result Bytes Error × Hybrid.World P.gordian P.envelopes P.crypto P.dht P.daemon
      stored =
          Hybrid.put P.gordian P.envelopes P.crypto P.dht P.daemon
            (Hybrid.with_pin_content pin (Hybrid.new (local_url port))) m.new_arid k e none
            (world_of P joined)

      go :
          (s : Result (Unit {0}) Bytes)
          → (P.start_dht m.net).0 ≡ s
          → (r : Result Bytes Error) → stored.0 ≡ r
          → (put_hybrid P k e port pin m).1.stdout ≡ m.stdout
      go (err _) p r q = ground arith
      go (ok _) p (err _) q = ground arith
      go (ok _) p (ok receipt) q = ground (
        arith,
        put-receipt P.gordian P.envelopes P.crypto P.dht P.daemon U
            (Hybrid.with_pin_content pin (Hybrid.new (local_url port))) m.new_arid k e
            (world_of P joined) receipt q,
      )
