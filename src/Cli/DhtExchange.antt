-- ===== src/Cli/DhtExchange.antt =====
-- `hubert put` and `hubert get` with `--storage mainline`.
use hubert_rust.Base.{ℕ, suc, ◌≡◌, refl, ◌∙◌, false, Option, none, some, [], ◌∷◌, ◌++◌, arith}
use hubert_rust.Base.Lists.{Bytes}
use hubert_rust.Base.Io.{Result, ok, err}
use hubert_rust.Error.{Error}
use hubert_rust.Gordian.{IsLawful}
use hubert_rust.Mainline
use hubert_rust.Mainline.Network.{IsDht, item_at, put_impl-stored, get_impl-found}
use hubert_rust.AridDerivation.{obfuscate_with_arid}
use hubert_rust.Cli.{mainline, PutOptions, GetOptions, Platform, Machine, println}
use hubert_rust.Cli.Options.{validate, parse_arid, parse_envelope}
use hubert_rust.Cli.Stores.{open_mainline, put_mainline, get_mainline}
use hubert_rust.Cli.Main.{run_put, run_get, put_in, get_from, print_found}

-- A DHT client that starts changes nothing of what the network stores.
pub record IsPassive (P : Platform) : Type 0 where
  pub starts :
      (key : Bytes) (salt : Option Bytes) (net : P.dht.Net)
      → P.dht.get_mutable_most_recent key salt (P.start_dht net).1
        ≡ P.dht.get_mutable_most_recent key salt net

module _ (P : Platform) (L : IsLawful P.gordian) where
  abbrev pub put_mainline_of : P.gordian.Arid → P.gordian.Envelope → PutOptions
  put_mainline_of k e = record {
    storage = mainline;
    host = none;
    port = none;
    arid = P.gordian.arid_ur k;
    envelope = P.gordian.envelope_ur e;
    ttl = none;
    pin = false;
  }

  abbrev pub get_mainline_of : P.gordian.Arid → ℕ → GetOptions
  get_mainline_of k timeout = record {
    storage = mainline;
    host = none;
    port = none;
    arid = P.gordian.arid_ur k;
    timeout = timeout;
  }

  run_put-mainline :
      (k : P.gordian.Arid) (e : P.gordian.Envelope) (m : Machine P)
      → run_put P (put_mainline_of k e) m ≡ put_mainline P k e m
  unfolding run_put validate put_in parse_arid parse_envelope
  run_put-mainline k e m = ground (arith, L.arid_round_trip k, L.envelope_round_trip e)

  run_get-mainline :
      (fuel : ℕ) (k : P.gordian.Arid) (timeout : ℕ) (m : Machine P)
      → run_get P fuel (get_mainline_of k timeout) m
        ≡ print_found P timeout (get_mainline P fuel k timeout m)
  unfolding run_get validate get_from parse_arid
  run_get-mainline fuel k timeout m = ground (arith, L.arid_round_trip k)

  abbrev started : Machine P → P.dht.Net
  started m = (P.start_dht m.net).1

  put_mainline_lem :
      (k : P.gordian.Arid) (e : P.gordian.Envelope) (m : Machine P)
      → (put_mainline P k e m).0 ≡ ok tt
      → (receipt : Bytes) × ((Mainline.put P.gordian P.crypto P.dht Mainline.new k e none
            (started m)).0
          ≡ ok receipt)
        × ((put_mainline P k e m).1.net
            ≡ (Mainline.put P.gordian P.crypto P.dht Mainline.new k e none (started m)).1)
  unfolding put_mainline open_mainline
  put_mainline_lem k e m h =
      go (P.start_dht m.net).0 refl
        (Mainline.put P.gordian P.crypto P.dht Mainline.new k e none (started m)).0 refl
    where
      go :
          (s : Result (Unit {0}) Bytes)
          → (P.start_dht m.net).0 ≡ s
          → (r : Result Bytes Error)
          → (Mainline.put P.gordian P.crypto P.dht Mainline.new k e none (started m)).0 ≡ r
          → (receipt : Bytes) × ((Mainline.put P.gordian P.crypto P.dht Mainline.new k e none
                (started m)).0
              ≡ ok receipt)
            × ((put_mainline P k e m).1.net
                ≡ (Mainline.put P.gordian P.crypto P.dht Mainline.new k e none (started m)).1)
      go (err e') p r q = absurd (ground arith)
      go (ok u) p (err e') q = absurd (ground arith)
      go (ok u) p (ok receipt) q = (receipt, q, ground arith)

  -- A `hubert put` with `--storage mainline` that succeeds stores in the DHT what a later `hubert get`
  -- prints on any machine that finds the network as it was left: if its DHT client starts, it prints
  -- the envelope's UR as its one line, at once, and succeeds.
  pub cli_mainline_get-put :
      IsDht P.dht
      → IsPassive P
      → (fuel : ℕ) (k : P.gordian.Arid) (e : P.gordian.Envelope) (timeout : ℕ) (m m' : Machine P)
      → (run_put P (put_mainline_of k e) m).0 ≡ ok tt
      → m'.net ≡ (run_put P (put_mainline_of k e) m).1.net
      → (P.start_dht m'.net).0 ≡ ok tt
      → run_get P (suc fuel) (get_mainline_of k timeout) m'
        ≡ some (
          ok tt,
          record m' {
            net = (P.start_dht m'.net).1;
            stdout = m'.stdout ++ (P.gordian.envelope_ur e ∷ []);
          },
        )
  unfolding print_found println get_mainline open_mainline
  cli_mainline_get-put W S fuel k e timeout m m' accepted same up =
      let (receipt, stored, left) =
        put_mainline_lem k e m (rw (run_put-mainline k e m) at accepted) in
      let there : item_at P.gordian P.crypto P.dht Mainline.new k m'.net
          ≡ some (obfuscate_with_arid P.gordian P.crypto k (P.gordian.to_cbor_data e)) =
        rw (same, run_put-mainline k e m, left)
          (put_impl-stored P.gordian P.crypto P.dht W Mainline.new k e (started m) receipt
            stored) in
      let found =
        get_impl-found P.gordian P.crypto P.dht L fuel Mainline.new k e (some timeout) (started m')
          (S.starts _ _ m'.net ∙ there) in
      run_get-mainline (suc fuel) k timeout m' ∙ rw (get_mainline, open_mainline, up, found) refl
