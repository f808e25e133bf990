-- ===== src/Cli/IpfsExchange.antt =====
-- `hubert put` and `hubert get` with `--storage ipfs`.
use hubert_rust.Base.{ℕ, suc, ◌≡◌, refl, ◌∙◌, Bool, Option, none, some, [], ◌∷◌, ◌++◌, arith}
use hubert_rust.Base.Lists.{Bytes}
use hubert_rust.Base.Assoc.{lookup}
use hubert_rust.Base.Io.{Result, ok, err}
use hubert_rust.Error.{Error}
use hubert_rust.Gordian.{IsLawful}
use hubert_rust.Ipfs
use hubert_rust.Ipfs.Promises.{IsDaemon}
use hubert_rust.Ipfs.Keys.{CacheIsTrue}
use hubert_rust.Ipfs.Stored.{IsStored-node}
use hubert_rust.Ipfs.Kept.{put_impl-IsStored}
use hubert_rust.Ipfs.RoundTrip.{IsAnswering, get_stored}
use hubert_rust.Cli.{ipfs, PutOptions, GetOptions, Platform, Machine, println}
use hubert_rust.Cli.Options.{validate, parse_arid, parse_envelope, ipfs_port}
use hubert_rust.Cli.Stores.{local_url, session_of, print_cid, put_ipfs, get_ipfs}
use hubert_rust.Cli.Main.{run_put, run_get, put_in, get_from, print_found}

module _ (P : Platform) (L : IsLawful P.gordian) (port : Option ℕ) where
  abbrev pub put_ipfs_of : P.gordian.Arid → P.gordian.Envelope → Bool → PutOptions
  put_ipfs_of k e pin = record {
    storage = ipfs;
    host = none;
    port = port;
    arid = P.gordian.arid_ur k;
    envelope = P.gordian.envelope_ur e;
    ttl = none;
    pin = pin;
  }

  abbrev pub get_ipfs_of : P.gordian.Arid → ℕ → GetOptions
  get_ipfs_of k timeout = record {
    storage = ipfs;
    host = none;
    port = port;
    arid = P.gordian.arid_ur k;
    timeout = timeout;
  }

  run_put-ipfs :
      (k : P.gordian.Arid) (e : P.gordian.Envelope) (pin : Bool) (m : Machine P)
      → run_put P (put_ipfs_of k e pin) m ≡ put_ipfs P k e (ipfs_port port) pin m
  unfolding run_put validate put_in parse_arid parse_envelope
  run_put-ipfs k e pin m = ground (arith, L.arid_round_trip k, L.envelope_round_trip e)

  run_get-ipfs :
      (fuel : ℕ) (k : P.gordian.Arid) (timeout : ℕ) (m : Machine P)
      → run_get P fuel (get_ipfs_of k timeout) m
        ≡ print_found P timeout (get_ipfs P fuel k timeout (ipfs_port port) m)
  unfolding run_get validate get_from parse_arid
  run_get-ipfs fuel k timeout m = ground (arith, L.arid_round_trip k)

  abbrev pub store_of : Bool → Ipfs.IpfsKv
  store_of pin = Ipfs.with_pin_content pin (Ipfs.new (local_url (ipfs_port port)))

  abbrev stored_by :
      P.gordian.Arid
      → P.gordian.Envelope
      → Bool
      → Machine P
      → Result Bytes Error × Ipfs.Session P.gordian P.crypto P.daemon
  stored_by k e pin m =
      Ipfs.put P.gordian P.crypto P.daemon (store_of pin) k e none (session_of P m)

  put_ipfs_lem :
      (k : P.gordian.Arid) (e : P.gordian.Envelope) (pin : Bool) (m : Machine P)
      → (put_ipfs P k e (ipfs_port port) pin m).0 ≡ ok tt
      → (receipt : Bytes) × ((stored_by k e pin m).0 ≡ ok receipt)
        × ((put_ipfs P k e (ipfs_port port) pin m).1.node ≡ (stored_by k e pin m).1.node)
  unfolding put_ipfs print_cid println
  put_ipfs_lem k e pin m h = go (stored_by k e pin m).0 refl
    where
      go :
          (r : Result Bytes Error)
          → (stored_by k e pin m).0 ≡ r
          → (receipt : Bytes) × ((stored_by k e pin m).0 ≡ ok receipt)
            × ((put_ipfs P k e (ipfs_port port) pin m).1.node ≡ (stored_by k e pin m).1.node)
      go (err e') q = absurd (ground arith)
      go (ok receipt) q = (receipt, q, ground arith)

  module _ (W : IsDaemon P.daemon) where
    -- The cache of a new process is empty.
    pub session_of-CacheIsTrue :
        (k : P.gordian.Arid) (m : Machine P)
        → CacheIsTrue P.gordian P.crypto P.daemon W k (session_of P m)
    unfolding lookup
    session_of-CacheIsTrue k m info h = cc

    -- A `hubert put` with `--storage ipfs`, with or without `--pin`, that succeeds stores in IPFS what a
    -- later `hubert get` by a process with the same keys prints: if the daemon is as it was left and
    -- answers, it prints the envelope's UR as its one line, at once, and succeeds.
    pub cli_ipfs_get-put :
        (fuel : ℕ) (k : P.gordian.Arid) (e : P.gordian.Envelope) (pin : Bool) (timeout : ℕ)
        (m m' : Machine P)
        → (run_put P (put_ipfs_of k e pin) m).0 ≡ ok tt
        → m'.node ≡ (run_put P (put_ipfs_of k e pin) m).1.node
        → IsAnswering P.gordian P.crypto P.daemon L W m'.node
        → run_get P (suc fuel) (get_ipfs_of k timeout) m'
          ≡ some (ok tt, record m' { stdout = m'.stdout ++ (P.gordian.envelope_ur e ∷ []) })
    unfolding print_found println get_ipfs
    cli_ipfs_get-put fuel k e pin timeout m m' accepted same up =
        let (receipt, stored, left) =
          put_ipfs_lem k e pin m (rw (run_put-ipfs k e pin m) at accepted) in
        let there =
          put_impl-IsStored P.gordian P.crypto P.daemon W (store_of pin) k e none (session_of P m)
            receipt (session_of-CacheIsTrue k m) stored in
        let here : m'.node ≡ (stored_by k e pin m).1.node =
          rw (same, run_put-ipfs k e pin m) left in
        let (found, _) =
          get_stored P.gordian P.crypto P.daemon L W fuel (Ipfs.new (local_url (ipfs_port port))) k
            e (some timeout) (session_of P m')
            (IsStored-node P.gordian P.crypto P.daemon W k e (stored_by k e pin m).1
              (session_of P m') here there)
            up in
        run_get-ipfs (suc fuel) k timeout m' ∙ rw (get_ipfs, found) refl
