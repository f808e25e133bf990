-- ===== src/Cli/HybridExchange.antt =====
-- `hubert put` and `hubert get` with `--storage hybrid`.
use hubert_rust.Base.{
  ℕ, suc, ◌≡◌, refl, ◌∙◌, ap, Bool, false, Option, none, some, [], ◌∷◌, ◌++◌, arith,
}
use hubert_rust.Base.Lists.{Bytes}
use hubert_rust.Base.Io.{Result, ok, err}
use hubert_rust.Error.{Error}
use hubert_rust.Gordian.{IsLawful}
use hubert_rust.Mainline.Network.{IsDht, item_at}
use hubert_rust.Ipfs.Promises.{IsDaemon}
use hubert_rust.Ipfs.RoundTrip.{IsAnswering}
use hubert_rust.Hybrid
use hubert_rust.Hybrid.Api.{AreEnvelopes}
use hubert_rust.Hybrid.Reference.{is_reference_envelope}
use hubert_rust.Hybrid.Held.{put-IsHeld, get-IsHeld, IsHeld-same}
use hubert_rust.Cli.{hybrid, PutOptions, GetOptions, Platform, Machine, println}
use hubert_rust.Cli.Options.{validate, parse_arid, parse_envelope, ipfs_port}
use hubert_rust.Cli.Stores.{
  local_url, world_of, open_mainline, open_hybrid, print_cid, put_hybrid, get_hybrid,
}
use hubert_rust.Cli.Main.{run_put, run_get, put_in, get_from, print_found}
use hubert_rust.Cli.DhtExchange.{IsPassive}
use hubert_rust.Cli.IpfsExchange.{session_of-CacheIsTrue}

module _ (P : Platform) (L : IsLawful P.gordian) (port : Option ℕ) where
  abbrev pub put_hybrid_of : P.gordian.Arid → P.gordian.Envelope → Bool → PutOptions
  put_hybrid_of k e pin = record {
    storage = hybrid;
    host = none;
    port = port;
    arid = P.gordian.arid_ur k;
    envelope = P.gordian.envelope_ur e;
    ttl = none;
    pin = pin;
  }

  abbrev pub get_hybrid_of : P.gordian.Arid → ℕ → GetOptions
  get_hybrid_of k timeout = record {
    storage = hybrid;
    host = none;
    port = port;
    arid = P.gordian.arid_ur k;
    timeout = timeout;
  }

  run_put-hybrid :
      (k : P.gordian.Arid) (e : P.gordian.Envelope) (pin : Bool) (m : Machine P)
      → run_put P (put_hybrid_of k e pin) m ≡ put_hybrid P k e (ipfs_port port) pin m
  unfolding run_put validate put_in parse_arid parse_envelope
  run_put-hybrid k e pin m = ground (arith, L.arid_round_trip k, L.envelope_round_trip e)

  run_get-hybrid :
      (fuel : ℕ) (k : P.gordian.Arid) (timeout : ℕ) (m : Machine P)
      → run_get P fuel (get_hybrid_of k timeout) m
        ≡ print_found P timeout (get_hybrid P fuel k timeout (ipfs_port port) m)
  unfolding run_get validate get_from parse_arid
  run_get-hybrid fuel k timeout m = ground (arith, L.arid_round_trip k)

  abbrev World : Type 0
  World = Hybrid.World P.gordian P.envelopes P.crypto P.dht P.daemon

  -- The machine once a DHT client has started.
  abbrev joined : Machine P → Machine P
  joined m = record m { net = (P.start_dht m.net).1 }

  abbrev stored_by :
      P.gordian.Arid → P.gordian.Envelope → Bool → Machine P → Result Bytes Error × World
  stored_by k e pin m =
      Hybrid.put P.gordian P.envelopes P.crypto P.dht P.daemon
        (Hybrid.with_pin_content pin (Hybrid.new (local_url (ipfs_port port)))) m.new_arid k e none
        (world_of P (joined m))

  put_hybrid_lem :
      (k : P.gordian.Arid) (e : P.gordian.Envelope) (pin : Bool) (m : Machine P)
      → (put_hybrid P k e (ipfs_port port) pin m).0 ≡ ok tt
      → (receipt : Bytes) × ((stored_by k e pin m).0 ≡ ok receipt)
        × ((put_hybrid P k e (ipfs_port port) pin m).1.net ≡ (stored_by k e pin m).1.net)
        × ((put_hybrid P k e (ipfs_port port) pin m).1.node ≡ (stored_by k e pin m).1.session.node)
  unfolding put_hybrid open_hybrid open_mainline print_cid println
  put_hybrid_lem k e pin m h = go (P.start_dht m.net).0 refl (stored_by k e pin m).0 refl
    where
      go :
          (s : Result (Unit {0}) Bytes)
          → (P.start_dht m.net).0 ≡ s
          → (r : Result Bytes Error) → (stored_by k e pin m).0 ≡ r
          → (receipt : Bytes) × ((stored_by k e pin m).0 ≡ ok receipt)
            × ((put_hybrid P k e (ipfs_port port) pin m).1.net ≡ (stored_by k e pin m).1.net)
            × ((put_hybrid P k e (ipfs_port port) pin m).1.node
                ≡ (stored_by k e pin m).1.session.node)
      go (err e') p r q = absurd (ground arith)
      go (ok u) p (err e') q = absurd (ground arith)
      go (ok u) p (ok receipt) q = (receipt, q, ground arith, ground arith)

  module _ (A : AreEnvelopes P.envelopes) (W : IsDht P.dht) (D : IsDaemon P.daemon)
      (S : IsPassive P) where
    -- A `hubert put` with `--storage hybrid`, with or without `--pin`, that succeeds with an envelope
    -- that is not itself shaped like a reference stores, whatever its size, what a later `hubert get`
    -- by a process with the same keys prints: if the network and the daemon are as they were left, the
    -- daemon answers and the DHT client starts, it prints the envelope's UR as its one line, at once,
    -- and succeeds.
    pub cli_hybrid_get-put :
        (fuel : ℕ) (k : P.gordian.Arid) (e : P.gordian.Envelope) (pin : Bool) (timeout : ℕ)
        (m m' : Machine P)
        → is_reference_envelope P.gordian P.envelopes e ≡ false
        → (run_put P (put_hybrid_of k e pin) m).0 ≡ ok tt
        → m'.net ≡ (run_put P (put_hybrid_of k e pin) m).1.net
        → m'.node ≡ (run_put P (put_hybrid_of k e pin) m).1.node
        → IsAnswering P.gordian P.crypto P.daemon L D m'.node
        → (P.start_dht m'.net).0 ≡ ok tt
        → run_get P (suc fuel) (get_hybrid_of k timeout) m'
          ≡ some (
            ok tt,
            record m' {
              net = (P.start_dht m'.net).1;
              stdout = m'.stdout ++ (P.gordian.envelope_ur e ∷ []);
            },
          )
    unfolding print_found println get_hybrid open_hybrid open_mainline
    cli_hybrid_get-put fuel k e pin timeout m m' plain accepted same_net same_node up starts =
        let (receipt, stored, net, node) =
          put_hybrid_lem k e pin m (rw (run_put-hybrid k e pin m) at accepted) in
        let kv = Hybrid.with_pin_content pin (Hybrid.new (local_url (ipfs_port port))) in
        let held =
          put-IsHeld P.gordian P.envelopes P.crypto P.dht P.daemon L A W D kv m.new_arid k e none
            (world_of P (joined m)) receipt
            (session_of-CacheIsTrue P L port D m.new_arid (joined m)) plain stored in
        let net' : m'.net ≡ (stored_by k e pin m).1.net =
          rw (same_net, run_put-hybrid k e pin m) net in
        let node' : m'.node ≡ (stored_by k e pin m).1.session.node =
          rw (same_node, run_put-hybrid k e pin m) node in
        let here =
          IsHeld-same P.gordian P.envelopes P.crypto P.dht P.daemon L A W D kv k e
            (stored_by k e pin m).1 (world_of P (joined m'))
            (S.starts _ _ m'.net ∙ ap (item_at P.gordian P.crypto P.dht kv.dht k) net') node'
            held in
        let found =
          get-IsHeld P.gordian P.envelopes P.crypto P.dht P.daemon L A W D
            (Hybrid.new (local_url (ipfs_port port))) fuel k e (some timeout)
            (world_of P (joined m')) here up in
        run_get-hybrid (suc fuel) k timeout m'
        ∙ rw (get_hybrid, open_hybrid, open_mainline, starts, found) refl
