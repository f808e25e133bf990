-- ===== src/Hybrid/Polling.antt =====
-- The two loops of `get` of `HybridKv` (hybrid/kv.rs).
use hubert_rust.Base.{ℕ, ◌+◌, ◌/◌, ◌<◌, ◌≡◌, refl, Option, none, some, Bool-cases, inl, inr}
use hubert_rust.Base.Io.{Result, ok, err}
use hubert_rust.Error.{Error, HybridError, hybrid}
use hubert_rust.Gordian.{Gordian}
use hubert_rust.Time.{nanos_per_sec}
use hubert_rust.AridDerivation.{Crypto}
use hubert_rust.Mainline
use hubert_rust.Mainline.{Dht}
use hubert_rust.Mainline.Network.{IsDht, mainline_get_total}
use hubert_rust.Ipfs
use hubert_rust.Ipfs.Kubo.{Daemon}
use hubert_rust.Ipfs.Promises.{IsDaemon}
use hubert_rust.Ipfs.Polling.{ipfs_get_total}
use hubert_rust.Hybrid.Api.{Envelopes}
use hubert_rust.Hybrid.Reference.{is_reference_envelope, extract_reference_arid}
use hubert_rust.Hybrid.{HybridKv, World, get_impl, follow, dereference, of_ipfs}

module _ (G : Gordian) (V : Envelopes G) (K : Crypto) (D : Dht) (N : Daemon) where
  open G use {Arid, Envelope}

  -- An operation that may run out of fuel has not.
  abbrev Ends : Option (Result (Option Envelope) Error × World G V K D N) → Type 0
  Ends o = (r : Result (Option Envelope) Error) × (w : World G V K D N) × (o ≡ some (r, w))

  module _ (P : IsDaemon N) (fuel : ℕ) (kv : HybridKv) (timeout : Option ℕ)
      (enough : (Ipfs.resolve_timeout_of G K N kv.ipfs timeout + 999_999_999) / nanos_per_sec
        < fuel) where
    dereference_total :
        (k : Result Arid HybridError) (w : World G V K D N)
        → Ends (dereference G V K D N fuel kv timeout k w)
    unfolding dereference
    dereference_total (err e) w = (err (hybrid e), w, refl)
    dereference_total (ok k) w =
        let (r, s', got) = ipfs_get_total G K N P fuel kv.ipfs k timeout w.session enough in
        (of_ipfs G V K D N r, record w { session = s' }, rw (dereference, got) refl)

    follow_total :
        (r : Result (Option Envelope) Error) (w : World G V K D N)
        → Ends (follow G V K D N fuel kv timeout r w)
    unfolding follow
    follow_total (err e) w = (err e, w, refl)
    follow_total (ok none) w = (ok none, w, refl)
    follow_total (ok (some e)) w = elim (Bool-cases (is_reference_envelope G V e)) [
      | inl reference ↦ rw (follow, reference) (dereference_total (extract_reference_arid G V e) w)
      | inr plain ↦ rw (follow, plain) (ok (some e), w, refl)
    ]

    -- With a pass for each second of the timeout, rounded up, and one more in each of the two loops,
    -- `get` returns, whatever the DHT and the daemon answer.
    pub hybrid_get_total :
        IsDht D
        → Mainline.default_timeout timeout < fuel
        → (k : Arid) (w : World G V K D N)
        → (r : Result (Option Envelope) Error) × (w' : World G V K D N) × (get_impl G V K D N fuel
              kv k timeout w
            ≡ some (r, w'))
    unfolding get_impl
    hybrid_get_total W more k w =
        let (r, net, got) = mainline_get_total G K D W fuel kv.dht k timeout w.net more in
        rw (get_impl, got) (follow_total r (record w { net = net }))
