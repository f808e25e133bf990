-- ===== src/Mainline/Waiting.antt =====
-- A `get` of `MainlineDhtKv` (mainline/kv.rs) that starts before the envelope is there.
use hubert_rust.Base.{ℕ, ◌+◌, ◌≤◌, ◌<◌, ◌≡◌, Option, none, some, arith}
use hubert_rust.Base.Io.{ok}
use hubert_rust.Base.Poll.{done, again, slept, poll_waits}
use hubert_rust.Gordian.{Gordian, IsLawful}
use hubert_rust.AridDerivation.{Crypto, obfuscate_with_arid}
use hubert_rust.AridDerivation.Laws.{obfuscate_with_arid_twice}
use hubert_rust.Time.{from_secs, from_millis}
use hubert_rust.Mainline.{Dht, MainlineDhtKv, get_impl, get_pass, default_timeout}
use hubert_rust.Mainline.Network.{IsDht, item_at, left}

module _ (G : Gordian) (K : Crypto) (D : Dht) (kv : MainlineDhtKv) where
  open G use {Arid, Envelope, to_cbor_data}

  -- The network after some sleeps of the client.
  abbrev pub later : ℕ → D.Net → D.Net
  later = slept (D.sleep (from_millis 1000))

  -- While `get` sleeps, the envelope `e` comes to be found at `k`, from the time `T` on.
  pub record Arrives (k : Arid) (e : Envelope) (T : ℕ) (net : D.Net) : Type 0 where
    pub before : (n : ℕ) → D.now (later n net) < T → item_at G K D kv k (later n net) ≡ none
    pub after :
        (n : ℕ)
        → T ≤ D.now (later n net)
        → item_at G K D kv k (later n net) ≡ some (obfuscate_with_arid G K k (to_cbor_data e))

  get_pass-early :
      (k : Arid) (deadline : ℕ) (net : D.Net)
      → item_at G K D kv k net ≡ none
      → D.now net < deadline
      → get_pass G K D kv k deadline net ≡ again net
  unfolding get_pass
  get_pass-early k deadline net absent early = ground arith

  get_pass-late :
      (k : Arid) (deadline : ℕ) (e : Envelope) (net : D.Net)
      → IsLawful G
      → item_at G K D kv k net ≡ some (obfuscate_with_arid G K k (to_cbor_data e))
      → get_pass G K D kv k deadline net ≡ done (ok (some e)) net
  unfolding get_pass
  get_pass-late k deadline e net L there =
      ground (arith, obfuscate_with_arid_twice G K k (to_cbor_data e), L.cbor_round_trip e)

  -- `get` waits for the envelope: where the network comes to have it while `get` sleeps, by the
  -- timeout at the latest, `get` returns it, with a pass for each second of the timeout and one more.
  pub mainline_get_waits :
      IsLawful G
      → IsDht D
      → (fuel : ℕ) (k : Arid) (e : Envelope) (timeout : Option ℕ) (T : ℕ) (net : D.Net)
      → Arrives k e T net
      → T ≤ D.now net + from_secs (default_timeout timeout)
      → default_timeout timeout < fuel
      → (net' : D.Net) × (get_impl G K D fuel kv k timeout net ≡ some (ok (some e), net'))
  unfolding get_impl
  mainline_get_waits L W fuel k e timeout T net A soon enough =
      let deadline = D.now net + from_secs (default_timeout timeout) in
      let (m, q, _) =
        poll_waits (get_pass G K D kv k deadline) (D.sleep (from_millis 1000)) (ok (some e)) D.now T
          (left G K D deadline) net
          (λ n early. get_pass-early k deadline (later n net) (A.before n early) (omega arith))
          (λ n late. get_pass-late k deadline e (later n net) L (A.after n late))
          (λ n early. omega (arith, W.sleep_passes (from_millis 1000) (later n net))) fuel 0
          (omega arith) in
      (later m net, q)
