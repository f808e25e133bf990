-- ===== src/Ipfs/Polling.antt =====
-- How often `get` of `IpfsKv` (ipfs/kv.rs) polls.
use hubert_rust.Base.{
  ℕ, ◌+◌, ◌-◌, ◌/◌, ◌<◌, ◌≡◌, refl, Option, none, some, List, arith, inl, inr, Option-cases,
}
use hubert_rust.Base.Lists.{Bytes}
use hubert_rust.Base.Io.{Result, ok, err}
use hubert_rust.Base.Poll.{again, poll_total}
use hubert_rust.Error.{Error, ipfs, daemon_error}
use hubert_rust.Gordian.{Gordian}
use hubert_rust.Time.{from_millis, nanos_per_sec}
use hubert_rust.AridDerivation.{Crypto, derive_ipfs_key_name}
use hubert_rust.Ipfs.Kubo.{Key, Daemon}
use hubert_rust.Ipfs.Promises.{IsDaemon}
use hubert_rust.Ipfs.{
  IpfsKv, Session, find_key, get_impl, resolve_pass, resolve_with_retry_timeout, resolve_timeout_of,
  after_resolve,
}

module _ (G : Gordian) (K : Crypto) (D : Daemon) where
  open G use {Arid, Envelope}

  pub resolve_pass-again :
      (peer_id : Bytes) (deadline : ℕ) (s s' : Session G K D)
      → resolve_pass G K D peer_id deadline s ≡ again s'
      → (D.now s.node < deadline) × (s' ≡ s)
  unfolding resolve_pass
  resolve_pass-again peer_id deadline s s' h = ground arith

  -- The seconds that are left until the deadline.
  abbrev left : ℕ → Session G K D → ℕ
  left deadline s = (deadline - D.now s.node + 999_999_999) / from_millis 1000

  abbrev pub slept : Session G K D → Session G K D
  slept s = record s { node = D.sleep (from_millis 1000) s.node }

  left-falls :
      IsDaemon D
      → (peer_id : Bytes) (deadline : ℕ) (s s' : Session G K D)
      → resolve_pass G K D peer_id deadline s ≡ again s'
      → left deadline (slept s') < left deadline s
  left-falls W peer_id deadline s s' h =
      let (early, same) = resolve_pass-again peer_id deadline s s' h in
      rw same (omega (arith, W.sleep_passes (from_millis 1000) s.node))

  resolve_total :
      IsDaemon D
      → (fuel : ℕ) (peer_id : Bytes) (timeout : ℕ) (s : Session G K D)
      → (timeout + 999_999_999) / nanos_per_sec < fuel
      → (r : Result (Option Bytes) Error) × (s' : Session G K D) × (resolve_with_retry_timeout G K D
            fuel peer_id timeout s
          ≡ some (r, s'))
  unfolding resolve_with_retry_timeout
  resolve_total W fuel peer_id timeout s enough =
      poll_total _ _ (left (D.now s.node + timeout)) (left-falls W peer_id (D.now s.node + timeout))
        fuel s (omega arith)

  -- With a pass for each second of the timeout, rounded up, and one more, `get` returns, whatever
  -- the daemon answers.
  pub ipfs_get_total :
      IsDaemon D
      → (fuel : ℕ) (kv : IpfsKv) (k : Arid) (timeout : Option ℕ) (s : Session G K D)
      → (resolve_timeout_of G K D kv timeout + 999_999_999) / nanos_per_sec < fuel
      → (r : Result (Option Envelope) Error) × (s' : Session G K D) × (get_impl G K D fuel kv k
            timeout s
          ≡ some (r, s'))
  unfolding get_impl
  ipfs_get_total W fuel kv k timeout s enough = listed (D.key_list s.node) refl
    where
      listed :
          (l : Result (List Key) Bytes)
          → D.key_list s.node ≡ l
          → (r : Result (Option Envelope) Error) × (s' : Session G K D) × (get_impl G K D fuel kv k
                timeout s
              ≡ some (r, s'))
      listed (err m) q = (err (ipfs (daemon_error m)), s, rw (get_impl, q) refl)
      listed (ok keys) q = elim (Option-cases (find_key (derive_ipfs_key_name G K k) keys)) [
        | inl absent ↦ (ok none, s, rw (get_impl, q, absent) refl)
        | inr (key, there) ↦
            let (r, s', resolved) =
              resolve_total W fuel key.id (resolve_timeout_of G K D kv timeout) s enough in
            let answer = after_resolve G K D k (r, s') in
            (answer.0, answer.1, rw (get_impl, q, there, resolved) refl)
      ]
