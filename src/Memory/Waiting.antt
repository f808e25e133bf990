-- ===== src/Memory/Waiting.antt =====
-- A `get` of `MemoryKv` (server/memory_kv.rs) that starts before the envelope is there.
use hubert_rust.Base.{ℕ, zero, suc, ◌+◌, ◌*◌, ◌≤◌, ◌<◌, ◌≡◌, Option, none, some, arith}
use hubert_rust.Base.Io.{ok}
use hubert_rust.Base.Poll.{done, again, slept, poll_waits}
use hubert_rust.Gordian.{Gordian}
use hubert_rust.Time.{from_secs, from_millis}
use hubert_rust.Memory.{Memory, entry, get, get_pass, default_timeout}
use hubert_rust.Memory.Polling.{IsSleep, visible, left}

module _ (G : Gordian) where
  open G use {Arid, Envelope}

  -- While `get` sleeps, others see to it that `k` shows `e` from the time `T` on, and has no entry
  -- before.
  pub record Arrives (sleep : ℕ → Memory G → Memory G) (k : Arid) (e : Envelope) (T : ℕ)
      (s : Memory G) : Type 0 where
    pub before :
        (n : ℕ) → let t = slept (sleep (from_millis 500)) n s in t.now < T → entry G k t ≡ none
    pub after :
        (n : ℕ) → let t = slept (sleep (from_millis 500)) n s in T ≤ t.now → visible G k t ≡ some e

  get_pass-early :
      (k : Arid) (timeout start : ℕ) (s : Memory G)
      → entry G k s ≡ none
      → start ≤ s.now
      → s.now < start + from_secs timeout
      → get_pass G k timeout start s ≡ again s
  unfolding get_pass
  get_pass-early k timeout start s absent begun early = ground arith

  get_pass-late :
      (k : Arid) (timeout start : ℕ) (e : Envelope) (s : Memory G)
      → visible G k s ≡ some e
      → get_pass G k timeout start s ≡ done (ok (some e)) s
  unfolding get_pass
  get_pass-late k timeout start e s there = ground arith

  slept-passes :
      (sleep : ℕ → Memory G → Memory G)
      → IsSleep G sleep
      → (n : ℕ) (s : Memory G) → s.now ≤ (slept (sleep (from_millis 500)) n s).now
  slept-passes sleep L zero s = omega arith
  slept-passes sleep L (suc n) s = omega (
    arith,
    slept-passes sleep L n s,
    L.passes (from_millis 500) (slept (sleep (from_millis 500)) n s),
  )

  -- `get` waits for the envelope: where it is put while `get` sleeps, by the time `T` at the latest
  -- that the timeout allows, `get` returns it, with two passes for each second of the timeout and one
  -- more.
  pub memory_get_waits :
      (sleep : ℕ → Memory G → Memory G)
      → IsSleep G sleep
      → (fuel : ℕ) (k : Arid) (e : Envelope) (timeout : Option ℕ) (T : ℕ) (s : Memory G)
      → Arrives sleep k e T s
      → T ≤ s.now + from_secs (default_timeout G timeout)
      → 2 * default_timeout G timeout < fuel
      → (s' : Memory G) × (get G sleep fuel k timeout s ≡ some (ok (some e), s'))
  unfolding get
  memory_get_waits sleep L fuel k e timeout T s A soon enough =
      let limit = default_timeout G timeout in
      let half = sleep (from_millis 500) in
      let (m, q, _) =
        poll_waits (get_pass G k limit s.now) half (ok (some e)) (λ t. t.now) T (left G limit s.now)
          s
          (λ n early.
            get_pass-early k limit s.now (slept half n s) (A.before n early)
              (slept-passes sleep L n s) (omega arith))
          (λ n late. get_pass-late k limit s.now e (slept half n s) (A.after n late))
          (λ n early. omega (arith, L.passes (from_millis 500) (slept half n s))) fuel 0
          (omega arith) in
      (slept half m s, q)
