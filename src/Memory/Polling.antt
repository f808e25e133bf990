-- ===== src/Memory/Polling.antt =====
-- How often `get` of `MemoryKv` (server/memory_kv.rs) polls.
use hubert_rust.Base.{
  ◌+◌, ◌-◌, ◌*◌, ◌/◌, ◌≤◌, ◌<◌, ◌≡◌, Option, none, some, arith, ℕ, suc, if◌then◌else◌,
}
use hubert_rust.Base.Io.{Result, ok}
use hubert_rust.Base.Poll.{done, again, poll_total, poll_done}
use hubert_rust.Error.{Error}
use hubert_rust.Gordian.{Gordian}
use hubert_rust.Time.{from_millis, from_secs}
use hubert_rust.Memory.{Memory, get_pass, get, default_timeout, is_expired, entry, decode}
use hubert_rust.Memory.Entries.{swept}

module _ (G : Gordian) where
  open G use {Arid, Envelope}

  -- A sleep takes at least the time that was asked for.
  pub record IsSleep (sleep : ℕ → Memory G → Memory G) : Type 0 where
    pub passes : (nanos : ℕ) (s : Memory G) → s.now + nanos ≤ (sleep nanos s).now

  -- A pass that goes on has not reached the timeout, and has not touched the map.
  pub get_pass-again :
      (k : Arid) (timeout start : ℕ) (s s' : Memory G)
      → get_pass G k timeout start s ≡ again s'
      → (s.now - start < from_secs timeout) × (s' ≡ s)
  unfolding get_pass
  get_pass-again k timeout start s s' h = ground arith

  -- The half seconds that are left until the timeout.
  abbrev pub left : ℕ → ℕ → Memory G → ℕ
  left timeout start s = (start + from_secs timeout - s.now + 499_999_999) / from_millis 500

  left-falls :
      (sleep : ℕ → Memory G → Memory G)
      → IsSleep sleep
      → (k : Arid) (timeout start : ℕ) (s s' : Memory G) → get_pass G k timeout start s ≡ again s'
      → left timeout start (sleep (from_millis 500) s') < left timeout start s
  left-falls sleep L k timeout start s s' h =
      let (early, same) = get_pass-again k timeout start s s' h in
      rw same (omega (arith, L.passes (from_millis 500) s))

  -- With two passes for each second of the timeout and one more, `get` returns.
  pub memory_get_total :
      (sleep : ℕ → Memory G → Memory G)
      → IsSleep sleep
      → (fuel : ℕ) (k : Arid) (timeout : Option ℕ) (s : Memory G)
      → 2 * default_timeout G timeout < fuel
      → (r : Result (Option Envelope) Error) × (s' : Memory G) × (get G sleep fuel k timeout s
          ≡ some (r, s'))
  unfolding get
  memory_get_total sleep L fuel k timeout s enough =
      poll_total _ _ (left (default_timeout G timeout) s.now)
        (left-falls sleep L k (default_timeout G timeout) s.now) fuel s (omega arith)

  -- The envelope that `k` shows: what its entry decodes to, unless it has expired.
  abbrev pub visible : Arid → Memory G → Option Envelope
  visible k s = elim (entry G k s) [
    | none ↦ none
    | some e ↦ if is_expired e.expires_at s.now then none else decode G e.envelope_cbor
  ]

  get_pass_now :
      (k : Arid) (s : Memory G) → get_pass G k 0 s.now s ≡ done (ok (visible k s)) (swept G k s)
  unfolding get_pass
  get_pass_now k s = ground arith

  -- With a timeout of 0 `get` never sleeps: it returns what the ARID shows, and drops its entry if
  -- that has expired.
  pub get_now :
      (sleep : ℕ → Memory G → Memory G) (fuel : ℕ) (k : Arid) (s : Memory G)
      → get G sleep (suc fuel) k (some 0) s ≡ some (ok (visible k s), swept G k s)
  unfolding get
  get_now sleep fuel k s = poll_done _ _ fuel s (get_pass_now k s)
