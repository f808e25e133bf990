-- ===== src/Memory/Expiry.antt =====
-- How long `MemoryKv` returns what was put, and what an expired entry does.
use hubert_rust.Base.{
  suc, ◌+◌, ◌*◌, ◌≡◌, refl, false, Option, none, some, arith, ltb, Bool-cases, inl, inr,
  if◌then◌else◌, beq_refl, ℕ,
}
use hubert_rust.Base.Lists.{text}
use hubert_rust.Base.Io.{ok, err}
use hubert_rust.Base.Poll.{done, poll_done}
use hubert_rust.Error.{already_exists}
use hubert_rust.Gordian.{Gordian, IsLawful}
use hubert_rust.Time.{nanos_per_sec}
use hubert_rust.Memory.{
  Memory, entry, put, evict, check_exists, probe, is_expired, get_pass, get, expired,
  default_timeout,
}
use hubert_rust.Memory.Entries.{fresh, entry-put, entry-evict}

module _ (G : Gordian) where
  open G use {Arid, arid_eq, arid_ur, Envelope, from_cbor_data, to_cbor_data}

  -- The clock reads `t`.
  abbrev pub at : ℕ → Memory G → Memory G
  at t s = record s { now = t }

  -- The first pass of `get` at an entry that decodes.
  get_pass_of_fresh :
      (k : Arid) (e : Envelope) (ttl : Option ℕ) (put_at timeout start : ℕ) (s : Memory G)
      → IsLawful G
      → entry G k s ≡ some (fresh G e ttl put_at)
      → get_pass G k timeout start s ≡ (
          if is_expired (fresh G e ttl put_at).expires_at s.now
          then done (ok none) (evict G k s)
          else done (ok (some e)) s)
  unfolding get_pass
  get_pass_of_fresh k e ttl put_at timeout start s L q = ground (arith, L.cbor_round_trip e)

  stored_by_put :
      (k : Arid) (e : Envelope) (ttl : Option ℕ) (s : Memory G) (t : ℕ)
      → entry G k s ≡ none
      → entry G k (at t (put G k e ttl s).1) ≡ some (fresh G e ttl s.now)
  stored_by_put k e ttl s t q = rw (entry-put G k k e ttl s, q, beq_refl arid_eq k) refl

  get_of_fresh :
      (sleep : ℕ → Memory G → Memory G) (fuel : ℕ) (k : Arid) (e : Envelope) (ttl : Option ℕ)
      (put_at : ℕ) (timeout : Option ℕ) (s : Memory G)
      → IsLawful G
      → entry G k s ≡ some (fresh G e ttl put_at)
      → get G sleep (suc fuel) k timeout s ≡ (
          if is_expired (fresh G e ttl put_at).expires_at s.now
          then some (ok none, evict G k s)
          else some (ok (some e), s))
  unfolding get
  get_of_fresh sleep fuel k e ttl put_at timeout s L q =
      let first = get_pass_of_fresh k e ttl put_at (default_timeout G timeout) s.now s L q in
      elim (Bool-cases (is_expired (fresh G e ttl put_at).expires_at s.now)) [
        | inl x ↦ rw x (poll_done _ _ fuel s (rw x at first))
        | inr x ↦ rw x (poll_done _ _ fuel s (rw x at first))
      ]

  -- An envelope put at a free ARID for `ttl` seconds is what `get` returns, at once and whatever
  -- its timeout, exactly while less than `ttl` seconds have passed; from then on `get` returns
  -- nothing and drops the entry.
  pub memory_get-put :
      IsLawful G
      → (sleep : ℕ → Memory G → Memory G) (fuel : ℕ) (k : Arid) (e : Envelope) (ttl : ℕ)
        (timeout : Option ℕ) (s : Memory G) (passed : ℕ)
      → entry G k s ≡ none
      → let t = at (s.now + passed) (put G k e (some ttl) s).1 in
        get G sleep (suc fuel) k timeout t ≡ (
          if ltb passed (ttl * nanos_per_sec)
          then some (ok (some e), t)
          else some (ok none, evict G k t))
  unfolding is_expired
  memory_get-put L sleep fuel k e ttl timeout s passed free =
      let t = at (s.now + passed) (put G k e (some ttl) s).1 in
      ground (
        arith,
        get_of_fresh sleep fuel k e (some ttl) s.now timeout t L
            (stored_by_put k e (some ttl) s (s.now + passed) free),
      )

  -- Without a time to live the entry never expires.
  pub get-put_forever :
      IsLawful G
      → (sleep : ℕ → Memory G → Memory G) (fuel : ℕ) (k : Arid) (e : Envelope) (timeout : Option ℕ)
        (s : Memory G) (t : ℕ)
      → entry G k s ≡ none
      → get G sleep (suc fuel) k timeout (at t (put G k e none s).1)
        ≡ some (ok (some e), at t (put G k e none s).1)
  unfolding is_expired
  get-put_forever L sleep fuel k e timeout s t free =
      get_of_fresh sleep fuel k e none s.now timeout (at t (put G k e none s).1) L
        (stored_by_put k e none s t free)

  -- While an expired entry lies in the map, `put` is refused as if the ARID were taken. Once
  -- `check_exists` has looked, and answered that the ARID does not exist, `put` is accepted.
  pub memory_put_over_expired :
      (k : Arid) (e : Envelope) (ttl : Option ℕ) (s : Memory G)
      → probe G k s ≡ expired
      → ((put G k e ttl s).0 ≡ err (already_exists (arid_ur k)))
        × ((check_exists G k s).0 ≡ ok false)
        × ((put G k e ttl (check_exists G k s).1).0 ≡ ok (text "Stored in memory"))
  unfolding put check_exists
  memory_put_over_expired k e ttl s h = ground (arith, entry-evict G k k s, arid_eq.beq_iff k k)
