-- ===== src/Sqlite/Waiting.antt =====
-- A `get` of `SqliteKv` (server/sqlite_kv.rs) that starts before the envelope is there.
use hubert_rust.Base.{ℕ, zero, suc, ◌+◌, ◌*◌, ◌≤◌, ◌<◌, ◌≡◌, refl, Option, some, arith}
use hubert_rust.Base.Io.{ok}
use hubert_rust.Base.Poll.{done, again, slept, poll_waits}
use hubert_rust.Gordian.{Gordian, IsLawful}
use hubert_rust.Time.{from_secs, from_millis}
use hubert_rust.Sqlite.{SqliteKv, get, get_pass, find_row, answer, missing, valid, default_timeout}
use hubert_rust.Sqlite.Statements.{Database}
use hubert_rust.Sqlite.Polling.{IsSleep, left}

module _ (G : Gordian) (Q : Database) where
  open G use {Arid, Envelope, envelope_ur}

  -- While `get` sleeps, others see to it that a pass finds `e` at `k` from the time `T` on, and no row
  -- before.
  pub record Arrives (sleep : ℕ → SqliteKv G Q → SqliteKv G Q) (k : Arid) (e : Envelope) (T : ℕ)
      (s : SqliteKv G Q) : Type 0 where
    pub before :
        (n : ℕ)
        → let t = slept (sleep (from_millis 500)) n s in
          t.instant < T → find_row G Q k t ≡ (ok missing, t)
    pub after :
        (n : ℕ)
        → let t = slept (sleep (from_millis 500)) n s in
          T ≤ t.instant → find_row G Q k t ≡ (ok (valid (envelope_ur e)), t)

  get_pass-early :
      (k : Arid) (timeout start : ℕ) (s : SqliteKv G Q)
      → find_row G Q k s ≡ (ok missing, s)
      → start ≤ s.instant
      → s.instant < start + from_secs timeout
      → get_pass G Q k timeout start s ≡ again s
  unfolding get_pass answer
  get_pass-early k timeout start s absent begun early = ground arith

  get_pass-late :
      (k : Arid) (timeout start : ℕ) (e : Envelope) (s : SqliteKv G Q)
      → IsLawful G
      → find_row G Q k s ≡ (ok (valid (envelope_ur e)), s)
      → get_pass G Q k timeout start s ≡ done (ok (some e)) s
  unfolding get_pass answer
  get_pass-late k timeout start e s L there = rw (there, L.envelope_round_trip e) refl

  slept-passes :
      (sleep : ℕ → SqliteKv G Q → SqliteKv G Q)
      → IsSleep G Q sleep
      → (n : ℕ) (s : SqliteKv G Q) → s.instant ≤ (slept (sleep (from_millis 500)) n s).instant
  slept-passes sleep L zero s = omega arith
  slept-passes sleep L (suc n) s = omega (
    arith,
    slept-passes sleep L n s,
    L.passes (from_millis 500) (slept (sleep (from_millis 500)) n s),
  )

  -- `get` waits for the envelope: where its row is put while `get` sleeps, by the timeout at the
  -- latest, `get` returns it, with two passes for each second of the timeout and one more.
  pub sqlite_get_waits :
      (sleep : ℕ → SqliteKv G Q → SqliteKv G Q)
      → IsLawful G
      → IsSleep G Q sleep
      → (fuel : ℕ) (k : Arid) (e : Envelope) (timeout : Option ℕ) (T : ℕ) (s : SqliteKv G Q)
      → Arrives sleep k e T s
      → T ≤ s.instant + from_secs (default_timeout timeout)
      → 2 * default_timeout timeout < fuel
      → (s' : SqliteKv G Q) × (get G Q sleep fuel k timeout s ≡ some (ok (some e), s'))
  unfolding get
  sqlite_get_waits sleep C L fuel k e timeout T s A soon enough =
      let limit = default_timeout timeout in
      let half = sleep (from_millis 500) in
      let (m, q, _) =
        poll_waits (get_pass G Q k limit s.instant) half (ok (some e)) (λ t. t.instant) T
          (left G Q limit s.instant) s
          (λ n early.
            get_pass-early k limit s.instant (slept half n s) (A.before n early)
              (slept-passes sleep L n s) (omega arith))
          (λ n late. get_pass-late k limit s.instant e (slept half n s) C (A.after n late))
          (λ n early. omega (arith, L.passes (from_millis 500) (slept half n s))) fuel 0
          (omega arith) in
      (slept half m s, q)
