-- ===== src/Sqlite/Polling.antt =====
-- How often `get` of `SqliteKv` (server/sqlite_kv.rs) polls.
use hubert_rust.Base.{◌+◌, ◌-◌, ◌*◌, ◌/◌, ◌≤◌, ◌<◌, ◌≡◌, Option, some, arith, ℕ}
use hubert_rust.Base.Io.{Result}
use hubert_rust.Base.Poll.{again, poll_total}
use hubert_rust.Error.{Error}
use hubert_rust.Gordian.{Gordian}
use hubert_rust.Time.{from_millis, from_secs}
use hubert_rust.Sqlite.Statements.{Database}
use hubert_rust.Sqlite.{SqliteKv, get_pass, get, find_row, answer, default_timeout}

module _ (G : Gordian) (Q : Database) where
  open G use {Arid, Envelope}

  -- A sleep takes at least the time that was asked for.
  pub record IsSleep (sleep : ℕ → SqliteKv G Q → SqliteKv G Q) : Type 0 where
    pub passes : (nanos : ℕ) (s : SqliteKv G Q) → s.instant + nanos ≤ (sleep nanos s).instant

  -- A pass that goes on has not reached the timeout, and has not changed the store.
  pub get_pass-again :
      (k : Arid) (timeout start : ℕ) (s s' : SqliteKv G Q)
      → get_pass G Q k timeout start s ≡ again s'
      → (s.instant - start < from_secs timeout) × (s' ≡ s)
  unfolding get_pass answer find_row
  get_pass-again k timeout start s s' h = ground arith

  -- The half seconds that are left until the timeout.
  abbrev pub left : ℕ → ℕ → SqliteKv G Q → ℕ
  left timeout start s = (start + from_secs timeout - s.instant + 499_999_999) / from_millis 500

  left-falls :
      (sleep : ℕ → SqliteKv G Q → SqliteKv G Q)
      → IsSleep sleep
      → (k : Arid) (timeout start : ℕ) (s s' : SqliteKv G Q)
      → get_pass G Q k timeout start s ≡ again s'
      → left timeout start (sleep (from_millis 500) s') < left timeout start s
  left-falls sleep W k timeout start s s' h =
      let (early, same) = get_pass-again k timeout start s s' h in
      rw same (omega (arith, W.passes (from_millis 500) s))

  -- With two passes for each second of the timeout and one more, `get` returns.
  pub sqlite_get_total :
      (sleep : ℕ → SqliteKv G Q → SqliteKv G Q)
      → IsSleep sleep
      → (fuel : ℕ) (k : Arid) (timeout : Option ℕ) (s : SqliteKv G Q)
      → 2 * default_timeout timeout < fuel
      → (r : Result (Option Envelope) Error) × (s' : SqliteKv G Q) × (get G Q sleep fuel k timeout s
          ≡ some (r, s'))
  unfolding get
  sqlite_get_total sleep W fuel k timeout s enough =
      poll_total _ _ (left (default_timeout timeout) s.instant)
        (left-falls sleep W k (default_timeout timeout) s.instant) fuel s (omega arith)
