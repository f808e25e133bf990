-- ===== src/Sqlite.antt =====
-- server/sqlite_kv.rs: `SqliteKv`. The database is a parameter, one operation for each statement
-- that the code executes; the clocks are fields of the state and stand still between two sleeps.
-- Each critical section under the connection's lock is a definition of its own. What `verbose`
-- prints is left out.
pub mod Statements
pub mod Rows
pub mod WriteOnce
pub mod Expiry
pub mod Race
pub mod Waiting
pub mod Conflicts
pub mod Polling
pub mod Open
pub mod Restart
use mathlib.Core.Option
use hubert_rust.Base.{
  ℕ, ◌+◌, ◌-◌, Bool, true, false, Option, none, some, List, [], ◌∷◌, ◌++◌, min, leb, ◌==◌,
  if◌then◌else◌,
}
use hubert_rust.Base.Int.{ℤ, leb_ℤ, as_i64}
use hubert_rust.Base.Lists.{Bytes, text, length}
use hubert_rust.Base.Io.{Result, ok, err, map_err, map_ok, Io, pure, fail, lift, ◌>>=◌, ◌>>◌}
use hubert_rust.Base.Poll.{Pass, done, again, poll}
use hubert_rust.Text.Decimal.{max_u64, decimal}
use hubert_rust.Error.{Error, StoreError, already_exists, server, sqlite, system_time_error}
use hubert_rust.Gordian.{Gordian}
use hubert_rust.Time.{from_millis, as_secs}
use hubert_rust.Sqlite.Statements.{Database}

-- `now >= expiry`, where there is an expiry
unfoldable pub is_due : Option ℤ → ℤ → Bool
is_due none now = false
is_due (some expiry) now = leb_ℤ expiry now

-- `timeout_seconds.unwrap_or(30)`
abbrev pub default_timeout : Option ℕ → ℕ
default_timeout none = 30
default_timeout (some seconds) = seconds

-- `arids.join(" ")`
join : List Bytes → Bytes
join [] = []
join (a ∷ []) = a
join (a ∷ b ∷ l) = a ++ (text " " ++ join (b ∷ l))

module _ (G : Gordian) (Q : Database) where
  open G use {Arid, arid_ur, Envelope, envelope_ur, envelope_from_ur, ur_error}
  open Q use {
    Db, select_expires_at, select_row, select_expired, insert_row, delete_row, delete_expired,
  }

  -- The store beside what it reads: `SystemTime::now().duration_since(UNIX_EPOCH)` in seconds, which
  -- fails before 1970, and `Instant::now()` in nanoseconds.
  pub record SqliteKv : Type 0 where
    pub db_path : Bytes
    pub db : Db
    pub unix_time : Result ℕ Bytes
    pub instant : ℕ

  unix_now : Io SqliteKv Error ℤ
  unix_now s = (map_err (λ e. server (system_time_error e)) (map_ok as_i64 s.unix_time), s)

  query : {A : Type 0} → (Db → Result A Bytes) → Io SqliteKv Error A
  query q s = (map_err (λ e. server (sqlite e)) (q s.db), s)

  execute : (Db → Result (Unit {0}) Bytes × Db) → Io SqliteKv Error (Unit {0})
  execute statement s =
      let (r, db') = statement s.db in (map_err (λ e. server (sqlite e)) r, record s { db = db' })

  unfoldable pub check_exists : Arid → Io SqliteKv Error Bool
  unfolding unix_now query execute is_due
  check_exists arid = do
    now ← unix_now
    row ← query (select_expires_at (arid_ur arid))
    elim row [
      | some expires_at ↦
          if is_due expires_at now
          then (do execute (delete_row (arid_ur arid)); pure false)
          else pure true
      | none ↦ pure false
    ]

  -- `as_secs().saturating_add(ttl) as i64`. The `unwrap` before it cannot fail in `put`, which has
  -- read the clock already.
  expiry : Option ℕ → Io SqliteKv Error (Option ℤ)
  expiry none s = (ok none, s)
  expiry (some ttl) s = (
    map_err (λ e. server (system_time_error e))
        (map_ok (λ now. some (as_i64 (min (now + ttl) max_u64))) s.unix_time),
    s,
  )

  -- The second critical section of `put`.
  unfoldable pub store_row : Arid → Envelope → Option ℕ → Io SqliteKv Error Bytes
  unfolding expiry execute
  store_row arid envelope ttl_seconds = do
    expires_at ← expiry ttl_seconds
    execute (insert_row (arid_ur arid) (envelope_ur envelope) expires_at)
    λ s. (ok (text "Stored in SQLite: " ++ s.db_path), s)

  unfoldable pub put : Arid → Envelope → Option ℕ → Io SqliteKv Error Bytes
  put arid envelope ttl_seconds = do
    taken ← check_exists arid
    if taken then fail (already_exists (arid_ur arid)) else store_row arid envelope ttl_seconds

  -- What one pass of `get` finds under the lock.
  pub data Found : Type 0 where
    valid : Bytes → Found
    expired : Found
    missing : Found

  unfoldable pub find_row : Arid → Io SqliteKv Error Found
  unfolding unix_now query is_due
  find_row arid = do
    now ← unix_now
    row ← query (select_row (arid_ur arid))
    elim row [
      | none ↦ pure missing
      | some (envelope_str, expires_at) ↦
          if is_due expires_at now then pure expired else pure (valid envelope_str)
    ]

  -- The critical section in which `get` removes what it found expired.
  unfoldable pub drop_row : Arid → Io SqliteKv Error (Unit {0})
  unfolding execute
  drop_row arid = execute (delete_row (arid_ur arid))

  abbrev Answer : Type 0
  Answer = Result (Option Envelope) Error

  abbrev ended :
      {A : Type 0} → (A → Option Envelope) → Result A Error × SqliteKv → Pass SqliteKv Answer
  ended f (r, s) = done (map_ok f r) s

  unfoldable pub answer : Arid → ℕ → ℕ → Result Found Error → SqliteKv → Pass SqliteKv Answer
  unfolding drop_row
  answer arid timeout start (err e) s = done (err e) s
  answer arid timeout start (ok (valid str)) s =
      done (map_err ur_error (map_ok some (envelope_from_ur str))) s
  answer arid timeout start (ok expired) s = ended (λ _. none) (drop_row arid s)
  answer arid timeout start (ok missing) s =
      if leb timeout (as_secs (s.instant - start)) then done (ok none) s else again s

  unfoldable pub get_pass : Arid → ℕ → ℕ → SqliteKv → Pass SqliteKv Answer
  get_pass arid timeout start s = let (r, s') = find_row arid s in answer arid timeout start r s'

  unfoldable pub get :
      (ℕ → SqliteKv → SqliteKv) → ℕ → Arid → Option ℕ → SqliteKv → Option (Answer × SqliteKv)
  get sleep fuel arid timeout_seconds s =
      poll (get_pass arid (default_timeout timeout_seconds) s.instant) (sleep (from_millis 500))
        fuel s

  abbrev pub exists : Arid → Io SqliteKv Error Bool
  exists = check_exists

  -- `unwrap_or_default` of the select
  listed : Result (List Bytes) Bytes → List Bytes
  listed (ok arids) = arids
  listed (err _) = []

  pruned_message : List Bytes → Bytes
  pruned_message arids =
      text "Pruned "
      ++ (decimal (length arids)
          ++ (text " expired "
              ++ ((if length arids == 1 then text "entry" else text "entries")
                  ++ (text ": " ++ join arids))))

  -- One round of the cleanup task, at a clock that reads `now`, with the line that it prints.
  prune_at : ℤ → SqliteKv → Option Bytes × SqliteKv
  unfolding listed pruned_message join
  prune_at now s = elim (listed (select_expired now s.db)) [
    | [] ↦ (none, s)
    | arid ∷ arids ↦
        let (r, db') = delete_expired now s.db in
        (
          elim r [ ok _ ↦ some (pruned_message (arid ∷ arids)) | err _ ↦ none ],
          record s { db = db' },
        )
  ]

  -- The body of the loop of `start_cleanup_task` after its sleep. Its `unwrap` ends the task when
  -- the clock cannot be read.
  unfoldable pub prune : SqliteKv → Option Bytes × SqliteKv
  unfolding prune_at
  prune s = elim s.unix_time [ ok now ↦ prune_at (as_i64 now) s | err _ ↦ (none, s) ]
