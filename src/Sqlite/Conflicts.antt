-- ===== src/Sqlite/Conflicts.antt =====
-- When `put` of `SqliteKv` is refused with `AlreadyExists`.
use hubert_rust.Base.{◌≡◌, ◌≢◌, refl, Option, none, some, arith, ℕ, true, false}
use hubert_rust.Base.Int.{ℤ, as_i64}
use hubert_rust.Base.Lists.{Bytes}
use hubert_rust.Base.Io.{ok, err}
use hubert_rust.Error.{already_exists}
use hubert_rust.Gordian.{Gordian}
use hubert_rust.Sqlite.Statements.{Database, IsTable, Row}
use hubert_rust.Sqlite.{SqliteKv, check_exists, store_row, put, is_due}
use hubert_rust.Sqlite.Rows.{row_of, select_expires_at_cases}

module _ (G : Gordian) (Q : Database) (L : IsTable Q) where
  open G use {Arid, arid_ur, Envelope, envelope_ur}

  check_exists_live :
      (k : Arid) (s : SqliteKv G Q) (r : Row) (now : ℕ) (answered : Option (Option ℤ))
      → s.unix_time ≡ ok now
      → row_of G Q L (arid_ur k) s ≡ some r
      → is_due r.1 (as_i64 now) ≡ false
      → Q.select_expires_at (arid_ur k) s.db ≡ ok answered
      → check_exists G Q k s ≡ (ok true, s)
  unfolding check_exists
  check_exists_live k s r now answered clock h live q =
      ground (arith, select_expires_at_cases G Q L (arid_ur k) s.db)

  -- While a row has not expired, `put` at its ARID is refused and changes nothing, if the database
  -- answers.
  pub sqlite_put_refused :
      (k : Arid) (e : Envelope) (ttl : Option ℕ) (s : SqliteKv G Q) (r : Row) (now : ℕ)
      (answered : Option (Option ℤ))
      → s.unix_time ≡ ok now
      → row_of G Q L (arid_ur k) s ≡ some r
      → is_due r.1 (as_i64 now) ≡ false
      → Q.select_expires_at (arid_ur k) s.db ≡ ok answered
      → put G Q k e ttl s ≡ (err (already_exists (arid_ur k)), s)
  unfolding put
  sqlite_put_refused k e ttl s r now answered clock h live q =
      rw (check_exists_live k s r now answered clock h live q) refl

  check_exists_due :
      (k : Arid) (s : SqliteKv G Q) (r : Row) (now : ℕ)
      → s.unix_time ≡ ok now
      → row_of G Q L (arid_ur k) s ≡ some r
      → is_due r.1 (as_i64 now) ≡ true
      → (check_exists G Q k s).0 ≢ ok true
  unfolding check_exists
  check_exists_due k s r now clock h due =
      ground (arith, select_expires_at_cases G Q L (arid_ur k) s.db)

  check_exists_error :
      (k : Arid) (s : SqliteKv G Q) (name : Bytes)
      → (check_exists G Q k s).0 ≢ err (already_exists name)
  unfolding check_exists
  check_exists_error k s name = ground arith

  store_row_error :
      (k : Arid) (e : Envelope) (ttl : Option ℕ) (s : SqliteKv G Q) (name : Bytes)
      → (store_row G Q k e ttl s).0 ≢ err (already_exists name)
  unfolding store_row
  store_row_error k e none s name = ground arith
  store_row_error k e (some ttl) s name = ground arith

  -- An expired row never makes `put` answer `AlreadyExists`.
  pub sqlite_put_over_expired :
      (k : Arid) (e : Envelope) (ttl : Option ℕ) (s : SqliteKv G Q) (r : Row) (now : ℕ)
      (name : Bytes)
      → s.unix_time ≡ ok now
      → row_of G Q L (arid_ur k) s ≡ some r
      → is_due r.1 (as_i64 now) ≡ true
      → (put G Q k e ttl s).0 ≢ err (already_exists name)
  unfolding put
  sqlite_put_over_expired k e ttl s r now name clock h due = ground (
    arith,
    check_exists_due k s r now clock h due,
    check_exists_error k s name,
    store_row_error k e ttl (check_exists G Q k s).1 name,
  )
