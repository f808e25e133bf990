-- ===== src/Sqlite/Restart.antt =====
-- What is in the database after the process has ended and `SqliteKv::new` has opened it again.
use hubert_rust.Base.{
  ℕ, suc, ◌+◌, ◌^◌, ◌<◌, ◌≡◌, refl, ◌∙◌, Option, none, some, arith, ltb, if◌then◌else◌, min,
}
use hubert_rust.Base.Int.{as_i64_small}
use hubert_rust.Base.Lists.{Bytes}
use hubert_rust.Base.Io.{Result, ok, map_ok}
use hubert_rust.Text.Decimal.{max_u64}
use hubert_rust.Gordian.{Gordian, IsLawful}
use hubert_rust.Sqlite.Statements.{Database, IsTable, Row}
use hubert_rust.Sqlite.{SqliteKv, put, get, drop_row, is_due}
use hubert_rust.Sqlite.Expiry.{expires_at, put-row, get-row}
use hubert_rust.Sqlite.Open.{Files, IsDurable, create_parent_of, new}

module _ (G : Gordian) (Q : Database) (F : Files Q) (L : IsTable Q) (D : IsDurable L F) where
  open G use {Arid, arid_ur, Envelope, envelope_ur}

  -- The store that a process finds that starts when `db` has been closed at the path.
  abbrev pub reopened : Bytes → Q.Db → Result ℕ Bytes → ℕ → SqliteKv G Q
  reopened path db unix_time instant = record {
    db_path = path;
    db = (F.create_table db).1;
    unix_time = unix_time;
    instant = instant;
  }

  parent_there :
      (path : Bytes) (db : Q.Db) (disk : F.Disk) (o : Option Bytes)
      → F.parent path ≡ o
      → create_parent_of G Q F o (D.closed path db disk) ≡ (ok tt, D.closed path db disk)
  unfolding create_parent_of
  parent_there path db disk none h = refl
  parent_there path db disk (some dir) h = rw (D.create_parent path dir db disk h) refl

  new-closed :
      (path : Bytes) (db : Q.Db) (disk : F.Disk) (unix_time : Result ℕ Bytes) (instant : ℕ)
      (k : Bytes) (r : Row)
      → L.row k db ≡ some r
      → new G Q F path unix_time instant (D.closed path db disk)
        ≡ (ok (reopened path db unix_time instant), D.closed path db disk)
  unfolding new
  new-closed path db disk unix_time instant k r there =
      rw (parent_there path db disk (F.parent path) refl, D.open_closed path db disk)
        (ground (arith, D.create_table_again k r db there))

  -- An envelope whose `put` for `ttl` seconds was accepted outlives the process: if the database is
  -- closed after it and `SqliteKv::new` opens it again, `get` of the new process, if the database
  -- answers, returns the envelope exactly while less than `ttl` seconds have passed on a clock that
  -- reads less than 2^63.
  pub sqlite_get-restart :
      IsLawful G
      → (sleep : ℕ → SqliteKv G Q → SqliteKv G Q) (fuel : ℕ) (k : Arid) (e : Envelope) (ttl : ℕ)
        (timeout : Option ℕ) (s : SqliteKv G Q) (disk : F.Disk) (now passed instant : ℕ)
        (receipt : Bytes) (answered : Option Row)
      → s.unix_time ≡ ok now
      → (put G Q k e (some ttl) s).0 ≡ ok receipt
      → now + ttl < 2 ^ 63
      → now + passed < 2 ^ 63
      → let db = (put G Q k e (some ttl) s).1.db in
        Q.select_row (arid_ur k) (F.create_table db).1 ≡ ok answered
        → (t : SqliteKv G Q) × ((new G Q F s.db_path
              (ok (now + passed))
              instant
              (D.closed s.db_path db disk)).0
            ≡ ok t)
          × (get G Q sleep (suc fuel) k timeout t ≡ (
              if ltb passed ttl
              then some (ok (some e), t)
              else some (map_ok (λ _. none) (drop_row G Q k t).0, (drop_row G Q k t).1)))
  unfolding is_due
  sqlite_get-restart C sleep fuel k e ttl timeout s disk now passed instant receipt answered clock h
        small small' q =
      let db = (put G Q k e (some ttl) s).1.db in
      let t = reopened s.db_path db (ok (now + passed)) instant in
      let stored = put-row G Q L k e (some ttl) s now receipt clock h in
      let there = D.create_table-row (arid_ur k) db ∙ stored in
      let found =
        new-closed s.db_path db disk (ok (now + passed)) instant (arid_ur k)
          (envelope_ur e, expires_at G Q L (some ttl) now) stored in
      (
        t,
        rw found refl,
        ground (
          arith,
          get-row G Q L sleep fuel k e (expires_at G Q L (some ttl) now) timeout t (now + passed)
              answered C refl there q,
          as_i64_small (min (now + ttl) max_u64),
          as_i64_small (now + passed),
        ),
      )
