-- ===== src/Sqlite/WriteOnce.antt =====
-- The critical sections of `SqliteKv` as steps, in any interleaving. `put` is two of
-- them, so its insertion may run after its check is out of date.
use hubert_rust.Base.{◌^◌, ◌≤◌, ◌<◌, ◌≡◌, refl, false, Option, none, some, arith, ℕ}
use hubert_rust.Base.Int.{as_i64}
use hubert_rust.Base.Lists.{Bytes}
use hubert_rust.Base.Io.{Result, ok}
use hubert_rust.Gordian.{Gordian}
use hubert_rust.Sqlite.Statements.{Database, IsTable, Row}
use hubert_rust.Sqlite.{SqliteKv, check_exists, store_row, find_row, prune, is_due}
use hubert_rust.Sqlite.Rows.{
  row_of, row_due, check_exists-row, store_row-row, find_row-state, prune-row,
}

module _ (G : Gordian) (Q : Database) (L : IsTable Q) where
  open G use {Arid, arid_ur, Envelope}

  -- One critical section of some thread or of the cleanup task, or the passing of time. `put` is
  -- `check` and then `store`, with any steps of others between them.
  pub data Step : SqliteKv G Q → SqliteKv G Q → Type 0 where
    tick :
        (s : SqliteKv G Q) (before now instant : ℕ)
        → s.unix_time ≡ ok before
        → before ≤ now
        → now < 2 ^ 63
        → Step s (record s { unix_time = ok now; instant = instant })
    check : (s : SqliteKv G Q) (j : Arid) → Step s (check_exists G Q j s).1
    store :
        (s : SqliteKv G Q) (j : Arid) (e : Envelope) (ttl : Option ℕ)
        → Step s (store_row G Q j e ttl s).1
    look : (s : SqliteKv G Q) (j : Arid) → Step s (find_row G Q j s).1
    sweep : (s : SqliteKv G Q) → Step s (prune G Q s).1

  pub data Reach (s : SqliteKv G Q) : SqliteKv G Q → Type 0 where
    here : Reach s s
    next : {t u : SqliteKv G Q} → Reach s t → Step t u → Reach s u

  pub unix_time-check_exists :
      (j : Arid) (s : SqliteKv G Q) → (check_exists G Q j s).1.unix_time ≡ s.unix_time
  unfolding check_exists
  unix_time-check_exists j s = ground arith

  unix_time-store_row :
      (j : Arid) (e : Envelope) (ttl : Option ℕ) (s : SqliteKv G Q)
      → (store_row G Q j e ttl s).1.unix_time ≡ s.unix_time
  unfolding store_row
  unix_time-store_row j e none s = ground arith
  unix_time-store_row j e (some ttl) s = ground arith

  unix_time-prune : (s : SqliteKv G Q) → (prune G Q s).1.unix_time ≡ s.unix_time
  unfolding prune
  unix_time-prune s = ground arith

  -- What is not due now was not due before.
  row_due-before :
      (r : Row) (u : Result ℕ Bytes) (before now : ℕ)
      → u ≡ ok before
      → before ≤ now
      → now < 2 ^ 63
      → row_due G Q L (ok now) r ≡ false
      → row_due G Q L u r ≡ false
  unfolding is_due as_i64
  row_due-before (v, none) u before now e le small live = rw e refl
  row_due-before (v, some x) u before now e le small live = rw e (ground arith)

  Step-live :
      (r : Row) {s t : SqliteKv G Q}
      → Step s t
      → row_due G Q L t.unix_time r ≡ false
      → row_due G Q L s.unix_time r ≡ false
  Step-live r (tick s before now instant e le small) live =
      row_due-before r s.unix_time before now e le small live
  Step-live r (check s j) live = rw (unix_time-check_exists j s) at live
  Step-live r (store s j e ttl) live = rw (unix_time-store_row j e ttl s) at live
  Step-live r (look s j) live = rw (find_row-state G Q L (arid_ur j) r s j) at live
  Step-live r (sweep s) live = rw (unix_time-prune s) at live

  Step-stored :
      (k : Arid) (r : Row) {s t : SqliteKv G Q}
      → Step s t
      → row_of G Q L (arid_ur k) s ≡ some r
      → row_due G Q L s.unix_time r ≡ false
      → row_of G Q L (arid_ur k) t ≡ some r
  Step-stored k r (tick s before now instant e le small) h live = h
  Step-stored k r (check s j) h live = check_exists-row G Q L (arid_ur k) r s j h live
  Step-stored k r (store s j e ttl) h live = store_row-row G Q L (arid_ur k) r s j e ttl h
  Step-stored k r (look s j) h live = rw (find_row-state G Q L (arid_ur k) r s j) h
  Step-stored k r (sweep s) h live = prune-row G Q L (arid_ur k) r s h live

  Reach-live :
      (r : Row) {s t : SqliteKv G Q}
      → Reach s t
      → row_due G Q L t.unix_time r ≡ false
      → row_due G Q L s.unix_time r ≡ false
  Reach-live r here live = live
  Reach-live r (next p st) live = Reach-live r p (Step-live r st live)

  -- Whatever critical sections of `put`, `exists`, the lookup of `get` and the cleanup task are
  -- interleaved, failing statements included, a row stays exactly as it is for as long as it is not
  -- due. (The clock reads before 2^63 and does not run backwards; the deletion that a `get` makes after
  -- its lookup is not among the steps.)
  pub sqlite_Reach-stored :
      (k : Arid) (r : Row) (s t : SqliteKv G Q)
      → Reach s t
      → row_of G Q L (arid_ur k) s ≡ some r
      → row_due G Q L t.unix_time r ≡ false
      → row_of G Q L (arid_ur k) t ≡ some r
  sqlite_Reach-stored k r s t here h live = h
  sqlite_Reach-stored k r s t (next {t = m} p st) h live =
      let before = Step-live r st live in
      Step-stored k r st (sqlite_Reach-stored k r s m p h before) before
