-- ===== src/Examples/SqliteExamples.antt =====
-- A table in memory, and the theorems on `SqliteKv` at it.
use mathlib.Core.Option
use hubert_rust.Base.{
  ℕ, suc, ◌+◌, ◌*◌, ◌^◌, ◌≡◌, ◌≢◌, refl, ◌∙◌, sym, ap, Bool, false, true, Option, none, some, List,
  [], ◌∷◌, ◌++◌, arith, if◌then◌else◌, ltb, bytes_beq, bytes_eq, beq_refl,
}
use hubert_rust.Base.Int.{ℤ, pos, negsuc}
use hubert_rust.Base.Lists.{Bytes, text}
use hubert_rust.Base.Io.{Result, ok, err, map_ok}
use hubert_rust.Base.Poll.{done}
use hubert_rust.Error.{Error, already_exists}
use hubert_rust.Sqlite.Statements.{Database, IsTable, Row, outlives}
use hubert_rust.Sqlite.{SqliteKv, check_exists, put, find_row, store_row, drop_row, answer, get}
use hubert_rust.Sqlite.Rows.{row_of}
use hubert_rust.Sqlite.WriteOnce.{Reach, Step, sqlite_Reach-stored}
use hubert_rust.Sqlite.Expiry.{at, expires_at, sqlite_get-put, get-put_huge_ttl}
use hubert_rust.Sqlite.Race.{drop_row_loses_put}
use hubert_rust.Sqlite.Conflicts.{sqlite_put_refused, sqlite_put_over_expired}
use hubert_rust.Sqlite.Polling.{IsSleep, sqlite_get_total}
use hubert_rust.Examples.Toys.{Tree, hello, toy, toy-IsLawful}

pub record Table : Type 0 where
  pub keys : List Bytes
  pub rows : Bytes → Option Row

abbrev expired_keys : ℤ → List Bytes → (Bytes → Option Row) → List Bytes
expired_keys now [] rows = []
expired_keys now (k ∷ keys) rows =
    let rest = expired_keys now keys rows in
    elim (rows k) [
      | none ↦ rest
      | some r ↦ elim (outlives now (some r)) [ none ↦ k ∷ rest | some _ ↦ rest ]
    ]

abbrev pub inserted :
    Bytes → Bytes → Option ℤ → Table → Option Row → Result (Unit {0}) Bytes × Table
inserted k v x d (some _) = (err (text "UNIQUE constraint failed"), d)
inserted k v x d none = (
  ok tt,
  record { keys = k ∷ d.keys; rows = λ j. if bytes_beq k j then some (v, x) else d.rows j },
)

abbrev pub tables : Database
tables = record {
  Db = Table;
  select_expires_at = λ k d. ok (Option.map (λ x. x.1) (d.rows k));
  select_row = λ k d. ok (d.rows k);
  select_expired = λ now d. ok (expired_keys now d.keys d.rows);
  insert_row = λ k v x d. inserted k v x d (d.rows k);
  delete_row = λ k d. (ok tt, record d { rows = λ j. if bytes_beq k j then none else d.rows j });
  delete_expired = λ now d. (ok tt, record d { rows = λ j. outlives now (d.rows j) });
}

pub inserted-free :
    (k v : Bytes) (x : Option ℤ) (d : Table) (o : Option Row) (u : Unit {0})
    → (inserted k v x d o).0 ≡ ok u
    → o ≡ none
inserted-free k v x d none u h = refl
inserted-free k v x d (some r) u h = cc

pub inserted-ok :
    (k v : Bytes) (x : Option ℤ) (d : Table) (o : Option Row) (u : Unit {0}) (j : Bytes)
    → (inserted k v x d o).0 ≡ ok u
    → (inserted k v x d o).1.rows j ≡ (if bytes_beq k j then some (v, x) else d.rows j)
inserted-ok k v x d none u j h = refl
inserted-ok k v x d (some r) u j h = cc

pub inserted-err :
    (k v : Bytes) (x : Option ℤ) (d : Table) (o : Option Row) (e j : Bytes)
    → (inserted k v x d o).0 ≡ err e
    → (inserted k v x d o).1.rows j ≡ d.rows j
inserted-err k v x d none e j h = cc
inserted-err k v x d (some r) e j h = refl

pub ok-same : {A : Type 0} (a b : A) → ◌≡◌ {A = Result A Bytes} (ok a) (ok b) → b ≡ a
ok-same a b h = cc

abbrev pub tables-IsTable : IsTable tables
tables-IsTable = record {
  row = λ k d. d.rows k;
  select_expires_at_row = λ k d r h. ok-same (Option.map (λ x. x.1) (d.rows k)) r h;
  select_row_row = λ k d r h. ok-same (d.rows k) r h;
  insert_row_free = λ k v x d u h. inserted-free k v x d (d.rows k) u h;
  insert_row_ok = λ k v x d u j h. inserted-ok k v x d (d.rows k) u j h;
  insert_row_err = λ k v x d e j h. inserted-err k v x d (d.rows k) e j h;
  delete_row_ok = λ k d u j h. refl;
  delete_row_err = λ k d e j h. cc;
  delete_expired_ok = λ now d u j h. refl;
  delete_expired_err = λ now d e j h. cc;
}

abbrev empty : SqliteKv toy tables
empty = record {
  db_path = text "hubert.db";
  db = record { keys = []; rows = λ _. none };
  unix_time = ok 1000;
  instant = 0;
}

abbrev store : SqliteKv toy tables
store = (put toy tables 3 hello (some 2) empty).1

abbrev sleep : ℕ → SqliteKv toy tables → SqliteKv toy tables
sleep nanos s = record s { instant = s.instant + nanos }

sleep-IsSleep : IsSleep toy tables sleep
sleep-IsSleep = record { passes = λ nanos s. omega arith }

abbrev receipt : Bytes
receipt = text "Stored in SQLite: hubert.db"

sqlite_get-put_example :
    let t = at toy tables tables-IsTable (1000 + 1) (put toy tables 3 hello (some 2) empty).1 in
    get toy tables sleep 1 3 none t ≡ (
      if ltb 1 2
      then some (ok (some hello), t)
      else some (map_ok (λ _. none) (drop_row toy tables 3 t).0, (drop_row toy tables 3 t).1))
unfolding put check_exists store_row hubert_rust.Base.Int.as_i64
sqlite_get-put_example =
    sqlite_get-put toy tables tables-IsTable toy-IsLawful sleep 0 3 hello 2 none empty 1000 1
      receipt (some (toy.envelope_ur hello, some (pos 1002))) refl refl (omega arith) (omega arith)
      refl

get-put_huge_ttl_example :
    let t =
      at toy tables tables-IsTable (1000 + 1) (put toy tables 3 hello (some (2 ^ 63)) empty).1 in
    ((below : ℕ) × (row_of toy tables tables-IsTable
          (toy.arid_ur 3)
          (put toy tables 3 hello (some (2 ^ 63)) empty).1
        ≡ some (toy.envelope_ur hello, some (negsuc below))))
    × (get toy tables sleep 1 3 none t
        ≡ some (map_ok (λ _. none) (drop_row toy tables 3 t).0, (drop_row toy tables 3 t).1))
unfolding put check_exists store_row
get-put_huge_ttl_example =
    get-put_huge_ttl toy tables tables-IsTable toy-IsLawful sleep 0 3 hello (2 ^ 63) none empty 1000
      1 receipt ((put toy tables 3 hello (some (2 ^ 63)) empty).1.db.rows (toy.arid_ur 3)) refl refl
      (omega arith) (omega arith) refl

sqlite_put_refused_example :
    put toy tables 3 Tree.unit none store ≡ (err (already_exists (toy.arid_ur 3)), store)
unfolding put check_exists store_row hubert_rust.Base.Int.as_i64
sqlite_put_refused_example =
    sqlite_put_refused toy tables tables-IsTable 3 Tree.unit none store
      (toy.envelope_ur hello, some (pos 1002)) 1000 (some (some (pos 1002))) refl refl refl refl

abbrev stale : SqliteKv toy tables
stale = record store { unix_time = ok 1005 }

sqlite_put_over_expired_example :
    (put toy tables 3 hello none stale).0 ≢ err (already_exists (toy.arid_ur 3))
unfolding put check_exists store_row hubert_rust.Base.Int.as_i64
sqlite_put_over_expired_example =
    sqlite_put_over_expired toy tables tables-IsTable 3 hello none stale
      (toy.envelope_ur hello, some (pos 1002)) 1005 (toy.arid_ur 3) refl refl refl

sqlite_Reach-stored_example :
    row_of toy tables tables-IsTable (toy.arid_ur 3) (store_row toy tables 3 Tree.unit none store).1
    ≡ some (toy.envelope_ur hello, some (pos 1002))
unfolding put check_exists store_row hubert_rust.Base.Int.as_i64
sqlite_Reach-stored_example =
    sqlite_Reach-stored toy tables tables-IsTable 3 (toy.envelope_ur hello, some (pos 1002)) store
      (store_row toy tables 3 Tree.unit none store).1
      (Reach.next Reach.here (Step.store store 3 Tree.unit none)) refl refl

sqlite_get_total_example :
    (r : Result (Option Tree) Error) × (s : SqliteKv toy tables) × (get toy tables sleep 61 4 none
        store
      ≡ some (r, s))
sqlite_get_total_example =
    sqlite_get_total toy tables sleep sleep-IsSleep 61 4 none store (omega arith)

drop_row_loses_put_example :
    let s' = (put toy tables 3 hello none stale).1 in
    (row_of toy tables tables-IsTable (toy.arid_ur 3) s'
      ≡ some (toy.envelope_ur hello, expires_at toy tables tables-IsTable none 1005))
    × (answer toy tables 3 30 0 (find_row toy tables 3 stale).0 s'
        ≡ done (ok none) (drop_row toy tables 3 s').1)
    × (row_of toy tables tables-IsTable (toy.arid_ur 3) (drop_row toy tables 3 s').1 ≡ none)
unfolding find_row put check_exists store_row hubert_rust.Base.Int.as_i64 drop_row
drop_row_loses_put_example =
    drop_row_loses_put toy tables tables-IsTable 3 hello none 30 0 stale 1005 receipt refl refl refl
      refl
