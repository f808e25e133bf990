-- ===== src/Sqlite/Race.antt =====
-- `get` of `SqliteKv` looks a row up under the lock and removes an expired one under the lock anew.
-- Between the two the row may have been replaced.
use hubert_rust.Base.{◌≡◌, refl, Option, none, some, arith, ℕ, bytes_eq, beq_refl}
use hubert_rust.Base.Lists.{Bytes}
use hubert_rust.Base.Io.{Result, ok, err}
use hubert_rust.Base.Poll.{done}
use hubert_rust.Gordian.{Gordian}
use hubert_rust.Sqlite.Statements.{Database, IsTable}
use hubert_rust.Sqlite.{SqliteKv, put, find_row, drop_row, answer, expired}
use hubert_rust.Sqlite.Rows.{row_of}
use hubert_rust.Sqlite.Expiry.{expires_at, put-row}

module _ (G : Gordian) (Q : Database) (L : IsTable Q) where
  open G use {Arid, arid_ur, Envelope, envelope_ur}

  row-drop_row :
      (k : Arid) (s : SqliteKv G Q)
      → (drop_row G Q k s).0 ≡ ok tt
      → row_of G Q L (arid_ur k) (drop_row G Q k s).1 ≡ none
  unfolding drop_row
  row-drop_row k s h = go (Q.delete_row (arid_ur k) s.db).0 refl
    where
      go :
          (r : Result (Unit {0}) Bytes)
          → (Q.delete_row (arid_ur k) s.db).0 ≡ r
          → L.row (arid_ur k) (Q.delete_row (arid_ur k) s.db).1 ≡ none
      go (ok u) e =
          ground
            (arith, L.delete_row_ok (arid_ur k) s.db u (arid_ur k) e, beq_refl bytes_eq (arid_ur k))
      go (err m) e = ground arith

  -- A thread in `get` finds the row of `k` expired. Before it goes on, another thread's `put` of
  -- `e` at `k` is accepted, and then its deletion succeeds. The first thread answers that there is
  -- nothing, and the row that the accepted `put` left, whatever its time to live, is gone.
  pub drop_row_loses_put :
      (k : Arid) (e : Envelope) (ttl : Option ℕ) (timeout start : ℕ) (s : SqliteKv G Q) (now : ℕ)
      (receipt : Bytes)
      → s.unix_time ≡ ok now
      → (find_row G Q k s).0 ≡ ok expired
      → (put G Q k e ttl s).0 ≡ ok receipt
      → (drop_row G Q k (put G Q k e ttl s).1).0 ≡ ok tt
      → let s' = (put G Q k e ttl s).1 in
        (row_of G Q L (arid_ur k) s' ≡ some (envelope_ur e, expires_at G Q L ttl now))
        × (answer G Q k timeout start (find_row G Q k s).0 s'
            ≡ done (ok none) (drop_row G Q k s').1)
        × (row_of G Q L (arid_ur k) (drop_row G Q k s').1 ≡ none)
  unfolding answer
  drop_row_loses_put k e ttl timeout start s now receipt clock found accepted dropped = (
    put-row G Q L k e ttl s now receipt clock accepted,
    rw found (rw dropped refl),
    row-drop_row k (put G Q k e ttl s).1 dropped,
  )
