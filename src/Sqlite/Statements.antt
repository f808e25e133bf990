-- ===== src/Sqlite/Statements.antt =====
-- rusqlite and SQLite, as far as server/sqlite_kv.rs uses them: the table `hubert_store` with the
-- columns `arid` (its primary key), `envelope` and `expires_at`. Every statement may fail, with an
-- error given by its `Display` text.
use mathlib.Core.Option
use hubert_rust.Base.{◌≡◌, Option, none, some, List, if◌then◌else◌, bytes_beq}
use hubert_rust.Base.Int.{ℤ, leb_ℤ}
use hubert_rust.Base.Lists.{Bytes}
use hubert_rust.Base.Io.{Result, ok, err}

pub record Database : Type 1 where
  pub Db : Type 0
  -- `SELECT expires_at FROM hubert_store WHERE arid = ?1`, optional
  pub select_expires_at : Bytes → Db → Result (Option (Option ℤ)) Bytes
  -- `SELECT envelope, expires_at FROM hubert_store WHERE arid = ?1`, optional
  pub select_row : Bytes → Db → Result (Option (Bytes × Option ℤ)) Bytes
  -- `SELECT arid FROM hubert_store WHERE expires_at IS NOT NULL AND expires_at <= ?1`
  pub select_expired : ℤ → Db → Result (List Bytes) Bytes
  -- `INSERT INTO hubert_store (arid, envelope, expires_at) VALUES (?1, ?2, ?3)`
  pub insert_row : Bytes → Bytes → Option ℤ → Db → Result (Unit {0}) Bytes × Db
  -- `DELETE FROM hubert_store WHERE arid = ?1`
  pub delete_row : Bytes → Db → Result (Unit {0}) Bytes × Db
  -- `DELETE FROM hubert_store WHERE expires_at IS NOT NULL AND expires_at <= ?1`
  pub delete_expired : ℤ → Db → Result (Unit {0}) Bytes × Db

abbrev pub Row : Type 0
Row = Bytes × Option ℤ

-- The rows that `expires_at IS NOT NULL AND expires_at <= now` leaves.
abbrev pub outlives : ℤ → Option Row → Option Row
outlives now none = none
outlives now (some (envelope, none)) = some (envelope, none)
outlives now (some (envelope, some expiry)) =
    if leb_ℤ expiry now then none else some (envelope, some expiry)

-- What SQLite promises of these statements, in terms of the rows of the table.
pub record IsTable (Q : Database) : Type 0 where
  pub row : Bytes → Q.Db → Option Row
  pub select_expires_at_row :
      (k : Bytes) (d : Q.Db) (r : Option (Option ℤ))
      → Q.select_expires_at k d ≡ ok r
      → r ≡ Option.map (λ x. x.1) (row k d)
  pub select_row_row :
      (k : Bytes) (d : Q.Db) (r : Option Row) → Q.select_row k d ≡ ok r → r ≡ row k d
  -- The primary key: an insertion succeeds only where there is no row.
  pub insert_row_free :
      (k v : Bytes) (x : Option ℤ) (d : Q.Db) (u : Unit {0})
      → (Q.insert_row k v x d).0 ≡ ok u
      → row k d ≡ none
  pub insert_row_ok :
      (k v : Bytes) (x : Option ℤ) (d : Q.Db) (u : Unit {0}) (j : Bytes)
      → (Q.insert_row k v x d).0 ≡ ok u
      → row j (Q.insert_row k v x d).1 ≡ (if bytes_beq k j then some (v, x) else row j d)
  pub insert_row_err :
      (k v : Bytes) (x : Option ℤ) (d : Q.Db) (e : Bytes) (j : Bytes)
      → (Q.insert_row k v x d).0 ≡ err e
      → row j (Q.insert_row k v x d).1 ≡ row j d
  pub delete_row_ok :
      (k : Bytes) (d : Q.Db) (u : Unit {0}) (j : Bytes)
      → (Q.delete_row k d).0 ≡ ok u
      → row j (Q.delete_row k d).1 ≡ (if bytes_beq k j then none else row j d)
  pub delete_row_err :
      (k : Bytes) (d : Q.Db) (e : Bytes) (j : Bytes)
      → (Q.delete_row k d).0 ≡ err e
      → row j (Q.delete_row k d).1 ≡ row j d
  pub delete_expired_ok :
      (now : ℤ) (d : Q.Db) (u : Unit {0}) (j : Bytes)
      → (Q.delete_expired now d).0 ≡ ok u
      → row j (Q.delete_expired now d).1 ≡ outlives now (row j d)
  pub delete_expired_err :
      (now : ℤ) (d : Q.Db) (e : Bytes) (j : Bytes)
      → (Q.delete_expired now d).0 ≡ err e
      → row j (Q.delete_expired now d).1 ≡ row j d
