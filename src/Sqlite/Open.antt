-- ===== src/Sqlite/Open.antt =====
-- `SqliteKv::new` of server/sqlite_kv.rs over the file system and `Connection::open`, which are
-- parameters. The cleanup task that it starts is `prune`.
use hubert_rust.Base.{ℕ, ◌≡◌, Bool, Option, none, some}
use hubert_rust.Base.Lists.{Bytes}
use hubert_rust.Base.Io.{Result, ok, err, map_err, Io, pure, lift, ◌>>=◌, ◌>>◌}
use hubert_rust.Error.{Error, StoreError, server, sqlite}
use hubert_rust.Gordian.{Gordian}
use hubert_rust.Sqlite.{SqliteKv}
use hubert_rust.Sqlite.Statements.{Database, IsTable, Row}

pub record Files (Q : Database) : Type 1 where
  pub Disk : Type 0
  -- `Path::parent`, `Path::is_dir` and `Path::join`
  pub parent : Bytes → Option Bytes
  pub is_dir : Bytes → Disk → Bool
  pub join : Bytes → Bytes → Bytes
  pub create_dir_all : Bytes → Disk → Result (Unit {0}) Bytes × Disk
  -- `Connection::open`
  pub open_connection : Bytes → Disk → Result Q.Db Bytes × Disk
  -- `CREATE TABLE IF NOT EXISTS hubert_store` and `CREATE INDEX IF NOT EXISTS idx_expires_at`
  pub create_table : Q.Db → Result (Unit {0}) Bytes × Q.Db

-- A file that a process has closed is read back as it was written; a table that has a row is there,
-- and `IF NOT EXISTS` leaves it alone.
pub record IsDurable {Q : Database} (L : IsTable Q) (F : Files Q) : Type 0 where
  -- the disk with a database closed at a path
  pub closed : Bytes → Q.Db → F.Disk → F.Disk
  pub create_parent :
      (path dir : Bytes) (db : Q.Db) (disk : F.Disk)
      → F.parent path ≡ some dir
      → F.create_dir_all dir (closed path db disk) ≡ (ok tt, closed path db disk)
  pub open_closed :
      (path : Bytes) (db : Q.Db) (disk : F.Disk)
      → F.open_connection path (closed path db disk) ≡ (ok db, closed path db disk)
  pub create_table_again :
      (k : Bytes) (r : Row) (db : Q.Db) → L.row k db ≡ some r → (F.create_table db).0 ≡ ok tt
  pub create_table-row : (k : Bytes) (db : Q.Db) → L.row k (F.create_table db).1 ≡ L.row k db

module _ (G : Gordian) (Q : Database) (F : Files Q) where
  open F use {Disk, parent, create_dir_all, open_connection, create_table}

  unfoldable pub create_parent_of : Option Bytes → Io Disk Error (Unit {0})
  create_parent_of none disk = (ok tt, disk)
  create_parent_of (some dir) disk =
      let (r, disk') = create_dir_all dir disk in (map_err (λ e. server (StoreError.io e)) r, disk')

  open_at : Bytes → Io Disk Error Q.Db
  open_at path disk =
      let (r, disk') = open_connection path disk in (map_err (λ e. server (sqlite e)) r, disk')

  with_table : Q.Db → Result Q.Db Error
  with_table db =
      let (r, db') = create_table db in elim r [ ok _ ↦ ok db' | err e ↦ err (server (sqlite e)) ]

  -- The clocks are those of the process.
  unfoldable pub new : Bytes → Result ℕ Bytes → ℕ → Io Disk Error (SqliteKv G Q)
  unfolding create_parent_of open_at with_table
  new path unix_time instant = do
    create_parent_of (parent path)
    connection ← open_at path
    db ← lift (with_table connection)
    pure (record { db_path = path; db = db; unix_time = unix_time; instant = instant })
