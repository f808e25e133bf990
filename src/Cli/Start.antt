-- ===== src/Cli/Start.antt =====
-- bin/hubert.rs: the command `server`, up to the server that it runs.
use hubert_rust.Base.{ℕ, Option, none, some, List, [], ◌∷◌, ◌++◌, if◌then◌else◌}
use hubert_rust.Base.Lists.{Bytes, text}
use hubert_rust.Base.Io.{Result, ok, map_err, Io, pure, ◌>>=◌, ◌>>◌}
use hubert_rust.Text.Decimal.{decimal}
use hubert_rust.Error.{to_string}
use hubert_rust.Gordian.{Gordian}
use hubert_rust.Sqlite.{SqliteKv}
use hubert_rust.Sqlite.Open.{Files, new}
use hubert_rust.Sqlite.Statements.{Database}
use hubert_rust.Server.{ServerConfig}
use hubert_rust.Server.Routes.{Server, new_memory, new_sqlite}
use hubert_rust.Cli.{ServerOptions}
use hubert_rust.Cli.Options.{server_port}

abbrev pub config_of : ServerOptions → ServerConfig
config_of o = record { port = server_port o.port; max_ttl = 86400; verbose = o.verbose }

module _ (G : Gordian) (Q : Database) (F : Files Q) where
  -- The disk, the clocks as the process starts, and the lines printed so far.
  pub record Host : Type 0 where
    pub disk : F.Disk
    pub unix_time : Result ℕ Bytes
    pub instant : ℕ
    pub stdout : List Bytes

  -- A directory stands for the file `hubert.sqlite` in it.
  abbrev pub database_path : Bytes → F.Disk → Bytes
  database_path path disk = if F.is_dir path disk then F.join path (text "hubert.sqlite") else path

  -- `SqliteKv::new`, with its error shown.
  abbrev pub open_store : Bytes → Io Host Bytes (SqliteKv G Q)
  open_store path h =
      let (r, disk) = new G Q F path h.unix_time h.instant h.disk in
      (map_err to_string r, record h { disk = disk })

  abbrev print : Bytes → Io Host Bytes (Unit {0})
  print line h = (ok tt, record h { stdout = h.stdout ++ (line ∷ []) })

  abbrev starting : ServerConfig → Bytes → Bytes
  starting config storage =
      text "Starting Hubert server on port " ++ (decimal config.port ++ (text " with " ++ storage))

  abbrev start_in : ServerOptions → Option Bytes → Io Host Bytes (Server G Q)
  start_in o (some path) = do
    store ← open_store path
    print (starting (config_of o) (text "SQLite storage: " ++ path))
    pure (new_sqlite G Q (config_of o) store)
  start_in o none = do
    print (starting (config_of o) (text "in-memory storage"))
    λ h. (ok (new_memory G Q h.instant (config_of o)), h)

  unfoldable pub run_server : ServerOptions → Io Host Bytes (Server G Q)
  run_server o h =
      start_in o (elim o.sqlite [ some path ↦ some (database_path path h.disk) | none ↦ none ]) h
