-- ===== src/Cli/Restart.antt =====
-- `hubert server --sqlite` started again on the database of a server that has ended.
use mathlib.Core.Option
use hubert_rust.Base.{
  ℕ, ◌+◌, ◌^◌, ◌<◌, ◌≡◌, refl, Bool, true, false, Option, none, some, arith, ltb, if◌then◌else◌,
}
use hubert_rust.Base.Lists.{Bytes}
use hubert_rust.Base.Io.{Result, ok, err, map_ok}
use hubert_rust.Error.{Error}
use hubert_rust.Gordian.{Gordian, IsLawful}
use hubert_rust.Time.{from_secs}
use hubert_rust.Sqlite
use hubert_rust.Sqlite.{SqliteKv, drop_row}
use hubert_rust.Sqlite.Open.{Files, IsDurable, new}
use hubert_rust.Sqlite.Restart.{sqlite_get-restart}
use hubert_rust.Sqlite.Statements.{Database, IsTable, Row}
use hubert_rust.Storage
use hubert_rust.Storage.{ServerKv, put_sync, get_sync}
use hubert_rust.Server
use hubert_rust.Server.{ServerConfig, ServerState}
use hubert_rust.Server.Lifetimes.{granted, effective_ttl-granted}
use hubert_rust.Server.Routes.{Server, new_sqlite}
use hubert_rust.Cli.{ServerOptions}
use hubert_rust.Cli.Start.{Host, run_server, config_of, database_path}

module _ (G : Gordian) (Q : Database) (F : Files Q) where
  open G use {Arid, arid_ur, Envelope}

  abbrev pub in_sqlite : SqliteKv G Q → ServerConfig → ServerState G Q
  in_sqlite s c = record { storage = ServerKv.sqlite s; config = c }

  -- `ServerState::put` over `SqliteKv` is its `put` for the seconds granted.
  pub put-in_sqlite :
      (k : Arid) (e : Envelope) (ttl : Option ℕ) (s : SqliteKv G Q) (c : ServerConfig)
      → Server.put G Q k e (Option.map from_secs ttl) (in_sqlite s c)
        ≡ let (r, s') = Sqlite.put G Q k e (some (granted c.max_ttl ttl)) s in
          (Storage.reply G Q r, in_sqlite s' c)
  unfolding Server.put put_sync
  put-in_sqlite k e ttl s c = ground (arith, effective_ttl-granted G Q c ttl)

  accepted :
      (r : Result Bytes Error) (u : Unit {0})
      → Storage.reply G Q r ≡ ok u
      → (receipt : Bytes) × (r ≡ ok receipt)
  accepted (ok receipt) u h = (receipt, refl)
  accepted (err e) u h = cc

  run_server-sqlite :
      (o : ServerOptions) (path : Bytes) (h : Host G Q F) (t : SqliteKv G Q)
      → o.sqlite ≡ some path
      → (new G Q F (database_path G Q F path h.disk) h.unix_time h.instant h.disk).0 ≡ ok t
      → (run_server G Q F o h).0 ≡ ok (new_sqlite G Q (config_of o) t)
  unfolding run_server
  run_server-sqlite o path h t asked opened = rw (asked, opened) refl

  get-in_sqlite :
      (k : Arid) (e : Envelope) (t : SqliteKv G Q) (c : ServerConfig) (live : Bool)
      (r : Result (Unit {0}) Error) (t' : SqliteKv G Q)
      → Sqlite.get G Q (λ _ s. s) 1 k (some 0) t
        ≡ (if live then some (ok (some e), t) else some (map_ok (λ _. none) r, t'))
      → (Server.get G Q k (in_sqlite t c)).0 ≡ (if live then some e else none)
  unfolding Server.get get_sync
  get-in_sqlite k e t c true r t' h = rw h refl
  get-in_sqlite k e t c false (ok _) t' h = rw h refl
  get-in_sqlite k e t c false (err _) t' h = rw h refl

  module _ (L : IsTable Q) (D : IsDurable L F) where
    -- A server with `--sqlite` may be stopped and started again, with the same path and any other
    -- options: what `ServerState::put` of the first accepted, `ServerState::get` of the second
    -- returns, if its database answers, exactly while less than the seconds granted by the first
    -- have passed on a clock that reads less than 2^63.
    pub server_restart :
        IsLawful G
        → (k : Arid) (e : Envelope) (ttl : Option ℕ) (s : SqliteKv G Q) (c : ServerConfig)
          (o : ServerOptions) (path : Bytes) (h : Host G Q F) (disk : F.Disk) (now passed : ℕ)
          (answered : Option Row)
        → s.unix_time ≡ ok now
        → (let put = Server.put G Q k e (Option.map from_secs ttl) (in_sqlite s c) in put.0 ≡ ok tt)
        → now + granted c.max_ttl ttl < 2 ^ 63
        → now + passed < 2 ^ 63
        → let db = (Sqlite.put G Q k e (some (granted c.max_ttl ttl)) s).1.db in
          Q.select_row (arid_ur k) (F.create_table db).1 ≡ ok answered
          → h.disk ≡ D.closed s.db_path db disk
          → h.unix_time ≡ ok (now + passed)
          → o.sqlite ≡ some path
          → database_path G Q F path h.disk ≡ s.db_path
          → (server : Server G Q) × ((run_server G Q F o h).0 ≡ ok server)
            × ((Server.get G Q k server.state).0
                ≡ (if ltb passed (granted c.max_ttl ttl) then some e else none))
    server_restart C k e ttl s c o path h disk now passed answered clock put_ok small small' q
          at_disk at_time asked same_path =
        let (receipt, stored) =
          accepted (Sqlite.put G Q k e (some (granted c.max_ttl ttl)) s).0 tt
            (rw (put-in_sqlite k e ttl s c) at put_ok) in
        let (t, opened, found) =
          sqlite_get-restart G Q F L D C (λ _ s. s) 0 k e (granted c.max_ttl ttl) (some 0) s disk
            now passed h.instant receipt answered clock stored small small' q in
        (
          new_sqlite G Q (config_of o) t,
          run_server-sqlite o path h t asked (rw (same_path, at_disk, at_time) opened),
          get-in_sqlite k e t (config_of o) (ltb passed (granted c.max_ttl ttl)) _ _ found,
        )
