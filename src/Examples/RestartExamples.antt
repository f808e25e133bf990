-- ===== src/Examples/RestartExamples.antt =====
-- A server with a database that is started again.
use hubert_rust.Base.{
  ◌≡◌, refl, Option, none, some, [], ◌∷◌, ◌++◌, bytes_eq, bytes_beq, beq_refl, ◌+◌, false, arith,
  if◌then◌else◌,
}
use hubert_rust.Base.Lists.{Bytes, text}
use hubert_rust.Base.Io.{Result, ok, err}
use hubert_rust.Server.{ServerState, default_config, into_response, handle_put, handle_get}
use hubert_rust.Examples.Toys.{hello, toy, toy-IsLawful}
use hubert_rust.Sqlite
use hubert_rust.Sqlite.{SqliteKv}
use hubert_rust.Sqlite.Open.{Files, IsDurable}
use hubert_rust.Server
use hubert_rust.Server.Routes.{Server}
use hubert_rust.Cli.Start.{Host, run_server}
use hubert_rust.Cli.{ServerOptions, Commands, StorageBackend, Platform, Machine}
use hubert_rust.Cli.Program.{Outcome, main}
use hubert_rust.Cli.Ends.{main_total}
use hubert_rust.Examples.Desk.{desk}
use hubert_rust.Examples.DhtExamples.{net, dht-IsDht}
use hubert_rust.Examples.Daemon.{kubo-IsDaemon}
use hubert_rust.Examples.IpfsExamples.{idle}
use hubert_rust.Examples.ServerExamples.{bare, bare-IsTimed}
use hubert_rust.Cli.Restart.{server_restart}
use hubert_rust.Examples.SqliteExamples.{Table, tables, tables-IsTable}

-- A disk of databases by their paths, without directories.
abbrev cabinet : Files tables
cabinet = record {
  Disk = Bytes → Option Table;
  parent = λ path. some [];
  is_dir = λ path disk. false;
  join = λ dir name. dir ++ (b'/' ∷ name);
  create_dir_all = λ dir disk. (ok tt, disk);
  open_connection = λ path disk. (
    ok (elim (disk path) [ some db ↦ db | none ↦ record { keys = []; rows = λ _. none } ]),
    disk,
  );
  create_table = λ db. (ok tt, db);
}

cabinet-closed :
    (path : Bytes) (db : Table) (disk : Bytes → Option Table)
    → cabinet.open_connection path (λ p. if bytes_beq path p then some db else disk p)
      ≡ (ok db, λ p. if bytes_beq path p then some db else disk p)
cabinet-closed path db disk = rw (beq_refl bytes_eq path) refl

abbrev cabinet-IsDurable : IsDurable tables-IsTable cabinet
cabinet-IsDurable = record {
  closed = λ path db disk p. if bytes_beq path p then some db else disk p;
  create_parent = λ path dir db disk h. refl;
  open_closed = cabinet-closed;
  create_table_again = λ k r db h. refl;
  create_table-row = λ k db. refl;
}

abbrev first : SqliteKv toy tables
first = record {
  db_path = text "hubert.db";
  db = record { keys = []; rows = λ _. none };
  unix_time = ok 1000;
  instant = 0;
}

abbrev written : Table
written = (Sqlite.put toy tables 3 hello (some 60) first).1.db

abbrev restarted : Host toy tables cabinet
restarted = record {
  disk = cabinet-IsDurable.closed (text "hubert.db") written (λ _. none);
  unix_time = ok (1000 + 59);
  instant = 7;
  stdout = [];
}

abbrev restart_options : ServerOptions
restart_options = record { port = some 8080; sqlite = some (text "hubert.db"); verbose = false }

server_restart_example :
    (server : Server toy tables) × ((run_server toy tables cabinet restart_options restarted).0
      ≡ ok server)
    × ((Server.get toy tables 3 server.state).0 ≡ some hello)
unfolding Server.put hubert_rust.Storage.put_sync Sqlite.put Sqlite.check_exists Sqlite.store_row
server_restart_example =
    server_restart toy tables cabinet tables-IsTable cabinet-IsDurable toy-IsLawful 3 hello
      (some 60) first default_config restart_options (text "hubert.db") restarted (λ _. none) 1000
      59 (written.rows (toy.arid_ur 3)) refl refl (omega arith) (omega arith) refl refl refl refl
      refl

-- A machine whose clock runs.
abbrev timed : Platform
timed = record desk {
  http = bare;
  post_within = λ nanos to w. (err (text "refused"), w);
  get_within = λ nanos to w. (none, w);
}

abbrev look_in_dht : Commands
look_in_dht = Commands.get (record {
  storage = StorageBackend.mainline;
  host = none;
  port = none;
  arid = toy.arid_ur 3;
  timeout = 30;
})

abbrev nothing_stored : Machine timed
nothing_stored = record {
  net = net;
  node = idle.node;
  web = 7;
  new_arid = 8;
  random_data = λ size. [];
  stdout = [];
}

abbrev free_port : Bytes → Host toy tables cabinet → Result (Unit {0}) Bytes
free_port address h = ok tt

main_total_example :
    (o : Outcome timed tables cabinet free_port) × (main timed tables cabinet free_port 31
        look_in_dht nothing_stored restarted
      ≡ some o)
main_total_example =
    main_total timed dht-IsDht kubo-IsDaemon bare-IsTimed tables cabinet free_port 31 look_in_dht
      nothing_stored restarted (omega arith)
