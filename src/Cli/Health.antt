-- ===== src/Cli/Health.antt =====
-- `hubert check --storage server` at a server.
use hubert_rust.Base.{ℕ, ◌≡◌, refl, Option, List, [], ◌∷◌, ◌++◌, arith}
use hubert_rust.Base.Lists.{Bytes, text}
use hubert_rust.Base.Assoc.{lookup}
use hubert_rust.Base.Io.{ok}
use hubert_rust.Time.{from_secs}
use hubert_rust.Json.{IsJson}
use hubert_rust.Sqlite.Statements.{Database}
use hubert_rust.Server.{into_response}
use hubert_rust.Server.Routes.{handle_health}
use hubert_rust.Cli.{StorageBackend, CheckOptions, Platform, Machine, println}
use hubert_rust.Cli.Options.{unwrap_or, default_host, server_port}
use hubert_rust.Cli.Check.{place, check_server, read_answer, read_health}
use hubert_rust.Cli.Main.{run_check}
use hubert_rust.Cli.Exchange.{server_url}
use hubert_rust.Cli.Serving.{IsServing, health_served}

-- The line that is printed.
abbrev pub available : Bytes → ℕ → Bytes → Bytes
available host port version =
    text "✓ Hubert server is available at "
    ++ (place host port ++ (text " (version " ++ (version ++ text ")")))

module _ (P : Platform) (J : IsJson P.json) where
  abbrev health_fields : Bytes → List (Bytes × P.json.Value)
  health_fields version =
      (text "server", P.json.string (text "hubert"))
      ∷ (text "version", P.json.string version)
      ∷ (text "status", P.json.string (text "ok"))
      ∷ []

  -- The health check's answer is read as that of a Hubert server of its version.
  read_health-handle_health :
      (host : Bytes) (port : ℕ) (version : Bytes) (m : Machine P)
      → read_health P host port (handle_health P.json version).body m
        ≡ println P
            (text "✓ Hubert server is available at "
              ++ (place host port ++ (text " (version " ++ (version ++ text ")"))))
            m
  unfolding read_health handle_health lookup
  read_health-handle_health host port version m =
      let fields = health_fields version in
      ground (
        arith,
        J.from_str-to_string (P.json.object fields),
        J.get-object (text "server") fields,
        J.get-object (text "version") fields,
        J.as_str-string (text "hubert"),
        J.as_str-string version,
      )

  module _ (Q : Database) (host : Option Bytes) (port : Option ℕ) (version : Bytes)
      (S : IsServing P Q (server_url host port) version) where
    abbrev asked : Machine P → P.http.World
    asked m = (P.get_within (from_secs 2) (server_url host port ++ text "/health") m.web).1

    check_server_lem :
        (m : Machine P)
        → check_server P (unwrap_or default_host host) (server_port port) m
          ≡ println P
              (available (unwrap_or default_host host) (server_port port) version)
              (record m { web = asked m })
    unfolding check_server read_answer into_response handle_health
    check_server_lem m =
        rw
          (check_server, (health_served P Q (server_url host port) version S (from_secs 2) m.web).0)
          (read_health-handle_health (unwrap_or default_host host) (server_port port) version
            (record m { web = asked m }))

    -- `hubert check --storage server`, where `--host` and `--port` name a machine on which a server
    -- runs, succeeds, prints one line with the place and the server's version, and leaves the server
    -- as it was.
    pub check_health :
        (m : Machine P)
        → let o : CheckOptions = record {
          storage = StorageBackend.server;
          host = host;
          port = port;
        } in
          ((run_check P o m).0 ≡ ok tt)
          × ((run_check P o m).1.stdout
              ≡ m.stdout
                ++ (available (unwrap_or default_host host) (server_port port) version ∷ []))
          × (S.server (run_check P o m).1.web ≡ S.server m.web)
    unfolding run_check println
    check_health m =
        let done = check_server_lem m in
        (
          rw done refl,
          rw done refl,
          rw done (health_served P Q (server_url host port) version S (from_secs 2) m.web).1,
        )
