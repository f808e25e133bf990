-- ===== src/Server/Routes.antt =====
-- `Server` of server/server.rs: its construction, the routes that `run` hands to axum, and the health
-- check. axum and the socket are the library's.
use hubert_rust.Base.{ℕ, List, [], ◌∷◌, ◌++◌}
use hubert_rust.Base.Lists.{Bytes, text}
use hubert_rust.Text.Decimal.{decimal}
use hubert_rust.Gordian.{Gordian}
use hubert_rust.Json.{Json}
use hubert_rust.Sqlite.Statements.{Database}
use hubert_rust.Sqlite.{SqliteKv}
use hubert_rust.Storage
use hubert_rust.Storage.{ServerKv}
use hubert_rust.Server.{
  ServerConfig, ServerState, new_state, Response, response, into_response, handle_put, handle_get,
}

pub data Method : Type 0 where
  get post : Method

pub data Handler : Type 0 where
  health put_value get_value : Handler

pub record Route : Type 0 where
  pub path : Bytes
  pub method : Method
  pub handler : Handler

abbrev route : Bytes → Method → Handler → Route
route path method handler = record { path = path; method = method; handler = handler }

-- The router of `run`.
abbrev pub routes : List Route
routes =
    route (text "/health") get health
    ∷ route (text "/put") post put_value
    ∷ route (text "/get") post get_value
    ∷ []

-- The address that `run` binds.
abbrev pub listen_address : ServerConfig → Bytes
listen_address config = text "127.0.0.1:" ++ decimal config.port

-- `version` is that of the package.
unfoldable pub handle_health : Json → Bytes → Response
handle_health J version = response 200 (
    J.to_string (
      J.object (
        (text "server", J.string (text "hubert"))
        ∷ (text "version", J.string version)
        ∷ (text "status", J.string (text "ok"))
        ∷ [])))

module _ (G : Gordian) (Q : Database) where
  pub record Server : Type 0 where
    pub config : ServerConfig
    pub state : ServerState G Q

  abbrev pub new : ServerConfig → ServerKv G Q → Server
  new config storage = record { config = config; state = new_state G Q config storage }

  -- `MemoryKv::new` reads no clock; `now` is when the server starts.
  abbrev pub new_memory : ℕ → ServerConfig → Server
  new_memory now config = new config (Storage.new_memory G Q now)

  abbrev pub new_sqlite : ServerConfig → SqliteKv G Q → Server
  new_sqlite config storage = new config (Storage.new_sqlite G Q storage)

  abbrev pub port : Server → ℕ
  port server = server.config.port

  -- What each route answers, and the state after it.
  unfoldable pub answer :
      Json → Bytes → Handler → Bytes → ServerState G Q → Response × ServerState G Q
  answer J version health body state = (handle_health J version, state)
  answer J version put_value body state =
      let (r, state') = handle_put G Q body state in (into_response r, state')
  answer J version get_value body state =
      let (r, state') = handle_get G Q body state in (into_response r, state')
