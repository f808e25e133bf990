-- ===== src/Cli/Serving.antt =====
-- A server that the machine reaches over HTTP: requests to its routes are answered by their handlers.
use hubert_rust.Base.{ℕ, ◌≡◌, some, [], ◌++◌}
use hubert_rust.Base.Lists.{Bytes, text, All}
use hubert_rust.Base.Io.{ok}
use hubert_rust.Sqlite.Statements.{Database}
use hubert_rust.Server.{ServerState, into_response, handle_put, handle_get}
use hubert_rust.Server.Routes.{Route, Method, get, post, Handler, routes, answer, handle_health}
use hubert_rust.Client.Connected.{IsConnected, http_of}
use hubert_rust.Cli.{Platform}

module _ (P : Platform) (Q : Database) (base_url version : Bytes) where
  module _ (server : P.http.World → ServerState P.gordian Q) where
    -- Requests of a method to a path get the answer of a handler, within any time.
    abbrev Served : Bytes → Method → Handler → Type 0
    Served path post handler =
        (body : Bytes) (w : P.http.World)
        → ((P.http.post (base_url ++ path) body w).0
            ≡ ok (http_of (answer P.gordian Q P.json version handler body (server w)).0))
          × (server (P.http.post (base_url ++ path) body w).1
              ≡ (answer P.gordian Q P.json version handler body (server w)).1)
    Served path get handler =
        (nanos : ℕ) (w : P.http.World)
        → ((P.get_within nanos (base_url ++ path) w).0
            ≡ some (ok (http_of (answer P.gordian Q P.json version handler [] (server w)).0)))
          × (server (P.get_within nanos (base_url ++ path) w).1
              ≡ (answer P.gordian Q P.json version handler [] (server w)).1)

    abbrev pub ServedRoute : Route → Type 0
    ServedRoute r = Served r.path r.method r.handler

  -- The world holds a server, and each of its routes is served.
  pub record IsServing : Type 0 where
    pub server : P.http.World → ServerState P.gordian Q
    pub all : All (ServedRoute server) routes

  -- `/put` and `/get` are answered by the two handlers.
  pub put_served :
      (S : IsServing) (body : Bytes) (w : P.http.World)
      → let handled = handle_put P.gordian Q body (S.server w) in
        ((P.http.post (base_url ++ text "/put") body w).0 ≡ ok (http_of (into_response handled.0)))
        × (S.server (P.http.post (base_url ++ text "/put") body w).1 ≡ handled.1)
  unfolding answer
  put_served S body w = S.all.1.0 body w

  pub get_served :
      (S : IsServing) (body : Bytes) (w : P.http.World)
      → let handled = handle_get P.gordian Q body (S.server w) in
        ((P.http.post (base_url ++ text "/get") body w).0 ≡ ok (http_of (into_response handled.0)))
        × (S.server (P.http.post (base_url ++ text "/get") body w).1 ≡ handled.1)
  unfolding answer
  get_served S body w = S.all.1.1.0 body w

  pub health_served :
      (S : IsServing) (nanos : ℕ) (w : P.http.World)
      → ((P.get_within nanos (base_url ++ text "/health") w).0
          ≡ some (ok (http_of (handle_health P.json version))))
        × (S.server (P.get_within nanos (base_url ++ text "/health") w).1 ≡ S.server w)
  unfolding answer
  health_served S nanos w = S.all.0 nanos w

  -- The client finds its two routes there.
  abbrev pub connected : IsServing → IsConnected P.gordian Q P.http base_url
  connected S = record {
    server = S.server;
    put_answered = λ body w. (put_served S body w).0;
    put_done = λ body w. (put_served S body w).1;
    get_answered = λ body w. (get_served S body w).0;
    get_done = λ body w. (get_served S body w).1;
  }
