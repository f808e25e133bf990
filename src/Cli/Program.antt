-- ===== src/Cli/Program.antt =====
-- bin/hubert.rs: `main`, and the part of `Server::run` (server/server.rs) before it serves.
use hubert_rust.Base.{[], ◌∷◌, ◌++◌, ℕ, Option, none, some, ◌⊎◌, inl, inr}
use hubert_rust.Base.Lists.{Bytes, text}
use hubert_rust.Base.Io.{Result, ok, err, Io, ◌>>=◌}
use hubert_rust.Error.{Error, to_string}
use hubert_rust.Sqlite.Open.{Files}
use hubert_rust.Sqlite.Statements.{Database}
use hubert_rust.Server.Routes.{Server, listen_address}
use hubert_rust.Cli.{Commands, generate, put, get, check, Platform, Machine}
use hubert_rust.Cli.Main.{Ended, run_generate, run_put, run_get, run_check}
use hubert_rust.Cli.Start.{Host, run_server}

module _ (P : Platform) (Q : Database) (F : Files Q)
    (bind : Bytes → Host P.gordian Q F → Result (Unit {0}) Bytes) where
  -- `Server::run` up to the loop of axum. `bind` is `TcpListener::bind`, with its error.
  unfoldable pub listen : Server P.gordian Q → Io (Host P.gordian Q F) Bytes (Server P.gordian Q)
  listen server h =
      let addr = listen_address server.config in
      elim (bind addr h) [
        | err e ↦ (err (to_string (Error.io e)), h)
        | ok _ ↦ (
          ok server,
          record h { stdout = h.stdout ++ ((text "✓ Hubert server listening on " ++ addr) ∷ []) },
        )
      ]

  -- A command that has ended, or a server that serves, or has not started.
  abbrev pub Outcome : Type 0
  Outcome =
      (Result (Unit {0}) Bytes × Machine P)
      ⊎ (Result (Server P.gordian Q) Bytes × Host P.gordian Q F)

  abbrev ended : Ended P → Option Outcome
  ended none = none
  ended (some r) = some (inl r)

  -- The fuel is that of the loops of `get`.
  unfoldable pub main : ℕ → Commands → Machine P → Host P.gordian Q F → Option Outcome
  unfolding run_generate run_put run_get run_check listen
  main fuel (generate t) m h = some (inl (run_generate P t m))
  main fuel (put o) m h = some (inl (run_put P o m))
  main fuel (get o) m h = ended (run_get P fuel o m)
  main fuel (check o) m h = some (inl (run_check P o m))
  main fuel (Commands.server o) m h = some (inr ((run_server P.gordian Q F o >>= listen) h))
