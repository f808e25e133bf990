-- ===== src/Cli/Exchange.antt =====
-- `hubert put` on one machine and `hubert get` on another, through a server.
use hubert_rust.Base.{
  ℕ, suc, ◌*◌, ◌<◌, ◌≡◌, refl, ◌∙◌, false, Option, none, some, [], ◌∷◌, ◌++◌, arith,
}
use hubert_rust.Base.Lists.{Bytes, text}
use hubert_rust.Base.Io.{ok}
use hubert_rust.Gordian.{IsLawful}
use hubert_rust.Time.{nanos_per_sec}
use hubert_rust.Memory.{Memory, entry}
use hubert_rust.Memory
use hubert_rust.Sqlite.Statements.{Database}
use hubert_rust.Server.{ServerConfig}
use hubert_rust.Server.Lifetimes.{granted, in_memory, put-in_memory, elapse}
use hubert_rust.Client.Bodies.{FitsU64}
use hubert_rust.Client
use hubert_rust.Client.Connected.{put_connected}
use hubert_rust.Client.RoundTrip.{client_get-put}
use hubert_rust.Cli.{StorageBackend, PutOptions, GetOptions, Platform, Machine, println}
use hubert_rust.Cli.Options.{unwrap_or, default_host, server_port}
use hubert_rust.Cli.Stores.{url, put_server, get_server}
use hubert_rust.Cli.Main.{run_put, run_get, print_found}
use hubert_rust.Cli.Serving.{IsServing, connected}

-- The URL that `--host` and `--port` mean to a command.
abbrev pub server_url : Option Bytes → Option ℕ → Bytes
server_url host port = url (unwrap_or default_host host) (server_port port)

module _ (P : Platform) (L : IsLawful P.gordian) (host : Option Bytes) (port : Option ℕ) where
  abbrev pub put_at : P.gordian.Arid → P.gordian.Envelope → Option ℕ → PutOptions
  put_at k e ttl = record {
    storage = StorageBackend.server;
    host = host;
    port = port;
    arid = P.gordian.arid_ur k;
    envelope = P.gordian.envelope_ur e;
    ttl = ttl;
    pin = false;
  }

  abbrev pub get_at : P.gordian.Arid → ℕ → GetOptions
  get_at k timeout = record {
    storage = StorageBackend.server;
    host = host;
    port = port;
    arid = P.gordian.arid_ur k;
    timeout = timeout;
  }

  put_at_server :
      (k : P.gordian.Arid) (e : P.gordian.Envelope) (ttl : Option ℕ) (m : Machine P)
      → run_put P (put_at k e ttl) m
        ≡ put_server P (unwrap_or default_host host) (server_port port) k e ttl m
  unfolding run_put
  put_at_server k e ttl m = ground (arith, L.arid_round_trip k, L.envelope_round_trip e)

  get_at_server :
      (fuel : ℕ) (k : P.gordian.Arid) (timeout : ℕ) (m : Machine P)
      → run_get P fuel (get_at k timeout) m
        ≡ print_found P timeout
            (get_server P fuel (unwrap_or default_host host) (server_port port) k timeout m)
  unfolding run_get
  get_at_server fuel k timeout m = ground (arith, L.arid_round_trip k)

module _ (P : Platform) (Q : Database) (L : IsLawful P.gordian) (host : Option Bytes)
    (port : Option ℕ) (version : Bytes) (S : IsServing P Q (server_url host port) version) where
  open S use {server}

  abbrev base_url : Bytes
  base_url = server_url host port

  -- A `put` at a free ARID is accepted.
  client_put_free :
      (k : P.gordian.Arid) (e : P.gordian.Envelope) (ttl : Option ℕ) (w : P.http.World)
      (s : Memory P.gordian) (c : ServerConfig)
      → FitsU64 P.gordian Q P.http L ttl
      → server w ≡ in_memory P.gordian Q s c
      → entry P.gordian k s ≡ none
      → (Client.put P.gordian P.http base_url k e ttl w).0 ≡ ok (text "Stored successfully")
  unfolding Memory.put
  client_put_free k e ttl w s c fits at_start free =
      let C = connected P Q base_url version S in
      let stored = put-in_memory P.gordian Q k e ttl s c in
      (put_connected P.gordian Q P.http L base_url C k e ttl w fits).0
      ∙ rw (at_start, stored, Memory.put, free) refl

  put_server_lem :
      (k : P.gordian.Arid) (e : P.gordian.Envelope) (ttl : Option ℕ) (m : Machine P)
      (receipt : Bytes)
      → (Client.put P.gordian P.http base_url k e ttl m.web).0 ≡ ok receipt
      → put_server P (unwrap_or default_host host) (server_port port) k e ttl m
        ≡ (ok tt, record m { web = (Client.put P.gordian P.http base_url k e ttl m.web).1 })
  unfolding put_server
  put_server_lem k e ttl m receipt accepted = rw (put_server, accepted) refl

  -- `hubert put --storage server` on one machine stores, in a server over memory that has nothing at
  -- the ARID, what `hubert get --storage server` on any machine prints: the envelope's UR is its one
  -- line of output, as long as less than `--ttl` seconds (if it was given) and less than the server's
  -- `max_ttl` seconds have passed on the server. Both commands succeed.
  pub cli_get-put :
      (fuel : ℕ) (k : P.gordian.Arid) (e : P.gordian.Envelope) (ttl : Option ℕ) (timeout : ℕ)
      (m m' : Machine P) (s : Memory P.gordian) (c : ServerConfig) (passed : ℕ)
      → FitsU64 P.gordian Q P.http L ttl
      → server m.web ≡ in_memory P.gordian Q s c
      → entry P.gordian k s ≡ none
      → (let state = server (run_put P (put_at P L host port k e ttl) m).1.web in
          server m'.web ≡ record state { storage = elapse P.gordian Q passed state.storage })
      → passed < granted c.max_ttl ttl * nanos_per_sec
      → ((run_put P (put_at P L host port k e ttl) m).0 ≡ ok tt)
        × (run_get P (suc fuel) (get_at P L host port k timeout) m'
            ≡ some (
              ok tt,
              record m' {
                web = (P.http.post (base_url ++ text "/get") (P.gordian.arid_ur k) m'.web).1;
                stdout = m'.stdout ++ (P.gordian.envelope_ur e ∷ []);
              },
            ))
  unfolding get_server print_found println
  cli_get-put fuel k e ttl timeout m m' s c passed fits at_start free later soon =
      let C = connected P Q base_url version S in
      let accepted = client_put_free k e ttl m.web s c fits at_start free in
      let put =
        put_at_server P L host port k e ttl m
        ∙ put_server_lem k e ttl m (text "Stored successfully") accepted in
      let found =
        client_get-put P.gordian Q P.http L base_url C fuel k e ttl (some timeout) m.web m'.web s c
          passed fits at_start free (rw put at later) soon in
      (
        rw put refl,
        get_at_server P L host port (suc fuel) k timeout m' ∙ rw (get_server, found) refl,
      )
