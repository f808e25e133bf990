-- ===== src/Cli/Ends.antt =====
-- The program of bin/hubert.rs ends, or starts its server.
use hubert_rust.Base.{inl, ℕ, ◌<◌, ◌≡◌, refl, Option, none, some, arith}
use hubert_rust.Base.Lists.{Bytes}
use hubert_rust.Base.Io.{Result, ok, err}
use hubert_rust.Error.{Error}
use hubert_rust.Sqlite.Open.{Files}
use hubert_rust.Sqlite.Statements.{Database}
use hubert_rust.Mainline.Network.{IsDht, mainline_get_total}
use hubert_rust.Ipfs.Promises.{IsDaemon}
use hubert_rust.Ipfs.Polling.{ipfs_get_total}
use hubert_rust.Hybrid.Polling.{hybrid_get_total}
use hubert_rust.Client.Polling.{IsTimed, client_get_total}
use hubert_rust.Cli.{
  StorageBackend, mainline, ipfs, hybrid, GetOptions, Commands, generate, put, get, check, Platform,
  Machine,
}
use hubert_rust.Cli.Stores.{
  get_mainline, get_ipfs, get_hybrid, get_server, open_mainline, open_hybrid, returned, opened,
  local_url, url, session_of, world_of,
}
use hubert_rust.Cli.Options.{unwrap_or, default_host, server_port, ipfs_port}
use hubert_rust.Ipfs
use hubert_rust.Cli.Main.{run_get, get_from, print_found, get_options, then_get}
use hubert_rust.Cli.Start.{Host}
use hubert_rust.Cli.Program.{Outcome, main}

-- What is there.
abbrev IsSome : {A : Type 0} → Option A → Type 0
IsSome {A} o = (a : A) × (o ≡ some a)

-- The fuel that the command's loops need.
abbrev pub passes : Commands → ℕ
passes (get o) = o.timeout
passes _ = 0

module _ (P : Platform) where
  returned-IsSome :
      {S : Type 0} (f : S → Machine P) (o : Option (Result (Option P.gordian.Envelope) Error × S))
      → IsSome o
      → IsSome (returned P f o)
  returned-IsSome f o (r, q) = rw q (_, refl)

  opened-IsSome :
      {A : Type 0} (r : Result A Bytes × Machine P)
      (f : A → Machine P → Option (Result (Option P.gordian.Envelope) Bytes × Machine P))
      → ((a : A) (m : Machine P) → IsSome (f a m))
      → IsSome (opened P r f)
  opened-IsSome (err e, m) f h = (_, refl)
  opened-IsSome (ok a, m) f h = h a m

  module _ (W : IsDht P.dht) (D : IsDaemon P.daemon) (T : IsTimed P.http) where
    get_from-IsSome :
        (fuel : ℕ) (backend : StorageBackend) (o : GetOptions) (k : P.gordian.Arid) (m : Machine P)
        → o.timeout < fuel
        → IsSome (get_from P fuel backend o k m)
    unfolding get_from get_mainline get_ipfs get_hybrid get_server
    get_from-IsSome fuel mainline o k m enough = opened-IsSome (open_mainline P m) _ (λ kv m'.
        let (r, net, q) =
          mainline_get_total P.gordian P.crypto P.dht W fuel kv k (some o.timeout) m'.net enough in
        rw q (_, refl))
    get_from-IsSome fuel ipfs o k m enough =
        let (r, s, q) =
          ipfs_get_total P.gordian P.crypto P.daemon D fuel
            (Ipfs.new (local_url (ipfs_port o.port))) k (some o.timeout) (session_of P m)
            (omega arith) in
        rw q (_, refl)
    get_from-IsSome fuel hybrid o k m enough =
        opened-IsSome (open_hybrid P (ipfs_port o.port) m) _ (λ kv m'.
          let (r, w, q) =
            hybrid_get_total P.gordian P.envelopes P.crypto P.dht P.daemon D fuel kv
              (some o.timeout) (omega arith) W enough k (world_of P m') in
          rw q (_, refl))
    get_from-IsSome fuel StorageBackend.server o k m enough =
        let (r, w, q) =
          client_get_total P.gordian P.http
            (url (unwrap_or default_host o.host) (server_port o.port)) T fuel k (some o.timeout)
            m.web enough in
        rw q (_, refl)

    print_found-IsSome :
        (timeout : ℕ) (o : Option (Result (Option P.gordian.Envelope) Bytes × Machine P))
        → IsSome o
        → IsSome (print_found P timeout o)
    unfolding print_found
    print_found-IsSome timeout none (r, h) = cc
    print_found-IsSome timeout (some (err e, m)) h = (_, refl)
    print_found-IsSome timeout (some (ok (some e), m)) h = (_, refl)
    print_found-IsSome timeout (some (ok none, m)) h = (_, refl)

    run_get-IsSome :
        (fuel : ℕ) (o : GetOptions) (m : Machine P) → o.timeout < fuel → IsSome (run_get P fuel o m)
    unfolding run_get
    run_get-IsSome fuel o m enough = parsed (get_options P o m)
      where
        parsed : (r : Result P.gordian.Arid Bytes × Machine P) → IsSome (then_get P fuel o r)
        parsed (err e, m') = (_, refl)
        parsed (ok k, m') =
            print_found-IsSome o.timeout (get_from P fuel o.storage o k m')
              (get_from-IsSome fuel o.storage o k m' enough)

    -- With a pass of each polling loop for each second of `--timeout` and one more, the program ends, or
    -- comes to the point where its server serves: whatever the command and its options are, and
    -- whatever the DHT, the daemon and the server answer.
    pub main_total :
        (Q : Database) (F : Files Q) (bind : Bytes → Host P.gordian Q F → Result (Unit {0}) Bytes)
        (fuel : ℕ) (command : Commands) (m : Machine P) (h : Host P.gordian Q F)
        → passes command < fuel
        → (o : Outcome P Q F bind) × (main P Q F bind fuel command m h ≡ some o)
    unfolding main
    main_total Q F bind fuel (generate t) m h enough = (_, refl)
    main_total Q F bind fuel (put o) m h enough = (_, refl)
    main_total Q F bind fuel (get o) m h enough =
        let (r, q) = run_get-IsSome fuel o m enough in (inl r, rw (main, q) refl)
    main_total Q F bind fuel (check o) m h enough = (_, refl)
    main_total Q F bind fuel (Commands.server o) m h enough = (_, refl)
