-- ===== src/Cli/Main.antt =====
-- bin/hubert.rs: the commands of `main` beside `server`.
use hubert_rust.Base.{ℕ, Option, none, some, ◌++◌}
use hubert_rust.Base.Lists.{Bytes, text}
use hubert_rust.Base.Io.{Result, ok, err, ◌>>=◌, ◌>>◌}
use hubert_rust.Text.Decimal.{decimal}
use hubert_rust.Cli.{
  StorageBackend, mainline, ipfs, hybrid, PutOptions, GetOptions, CheckOptions, GenerateType,
  Platform, Machine, Run, println,
}
use hubert_rust.Cli.Options.{
  unwrap_or, default_host, server_port, ipfs_port, validate, ttl_unsupported, pin_unsupported,
  parse_arid, parse_envelope,
}
use hubert_rust.Cli.Stores.{
  put_mainline, put_ipfs, put_hybrid, put_server, get_mainline, get_ipfs, get_hybrid, get_server,
}
use hubert_rust.Cli.Check.{check_mainline, check_ipfs, check_server}

module _ (P : Platform) where
  unfoldable pub generate_random_envelope : ℕ → Machine P → P.gordian.Envelope
  generate_random_envelope size m = P.byte_envelope (m.random_data size)

  unfoldable pub run_generate : GenerateType → Run P (Unit {0})
  unfolding println generate_random_envelope
  run_generate GenerateType.arid m = println P (P.gordian.arid_ur m.new_arid) m
  run_generate (GenerateType.envelope size) m =
      println P (P.gordian.envelope_ur (generate_random_envelope size m)) m

  -- The second match of `put`.
  unfoldable pub put_in :
      StorageBackend → PutOptions → P.gordian.Arid → P.gordian.Envelope → Run P (Unit {0})
  put_in mainline o arid envelope = do
    ttl_unsupported P o.ttl
    pin_unsupported P o.pin
    put_mainline P arid envelope
  put_in ipfs o arid envelope = do
    ttl_unsupported P o.ttl
    put_ipfs P arid envelope (ipfs_port o.port) o.pin
  put_in hybrid o arid envelope = do
    ttl_unsupported P o.ttl
    put_hybrid P arid envelope (ipfs_port o.port) o.pin
  put_in StorageBackend.server o arid envelope = do
    pin_unsupported P o.pin
    put_server P (unwrap_or default_host o.host) (server_port o.port) arid envelope o.ttl

  unfoldable pub run_put : PutOptions → Run P (Unit {0})
  unfolding validate parse_arid parse_envelope put_in
  run_put o = do
    validate P o.storage o.host o.port
    arid ← parse_arid P o.arid
    envelope ← parse_envelope P o.envelope
    put_in o.storage o arid envelope

  abbrev Got : Type 0
  Got = Option (Result (Option P.gordian.Envelope) Bytes × Machine P)

  -- The second match of `get`.
  unfoldable pub get_from : ℕ → StorageBackend → GetOptions → P.gordian.Arid → Machine P → Got
  get_from fuel mainline o arid = get_mainline P fuel arid o.timeout
  get_from fuel ipfs o arid = get_ipfs P fuel arid o.timeout (ipfs_port o.port)
  get_from fuel hybrid o arid = get_hybrid P fuel arid o.timeout (ipfs_port o.port)
  get_from fuel StorageBackend.server o arid =
      get_server P fuel (unwrap_or default_host o.host) (server_port o.port) arid o.timeout

  abbrev pub Ended : Type 0
  Ended = Option (Result (Unit {0}) Bytes × Machine P)

  -- What `get` does with the answer of the store.
  unfoldable pub print_found : ℕ → Got → Ended
  unfolding println
  print_found timeout none = none
  print_found timeout (some (err e, m)) = some (err e, m)
  print_found timeout (some (ok (some env), m)) = some (println P (P.gordian.envelope_ur env) m)
  print_found timeout (some (ok none, m)) =
      some (err (text "Value not found within " ++ (decimal timeout ++ text " seconds")), m)

  abbrev pub get_options : GetOptions → Run P P.gordian.Arid
  get_options o = do validate P o.storage o.host o.port; parse_arid P o.arid

  abbrev pub then_get : ℕ → GetOptions → Result P.gordian.Arid Bytes × Machine P → Ended
  then_get fuel o (err e, m) = some (err e, m)
  then_get fuel o (ok arid, m) = print_found o.timeout (get_from fuel o.storage o arid m)

  unfoldable pub run_get : ℕ → GetOptions → Machine P → Ended
  unfolding validate parse_arid get_from print_found
  run_get fuel o m = then_get fuel o (get_options o m)

  -- The second match of `check`.
  unfoldable pub check_of : StorageBackend → CheckOptions → Run P (Unit {0})
  unfolding println
  check_of mainline o = check_mainline P
  check_of ipfs o = check_ipfs P (ipfs_port o.port)
  check_of hybrid o = do
    check_mainline P
    check_ipfs P (ipfs_port o.port)
    println P (text "✓ Hybrid storage is available (DHT + IPFS)")
  check_of StorageBackend.server o =
      check_server P (unwrap_or default_host o.host) (server_port o.port)

  unfoldable pub run_check : CheckOptions → Run P (Unit {0})
  unfolding validate check_of
  run_check o = do validate P o.storage o.host o.port; check_of o.storage o
