-- ===== src/Examples/CliExamples.antt =====
-- The theorems on the command line, at a server.
use hubert_rust.Base.{ℕ, ◌≡◌, refl, true, none, some, [], ◌∷◌, ◌++◌, bytes_eq, arith, ◌⊎◌}
use hubert_rust.Base.Lists.{Bytes, text}
use hubert_rust.Base.Assoc.{lookup}
use hubert_rust.Base.Io.{ok, err}
use hubert_rust.Time.{from_secs}
use hubert_rust.Memory.{new}
use hubert_rust.Server.{default_config}
use hubert_rust.Server.Lifetimes.{elapse}
use hubert_rust.Cli.{StorageBackend, PutOptions, CheckOptions, Machine}
use hubert_rust.Cli.Main.{run_put, run_get, run_check}
use hubert_rust.Cli.Exchange.{put_at, get_at, cli_get-put}
use hubert_rust.Cli.Health.{check_health, available}
use hubert_rust.Cli.Validation.{put_ready, put_stored, run_put_cases}
use hubert_rust.Examples.Toys.{Tree, hello, toy, toy-IsLawful}
use hubert_rust.Examples.SqliteExamples.{tables}
use hubert_rust.Examples.Desk.{desk, serving, machine, version, base_url, forest_json-IsJson, post}

check_health_example :
    let o : CheckOptions = record { storage = StorageBackend.server; host = none; port = none } in
    ((run_check desk o machine).0 ≡ ok tt)
    × ((run_check desk o machine).1.stdout ≡ available (text "127.0.0.1") 45678 version ∷ [])
    × ((run_check desk o machine).1.web ≡ machine.web)
check_health_example = check_health desk forest_json-IsJson tables none none version serving machine

-- The ARID of the number 3 is put with a pin, which the server does not take.
abbrev pinned : PutOptions
pinned = record {
  storage = StorageBackend.server;
  host = none;
  port = none;
  arid = toy.arid_ur 3;
  envelope = toy.envelope_ur hello;
  ttl = none;
  pin = true;
}

run_put_cases_example :
    ((put_ready desk pinned ≡ none)
      × (message : Bytes) × (run_put desk pinned machine ≡ (err message, machine)))
    ⊎ ((k : ℕ) × (e : Tree) × (put_ready desk pinned ≡ some (k, e))
        × (run_put desk pinned machine ≡ put_stored desk pinned k e machine))
run_put_cases_example = run_put_cases desk pinned machine

abbrev after : Machine desk
after = (run_put desk (put_at desk toy-IsLawful none none 3 hello (some 60)) machine).1

abbrev later : Machine desk
later = record machine {
  web = record after.web { storage = elapse toy tables (from_secs 59) after.web.storage };
}

cli_get-put_example :
    ((run_put desk (put_at desk toy-IsLawful none none 3 hello (some 60)) machine).0 ≡ ok tt)
    × (run_get desk 1 (get_at desk toy-IsLawful none none 3 5) later
        ≡ some (
          ok tt,
          record later {
            web = (post (base_url ++ text "/get") (toy.arid_ur 3) later.web).1;
            stdout = toy.envelope_ur hello ∷ [];
          },
        ))
unfolding lookup
cli_get-put_example =
    cli_get-put desk tables toy-IsLawful none none version serving 0 3 hello (some 60) 5 machine
      later (new toy 0) default_config (from_secs 59) (omega arith) refl refl refl (omega arith)
