-- ===== src/Examples/ExchangeExamples.antt =====
-- Puts and gets of the command line over the networks.
use hubert_rust.Text.Colons.{has_no_url}
use hubert_rust.Cli.Cid.{IsUr, put_hybrid_prints_nothing}
use hubert_rust.Cli.Stores.{put_hybrid}
use hubert_rust.Base.{ℕ, zero, suc, ◌++◌, ◌≡◌, refl, true, false, none, some, [], ◌∷◌, bytes_eq}
use hubert_rust.Base.Lists.{Bytes, text}
use hubert_rust.Base.Assoc.{lookup}
use hubert_rust.Base.Io.{ok}
use hubert_rust.Cli.{StorageBackend, PutOptions, CheckOptions, Platform, Machine, Run}
use hubert_rust.Cli.Main.{run_put, run_get}
use hubert_rust.Examples.Toys.{unary, hello, toy, toy-IsLawful, forest-AreEnvelopes}
use hubert_rust.Cli.DhtExchange.{IsPassive, put_mainline_of, get_mainline_of, cli_mainline_get-put}
use hubert_rust.Examples.DhtExamples.{dht-IsDht}
use hubert_rust.Cli.IpfsExchange.{put_ipfs_of, get_ipfs_of, cli_ipfs_get-put}
use hubert_rust.Cli.HybridExchange.{put_hybrid_of, get_hybrid_of, cli_hybrid_get-put}
use hubert_rust.Examples.Daemon.{kubo-IsDaemon}
use hubert_rust.Examples.IpfsExamples.{answers}
use hubert_rust.Examples.Desk.{desk, machine}

desk-IsPassive : IsPassive desk
desk-IsPassive = record { starts = λ key salt n. refl }

abbrev sent : Machine desk
sent = (run_put desk (put_mainline_of desk toy-IsLawful 3 hello) machine).1

abbrev elsewhere : Machine desk
elsewhere = record machine { net = sent.net; stdout = text "earlier" ∷ [] }

cli_mainline_get-put_example :
    run_get desk 1 (get_mainline_of desk toy-IsLawful 3 30) elsewhere
    ≡ some (ok tt, record elsewhere { stdout = text "earlier" ∷ toy.envelope_ur hello ∷ [] })
unfolding run_put hubert_rust.Cli.Stores.put_mainline hubert_rust.Mainline.put_impl
    hubert_rust.AridDerivation.obfuscate_with_arid
cli_mainline_get-put_example =
    cli_mainline_get-put desk toy-IsLawful dht-IsDht desk-IsPassive 0 3 hello 30 machine elsewhere
      refl refl refl

abbrev pinned_up : Machine desk
pinned_up = (run_put desk (put_ipfs_of desk toy-IsLawful none 3 hello true) machine).1

abbrev next_day : Machine desk
next_day = record machine { node = pinned_up.node }

cli_ipfs_get-put_example :
    run_get desk 1 (get_ipfs_of desk toy-IsLawful none 3 30) next_day
    ≡ some (ok tt, record next_day { stdout = toy.envelope_ur hello ∷ [] })
unfolding run_put hubert_rust.Cli.Stores.put_ipfs hubert_rust.Ipfs.put_impl
    hubert_rust.AridDerivation.obfuscate_with_arid hubert_rust.Ipfs.get_or_create_key lookup
    hubert_rust.Ipfs.upload hubert_rust.Ipfs.finish hubert_rust.Ipfs.pin_if
    hubert_rust.Ipfs.publish_once hubert_rust.Ipfs.says_unpublished hubert_rust.Text.Search.contains
    hubert_rust.AridDerivation.derive_ipfs_key_name hubert_rust.Text.Split.nth1
cli_ipfs_get-put_example =
    cli_ipfs_get-put desk toy-IsLawful none kubo-IsDaemon 0 3 hello true 30 machine next_day refl
      refl (answers next_day.node)

abbrev shared : Machine desk
shared = (run_put desk (put_hybrid_of desk toy-IsLawful none 3 hello true) machine).1

abbrev reader : Machine desk
reader = record machine { net = shared.net; node = shared.node }

cli_hybrid_get-put_example :
    run_get desk 1 (get_hybrid_of desk toy-IsLawful none 3 30) reader
    ≡ some (ok tt, record reader { stdout = toy.envelope_ur hello ∷ [] })
unfolding hubert_rust.Hybrid.Reference.is_reference_envelope run_put
    hubert_rust.Cli.Stores.put_hybrid hubert_rust.Hybrid.put_impl hubert_rust.Hybrid.put_direct
    hubert_rust.Mainline.put_impl hubert_rust.AridDerivation.obfuscate_with_arid
    hubert_rust.Text.Search.contains
cli_hybrid_get-put_example =
    cli_hybrid_get-put desk toy-IsLawful none forest-AreEnvelopes dht-IsDht kubo-IsDaemon
      desk-IsPassive 0 3 hello true 30 machine reader refl refl refl refl (answers reader.node) refl

unary-alone : (n : ℕ) → has_no_url false (unary n []) ≡ true
unfolding has_no_url
unary-alone zero = refl
unary-alone (suc n) = unary-alone n

unary-before :
    (n : ℕ) (rest : Bytes)
    → has_no_url false rest ≡ true
    → has_no_url false (unary n [] ++ rest) ≡ true
unfolding has_no_url
unary-before zero rest h = h
unary-before (suc n) rest h = unary-before n rest h

toy-IsUr : IsUr toy
toy-IsUr = record { alone = unary-alone; before = unary-before }

put_hybrid_prints_nothing_example : (put_hybrid desk 3 hello 5001 true machine).1.stdout ≡ []
put_hybrid_prints_nothing_example =
    put_hybrid_prints_nothing desk toy-IsUr 3 hello 5001 true machine
