-- ===== src/Examples/Desk.antt =====
-- A machine that reaches a server in memory, an IPFS daemon and a DHT.
use hubert_rust.Base.{
  ◌≡◌, refl, Option, none, some, List, [], ◌∷◌, ◌++◌, bytes_eq, bytes_beq, arith, if◌then◌else◌,
}
use hubert_rust.Base.Lists.{Bytes, text, All}
use hubert_rust.Base.Assoc.{lookup}
use hubert_rust.Base.Io.{Result, ok, err}
use hubert_rust.Json.{Json, IsJson}
use hubert_rust.Memory.{new}
use hubert_rust.Server.{ServerState, default_config, into_response, handle_put, handle_get}
use hubert_rust.Server.Routes.{handle_health, routes, answer}
use hubert_rust.Server.Lifetimes.{in_memory}
use hubert_rust.Client.{HttpResponse}
use hubert_rust.Client.Connected.{http_of}
use hubert_rust.Cli.{StorageBackend, PutOptions, CheckOptions, Platform, Machine, Run}
use hubert_rust.Cli.Serving.{IsServing, ServedRoute}
use hubert_rust.Cli.Exchange.{server_url}
use hubert_rust.Examples.Toys.{
  Tree, unit, words, assertion, plus, print, tree_of, tree_of-print, toy, forest,
}
use hubert_rust.Examples.SqliteExamples.{tables}
use hubert_rust.Examples.KeyExamples.{ciphers}
use hubert_rust.Examples.DhtExamples.{dht, net}
use hubert_rust.Examples.Daemon.{kubo}
use hubert_rust.Examples.IpfsExamples.{idle}

-- Values of JSON as trees.
abbrev pub object : List (Bytes × Tree) → Tree
object [] = unit
object ((key, v) ∷ fields) = plus (assertion (words key) v) (object fields)

abbrev pub get_field : Bytes → Tree → Option Tree
get_field key (plus (assertion (words key') v) t) =
    let rest = get_field key t in if bytes_beq key' key then some v else rest
get_field key _ = none

abbrev pub as_words : Tree → Option Bytes
as_words (words s) = some s
as_words _ = none

abbrev pub forest_json : Json
forest_json = record {
  Value = Tree;
  object = object;
  string = words;
  to_string = λ v. print v [];
  from_str = tree_of;
  get = get_field;
  as_str = as_words;
}

pub get_field-object :
    (key : Bytes) (fields : List (Bytes × Tree))
    → get_field key (object fields) ≡ lookup bytes_eq key fields
unfolding lookup
get_field-object key [] = refl
get_field-object key ((key', v) ∷ fields) = ground (arith, get_field-object key fields)

pub forest_json-IsJson : IsJson forest_json
forest_json-IsJson = record {
  from_str-to_string = tree_of-print;
  get-object = get_field-object;
  as_str-string = λ s. refl;
}

abbrev pub State : Type 0
State = ServerState toy tables

abbrev pub version : Bytes
version = text "0.5.0"

abbrev pub base_url : Bytes
base_url = server_url none none

abbrev pub post : Bytes → Bytes → State → Result HttpResponse Bytes × State
post to body w =
    if bytes_beq to (base_url ++ text "/put")
    then (
      ok (http_of (into_response (handle_put toy tables body w).0)),
      (handle_put toy tables body w).1,
    )
    else (
      ok (http_of (into_response (handle_get toy tables body w).0)),
      (handle_get toy tables body w).1,
    )

abbrev pub desk : Platform
desk = record {
  gordian = toy;
  envelopes = forest;
  crypto = ciphers;
  dht = dht;
  daemon = kubo;
  http = record { World = State; post = post; now = λ w. 0; sleep = λ nanos w. w };
  json = forest_json;
  byte_envelope = words;
  start_dht = λ n. (ok tt, n);
  testnet = λ n. (ok tt, n);
  post_within = λ nanos to w. (err (text "refused"), w);
  get_within = λ nanos to w. (some (ok (http_of (handle_health forest_json version))), w);
  status_text = λ status. text "status";
}

pub served : All (ServedRoute desk tables base_url version (λ w. w)) routes
unfolding answer hubert_rust.Cli.Stores.url hubert_rust.Text.Decimal.decimal
served = (λ nanos w. (refl, refl), (λ body w. (refl, refl), (λ body w. (refl, refl), tt)))

abbrev pub serving : IsServing desk tables base_url version
serving = record { server = λ w. w; all = served }

abbrev pub machine : Machine desk
machine = record {
  net = net;
  node = idle.node;
  web = in_memory toy tables (new toy 0) default_config;
  new_arid = 8;
  random_data = λ size. [];
  stdout = [];
}
