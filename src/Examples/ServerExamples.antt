-- ===== src/Examples/ServerExamples.antt =====
-- The theorems on the server and its client, at a server in memory that answers every POST.
use hubert_rust.Base.{
  ℕ, zero, suc, ltb, ◌≤◌, ◌+◌, ◌*◌, ◌≡◌, ap, refl, Bool, false, true, Option, none, some, List, [],
  ◌∷◌, ◌++◌, arith, if◌then◌else◌, bytes_beq,
}
use hubert_rust.Base.Lists.{Bytes, text}
use hubert_rust.Base.Assoc.{lookup}
use hubert_rust.Base.Io.{Result, ok}
use hubert_rust.Time.{from_secs}
use hubert_rust.Memory.{new, put}
use hubert_rust.Server
use hubert_rust.Server.{
  ServerConfig, ServerError, ServerState, default_config, handle_put, handle_get, into_response,
}
use hubert_rust.Server.Lifetimes.{IsBounded, Event, serve, serve-IsBounded, in_memory, elapse}
use hubert_rust.Client.{Http, HttpResponse, get, put as client_put, put_body}
use hubert_rust.Client.Bodies.{handle_put-put_body, handle_get-arid_ur, put_reply}
use hubert_rust.Client.Connected.{IsConnected, http_of, reported, put_connected, get_connected}
use hubert_rust.Client.Polling.{IsTimed}
use hubert_rust.Client.Waiting.{waited, Arrives, client_get_waits}
use hubert_rust.Client.RoundTrip.{client_get-put}
use hubert_rust.Examples.Toys.{Tree, hello, toy, toy-IsLawful}
use hubert_rust.Examples.SqliteExamples.{tables}

abbrev pub State : Type 0
State = ServerState toy tables

abbrev pub url : Bytes
url = text "http://h"

abbrev pub post : Bytes → Bytes → State → Result HttpResponse Bytes × State
post to body w =
    if bytes_beq to (url ++ text "/put")
    then (
      ok (http_of (into_response (handle_put toy tables body w).0)),
      (handle_put toy tables body w).1,
    )
    else (
      ok (http_of (into_response (handle_get toy tables body w).0)),
      (handle_get toy tables body w).1,
    )

abbrev pub wire : Http
wire = record { World = State; post = post; now = λ w. 0; sleep = λ nanos w. w }

abbrev pub connected : IsConnected toy tables wire url
connected = record {
  server = λ w. w;
  put_answered = λ body w. refl;
  put_done = λ body w. refl;
  get_answered = λ body w. refl;
  get_done = λ body w. refl;
}

abbrev start : State
start = in_memory toy tables (new toy 0) default_config

-- ARID 3 is put for 60 seconds, and 59 seconds later it is there.
abbrev after : State
after = (client_put toy wire url 3 hello (some 60) start).1

abbrev later : State
later = record after { storage = elapse toy tables (from_secs 59) after.storage }

client_get-put_example :
    get toy wire 1 url 3 none later
    ≡ some (ok (some hello), (post (url ++ text "/get") (toy.arid_ur 3) later).1)
unfolding lookup
client_get-put_example =
    client_get-put toy tables wire toy-IsLawful url connected 0 3 hello (some 60) none start later
      (new toy 0) default_config (from_secs 59) (omega arith) refl refl refl (omega arith)

put_connected_example :
    let stored = Server.put toy tables 3 hello (some (from_secs 60)) start in
    ((client_put toy wire url 3 hello (some 60) start).0
      ≡ reported toy tables wire toy-IsLawful url connected 3 stored.0)
    × ((client_put toy wire url 3 hello (some 60) start).1 ≡ stored.1)
put_connected_example =
    put_connected toy tables wire toy-IsLawful url connected 3 hello (some 60) start (omega arith)

abbrev full : State
full = in_memory toy tables (put toy 3 hello none (new toy 0)).1 default_config

get_connected_example :
    let (r, w') = post (url ++ text "/get") (toy.arid_ur 3) full in
    (get toy wire 1 url 3 none full ≡ some (ok (some hello), w'))
    × (w' ≡ (Server.get toy tables 3 full).1)
unfolding Server.get hubert_rust.Storage.get_sync hubert_rust.Memory.get hubert_rust.Base.Poll.poll
    hubert_rust.Memory.get_pass lookup put hubert_rust.Base.Assoc.insert
get_connected_example =
    get_connected toy tables wire toy-IsLawful url connected 0 3 none full hello refl

handle_put-put_body_example :
    handle_put toy tables (put_body toy wire 3 hello (some 60)) start
    ≡ let (r, state') = Server.put toy tables 3 hello (some (from_secs 60)) start in
      (put_reply toy tables wire toy-IsLawful r, state')
handle_put-put_body_example =
    handle_put-put_body toy tables wire toy-IsLawful 3 hello (some 60) start (omega arith)

start-IsBounded : IsBounded toy tables default_config start
unfolding lookup
start-IsBounded = (new toy 0, refl, record { at = λ k e h. cc })

serve-IsBounded_example :
    IsBounded toy tables default_config
      (serve toy tables (Event.put_request (text "nonsense") ∷ Event.time_passes 5 ∷ []) start)
serve-IsBounded_example =
    serve-IsBounded toy tables default_config
      (Event.put_request (text "nonsense") ∷ Event.time_passes 5 ∷ []) start start-IsBounded

-- A server that has nothing; the world is its clock.
abbrev pub bare : Http
bare = record {
  World = ℕ;
  post = λ to body clock. (ok (record { status = 404; text = ok (text "Not found") }), clock);
  now = λ clock. clock;
  sleep = λ nanos clock. clock + nanos;
}

pub bare-IsTimed : IsTimed bare
bare-IsTimed = record {
  post_passes = λ to body clock. omega arith;
  sleep_passes = λ nanos clock. omega arith;
}

-- A server with a clock on which, in the first sleep of a client, another one puts `hello` at 3.
pub record Shared : Type 0 where
  pub state : State
  pub clock : ℕ

abbrev shared : Http
shared = record {
  World = Shared;
  post = λ to body w.
      let (r, state) = post to body w.state in (r, record { state = state; clock = w.clock + 5 });
  now = λ w. w.clock;
  sleep = λ nanos w. record {
    state = (Server.put toy tables 3 hello none w.state).1;
    clock = w.clock + nanos;
  };
}

shared-IsTimed : IsTimed shared
shared-IsTimed = record {
  post_passes = λ to body w. omega arith;
  sleep_passes = λ nanos w. omega arith;
}

abbrev shared_connected : IsConnected toy tables shared url
shared_connected = record {
  server = λ w. w.state;
  put_answered = λ body w. refl;
  put_done = λ body w. refl;
  get_answered = λ body w. refl;
  get_done = λ body w. refl;
}

abbrev empty : Shared
empty = record { state = start; clock = 7 }

abbrev filled : State
filled = (Server.put toy tables 3 hello none start).1

abbrev moment : ℕ → Shared
moment n = waited toy tables shared toy-IsLawful url shared_connected 3 n empty

get_start : (Server.get toy tables 3 start) ≡ (none, start)
unfolding Server.get hubert_rust.Storage.get_sync hubert_rust.Memory.get hubert_rust.Base.Poll.poll
    hubert_rust.Memory.get_pass lookup
get_start = refl

get_filled : (Server.get toy tables 3 filled) ≡ (some hello, filled)
unfolding Server.get hubert_rust.Storage.get_sync Server.put hubert_rust.Storage.put_sync
    hubert_rust.Memory.get hubert_rust.Base.Poll.poll hubert_rust.Memory.get_pass lookup put
    hubert_rust.Base.Assoc.insert
get_filled = refl

put_filled : (Server.put toy tables 3 hello none filled).1 ≡ filled
unfolding Server.put hubert_rust.Storage.put_sync put lookup hubert_rust.Base.Assoc.insert
put_filled = refl

handle_get-state :
    (state : State)
    → (handle_get toy tables (toy.arid_ur 3) state).1 ≡ (Server.get toy tables 3 state).1
handle_get-state state =
    ap (λ (x : Result Bytes ServerError × State). x.1)
      (handle_get-arid_ur toy tables wire toy-IsLawful 3 state)

moment-state : (n : ℕ) → (moment (suc n)).state ≡ filled
moment-state zero = rw (handle_get-state start, get_start) refl
moment-state (suc n) = rw (moment-state n, handle_get-state filled, get_filled, put_filled) refl

moment-clock : (n : ℕ) → (moment n).clock ≡ 7 + n * 1_000_000_005
moment-clock zero = refl
moment-clock (suc n) = omega (arith, moment-clock n)

hello-Arrives :
    Arrives toy tables shared toy-IsLawful url shared_connected 3 hello 1_000_000_000 5 empty
hello-Arrives = record { found = found; prompt = λ n. omega arith }
  where
    found :
        (n : ℕ)
        → (Server.get toy tables 3 (moment n).state).0
          ≡ (if ltb (moment n).clock 1_000_000_000 then none else some hello)
    found zero = ap (λ (x : Option Tree × State). x.0) get_start
    found (suc n) =
        let late : 1_000_000_000 ≤ (moment (suc n)).clock = omega (arith, moment-clock (suc n)) in
        rw (moment-state n, get_filled) (ground arith)

client_get_waits_example :
    (w : Shared) × (get toy shared 31 url 3 none empty ≡ some (ok (some hello), w))
client_get_waits_example =
    client_get_waits toy tables shared toy-IsLawful url shared_connected shared-IsTimed 31 3 hello
      none 1_000_000_000 5 empty hello-Arrives (omega arith) (omega arith)
