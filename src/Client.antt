-- ===== src/Client.antt =====
-- server/kv.rs: `ServerKvClient`. HTTP is a parameter: what a POST does to the world and returns.
-- What `verbose` prints is left out.
pub mod Bodies
pub mod Connected
pub mod Polling
pub mod RoundTrip
pub mod Waiting
use mathlib.Core.Option
use hubert_rust.Base.{
  ℕ, ◌+◌, Bool, true, false, Option, none, some, List, [], ◌∷◌, ◌++◌, leb, ◌==◌, if◌then◌else◌,
}
use hubert_rust.Base.Lists.{Bytes, text, newline}
use hubert_rust.Base.Io.{Result, ok, err, map_err, map_ok, Io}
use hubert_rust.Base.Poll.{Pass, done, again, poll}
use hubert_rust.Text.Decimal.{decimal}
use hubert_rust.Error.{
  Error, already_exists, server, general, network_error, parse_error, reqwest_error,
}
use hubert_rust.Gordian.{Gordian}
use hubert_rust.Time.{from_secs, from_millis}

-- What `send` returns: the status, and what `text` gives when the body is read.
pub record HttpResponse : Type 0 where
  pub status : ℕ
  pub text : Result Bytes Bytes

-- reqwest and the network behind it, with the clock and what happens in a sleep.
pub record Http : Type 1 where
  pub World : Type 0
  pub post : Bytes → Bytes → World → Result HttpResponse Bytes × World
  pub now : World → ℕ
  pub sleep : ℕ → World → World

-- `unwrap_or_default`
abbrev or_default : Result Bytes Bytes → Bytes
or_default (ok message) = message
or_default (err _) = []

abbrev pub is_some {ℓ} : {A : Type ℓ} → Option A → Bool
is_some none = false
is_some (some _) = true

-- `timeout_seconds.unwrap_or(30)`
abbrev pub default_timeout : Option ℕ → ℕ
default_timeout none = 30
default_timeout (some seconds) = seconds

module _ (G : Gordian) (H : Http) where
  open G use {Arid, arid_ur, Envelope, envelope_ur, envelope_from_ur}
  open H use {World, post, now, sleep}

  unfoldable pub put_body : Arid → Envelope → Option ℕ → Bytes
  put_body arid envelope (some ttl) =
      arid_ur arid ++ (b'\n' ∷ (envelope_ur envelope ++ (b'\n' ∷ decimal ttl)))
  put_body arid envelope none = arid_ur arid ++ (b'\n' ∷ envelope_ur envelope)

  unfoldable pub put_answer : Arid → HttpResponse → Result Bytes Error
  put_answer arid response =
      if response.status == 200
      then ok (text "Stored successfully")
      else if response.status == 409
      then err (already_exists (arid_ur arid))
      else err (server (general (or_default response.text)))

  unfoldable pub put : Bytes → Arid → Envelope → Option ℕ → Io World Error Bytes
  unfolding put_answer
  put base_url arid envelope ttl_seconds w =
      let (r, w') = post (base_url ++ text "/put") (put_body arid envelope ttl_seconds) w in
      elim r [
        | err e ↦ (err (server (reqwest_error e)), w')
        | ok response ↦ (put_answer arid response, w')
      ]

  abbrev pub put_with_ttl : Bytes → Arid → Envelope → ℕ → Io World Error Bytes
  put_with_ttl base_url arid envelope ttl_seconds = put base_url arid envelope (some ttl_seconds)

  abbrev Answer : Type 0
  Answer = Result (Option Envelope) Error

  -- The body of an answer with status 200.
  unfoldable pub read_envelope : HttpResponse → Answer
  read_envelope response = elim response.text [
    | err e ↦ err (server (network_error e))
    | ok str ↦ elim (envelope_from_ur str) [
      | err e ↦ err (server (parse_error e))
      | ok envelope ↦ ok (some envelope)
    ]
  ]

  unfoldable pub get_answer : ℕ → HttpResponse → World → Pass World Answer
  unfolding read_envelope
  get_answer deadline response w =
      if response.status == 200
      then done (read_envelope response) w
      else if response.status == 404
      then (if leb deadline (now w) then done (ok none) w else again w)
      else done (err (server (general (or_default response.text)))) w

  unfoldable pub get_pass : Bytes → Arid → ℕ → World → Pass World Answer
  unfolding get_answer
  get_pass base_url arid deadline w =
      let (r, w') = post (base_url ++ text "/get") (arid_ur arid) w in
      elim r [
        | err e ↦ done (err (server (reqwest_error e))) w'
        | ok response ↦ get_answer deadline response w'
      ]

  unfoldable pub get : ℕ → Bytes → Arid → Option ℕ → World → Option (Answer × World)
  get fuel base_url arid timeout_seconds w =
      let deadline = now w + from_secs (default_timeout timeout_seconds) in
      poll (get_pass base_url arid deadline) (sleep (from_millis 1000)) fuel w

  -- `is_some` of what `get` finds within a second.
  unfoldable pub exists : ℕ → Bytes → Arid → World → Option (Result Bool Error × World)
  exists fuel base_url arid w =
      Option.map (λ (r, w'). (map_ok is_some r, w')) (get fuel base_url arid (some 1) w)
