-- ===== src/Server.antt =====
-- server/server.rs: the server's state and its handlers. An answer is a status and a body; the
-- client's address only shows in the log, which is left out with the rest of what `verbose` prints.
pub mod Backends
pub mod Lifetimes
pub mod Requests
pub mod Routes
use mathlib.Core.Option
use hubert_rust.Base.{
  ℕ, Bool, true, false, Option, none, some, List, [], ◌∷◌, ◌++◌, ltb, if◌then◌else◌,
}
use hubert_rust.Base.Lists.{Bytes, text}
use hubert_rust.Base.Io.{Result, ok, err, map_err, Io, pure, fail, lift, ◌>>=◌, ◌>>◌}
use hubert_rust.Text.Decimal.{parse_u64}
use hubert_rust.Text.Lines.{lines}
use hubert_rust.Text.Trim.{trim}
use hubert_rust.Text.Utf8.{is_utf8}
use hubert_rust.Gordian.{Gordian}
use hubert_rust.Time.{from_secs, as_secs}
use hubert_rust.Sqlite.Statements.{Database}
use hubert_rust.Storage.{ServerKv, put_sync, get_sync}

pub record ServerConfig : Type 0 where
  pub port : ℕ
  pub max_ttl : ℕ
  pub verbose : Bool

abbrev pub default_config : ServerConfig
default_config = record { port = 45678; max_ttl = 86400; verbose = false }

-- The error type of the handlers.
pub data ServerError : Type 0 where
  bad_request : Bytes → ServerError
  conflict : Bytes → ServerError
  not_found : ServerError

pub record Response : Type 0 where
  pub status : ℕ
  pub body : Bytes

abbrev pub response : ℕ → Bytes → Response
response status body = record { status = status; body = body }

-- `StatusCode::OK` and the others by their numbers
unfoldable pub into_response : Result Bytes ServerError → Response
into_response (ok body) = response 200 body
into_response (err (bad_request message)) = response 400 message
into_response (err (conflict message)) = response 409 message
into_response (err not_found) = response 404 (text "Not found")

-- `if !b { return Err(e) }`
abbrev check : {S : Type 0} → Bool → ServerError → Io S ServerError (Unit {0})
check b e s = if b then (ok tt, s) else (err e, s)

-- `ok_or`, for what a parser did not accept
abbrev or_bad : {A : Type 0} → Bytes → Option A → Result A ServerError
or_bad message none = err (bad_request message)
or_bad message (some a) = ok a

-- The optional third line.
unfoldable pub parse_ttl : List Bytes → Result (Option ℕ) ServerError
parse_ttl [] = ok none
parse_ttl (line ∷ _) = elim (parse_u64 line) [
  | some seconds ↦ ok (some (from_secs seconds))
  | none ↦ err (bad_request (text "Invalid TTL"))
]

abbrev pub ok? : {A E : Type 0} → Result A E → Option A
ok? (ok a) = some a
ok? (err _) = none

unfoldable pub is_empty : Bytes → Bool
is_empty [] = true
is_empty (_ ∷ _) = false

module _ (G : Gordian) (Q : Database) where
  open G use {Arid, arid_from_ur, Envelope, envelope_ur, envelope_from_ur}

  pub record ServerState : Type 0 where
    pub storage : ServerKv G Q
    pub config : ServerConfig

  -- `ServerState::new`
  abbrev pub new_state : ServerConfig → ServerKv G Q → ServerState
  new_state config storage = record { storage = storage; config = config }

  -- The duration asked for, at most `max_ttl`, which also stands in for a missing one.
  unfoldable pub effective_ttl : ServerConfig → Option ℕ → ℕ
  effective_ttl config none = from_secs config.max_ttl
  effective_ttl config (some req) =
      if ltb (from_secs config.max_ttl) req then from_secs config.max_ttl else req

  unfoldable pub put : Arid → Envelope → Option ℕ → Io ServerState Bytes (Unit {0})
  unfolding effective_ttl
  put arid envelope requested_ttl state =
      let ttl_seconds = as_secs (effective_ttl state.config requested_ttl) in
      let (r, storage) = put_sync G Q arid envelope ttl_seconds state.storage in
      (r, record state { storage = storage })

  unfoldable pub get : Arid → ServerState → Option Envelope × ServerState
  get arid state =
      let (r, storage) = get_sync G Q arid state.storage in (r, record state { storage = storage })

  unfoldable pub put_lines : List Bytes → Io ServerState ServerError Bytes
  unfolding parse_ttl
  put_lines (first ∷ second ∷ rest) = do
    arid ← lift (or_bad (text "Invalid ur:arid") (arid_from_ur first))
    envelope ← lift (or_bad (text "Invalid ur:envelope") (ok? (envelope_from_ur second)))
    ttl ← lift (parse_ttl rest)
    λ state. let (r, state') = put arid envelope ttl state in (map_err conflict r, state')
    pure (text "OK")
  put_lines _ = fail (bad_request (text "Expected at least 2 lines: ur:arid and ur:envelope"))

  unfoldable pub handle_put : Bytes → Io ServerState ServerError Bytes
  unfolding put_lines
  handle_put body = do
    check (is_utf8 body) (bad_request (text "Invalid UTF-8"))
    put_lines (lines body)

  unfoldable pub handle_get : Bytes → Io ServerState ServerError Bytes
  unfolding is_empty
  handle_get body = do
    check (is_utf8 body) (bad_request (text "Invalid UTF-8"))
    let arid_str = trim body
    if is_empty arid_str then fail (bad_request (text "Expected ur:arid")) else do
      arid ← lift (or_bad (text "Invalid ur:arid") (arid_from_ur arid_str))
      λ state.
          let (r, state') = get arid state in
          elim r [
            | some envelope ↦ (ok (envelope_ur envelope), state')
            | none ↦ (err not_found, state')
          ]
