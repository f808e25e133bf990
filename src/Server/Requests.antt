-- ===== src/Server/Requests.antt =====
-- The handlers of server/server.rs read their body first, and then ask the storage at most once.
use hubert_rust.Base.{
  ℕ, ◌≡◌, refl, Option, none, some, List, [], ◌∷◌, arith, inl, inr, Bool-cases, Option-cases,
  if◌then◌else◌,
}
use hubert_rust.Base.Lists.{Bytes, text}
use hubert_rust.Base.Io.{Result, ok, err, map_ok, map_err, Io}
use hubert_rust.Text.Lines.{lines}
use hubert_rust.Text.Trim.{trim}
use hubert_rust.Text.Utf8.{is_utf8}
use hubert_rust.Gordian.{Gordian}
use hubert_rust.Sqlite.Statements.{Database}
use hubert_rust.Server.{
  ServerState, ServerError, bad_request, conflict, not_found, put, get, put_lines, handle_put,
  handle_get, parse_ttl, ok?, or_bad, is_empty,
}

abbrev and_then : {A B E : Type 0} → Result A E → (A → Result B E) → Result B E
and_then (ok a) f = f a
and_then (err e) f = err e

module _ (G : Gordian) where
  open G use {Arid, arid_from_ur, Envelope, envelope_from_ur}

  -- The ARID, the envelope and the time to live that a body asks to put.
  abbrev parse_lines : List Bytes → Result (Arid × Envelope × Option ℕ) ServerError
  parse_lines (first ∷ second ∷ rest) =
      and_then (or_bad (text "Invalid ur:arid") (arid_from_ur first)) (λ arid.
        and_then (or_bad (text "Invalid ur:envelope") (ok? (envelope_from_ur second)))
          (λ envelope. map_ok (λ ttl. (arid, envelope, ttl)) (parse_ttl rest)))
  parse_lines _ = err (bad_request (text "Expected at least 2 lines: ur:arid and ur:envelope"))

  abbrev pub parse_put : Bytes → Result (Arid × Envelope × Option ℕ) ServerError
  parse_put body =
      if is_utf8 body then parse_lines (lines body) else err (bad_request (text "Invalid UTF-8"))

  -- The ARID that a body asks for.
  abbrev pub parse_get : Bytes → Result Arid ServerError
  parse_get body =
      if is_utf8 body
      then (if is_empty (trim body)
          then err (bad_request (text "Expected ur:arid"))
          else or_bad (text "Invalid ur:arid") (arid_from_ur (trim body)))
      else err (bad_request (text "Invalid UTF-8"))

  module _ (Q : Database) where
    -- What is done with a body that was read, and with one that was not.
    abbrev pub put_parsed :
        Result (Arid × Envelope × Option ℕ) ServerError → Io (ServerState G Q) ServerError Bytes
    put_parsed (err e) state = (err e, state)
    put_parsed (ok (arid, envelope, ttl)) state =
        let (r, state') = put G Q arid envelope ttl state in
        (map_ok (λ _. text "OK") (map_err conflict r), state')

    abbrev pub get_parsed : Result Arid ServerError → Io (ServerState G Q) ServerError Bytes
    get_parsed (err e) state = (err e, state)
    get_parsed (ok arid) state =
        let (r, state') = get G Q arid state in
        (elim r [ some envelope ↦ ok (G.envelope_ur envelope) | none ↦ err not_found ], state')

    put_lines-parsed :
        (l : List Bytes) (state : ServerState G Q)
        → put_lines G Q l state ≡ put_parsed (parse_lines l) state
    unfolding put_lines
    put_lines-parsed [] state = refl
    put_lines-parsed (a ∷ []) state = refl
    put_lines-parsed (a ∷ b ∷ rest) state = elim (Option-cases (arid_from_ur a)) [
      | inl bad ↦ ground arith
      | inr (k, arid_ok) ↦ elim (Option-cases (ok? (envelope_from_ur b))) [
        | inl bad ↦ ground arith
        | inr (e, envelope_ok) ↦ go k arid_ok e envelope_ok (parse_ttl rest) refl
      ]
    ]
      where
        go :
            (k : Arid)
            → arid_from_ur a ≡ some k
            → (e : Envelope) → ok? (envelope_from_ur b) ≡ some e
            → (t : Result (Option ℕ) ServerError) → parse_ttl rest ≡ t
            → put_lines G Q (a ∷ b ∷ rest) state ≡ put_parsed (parse_lines (a ∷ b ∷ rest)) state
        go k arid_ok e envelope_ok (err m) bad = ground arith
        go k arid_ok e envelope_ok (ok d) ttl_ok = ground arith

    pub handle_put-parsed :
        (body : Bytes) (state : ServerState G Q)
        → handle_put G Q body state ≡ put_parsed (parse_put body) state
    unfolding handle_put
    handle_put-parsed body state = elim (Bool-cases (is_utf8 body)) [
      | inl good ↦ rw good (put_lines-parsed (lines body) state)
      | inr bad ↦ rw bad refl
    ]

    pub handle_get-parsed :
        (body : Bytes) (state : ServerState G Q)
        → handle_get G Q body state ≡ get_parsed (parse_get body) state
    unfolding handle_get
    handle_get-parsed body state = elim (Bool-cases (is_utf8 body)) [
      | inr bad ↦ ground arith
      | inl good ↦ elim (Bool-cases (is_empty (trim body))) [
        | inl blank ↦ ground arith
        | inr some_text ↦ elim (Option-cases (arid_from_ur (trim body))) [
          | inl bad ↦ ground arith
          | inr (k, parsed) ↦ ground arith
        ]
      ]
    ]
