-- ===== src/Client/Bodies.antt =====
-- The bodies that the client writes and the server reads: handle_put and handle_get on what put and get
-- of `ServerKvClient` send.
use mathlib.Core.Option
use hubert_rust.Base.{
  ◌≡◌, ◌≢◌, refl, true, false, Option, none, some, List, [], ◌∷◌, ◌++◌, ◌≤◌, arith, ℕ,
}
use hubert_rust.Base.Lists.{Bytes, All, All-append, text}
use hubert_rust.Base.Io.{Result, ok, err}
use hubert_rust.Text.Graphic.{AllGraphic}
use hubert_rust.Text.Decimal.{
  decimal, decimal-AllGraphic, decimal-ne-nil, parse_u64-decimal, max_u64,
}
use hubert_rust.Text.Lines.{lines, lines-append, lines_one}
use hubert_rust.Text.Trim.{trim_graphic}
use hubert_rust.Text.Utf8.{is_utf8, IsAscii, is_utf8_of_ascii}
use hubert_rust.Gordian.{Gordian, IsLawful}
use hubert_rust.Time.{from_secs}
use hubert_rust.Sqlite.Statements.{Database}
use hubert_rust.Server
use hubert_rust.Server.{
  ServerState, ServerError, conflict, not_found, handle_put, handle_get, put_lines, parse_ttl,
  is_empty,
}
use hubert_rust.Client.{Http, put_body}

graphic-IsAscii : (s : Bytes) → AllGraphic s → All IsAscii s
graphic-IsAscii [] h = tt
graphic-IsAscii (c ∷ s) h = (omega arith, graphic-IsAscii s h.1)

-- Two lines of ASCII are ASCII.
IsAscii-lines : (a b : Bytes) → All IsAscii a → All IsAscii b → All IsAscii (a ++ (b'\n' ∷ b))
IsAscii-lines a b ha hb = All-append IsAscii a (b'\n' ∷ b) ha (omega arith, hb)

module _ (G : Gordian) (Q : Database) (H : Http) (L : IsLawful G) where
  open G use {Arid, arid_ur, Envelope, envelope_ur}

  arid-IsAscii : (k : Arid) → All IsAscii (arid_ur k)
  arid-IsAscii k = graphic-IsAscii (arid_ur k) (L.arid_graphic k)

  envelope-IsAscii : (e : Envelope) → All IsAscii (envelope_ur e)
  envelope-IsAscii e = graphic-IsAscii (envelope_ur e) (L.envelope_graphic e)

  put_body-utf8 : (k : Arid) (e : Envelope) (ttl : Option ℕ) → is_utf8 (put_body G H k e ttl) ≡ true
  unfolding put_body
  put_body-utf8 k e none =
      is_utf8_of_ascii _
        (IsAscii-lines (arid_ur k) (envelope_ur e) (arid-IsAscii k) (envelope-IsAscii e))
  put_body-utf8 k e (some ttl) = is_utf8_of_ascii _ (
      IsAscii-lines (arid_ur k) (envelope_ur e ++ (b'\n' ∷ decimal ttl)) (arid-IsAscii k) (
        IsAscii-lines (envelope_ur e) (decimal ttl) (envelope-IsAscii e)
          (graphic-IsAscii (decimal ttl) (decimal-AllGraphic ttl))))

  abbrev ttl_line : Option ℕ → List Bytes
  ttl_line none = []
  ttl_line (some ttl) = decimal ttl ∷ []

  lines-put_body :
      (k : Arid) (e : Envelope) (ttl : Option ℕ)
      → lines (put_body G H k e ttl) ≡ arid_ur k ∷ envelope_ur e ∷ ttl_line ttl
  unfolding put_body
  lines-put_body k e none = rw (
    lines-append (arid_ur k) (envelope_ur e) (L.arid_graphic k),
    lines_one (envelope_ur e) (L.envelope_graphic e) (L.envelope_ne_nil e),
  )
  lines-put_body k e (some ttl) = rw (
    lines-append (arid_ur k) (envelope_ur e ++ (b'\n' ∷ decimal ttl)) (L.arid_graphic k),
    lines-append (envelope_ur e) (decimal ttl) (L.envelope_graphic e),
    lines_one (decimal ttl) (decimal-AllGraphic ttl) (decimal-ne-nil ttl),
  )

  -- A `u64` fits.
  abbrev pub FitsU64 : Option ℕ → Type 0
  FitsU64 none = Unit {0}
  FitsU64 (some ttl) = ttl ≤ max_u64

  parse_ttl-line :
      (ttl : Option ℕ) → FitsU64 ttl → parse_ttl (ttl_line ttl) ≡ ok (Option.map from_secs ttl)
  unfolding parse_ttl
  parse_ttl-line none h = refl
  parse_ttl-line (some ttl) h = ground (arith, parse_u64-decimal ttl h)

  abbrev pub put_reply : Result (Unit {0}) Bytes → Result Bytes ServerError
  put_reply (ok _) = ok (text "OK")
  put_reply (err e) = err (conflict e)

  put_lines_lem :
      (k : Arid) (e : Envelope) (ttl : Option ℕ) (state : ServerState G Q)
      → FitsU64 ttl
      → put_lines G Q (arid_ur k ∷ envelope_ur e ∷ ttl_line ttl) state
        ≡ let (r, state') = Server.put G Q k e (Option.map from_secs ttl) state in
          (put_reply r, state')
  unfolding put_lines
  put_lines_lem k e ttl state h =
      ground (arith, L.arid_round_trip k, L.envelope_round_trip e, parse_ttl-line ttl h)

  -- The server understands the body of the client's `put`: it stores that very envelope at that very
  -- ARID, for the time to live that the client gave, and answers with the outcome.
  pub handle_put-put_body :
      (k : Arid) (e : Envelope) (ttl : Option ℕ) (state : ServerState G Q)
      → FitsU64 ttl
      → handle_put G Q (put_body G H k e ttl) state
        ≡ let (r, state') = Server.put G Q k e (Option.map from_secs ttl) state in
          (put_reply r, state')
  unfolding handle_put
  handle_put-put_body k e ttl state h =
      rw (put_body-utf8 k e ttl, lines-put_body k e ttl) (put_lines_lem k e ttl state h)

  abbrev pub get_reply : Option Envelope → Result Bytes ServerError
  get_reply none = err not_found
  get_reply (some e) = ok (envelope_ur e)

  not-is_empty : (s : Bytes) → s ≢ [] → is_empty s ≡ false
  unfolding is_empty
  not-is_empty [] h = absurd (h refl)
  not-is_empty (c ∷ s) h = refl

  -- The server understands the body of the client's `get`: it looks that very ARID up.
  pub handle_get-arid_ur :
      (k : Arid) (state : ServerState G Q)
      → handle_get G Q (arid_ur k) state
        ≡ let (r, state') = Server.get G Q k state in (get_reply r, state')
  unfolding handle_get
  handle_get-arid_ur k state = rw (trim_graphic (arid_ur k) (L.arid_graphic k)) (
      ground (
        arith,
        is_utf8_of_ascii (arid_ur k) (arid-IsAscii k),
        not-is_empty (arid_ur k) (L.arid_ne_nil k),
        L.arid_round_trip k,
      ))
