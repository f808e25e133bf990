-- ===== src/Client/Connected.antt =====
-- `ServerKvClient` joined to the server: what its operations return when each POST is answered by
-- the handlers of server/server.rs.
use mathlib.Core.Option
use hubert_rust.Base.{◌≡◌, refl, ◌∙◌, ap, Option, some, ◌++◌, ◌+◌, arith, ℕ, suc}
use hubert_rust.Base.Lists.{Bytes, text}
use hubert_rust.Base.Io.{Result, ok, err}
use hubert_rust.Base.Poll.{done, poll_done}
use hubert_rust.Error.{Error, already_exists}
use hubert_rust.Gordian.{Gordian, IsLawful}
use hubert_rust.Time.{from_secs}
use hubert_rust.Sqlite.Statements.{Database}
use hubert_rust.Server
use hubert_rust.Server.{
  ServerState, Response, ServerError, into_response, handle_put, handle_get, conflict, not_found,
}
use hubert_rust.Client.{
  Http, HttpResponse, put, put_body, put_answer, get, get_pass, get_answer, default_timeout,
}
use hubert_rust.Client.Bodies.{
  FitsU64, put_reply, get_reply, handle_put-put_body, handle_get-arid_ur,
}

abbrev pub http_of : Response → HttpResponse
http_of r = record { status = r.status; text = ok r.body }

-- The world holds a server, and a POST to its URLs is answered by its handlers.
pub record IsConnected (G : Gordian) (Q : Database) (H : Http) (base_url : Bytes) : Type 0 where
  pub server : H.World → ServerState G Q
  pub put_answered :
      (body : Bytes) (w : H.World)
      → (H.post (base_url ++ text "/put") body w).0
        ≡ ok (http_of (into_response (handle_put G Q body (server w)).0))
  pub put_done :
      (body : Bytes) (w : H.World)
      → server (H.post (base_url ++ text "/put") body w).1 ≡ (handle_put G Q body (server w)).1
  pub get_answered :
      (body : Bytes) (w : H.World)
      → (H.post (base_url ++ text "/get") body w).0
        ≡ ok (http_of (into_response (handle_get G Q body (server w)).0))
  pub get_done :
      (body : Bytes) (w : H.World)
      → server (H.post (base_url ++ text "/get") body w).1 ≡ (handle_get G Q body (server w)).1

module _ (G : Gordian) (Q : Database) (H : Http) (L : IsLawful G) (base_url : Bytes)
    (C : IsConnected G Q H base_url) where
  open G use {Arid, arid_ur, Envelope, envelope_ur}
  open H use {World, post}
  open C use {server}

  -- How the client reports what the storage answered.
  abbrev pub reported : Arid → Result (Unit {0}) Bytes → Result Bytes Error
  reported k (ok _) = ok (text "Stored successfully")
  reported k (err _) = err (already_exists (arid_ur k))

  put_answer-reported :
      (k : Arid) (r : Result (Unit {0}) Bytes)
      → put_answer G H k (http_of (into_response (put_reply G Q H L r))) ≡ reported k r
  unfolding put_answer into_response
  put_answer-reported k (ok u) = refl
  put_answer-reported k (err e) = refl

  -- Through a connected client, `put` stores in the server's storage what was asked for, and reports
  -- success or `AlreadyExists`: whatever the storage's error was, the client says `AlreadyExists`.
  pub put_connected :
      (k : Arid) (e : Envelope) (ttl : Option ℕ) (w : World)
      → FitsU64 G Q H L ttl
      → let stored = Server.put G Q k e (Option.map from_secs ttl) (server w) in
        ((put G H base_url k e ttl w).0 ≡ reported k stored.0)
        × (server (put G H base_url k e ttl w).1 ≡ stored.1)
  unfolding put
  put_connected k e ttl w fits =
      let body = put_body G H k e ttl in
      let handled = handle_put-put_body G Q H L k e ttl (server w) fits in
      (
        ground (
          arith,
          C.put_answered body w,
          ap (λ (x : Result Bytes ServerError × ServerState G Q). x.0) handled,
          put_answer-reported k (Server.put G Q k e (Option.map from_secs ttl) (server w)).0,
        ),
        ground (
          arith,
          C.put_answered body w,
          C.put_done body w,
          ap (λ (x : Result Bytes ServerError × ServerState G Q). x.1) handled,
        ),
      )

  get_answer-found :
      (deadline : ℕ) (e : Envelope) (w : World)
      → get_answer G H deadline (http_of (into_response (get_reply G Q H L (some e)))) w
        ≡ done (ok (some e)) w
  unfolding get_answer into_response
  get_answer-found deadline e w = ground (arith, L.envelope_round_trip e)

  -- A pass of `get` reads the reply to what the storage answered.
  pub get_pass_connected :
      (deadline : ℕ) (k : Arid) (w : World)
      → get_pass G H base_url k deadline w
        ≡ get_answer G H deadline
            (http_of (into_response (get_reply G Q H L (Server.get G Q k (server w)).0)))
            (post (base_url ++ text "/get") (arid_ur k) w).1
  unfolding get_pass
  get_pass_connected deadline k w = ground (
    arith,
    C.get_answered (arid_ur k) w,
    ap (λ (x : Result Bytes ServerError × ServerState G Q). x.0)
        (handle_get-arid_ur G Q H L k (server w)),
  )

  pub get_pass_found :
      (deadline : ℕ) (k : Arid) (e : Envelope) (w : World)
      → (Server.get G Q k (server w)).0 ≡ some e
      → get_pass G H base_url k deadline w
        ≡ done (ok (some e)) (post (base_url ++ text "/get") (arid_ur k) w).1
  get_pass_found deadline k e w there =
      get_pass_connected deadline k w
      ∙ rw there (get_answer-found deadline e (post (base_url ++ text "/get") (arid_ur k) w).1)

  -- If the server has an envelope at the ARID, a connected client's `get` returns that envelope with
  -- its first request, whatever its timeout.
  pub get_connected :
      (fuel : ℕ) (k : Arid) (timeout : Option ℕ) (w : World) (e : Envelope)
      → (Server.get G Q k (server w)).0 ≡ some e
      → let (r, w') = post (base_url ++ text "/get") (arid_ur k) w in
        (get G H (suc fuel) base_url k timeout w ≡ some (ok (some e), w'))
        × (server w' ≡ (Server.get G Q k (server w)).1)
  unfolding get
  get_connected fuel k timeout w e there = (
    poll_done _ _ fuel w
        (get_pass_found (H.now w + from_secs (default_timeout timeout)) k e w there),
    C.get_done (arid_ur k) w
        ∙ ap (λ (x : Result Bytes ServerError × ServerState G Q). x.1)
            (handle_get-arid_ur G Q H L k (server w)),
  )
