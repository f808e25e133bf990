-- ===== src/KvStore/Remote.antt =====
-- `ServerKvClient` is written once, joined to a server over either of its stores.
use mathlib.Core.Option
use hubert_rust.Base.{ℕ, ◌≡◌, refl, ◌∙◌, sym, ap, true, Option, none, some, arith, ◌++◌}
use hubert_rust.Base.Lists.{Bytes, text}
use hubert_rust.Base.Io.{Result, ok, err}
use hubert_rust.Base.Poll.{Pass, done, poll_ends}
use hubert_rust.Time.{from_secs, as_secs}
use hubert_rust.Error.{Error, already_exists, to_string}
use hubert_rust.Gordian.{Gordian, IsLawful}
use hubert_rust.KvStore.{client}
use hubert_rust.KvStore.WriteOnce.{Always, IsWriteOnce, IsTtl}
use hubert_rust.KvStore.Local.{memory_get_refuses, sqlite_get_refuses}
use hubert_rust.Memory
use hubert_rust.Memory.{Memory}
use hubert_rust.Sqlite
use hubert_rust.Sqlite.{SqliteKv}
use hubert_rust.Sqlite.Statements.{Database, IsTable}
use hubert_rust.Storage.{ServerKv, put_sync, get_sync}
use hubert_rust.Server
use hubert_rust.Server.{ServerState, ServerConfig, ServerError, effective_ttl, into_response}
use hubert_rust.Client
use hubert_rust.Client.{Http, get_pass, get_answer}
use hubert_rust.Client.Bodies.{FitsU64, get_reply, handle_get-arid_ur}
use hubert_rust.Client.Connected.{
  IsConnected, http_of, put_connected, get_pass_connected, get_pass_found,
}

module _ (G : Gordian) (Q : Database) (T : IsTable Q) where
  open G use {Arid, arid_ur, Envelope}

  memory_found :
      (k : Arid) (s : Memory G) (e e' : Envelope) (ttl : ℕ)
      (o : Option (Result (Option Envelope) Error × Memory G))
      → Memory.get G (λ _ s. s) 1 k (some 0) s ≡ o
      → (get_sync G Q k (ServerKv.memory s)).0 ≡ some e
      → (message : Bytes) × ((put_sync G Q k e' ttl (get_sync G Q k (ServerKv.memory s)).1).0
          ≡ err message)
  unfolding get_sync put_sync
  memory_found k s e e' ttl none q h = absurd (ground arith)
  memory_found k s e e' ttl (some (err error, s')) q h = absurd (ground arith)
  memory_found k s e e' ttl (some (ok none, s')) q h = absurd (ground arith)
  memory_found k s e e' ttl (some (ok (some found), s')) q h =
      let (error, refused) =
        memory_get_refuses G (λ _ s. s) 1 k (some 0) s s' found q e' (some ttl) in
      (to_string error, rw (q, refused) refl)

  sqlite_found :
      (k : Arid) (s : SqliteKv G Q) (e e' : Envelope) (ttl : ℕ)
      (o : Option (Result (Option Envelope) Error × SqliteKv G Q))
      → Sqlite.get G Q (λ _ s. s) 1 k (some 0) s ≡ o
      → (get_sync G Q k (ServerKv.sqlite s)).0 ≡ some e
      → (message : Bytes) × ((put_sync G Q k e' ttl (get_sync G Q k (ServerKv.sqlite s)).1).0
          ≡ err message)
  unfolding get_sync put_sync
  sqlite_found k s e e' ttl none q h = absurd (ground arith)
  sqlite_found k s e e' ttl (some (err error, s')) q h = absurd (ground arith)
  sqlite_found k s e e' ttl (some (ok none, s')) q h = absurd (ground arith)
  sqlite_found k s e e' ttl (some (ok (some found), s')) q h =
      let (error, refused) =
        sqlite_get_refuses G Q T (λ _ s. s) 1 k (some 0) s s' found q e' (some ttl) in
      (to_string error, rw (q, refused) refl)

  storage_found :
      (k : Arid) (kv : ServerKv G Q) (e e' : Envelope) (ttl : ℕ)
      → (get_sync G Q k kv).0 ≡ some e
      → (message : Bytes) × ((put_sync G Q k e' ttl (get_sync G Q k kv).1).0 ≡ err message)
  storage_found k (ServerKv.memory s) e e' ttl h = memory_found k s e e' ttl _ refl h
  storage_found k (ServerKv.sqlite s) e e' ttl h = sqlite_found k s e e' ttl _ refl h

  -- What `ServerState::get` has found `ServerState::put` does not replace.
  server_found :
      (k : Arid) (state : ServerState G Q) (e e' : Envelope) (ttl : Option ℕ)
      → (Server.get G Q k state).0 ≡ some e
      → (message : Bytes) × ((Server.put G Q k e' ttl (Server.get G Q k state).1).0 ≡ err message)
  unfolding Server.get Server.put
  server_found k state e e' ttl h =
      storage_found k state.storage e e' (as_secs (effective_ttl G Q state.config ttl)) h

  module _ (H : Http) (L : IsLawful G) (base_url : Bytes) (C : IsConnected G Q H base_url) where
    open C use {server}

    fits : (ttl : Option ℕ) → IsTtl ttl → FitsU64 G Q H L ttl
    fits none u = tt
    fits (some ttl) u = u

    -- The world in which `get` returns an envelope is one in which the server has just found one.
    abbrev IsAnswered : Arid → H.World → Type 0
    IsAnswered k w =
        (state : ServerState G Q) × (e : Envelope) × ((Server.get G Q k state).0 ≡ some e)
        × (server w ≡ (Server.get G Q k state).1)

    not_found_pass :
        (deadline : ℕ) (e : Envelope) (w w' : H.World)
        → get_answer G H deadline (http_of (into_response (get_reply G Q H L none))) w
          ≡ done (ok (some e)) w'
        → ⊥
    unfolding get_answer into_response
    not_found_pass deadline e w w' h = ground arith

    done-same :
        (a b : Result (Option Envelope) Error) (w w' : H.World)
        → ◌≡◌ {A = Pass H.World (Result (Option Envelope) Error)} (done a w) (done b w')
        → w ≡ w'
    done-same a b w w' h = cc

    get_pass-IsAnswered :
        (k : Arid) (deadline : ℕ) (t w' : H.World) (e : Envelope)
        → get_pass G H base_url k deadline t ≡ done (ok (some e)) w'
        → IsAnswered k w'
    get_pass-IsAnswered k deadline t w' e h = go (Server.get G Q k (server t)).0 refl
      where
        go : (o : Option Envelope) → (Server.get G Q k (server t)).0 ≡ o → IsAnswered k w'
        go none q = absurd (
            not_found_pass deadline e (H.post (base_url ++ text "/get") (arid_ur k) t).1 w'
              (rw q at (sym (get_pass_connected G Q H L base_url C deadline k t) ∙ h)))
        go (some found) q =
            let read = get_pass_found G Q H L base_url C deadline k found t q in
            let same =
              done-same (ok (some found)) (ok (some e))
                (H.post (base_url ++ text "/get") (arid_ur k) t).1 w' (sym read ∙ h) in
            (
              server t,
              found,
              q,
              rw same at (
                  C.get_done (arid_ur k) t
                  ∙ ap (λ (x : Result Bytes ServerError × ServerState G Q). x.1)
                      (handle_get-arid_ur G Q H L k (server t))),
            )

    refused :
        (k : Arid) (w : H.World)
        → IsAnswered k w
        → (e : Envelope) (ttl : Option ℕ) → IsTtl ttl
        → (error : Error) × ((Client.put G H base_url k e ttl w).0 ≡ err error)
    refused k w (state, found, there, after) e ttl u =
        let (message, q) = server_found k state found e (Option.map from_secs ttl) there in
        (
          already_exists (arid_ur k),
          (put_connected G Q H L base_url C k e ttl w (fits ttl u)).0 ∙ rw (after, q) refl,
        )

    get-IsAnswered :
        (fuel : ℕ) (k : Arid) (timeout : Option ℕ) (w w' : H.World) (e : Envelope)
        → Client.get G H fuel base_url k timeout w ≡ some (ok (some e), w')
        → IsAnswered k w'
    unfolding Client.get
    get-IsAnswered fuel k timeout w w' e h =
        let (t, q) = poll_ends _ _ fuel w _ w' h in get_pass-IsAnswered k _ t w' e q

    exists-IsAnswered :
        (fuel : ℕ) (k : Arid) (w w' : H.World)
        → Client.exists G H fuel base_url k w ≡ some (ok true, w')
        → IsAnswered k w'
    unfolding Client.exists
    exists-IsAnswered fuel k w w' h = go (Client.get G H fuel base_url k (some 1) w) refl
      where
        go :
            (o : Option (Result (Option Envelope) Error × H.World))
            → Client.get G H fuel base_url k (some 1) w ≡ o
            → IsAnswered k w'
        go none q = absurd (ground arith)
        go (some (err error, w'')) q = absurd (ground arith)
        go (some (ok none, w'')) q = absurd (ground arith)
        go (some (ok (some e), w'')) q = get-IsAnswered fuel k (some 1) w w' e (ground arith)

    pub client-IsWriteOnce : IsWriteOnce (client G H base_url) Always
    client-IsWriteOnce = record {
      put_keeps = λ k e ttl s v. tt;
      get_keeps = λ fuel k timeout s s' r v h. tt;
      exists_keeps = λ fuel k s s' r v h. tt;
      read = λ fuel k timeout w w' e v h e' ttl u.
          refused k w' (get-IsAnswered fuel k timeout w w' e h) e' ttl u;
      checked = λ fuel k w w' v h e ttl u. refused k w' (exists-IsAnswered fuel k w w' h) e ttl u;
    }
