-- ===== src/Server/Backends.antt =====
-- Two servers (server/server.rs) over the two storages behind one sequence of requests.
use hubert_rust.Base.{ℕ, ◌+◌, ◌^◌, ◌<◌, ◌≡◌, refl, false, Option, none, some, List, [], ◌∷◌, arith}
use hubert_rust.Base.Lists.{Bytes, text}
use hubert_rust.Base.Io.{Result, ok, err, map_ok, map_err}
use hubert_rust.Gordian.{Gordian, IsLawful}
use hubert_rust.Time.{as_secs}
use hubert_rust.Memory
use hubert_rust.Memory.{Memory}
use hubert_rust.Memory.Entries.{swept, expired_at}
use hubert_rust.Memory.Polling.{visible}
use hubert_rust.Sqlite
use hubert_rust.Sqlite.{SqliteKv}
use hubert_rust.Sqlite.Statements.{Database, IsTable}
use hubert_rust.Storage.{ServerKv, memory, sqlite, reply}
use hubert_rust.Storage.Agreement.{IsWorking, AreAlike}
use hubert_rust.Storage.Puts.{put_alike}
use hubert_rust.Storage.Gets.{get_alike}
use hubert_rust.Storage.Clocks.{
  memory_later, later, later-AreAlike, put_sync-memory, put_sync-sqlite,
}
use hubert_rust.Server.{
  ServerConfig, ServerState, ServerError, Response, effective_ttl, put, get, handle_put, handle_get,
  into_response,
}
use hubert_rust.Server.Requests.{
  parse_put, parse_get, put_parsed, get_parsed, handle_put-parsed, handle_get-parsed,
}
use hubert_rust.Server.Lifetimes.{as_secs-effective_ttl}

-- A body that is posted, or whole seconds that pass.
pub data Request : Type 0 where
  put_body : Bytes → Request
  get_body : Bytes → Request
  wait : ℕ → Request

module _ (G : Gordian) (Q : Database) where
  open G use {Arid, Envelope}

  abbrev pub over : ServerConfig → ServerKv G Q → ServerState G Q
  over c kv = record { storage = kv; config = c }

  -- What the server answers.
  pub responses : List Request → ServerState G Q → List Response
  responses [] state = []
  responses (put_body body ∷ rest) state =
      let (r, state') = handle_put G Q body state in into_response r ∷ responses rest state'
  responses (get_body body ∷ rest) state =
      let (r, state') = handle_get G Q body state in into_response r ∷ responses rest state'
  responses (wait seconds ∷ rest) state =
      responses rest (record state { storage = later G Q seconds state.storage })

  abbrev Parsed : Type 0
  Parsed = Result (Arid × Envelope × Option ℕ) ServerError

  abbrev seconds_of : ServerConfig → Option ℕ → ℕ
  seconds_of c ttl = as_secs (effective_ttl G Q c ttl)

  -- The map after a request.
  abbrev pub stored : ServerConfig → Parsed → Memory G → Memory G
  stored c (err e) s = s
  stored c (ok (k, e, ttl)) s = (Memory.put G k e (some (seconds_of c ttl)) s).1

  abbrev pub looked : Result Arid ServerError → Memory G → Memory G
  looked (err e) s = s
  looked (ok k) s = swept G k s

  -- What is put does not meet an entry of the map that has expired and is still there.
  abbrev pub IsFresh : Parsed → Memory G → Type 0
  IsFresh (err e) s = Unit {0}
  IsFresh (ok (k, e, ttl)) s = expired_at G k s ≡ false

  -- It is so at every request, and no time leaves 63 bits.
  unfoldable pub AreTame : ServerConfig → List Request → Memory G → ℕ → Type 0
  AreTame c [] s unix = Unit {0}
  AreTame c (put_body body ∷ rest) s unix =
      IsFresh (parse_put G body) s
      × (unix + c.max_ttl < 2 ^ 63)
      × AreTame c rest (stored c (parse_put G body) s) unix
  AreTame c (get_body body ∷ rest) s unix = AreTame c rest (looked (parse_get G body) s) unix
  AreTame c (wait seconds ∷ rest) s unix =
      (unix + seconds < 2 ^ 63) × AreTame c rest (memory_later G Q seconds s) (unix + seconds)

  module _ (L : IsTable Q) (W : IsWorking Q L) (C : IsLawful G) (c : ServerConfig) where
    put_parsed_alike :
        (p : Parsed) (unix : ℕ) (s : Memory G) (t : SqliteKv G Q)
        → AreAlike G Q L unix s t
        → IsFresh p s
        → unix + c.max_ttl < 2 ^ 63
        → (r : Result Bytes ServerError) × (t' : SqliteKv G Q) × (put_parsed G Q p
              (over c (memory s))
            ≡ (r, over c (memory (stored c p s))))
          × (put_parsed G Q p (over c (sqlite t)) ≡ (r, over c (sqlite t')))
          × AreAlike G Q L unix (stored c p s) t'
    unfolding put
    put_parsed_alike (err e) unix s t h fresh small = (err e, t, refl, refl, h)
    put_parsed_alike (ok (k, e, ttl)) unix s t h fresh small =
        let seconds = seconds_of c ttl in
        let (same, alike) =
          put_alike G Q L W C k e seconds unix s t h
            (omega (arith, as_secs-effective_ttl G Q c ttl)) fresh in
        (
          map_ok (λ _. text "OK")
              (map_err ServerError.conflict (reply G Q (Memory.put G k e (some seconds) s).0)),
          (Sqlite.put G Q k e (some seconds) t).1,
          rw (put_sync-memory G Q k e seconds s) refl,
          rw (put_sync-sqlite G Q k e seconds t, same) refl,
          alike,
        )

    get_parsed_alike :
        (p : Result Arid ServerError) (unix : ℕ) (s : Memory G) (t : SqliteKv G Q)
        → AreAlike G Q L unix s t
        → (r : Result Bytes ServerError) × (t' : SqliteKv G Q) × (get_parsed G Q p
              (over c (memory s))
            ≡ (r, over c (memory (looked p s))))
          × (get_parsed G Q p (over c (sqlite t)) ≡ (r, over c (sqlite t')))
          × AreAlike G Q L unix (looked p s) t'
    unfolding get
    get_parsed_alike (err e) unix s t h = (err e, t, refl, refl, h)
    get_parsed_alike (ok k) unix s t h =
        let (t', in_map, in_table, alike) = get_alike G Q L W C k unix s t h in
        (
          elim (visible G k s) [
            | some envelope ↦ ok (G.envelope_ur envelope)
            | none ↦ err ServerError.not_found
          ],
          t',
          rw in_map refl,
          rw in_table refl,
          alike,
        )

    -- A server in memory and a server over a database that hold the same answer every sequence of
    -- bodies that are posted to /put and /get, well-formed or not, and of whole seconds of time
    -- alike, down to the texts of the errors: provided that no statement of the database fails but an
    -- insertion at a key that is taken, that no body puts at an ARID at which the map still has an
    -- entry that has expired, and that the clock and `max_ttl` from it on fit 63 bits.
    pub servers_agree :
        (requests : List Request) (unix : ℕ) (s : Memory G) (t : SqliteKv G Q)
        → AreAlike G Q L unix s t
        → AreTame c requests s unix
        → responses requests (over c (memory s)) ≡ responses requests (over c (sqlite t))
    unfolding responses AreTame
    servers_agree [] unix s t h tame = refl
    servers_agree (put_body body ∷ rest) unix s t h (fresh, small, tame) =
        let (r, t', in_map, in_table, alike) =
          put_parsed_alike (parse_put G body) unix s t h fresh small in
        rw
          (
            handle_put-parsed G Q body (over c (memory s)),
            handle_put-parsed G Q body (over c (sqlite t)),
            in_map,
            in_table,
            servers_agree rest unix _ t' alike tame,
          )
          refl
    servers_agree (get_body body ∷ rest) unix s t h tame =
        let (r, t', in_map, in_table, alike) = get_parsed_alike (parse_get G body) unix s t h in
        rw
          (
            handle_get-parsed G Q body (over c (memory s)),
            handle_get-parsed G Q body (over c (sqlite t)),
            in_map,
            in_table,
            servers_agree rest unix _ t' alike tame,
          )
          refl
    servers_agree (wait seconds ∷ rest) unix s t h (small, tame) =
        servers_agree rest (unix + seconds) _ _ (later-AreAlike G Q L W C seconds unix s t small h)
          tame
