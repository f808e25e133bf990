-- ===== src/Server/Lifetimes.antt =====
-- How long the server keeps an entry (server/server.rs): the time to live and `max_ttl`.
use mathlib.Core.Option
use hubert_rust.Base.{
  ◌≡◌, refl, ◌∙◌, Option, none, some, List, [], ◌∷◌, ◌≤◌, ◌+◌, arith, ℕ, min, sym, ◌⊎◌, inl, inr,
  Bool-cases,
}
use hubert_rust.Base.Lists.{Bytes}
use hubert_rust.Base.Io.{Result, ok, err}
use hubert_rust.Gordian.{Gordian}
use hubert_rust.Time.{from_secs, as_secs}
use hubert_rust.Memory
use hubert_rust.Memory.{Memory, StorageEntry, entry, get_pass}
use hubert_rust.Memory.Entries.{
  fresh, or_fresh, entry-put, now-put, entry-evict, now-evict, expired_at, swept,
}
use hubert_rust.Memory.Polling.{visible, get_now}
use hubert_rust.Sqlite.Statements.{Database}
use hubert_rust.Storage
use hubert_rust.Storage.{ServerKv, memory, put_sync, get_sync}
use hubert_rust.Server.Requests.{
  parse_put, parse_get, put_parsed, get_parsed, handle_put-parsed, handle_get-parsed,
}
use hubert_rust.Server.{
  ServerConfig, ServerState, ServerError, effective_ttl, put, get, handle_put, handle_get,
}

-- The seconds for which the server keeps an entry.
abbrev pub granted : ℕ → Option ℕ → ℕ
granted max_ttl none = max_ttl
granted max_ttl (some ttl) = min ttl max_ttl

module _ (G : Gordian) (Q : Database) where
  open G use {Arid, Envelope, arid_eq}

  pub effective_ttl-granted :
      (c : ServerConfig) (ttl : Option ℕ)
      → as_secs (effective_ttl G Q c (Option.map from_secs ttl)) ≡ granted c.max_ttl ttl
  unfolding effective_ttl
  effective_ttl-granted c none = omega arith
  effective_ttl-granted c (some ttl) = ground arith

  abbrev pub in_memory : Memory G → ServerConfig → ServerState G Q
  in_memory s c = record { storage = memory s; config = c }

  -- `ServerState::put` over `MemoryKv` is its `put` for the seconds granted.
  pub put-in_memory :
      (k : Arid) (e : Envelope) (ttl : Option ℕ) (s : Memory G) (c : ServerConfig)
      → put G Q k e (Option.map from_secs ttl) (in_memory s c)
        ≡ let (r, s') = Memory.put G k e (some (granted c.max_ttl ttl)) s in
          (Storage.reply G Q r, in_memory s' c)
  unfolding put put_sync
  put-in_memory k e ttl s c = ground (arith, effective_ttl-granted c ttl)

  -- Any request stores for a number of seconds that `max_ttl` bounds.
  pub as_secs-effective_ttl :
      (c : ServerConfig) (d : Option ℕ) → as_secs (effective_ttl G Q c d) ≤ c.max_ttl
  unfolding effective_ttl
  as_secs-effective_ttl c d = ground arith

  -- Every entry of the map expires, at most `max_ttl` seconds from now.
  pub record Expires (max_ttl : ℕ) (s : Memory G) : Type 0 where
    pub at :
        (k : Arid) (e : StorageEntry)
        → entry G k s ≡ some e
        → (x : ℕ) × (e.expires_at ≡ some x) × (x ≤ s.now + from_secs max_ttl)

  put-Expires :
      (k : Arid) (e : Envelope) (ttl max_ttl : ℕ) (s : Memory G)
      → ttl ≤ max_ttl
      → Expires max_ttl s
      → Expires max_ttl (Memory.put G k e (some ttl) s).1
  put-Expires k e ttl max_ttl s le h = record {
    at = λ j x q. go j x (entry G j s) refl (sym (entry-put G j k e (some ttl) s) ∙ q);
  }
    where
      go :
          (j : Arid) (x : StorageEntry) (o : Option StorageEntry)
          → entry G j s ≡ o
          → or_fresh G (arid_eq.beq k j) (fresh G e (some ttl) s.now) (entry G j s) ≡ some x
          → (t : ℕ) × (x.expires_at ≡ some t)
            × (t ≤ (Memory.put G k e (some ttl) s).1.now + from_secs max_ttl)
      go j x (some old) stored q =
          let (t, expiry, bound) = h.at j old stored in
          (t, ground (arith, stored), ground (arith, now-put G k e (some ttl) s))
      go j x none stored q = (
        s.now + from_secs ttl,
        ground (arith, stored),
        ground (arith, now-put G k e (some ttl) s),
      )

  swept-Expires :
      (k : Arid) (max_ttl : ℕ) (s : Memory G) → Expires max_ttl s → Expires max_ttl (swept G k s)
  swept-Expires k max_ttl s h = elim (Bool-cases (expired_at G k s)) [
    | inl old ↦ rw old (record {
      at = λ j x q.
          let (t, expiry, bound) = h.at j x (ground (arith, entry-evict G j k s)) in
          (t, expiry, ground (arith, now-evict G k s));
    })
    | inr keep ↦ rw keep h
  ]

  -- A lookup in the map sweeps its own ARID and does nothing else.
  pub get-in_memory :
      (k : Arid) (s : Memory G) (c : ServerConfig)
      → get G Q k (in_memory s c) ≡ (visible G k s, in_memory (swept G k s) c)
  unfolding get get_sync
  get-in_memory k s c = ground (arith, get_now G (λ _ t. t) 0 k s)

  -- A request to put ends before it reaches the storage, or in one `put`.
  handle_put-cases :
      (body : Bytes) (state : ServerState G Q)
      → ((handle_put G Q body state).1 ≡ state)
        ⊎ ((k : Arid) × (e : Envelope) × (d : Option ℕ) × ((handle_put G Q body state).1
              ≡ (put G Q k e d state).1))
  handle_put-cases body state = rw (handle_put-parsed G Q body state) (go (parse_put G body))
    where
      go :
          (r : Result (Arid × Envelope × Option ℕ) ServerError)
          → ((put_parsed G Q r state).1 ≡ state)
            ⊎ ((k : Arid) × (e : Envelope) × (d : Option ℕ) × ((put_parsed G Q r state).1
                  ≡ (put G Q k e d state).1))
      go (err m) = inl refl
      go (ok (k, e, d)) = inr (k, e, d, refl)

  handle_get-cases :
      (body : Bytes) (state : ServerState G Q)
      → ((handle_get G Q body state).1 ≡ state)
        ⊎ ((k : Arid) × ((handle_get G Q body state).1 ≡ (get G Q k state).1))
  handle_get-cases body state = rw (handle_get-parsed G Q body state) (go (parse_get G body))
    where
      go :
          (r : Result Arid ServerError)
          → ((get_parsed G Q r state).1 ≡ state)
            ⊎ ((k : Arid) × ((get_parsed G Q r state).1 ≡ (get G Q k state).1))
      go (err m) = inl refl
      go (ok k) = inr (k, refl)

  -- The state of a server whose map is in memory and keeps to `max_ttl`.
  abbrev pub IsBounded : ServerConfig → ServerState G Q → Type 0
  IsBounded c state = (s : Memory G) × (state ≡ in_memory s c) × Expires c.max_ttl s

  put-IsBounded :
      (k : Arid) (e : Envelope) (d : Option ℕ) (c : ServerConfig) (state : ServerState G Q)
      → IsBounded c state
      → IsBounded c (put G Q k e d state).1
  unfolding put put_sync
  put-IsBounded k e d c state (s, q, h) =
      let seconds = as_secs (effective_ttl G Q c d) in
      (
        (Memory.put G k e (some seconds) s).1,
        rw q refl,
        put-Expires k e seconds c.max_ttl s (as_secs-effective_ttl c d) h,
      )

  get-IsBounded :
      (k : Arid) (c : ServerConfig) (state : ServerState G Q)
      → IsBounded c state
      → IsBounded c (get G Q k state).1
  get-IsBounded k c state (s, q, h) =
      (swept G k s, rw (q, get-in_memory k s c) refl, swept-Expires k c.max_ttl s h)

  -- A request, or the passing of time.
  pub data Event : Type 0 where
    put_request : Bytes → Event
    get_request : Bytes → Event
    time_passes : ℕ → Event

  abbrev pub elapse : ℕ → ServerKv G Q → ServerKv G Q
  elapse nanos (memory s) = memory (record s { now = s.now + nanos })
  elapse nanos (Storage.sqlite s) = Storage.sqlite s

  pub handle : Event → ServerState G Q → ServerState G Q
  handle (put_request body) state = (handle_put G Q body state).1
  handle (get_request body) state = (handle_get G Q body state).1
  handle (time_passes nanos) state = record state { storage = elapse nanos state.storage }

  unfoldable pub serve : List Event → ServerState G Q → ServerState G Q
  unfolding handle
  serve [] state = state
  serve (event ∷ events) state = serve events (handle event state)

  handle-IsBounded :
      (c : ServerConfig) (event : Event) (state : ServerState G Q)
      → IsBounded c state
      → IsBounded c (handle event state)
  unfolding handle
  handle-IsBounded c (put_request body) state h = elim (handle_put-cases body state) [
    | inl same ↦ rw same h
    | inr (k, e, d, stored) ↦ rw stored (put-IsBounded k e d c state h)
  ]
  handle-IsBounded c (get_request body) state h = elim (handle_get-cases body state) [
    | inl same ↦ rw same h
    | inr (k, looked) ↦ rw looked (get-IsBounded k c state h)
  ]
  handle-IsBounded c (time_passes nanos) state (s, q, h) = (
    record s { now = s.now + nanos },
    rw q refl,
    record {
      at = λ k e stored. let (t, expiry, bound) = h.at k e stored in (t, expiry, omega arith);
    },
  )

  -- However many requests arrive, well-formed or not, and however much time passes: in a server over
  -- `MemoryKv`, if every entry expires within `max_ttl` seconds, so it is afterwards. In particular
  -- no entry is ever stored for good, or beyond `max_ttl`.
  pub serve-IsBounded :
      (c : ServerConfig) (events : List Event) (state : ServerState G Q)
      → IsBounded c state
      → IsBounded c (serve events state)
  unfolding serve
  serve-IsBounded c [] state h = h
  serve-IsBounded c (event ∷ events) state h =
      serve-IsBounded c events (handle event state) (handle-IsBounded c event state h)
