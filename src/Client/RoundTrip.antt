-- ===== src/Client/RoundTrip.antt =====
-- From one client to another through the server's memory.
use hubert_rust.Base.{
  ◌≡◌, ◌∙◌, ap, none, some, Option, ◌++◌, ◌<◌, ◌+◌, ◌*◌, arith, ℕ, suc, beq_refl,
}
use hubert_rust.Base.Lists.{Bytes, text}
use hubert_rust.Base.Io.{Result, ok}
use hubert_rust.Gordian.{Gordian, IsLawful}
use hubert_rust.Time.{nanos_per_sec}
use hubert_rust.Memory
use hubert_rust.Memory.{Memory, entry, is_expired}
use hubert_rust.Memory.Entries.{entry-put, now-put}
use hubert_rust.Memory.Polling.{visible}
use hubert_rust.Sqlite.Statements.{Database}
use hubert_rust.Server.{ServerConfig, ServerState}
use hubert_rust.Server.Lifetimes.{granted, in_memory, put-in_memory, get-in_memory, elapse}
use hubert_rust.Client.{Http, put, get}
use hubert_rust.Client.Bodies.{FitsU64}
use hubert_rust.Client.Connected.{IsConnected, put_connected, get_connected}

module _ (G : Gordian) (Q : Database) (H : Http) (L : IsLawful G) (base_url : Bytes)
    (C : IsConnected G Q H base_url) where
  open G use {Arid, arid_eq, arid_ur, Envelope, to_cbor_data}
  open H use {World, post}
  open C use {server}

  visible-put :
      (k : Arid) (e : Envelope) (seconds : ℕ) (s : Memory G) (passed : ℕ)
      → entry G k s ≡ none
      → passed < seconds * nanos_per_sec
      → let s' = (Memory.put G k e (some seconds) s).1 in
        visible G k (record s' { now = s'.now + passed }) ≡ some e
  unfolding is_expired
  visible-put k e seconds s passed free soon = ground (
    arith,
    entry-put G k k e (some seconds) s,
    now-put G k e (some seconds) s,
    beq_refl arid_eq k,
    L.cbor_round_trip e,
  )

  server-put :
      (k : Arid) (e : Envelope) (ttl : Option ℕ) (w : World) (s : Memory G) (c : ServerConfig)
      → FitsU64 G Q H L ttl
      → server w ≡ in_memory G Q s c
      → server (put G H base_url k e ttl w).1
        ≡ in_memory G Q (Memory.put G k e (some (granted c.max_ttl ttl)) s).1 c
  server-put k e ttl w s c fits at_start =
      (put_connected G Q H L base_url C k e ttl w fits).1
      ∙ rw at_start (
          ap (λ (x : Result (Unit {0}) Bytes × ServerState G Q). x.1)
            (put-in_memory G Q k e ttl s c))

  -- Over a server with in-memory storage that has nothing at the ARID, what one client puts for
  -- `ttl` seconds another client gets, with its first request and whatever its timeout, as long as
  -- less than `ttl` seconds (if the first client named a number) and less than the server's `max_ttl`
  -- seconds have passed on the server.
  pub client_get-put :
      (fuel : ℕ) (k : Arid) (e : Envelope) (ttl timeout : Option ℕ) (w w' : World) (s : Memory G)
      (c : ServerConfig) (passed : ℕ)
      → FitsU64 G Q H L ttl
      → server w ≡ in_memory G Q s c
      → entry G k s ≡ none
      → (let state = server (put G H base_url k e ttl w).1 in
          server w' ≡ record state { storage = elapse G Q passed state.storage })
      → passed < granted c.max_ttl ttl * nanos_per_sec
      → get G H (suc fuel) base_url k timeout w'
        ≡ some (ok (some e), (post (base_url ++ text "/get") (arid_ur k) w').1)
  client_get-put fuel k e ttl timeout w w' s c passed fits at_start free later soon =
      (get_connected G Q H L base_url C fuel k timeout w' e (
        rw (later, server-put k e ttl w s c fits at_start, get-in_memory)
          (visible-put k e (granted c.max_ttl ttl) s passed free soon))).0
