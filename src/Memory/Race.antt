-- ===== src/Memory/Race.antt =====
-- `check_exists` of `MemoryKv` looks under the read lock and removes under the write lock. Between
-- the two the map may change.
use hubert_rust.Base.{◌≡◌, Option, none, some, arith, ℕ, beq_refl, refl}
use hubert_rust.Base.Lists.{text}
use hubert_rust.Base.Io.{ok}
use hubert_rust.Gordian.{Gordian}
use hubert_rust.Memory.{Memory, entry, put, evict, probe, get_pass, expired}
use hubert_rust.Memory.Entries.{fresh, entry-put, entry-evict, state_of, get_pass-swept}

module _ (G : Gordian) where
  open G use {Arid, arid_eq, Envelope}

  entry-swept :
      (k : Arid) (timeout start : ℕ) (s : Memory G)
      → probe G k s ≡ expired
      → entry G k (state_of G (get_pass G k timeout start s)) ≡ none
  unfolding probe
  entry-swept k timeout start s h =
      rw get_pass-swept (ground (arith, entry-evict G k k s, beq_refl arid_eq k))

  put_at_free :
      (k : Arid) (e : Envelope) (ttl : Option ℕ) (s : Memory G)
      → entry G k s ≡ none
      → (put G k e ttl s).0 ≡ ok (text "Stored in memory")
  unfolding put
  put_at_free k e ttl s free = ground arith

  -- Thread A finds under the read lock that `k` has expired. Then thread B gets `k`, which drops
  -- the old entry, and puts `e`, which is accepted. When A goes on it removes what B stored.
  pub evict_loses_put :
      (k : Arid) (e : Envelope) (ttl : Option ℕ) (timeout start : ℕ) (s : Memory G)
      → probe G k s ≡ expired
      → let s' = state_of G (get_pass G k timeout start s) in
        ((put G k e ttl s').0 ≡ ok (text "Stored in memory"))
        × (entry G k (put G k e ttl s').1 ≡ some (fresh G e ttl s'.now))
        × (entry G k (evict G k (put G k e ttl s').1) ≡ none)
  evict_loses_put k e ttl timeout start s h =
      let s' = state_of G (get_pass G k timeout start s) in
      let free = entry-swept k timeout start s h in
      (
        put_at_free k e ttl s' free,
        rw (entry-put G k k e ttl s', free, beq_refl arid_eq k) refl,
        rw (entry-evict G k k (put G k e ttl s').1, beq_refl arid_eq k) refl,
      )
