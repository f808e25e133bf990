-- ===== src/Memory/WriteOnce.antt =====
-- The operations of `MemoryKv` (server/memory_kv.rs) as steps, and what they do to a stored entry.
use hubert_rust.Base.{
  ◌+◌, ◌≡◌, refl, false, Option, some, arith, Option-cases, inl, inr, beq_refl, ℕ,
}
use hubert_rust.Base.Io.{err}
use hubert_rust.Error.{already_exists}
use hubert_rust.Gordian.{Gordian}
use hubert_rust.Memory.{StorageEntry, Memory, entry, put, check_exists, is_expired, get_pass}
use hubert_rust.Memory.Entries.{
  fresh, entry-put, now-put, entry-evict, now-evict, swept, check_exists-swept, state_of,
  get_pass-swept,
}

module _ (G : Gordian) where
  open G use {Arid, arid_eq, arid_ur, Envelope}

  -- One operation of some thread, taken as a whole, or the passing of time.
  pub data Step : Memory G → Memory G → Type 0 where
    tick : (s : Memory G) (nanos : ℕ) → Step s (record s { now = s.now + nanos })
    store : (s : Memory G) (j : Arid) (e : Envelope) (ttl : Option ℕ) → Step s (put G j e ttl s).1
    look :
        (s : Memory G) (j : Arid) (timeout start : ℕ)
        → Step s (state_of G (get_pass G j timeout start s))
    check : (s : Memory G) (j : Arid) → Step s (check_exists G j s).1

  pub data Reach (s : Memory G) : Memory G → Type 0 where
    here : Reach s s
    next : {t u : Memory G} → Reach s t → Step t u → Reach s u

  -- `k` holds `e`, and `e` has not expired.
  pub record Holds (k : Arid) (e : StorageEntry) (s : Memory G) : Type 0 where
    pub stored : entry G k s ≡ some e
    pub fresh_enough : is_expired e.expires_at s.now ≡ false

  swept-stored :
      (k j : Arid) (e : StorageEntry) (s : Memory G)
      → Holds k e s
      → entry G k (swept G j s) ≡ some e
  swept-stored k j e s h =
      ground (arith, h.stored, h.fresh_enough, entry-evict G k j s, arid_eq.beq_iff j k)

  now-swept : (j : Arid) (s : Memory G) → (swept G j s).now ≡ s.now
  now-swept j s = ground (arith, now-evict G j s)

  -- What has not expired yet had not expired before.
  not_expired_before :
      (o : Option ℕ) (now nanos : ℕ) → is_expired o (now + nanos) ≡ false → is_expired o now ≡ false
  unfolding is_expired
  not_expired_before o now nanos h = ground arith

  Step-stored :
      (k : Arid) (e : StorageEntry) {s t : Memory G}
      → Step s t
      → entry G k s ≡ some e
      → is_expired e.expires_at t.now ≡ false
      → Holds k e t
  Step-stored k e (tick s nanos) h live = record { stored = h; fresh_enough = live }
  Step-stored k e (store s j envelope ttl) h live = record {
    stored = rw (entry-put G k j envelope ttl s, h) refl;
    fresh_enough = live;
  }
  Step-stored k e (look s j timeout start) h live = record {
    stored = rw get_pass-swept (
        swept-stored k j e s (record {
          stored = h;
          fresh_enough = rw (get_pass-swept G j timeout start s, now-swept j s) at live;
        }));
    fresh_enough = live;
  }
  Step-stored k e (check s j) h live = record {
    stored = rw check_exists-swept (
        swept-stored k j e s (record {
          stored = h;
          fresh_enough = rw (check_exists-swept G j s, now-swept j s) at live;
        }));
    fresh_enough = live;
  }

  -- Time does not run backwards in a step.
  Step-live :
      (e : StorageEntry) {s t : Memory G}
      → Step s t
      → is_expired e.expires_at t.now ≡ false
      → is_expired e.expires_at s.now ≡ false
  Step-live e (tick s nanos) live = not_expired_before e.expires_at s.now nanos live
  Step-live e (store s j envelope ttl) live = rw (now-put G j envelope ttl s) at live
  Step-live e (look s j timeout start) live =
      rw (get_pass-swept G j timeout start s, now-swept j s) at live
  Step-live e (check s j) live = rw (check_exists-swept G j s, now-swept j s) at live

  Reach-live :
      (e : StorageEntry) {s t : Memory G}
      → Reach s t
      → is_expired e.expires_at t.now ≡ false
      → is_expired e.expires_at s.now ≡ false
  Reach-live e here live = live
  Reach-live e (next r st) live = Reach-live e r (Step-live e st live)

  -- Whatever sequence of `put`, passes of `get` and `check_exists` happens, each taken as a whole, with
  -- any time between them, an entry that is stored stays exactly as it is for as long as it has not
  -- expired.
  pub memory_Reach-stored :
      (k : Arid) (e : StorageEntry) (s t : Memory G)
      → Reach s t
      → entry G k s ≡ some e
      → is_expired e.expires_at t.now ≡ false
      → entry G k t ≡ some e
  memory_Reach-stored k e s t here h live = h
  memory_Reach-stored k e s t (next {t = m} r st) h live =
      (Step-stored k e st (memory_Reach-stored k e s m r h (Step-live e st live)) live).stored

  put_refused :
      (k : Arid) (e : Envelope) (ttl : Option ℕ) (s : Memory G) (old : StorageEntry)
      → entry G k s ≡ some old
      → put G k e ttl s ≡ (err (already_exists (arid_ur k)), s)
  unfolding put
  put_refused k e ttl s old q = ground arith

  -- After a `put`, whether it was accepted or not, its ARID has an entry.
  put-stored :
      (k : Arid) (e : Envelope) (ttl : Option ℕ) (s : Memory G)
      → (old : StorageEntry) × (entry G k (put G k e ttl s).1 ≡ some old)
  put-stored k e ttl s = elim (Option-cases (entry G k s)) [
    | inl q ↦ (fresh G e ttl s.now, rw (entry-put G k k e ttl s, q, beq_refl arid_eq k) refl)
    | inr (old, q) ↦ (old, rw (entry-put G k k e ttl s, q) refl)
  ]

  -- After a `put` at an ARID, accepted or not, every further `put` at it is refused with
  -- `AlreadyExists` and leaves the map as it is.
  pub put_twice :
      (k : Arid) (e e' : Envelope) (ttl ttl' : Option ℕ) (s : Memory G)
      → put G k e' ttl' (put G k e ttl s).1
        ≡ (err (already_exists (arid_ur k)), (put G k e ttl s).1)
  put_twice k e e' ttl ttl' s =
      let (old, q) = put-stored k e ttl s in put_refused k e' ttl' (put G k e ttl s).1 old q
