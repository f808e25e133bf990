-- ===== src/Memory/Entries.antt =====
-- What each operation of `MemoryKv` does to the entry of every ARID.
use mathlib.Core.Option
use hubert_rust.Base.{◌+◌, ◌≡◌, refl, Bool, false, Option, none, some, arith, if◌then◌else◌, ℕ}
use hubert_rust.Base.Assoc.{lookup-insert, lookup-remove}
use hubert_rust.Base.Poll.{Pass, done, again}
use hubert_rust.Gordian.{Gordian}
use hubert_rust.Time.{from_secs}
use hubert_rust.Memory.{StorageEntry, Memory, entry, put, evict, check_exists, is_expired, get_pass}

module _ (G : Gordian) where
  open G use {Arid, arid_eq, Envelope, to_cbor_data}

  -- What `put` stores.
  abbrev pub fresh : Envelope → Option ℕ → ℕ → StorageEntry
  fresh envelope ttl now = record {
    envelope_cbor = to_cbor_data envelope;
    expires_at = Option.map (λ seconds. now + from_secs seconds) ttl;
  }

  abbrev pub or_fresh : Bool → StorageEntry → Option StorageEntry → Option StorageEntry
  or_fresh same e (some old) = some old
  or_fresh same e none = if same then some e else none

  -- The entry of `k` after a `put` at `j`: an old entry stays, whatever its age.
  pub entry-put :
      (k j : Arid) (envelope : Envelope) (ttl : Option ℕ) (s : Memory G)
      → entry G k (put G j envelope ttl s).1
        ≡ or_fresh (arid_eq.beq j k) (fresh envelope ttl s.now) (entry G k s)
  unfolding put
  entry-put k j envelope ttl s =
      ground
        (arith, lookup-insert arid_eq j k (fresh envelope ttl s.now) s.storage, arid_eq.beq_iff j k)

  pub now-put :
      (j : Arid) (envelope : Envelope) (ttl : Option ℕ) (s : Memory G)
      → (put G j envelope ttl s).1.now ≡ s.now
  unfolding put
  now-put j envelope ttl s = ground arith

  pub entry-evict :
      (k j : Arid) (s : Memory G)
      → entry G k (evict G j s) ≡ (if arid_eq.beq j k then none else entry G k s)
  unfolding evict
  entry-evict k j s = lookup-remove arid_eq j k s.storage

  pub now-evict : (j : Arid) (s : Memory G) → (evict G j s).now ≡ s.now
  unfolding evict
  now-evict j s = refl

  -- `j` has an entry that has expired.
  abbrev pub expired_at : Arid → Memory G → Bool
  expired_at j s = elim (entry G j s) [ none ↦ false | some e ↦ is_expired e.expires_at s.now ]

  -- Both reading operations evict their own ARID when it has expired, and write nothing else.
  abbrev pub swept : Arid → Memory G → Memory G
  swept j s = if expired_at j s then evict G j s else s

  pub check_exists-swept : (j : Arid) (s : Memory G) → (check_exists G j s).1 ≡ swept j s
  unfolding check_exists
  check_exists-swept j s = ground arith

  abbrev pub state_of : {R : Type 0} → Pass (Memory G) R → Memory G
  state_of (done r s) = s
  state_of (again s) = s

  pub get_pass-swept :
      (j : Arid) (timeout start : ℕ) (s : Memory G)
      → state_of (get_pass G j timeout start s) ≡ swept j s
  unfolding get_pass
  get_pass-swept j timeout start s = ground arith
