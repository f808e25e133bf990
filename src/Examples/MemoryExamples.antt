-- ===== src/Examples/MemoryExamples.antt =====
-- The theorems on `MemoryKv` at small stores.
use hubert_rust.Base.{
  ℕ, suc, ◌+◌, ◌*◌, ◌≡◌, refl, false, true, Option, none, some, [], ◌∷◌, arith, if◌then◌else◌, ltb,
}
use hubert_rust.Base.Lists.{text}
use hubert_rust.Base.Io.{Result, ok, err}
use hubert_rust.Error.{Error, already_exists}
use hubert_rust.Time.{from_secs, nanos_per_sec}
use hubert_rust.Memory.{
  Memory, StorageEntry, new, entry, put, probe, evict, check_exists, get_pass, get, is_expired,
}
use hubert_rust.Memory.Entries.{fresh, state_of}
use hubert_rust.Memory.WriteOnce.{Reach, Step, memory_Reach-stored}
use hubert_rust.Memory.Expiry.{at, memory_get-put, memory_put_over_expired}
use hubert_rust.Memory.Polling.{IsSleep, memory_get_total}
use hubert_rust.Memory.Race.{evict_loses_put}
use hubert_rust.Examples.Toys.{Tree, hello, toy, toy-IsLawful}

-- The map a second after ARID 3 was put for two seconds.
abbrev store : Memory toy
store = (put toy 3 hello (some 2) (new toy 0)).1

abbrev sleep : ℕ → Memory toy → Memory toy
sleep nanos s = record s { now = s.now + nanos }

sleep-IsSleep : IsSleep toy sleep
sleep-IsSleep = record { passes = λ nanos s. omega arith }

abbrev hello_entry : StorageEntry
hello_entry = record { envelope_cbor = 2 ∷ 5 ∷ []; expires_at = some 2_000_000_000 }

memory_get-put_example :
    get toy sleep 1 3 none (at toy (0 + from_secs 1) (put toy 3 hello (some 2) (new toy 0)).1) ≡ (
      if ltb (from_secs 1) (2 * nanos_per_sec)
      then some (ok (some hello), at toy (0 + from_secs 1) (put toy 3 hello (some 2) (new toy 0)).1)
      else some (
        ok none,
        evict toy 3 (at toy (0 + from_secs 1) (put toy 3 hello (some 2) (new toy 0)).1),
      ))
unfolding hubert_rust.Base.Assoc.lookup
memory_get-put_example =
    memory_get-put toy toy-IsLawful sleep 0 3 hello 2 none (new toy 0) (from_secs 1) refl

abbrev later : Memory toy
later = record store { now = store.now + 5 }

memory_Reach-stored_example : entry toy 3 (put toy 4 hello none later).1 ≡ some hello_entry
unfolding is_expired put hubert_rust.Base.Assoc.lookup hubert_rust.Base.Assoc.insert
memory_Reach-stored_example =
    memory_Reach-stored toy 3 hello_entry store (put toy 4 hello none later).1
      (Reach.next (Reach.next Reach.here (Step.tick store 5)) (Step.store later 4 hello none)) refl
      refl

memory_get_total_example :
    (r : Result (Option Tree) Error) × (s : Memory toy) × (get toy sleep 61 4 none store
      ≡ some (r, s))
memory_get_total_example = memory_get_total toy sleep sleep-IsSleep 61 4 none store (omega arith)

abbrev stale : Memory toy
stale = record store { now = 3_000_000_000 }

memory_put_over_expired_example :
    ((put toy 3 hello none stale).0 ≡ err (already_exists (toy.arid_ur 3)))
    × ((check_exists toy 3 stale).0 ≡ ok false)
    × ((put toy 3 hello none (check_exists toy 3 stale).1).0 ≡ ok (text "Stored in memory"))
unfolding probe put is_expired hubert_rust.Base.Assoc.lookup hubert_rust.Base.Assoc.insert
memory_put_over_expired_example = memory_put_over_expired toy 3 hello none stale refl

evict_loses_put_example :
    let s' = state_of toy (get_pass toy 3 30 0 stale) in
    ((put toy 3 hello none s').0 ≡ ok (text "Stored in memory"))
    × (entry toy 3 (put toy 3 hello none s').1 ≡ some (fresh toy hello none s'.now))
    × (entry toy 3 (evict toy 3 (put toy 3 hello none s').1) ≡ none)
unfolding probe put is_expired hubert_rust.Base.Assoc.lookup hubert_rust.Base.Assoc.insert
evict_loses_put_example = evict_loses_put toy 3 hello none 30 0 stale refl
