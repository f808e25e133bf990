-- ===== src/Memory.antt =====
-- server/memory_kv.rs: `MemoryKv`, the map under its lock beside the clock that it reads. Between
-- two sleeps the clock stands still. A method is one step, but for `check_exists`, whose two
-- critical sections are `probe` and `evict`. What `verbose` prints is left out.
pub mod Entries
pub mod WriteOnce
pub mod Expiry
pub mod Polling
pub mod Race
pub mod Waiting
use hubert_rust.Base.{
  ℕ, ◌+◌, ◌-◌, Bool, true, false, Option, none, some, List, [], leb, if◌then◌else◌,
}
use hubert_rust.Base.Lists.{Bytes, text}
use hubert_rust.Base.Assoc.{lookup, insert, remove}
use hubert_rust.Base.Io.{Result, ok, err, Io}
use hubert_rust.Base.Poll.{Pass, done, again, poll}
use hubert_rust.Error.{Error, already_exists}
use hubert_rust.Gordian.{Gordian}
use hubert_rust.Time.{from_secs, from_millis, as_secs}
use mathlib.Core.Option

pub record StorageEntry : Type 0 where
  pub envelope_cbor : Bytes
  pub expires_at : Option ℕ

-- `now >= expires_at`, where there is an expiry
unfoldable pub is_expired : Option ℕ → ℕ → Bool
is_expired none now = false
is_expired (some expires_at) now = leb expires_at now

-- What `check_exists` sees under the read lock.
pub data Presence : Type 0 where
  absent present expired : Presence

module _ (G : Gordian) where
  open G use {Arid, arid_eq, arid_ur, Envelope, to_cbor_data, from_cbor_data}

  pub record Memory : Type 0 where
    pub storage : List (Arid × StorageEntry)
    pub now : ℕ

  -- `MemoryKv::new`
  abbrev pub new : ℕ → Memory
  new now = record { storage = []; now = now }

  abbrev pub entry : Arid → Memory → Option StorageEntry
  entry arid s = lookup arid_eq arid s.storage

  unfoldable pub probe : Arid → Memory → Presence
  unfolding is_expired
  probe arid s = elim (entry arid s) [
    | none ↦ absent
    | some e ↦ if is_expired e.expires_at s.now then expired else present
  ]

  unfoldable pub evict : Arid → Memory → Memory
  evict arid s = record s { storage = remove arid_eq arid s.storage }

  unfoldable pub check_exists : Arid → Io Memory Error Bool
  unfolding probe evict
  check_exists arid s = elim (probe arid s) [
    | absent ↦ (ok false, s)
    | present ↦ (ok true, s)
    | expired ↦ (ok false, evict arid s)
  ]

  unfoldable pub put : Arid → Envelope → Option ℕ → Io Memory Error Bytes
  put arid envelope ttl_seconds s = elim (entry arid s) [
    | some _ ↦ (err (already_exists (arid_ur arid)), s)
    | none ↦
        let expires_at = Option.map (λ ttl. s.now + from_secs ttl) ttl_seconds in
        let e : StorageEntry = record {
          envelope_cbor = to_cbor_data envelope;
          expires_at = expires_at;
        } in
        (ok (text "Stored in memory"), record s { storage = insert arid_eq arid e s.storage })
  ]

  -- `timeout_seconds.unwrap_or(30)`
  abbrev pub default_timeout : Option ℕ → ℕ
  default_timeout none = 30
  default_timeout (some seconds) = seconds

  -- `Envelope::try_from_cbor_data(..).ok()`
  abbrev pub decode : Bytes → Option Envelope
  decode cbor = elim (from_cbor_data cbor) [ ok e ↦ some e | err _ ↦ none ]

  -- "Not found yet": the end of a pass.
  abbrev not_found_yet : ℕ → ℕ → Memory → Pass Memory (Result (Option Envelope) Error)
  not_found_yet timeout start s =
      if leb timeout (as_secs (s.now - start)) then done (ok none) s else again s

  unfoldable pub get_pass : Arid → ℕ → ℕ → Memory → Pass Memory (Result (Option Envelope) Error)
  unfolding evict is_expired
  get_pass arid timeout start s = elim (entry arid s) [
    | none ↦ not_found_yet timeout start s
    | some e ↦
        if is_expired e.expires_at s.now
        then done (ok none) (evict arid s)
        else elim (decode e.envelope_cbor) [
          | some envelope ↦ done (ok (some envelope)) s
          | none ↦ not_found_yet timeout start s
        ]
  ]

  -- `sleep` is what the rest of the world does to the map and the clock in the time given.
  unfoldable pub get :
      (ℕ → Memory → Memory)
      → ℕ
      → Arid
      → Option ℕ
      → Memory
      → Option (Result (Option Envelope) Error × Memory)
  get sleep fuel arid timeout_seconds s =
      poll (get_pass arid (default_timeout timeout_seconds) s.now) (sleep (from_millis 500)) fuel s

  abbrev pub exists : Arid → Io Memory Error Bool
  exists = check_exists
