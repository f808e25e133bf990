-- ===== src/Cli/Validation.antt =====
-- Which options each backend takes, as a table, against the tests in `main`.
use hubert_rust.Base.{
  ℕ, ◌≡◌, refl, ◌⊎◌, inl, inr, Bool, true, false, not, ◌&&◌, ◌||◌, Option, none, some, arith,
  if◌then◌else◌,
}
use hubert_rust.Base.Lists.{Bytes, text}
use hubert_rust.Base.Io.{Result, ok, err}
use hubert_rust.Cli.{StorageBackend, mainline, ipfs, hybrid, PutOptions, Platform, Machine, Run}
use hubert_rust.Cli.Options.{given, unwrap_or, validate, parse_arid, parse_envelope}
use hubert_rust.Cli.Stores.{put_mainline, put_ipfs, put_hybrid, put_server}
use hubert_rust.Cli.Main.{run_put, put_in}

-- The options of a command, by name.
pub data Flag : Type 0 where
  host_flag port_flag ttl_flag pin_flag : Flag

-- The table: the server takes a host, a port and a time to live, the two that use IPFS a port and
-- the pin, Mainline none.
abbrev pub supports : StorageBackend → Flag → Bool
supports mainline _ = false
supports ipfs port_flag = true
supports ipfs pin_flag = true
supports ipfs _ = false
supports hybrid port_flag = true
supports hybrid pin_flag = true
supports hybrid _ = false
supports StorageBackend.server pin_flag = false
supports StorageBackend.server _ = true

-- A flag that is given is supported.
abbrev allows : StorageBackend → Flag → Bool → Bool
allows storage flag is_given = not is_given || supports storage flag

module _ (P : Platform) where
  -- The ARID and the envelope to put, if the backend supports the options and both parse.
  abbrev pub put_ready : PutOptions → Option (P.gordian.Arid × P.gordian.Envelope)
  put_ready o =
      if allows o.storage host_flag (given o.host)
        && (allows o.storage port_flag (given o.port)
            && (allows o.storage ttl_flag (given o.ttl) && allows o.storage pin_flag o.pin))
      then elim (P.gordian.arid_from_ur o.arid) [
        | none ↦ none
        | some k ↦ elim (P.gordian.envelope_from_ur o.envelope) [
          | err _ ↦ none
          | ok e ↦ some (k, e)
        ]
      ]
      else none

  -- The operation on the store, with the defaults of the options.
  abbrev pub put_stored : PutOptions → P.gordian.Arid → P.gordian.Envelope → Run P (Unit {0})
  put_stored o k e = elim o.storage [
    | mainline ↦ put_mainline P k e
    | ipfs ↦ put_ipfs P k e (unwrap_or 5001 o.port) o.pin
    | hybrid ↦ put_hybrid P k e (unwrap_or 5001 o.port) o.pin
    | StorageBackend.server ↦
        put_server P (unwrap_or (text "127.0.0.1") o.host) (unwrap_or 45678 o.port) k e o.ttl
  ]

  abbrev bad_arid : Bytes
  bad_arid = text "Invalid ARID format. Expected ur:arid"

  abbrev bad_envelope : Bytes
  bad_envelope = text "Invalid envelope format. Expected ur:envelope"

  abbrev no_ttl : Bytes
  no_ttl = text "--ttl option is only supported for --storage server"

  abbrev no_pin : Bytes
  no_pin = text "--pin option is only supported for --storage ipfs or --storage hybrid"

  abbrev Outcome : PutOptions → Machine P → Type 0
  Outcome o m =
      ((put_ready o ≡ none) × (message : Bytes) × (run_put P o m ≡ (err message, m)))
      ⊎ ((k : P.gordian.Arid) × (e : P.gordian.Envelope) × (put_ready o ≡ some (k, e))
          × (run_put P o m ≡ put_stored o k e m))

  abbrev options :
      StorageBackend → Option Bytes → Option ℕ → Option ℕ → Bool → Bytes → Bytes → PutOptions
  options storage host port ttl pin arid envelope = record {
    storage = storage;
    host = host;
    port = port;
    arid = arid;
    envelope = envelope;
    ttl = ttl;
    pin = pin;
  }

  cases_by :
      (storage : StorageBackend) (host : Option Bytes) (port ttl : Option ℕ) (pin : Bool)
      (a : Option P.gordian.Arid) (b : Result P.gordian.Envelope Bytes) (ur eu : Bytes)
      → P.gordian.arid_from_ur ur ≡ a
      → P.gordian.envelope_from_ur eu ≡ b
      → (m : Machine P) → Outcome (options storage host port ttl pin ur eu) m
  unfolding run_put validate put_in parse_arid parse_envelope
  cases_by mainline _ (some _) _ _ _ _ ur eu ea eb m = inl (ground arith, _, refl)
  cases_by mainline (some _) none _ _ _ _ ur eu ea eb m = inl (ground arith, _, refl)
  cases_by mainline none none _ _ none _ ur eu ea eb m =
      inl (ground (arith, ea), bad_arid, ground (arith, ea))
  cases_by mainline none none _ _ (some _) (err _) ur eu ea eb m =
      inl (ground (arith, ea, eb), bad_envelope, ground (arith, ea, eb))
  cases_by mainline none none (some _) _ (some k) (ok e) ur eu ea eb m =
      inl (ground (arith, ea, eb), no_ttl, ground (arith, ea, eb))
  cases_by mainline none none none true (some k) (ok e) ur eu ea eb m =
      inl (ground (arith, ea, eb), no_pin, ground (arith, ea, eb))
  cases_by mainline none none none false (some k) (ok e) ur eu ea eb m =
      inr (k, e, ground (arith, ea, eb), ground (arith, ea, eb))
  cases_by ipfs (some _) _ _ _ _ _ ur eu ea eb m = inl (ground arith, _, refl)
  cases_by ipfs none _ _ _ none _ ur eu ea eb m =
      inl (ground (arith, ea), bad_arid, ground (arith, ea))
  cases_by ipfs none _ _ _ (some _) (err _) ur eu ea eb m =
      inl (ground (arith, ea, eb), bad_envelope, ground (arith, ea, eb))
  cases_by ipfs none _ (some _) _ (some k) (ok e) ur eu ea eb m =
      inl (ground (arith, ea, eb), no_ttl, ground (arith, ea, eb))
  cases_by ipfs none _ none _ (some k) (ok e) ur eu ea eb m =
      inr (k, e, ground (arith, ea, eb), ground (arith, ea, eb))
  cases_by hybrid (some _) _ _ _ _ _ ur eu ea eb m = inl (ground arith, _, refl)
  cases_by hybrid none _ _ _ none _ ur eu ea eb m =
      inl (ground (arith, ea), bad_arid, ground (arith, ea))
  cases_by hybrid none _ _ _ (some _) (err _) ur eu ea eb m =
      inl (ground (arith, ea, eb), bad_envelope, ground (arith, ea, eb))
  cases_by hybrid none _ (some _) _ (some k) (ok e) ur eu ea eb m =
      inl (ground (arith, ea, eb), no_ttl, ground (arith, ea, eb))
  cases_by hybrid none _ none _ (some k) (ok e) ur eu ea eb m =
      inr (k, e, ground (arith, ea, eb), ground (arith, ea, eb))
  cases_by StorageBackend.server _ _ _ _ none _ ur eu ea eb m =
      inl (ground (arith, ea), bad_arid, ground (arith, ea))
  cases_by StorageBackend.server _ _ _ _ (some _) (err _) ur eu ea eb m =
      inl (ground (arith, ea, eb), bad_envelope, ground (arith, ea, eb))
  cases_by StorageBackend.server _ _ _ true (some k) (ok e) ur eu ea eb m =
      inl (ground (arith, ea, eb), no_pin, ground (arith, ea, eb))
  cases_by StorageBackend.server _ _ _ false (some k) (ok e) ur eu ea eb m =
      inr (k, e, ground (arith, ea, eb), ground (arith, ea, eb))

  -- `put` fails at once, on the machine as it was, where its backend does not support an option that
  -- was given or where the ARID or the envelope does not parse; everywhere else it is the operation
  -- on the backend's store.
  pub run_put_cases :
      (o : PutOptions) (m : Machine P)
      → ((put_ready o ≡ none) × (message : Bytes) × (run_put P o m ≡ (err message, m)))
        ⊎ ((k : P.gordian.Arid) × (e : P.gordian.Envelope) × (put_ready o ≡ some (k, e))
            × (run_put P o m ≡ put_stored o k e m))
  run_put_cases o m =
      cases_by o.storage o.host o.port o.ttl o.pin (P.gordian.arid_from_ur o.arid)
        (P.gordian.envelope_from_ur o.envelope) o.arid o.envelope refl refl m
