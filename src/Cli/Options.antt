-- ===== src/Cli/Options.antt =====
-- bin/hubert.rs: the tests on the options of a command, its defaults, and the parsers of its values.
use hubert_rust.Base.{ℕ, Bool, true, false, Option, none, some, if◌then◌else◌}
use hubert_rust.Base.Lists.{Bytes, text}
use hubert_rust.Base.Io.{ok, err, pure, fail, ◌>>◌}
use hubert_rust.Cli.{StorageBackend, mainline, ipfs, hybrid, Platform, Run}

abbrev pub given : {A : Type 0} → Option A → Bool
given none = false
given (some _) = true

abbrev pub unwrap_or : {A : Type 0} → A → Option A → A
unwrap_or default none = default
unwrap_or default (some a) = a

-- Where the server and where the daemon listen by default.
abbrev pub default_host : Bytes
default_host = text "127.0.0.1"

abbrev pub server_port : Option ℕ → ℕ
server_port = unwrap_or 45678

abbrev pub ipfs_port : Option ℕ → ℕ
ipfs_port = unwrap_or 5001

module _ (P : Platform) where
  -- `if b { bail!(message) }`
  abbrev pub bail_if : Bool → Bytes → Run P (Unit {0})
  bail_if b message m = if b then (err message, m) else (ok tt, m)

  -- The match on the backend with which put, get and check begin.
  unfoldable pub validate : StorageBackend → Option Bytes → Option ℕ → Run P (Unit {0})
  validate mainline host port = do
    bail_if (given port) (text "--port option is not supported for --storage mainline")
    bail_if (given host) (text "--host option is not supported for --storage mainline")
  validate ipfs host port =
      bail_if (given host)
        (text "--host option is not supported for --storage ipfs (always uses 127.0.0.1)")
  validate hybrid host port =
      bail_if (given host)
        (text "--host option is not supported for --storage hybrid (always uses 127.0.0.1)")
  validate StorageBackend.server host port = pure tt

  abbrev pub ttl_unsupported : Option ℕ → Run P (Unit {0})
  ttl_unsupported ttl =
      bail_if (given ttl) (text "--ttl option is only supported for --storage server")

  abbrev pub pin_unsupported : Bool → Run P (Unit {0})
  pin_unsupported pin =
      bail_if pin (text "--pin option is only supported for --storage ipfs or --storage hybrid")

  unfoldable pub parse_arid : Bytes → Run P P.gordian.Arid
  parse_arid s = elim (P.gordian.arid_from_ur s) [
    | some arid ↦ pure arid
    | none ↦ fail (text "Invalid ARID format. Expected ur:arid")
  ]

  unfoldable pub parse_envelope : Bytes → Run P P.gordian.Envelope
  parse_envelope s = elim (P.gordian.envelope_from_ur s) [
    | ok envelope ↦ pure envelope
    | err _ ↦ fail (text "Invalid envelope format. Expected ur:envelope")
  ]
