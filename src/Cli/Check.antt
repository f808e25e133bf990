-- ===== src/Cli/Check.antt =====
-- bin/hubert.rs: whether a backend is available.
use hubert_rust.Base.{ℕ, Bool, false, Option, none, some, ◌++◌, bytes_beq, if◌then◌else◌}
use hubert_rust.Base.Lists.{Bytes, text}
use hubert_rust.Base.Io.{ok, err, fail}
use hubert_rust.Text.Decimal.{decimal}
use hubert_rust.Time.{from_secs}
use hubert_rust.Client.{HttpResponse}
use hubert_rust.Cli.{Platform, Run, println, is_success}
use hubert_rust.Cli.Stores.{url}
use hubert_rust.Cli.Options.{unwrap_or}

-- `{host}:{port}`
abbrev pub place : Bytes → ℕ → Bytes
place host port = host ++ (text ":" ++ decimal port)

module _ (P : Platform) where
  unfoldable pub check_mainline : Run P (Unit {0})
  unfolding println
  check_mainline m =
      let (r, net) = P.testnet m.net in
      let m' = record m { net = net } in
      elim r [
        | ok _ ↦ println P (text "✓ Mainline DHT is available") m'
        | err e ↦ (err (text "✗ Mainline DHT is not available: " ++ e), m')
      ]

  unfoldable pub check_ipfs : ℕ → Run P (Unit {0})
  unfolding println url
  check_ipfs port m =
      let (r, web) =
        P.post_within (from_secs 2) (url (text "127.0.0.1") port ++ text "/api/v0/version") m.web in
      let m' = record m { web = web } in
      elim r [
        | ok response ↦
            if is_success response.status
            then println P (text "✓ IPFS is available at 127.0.0.1:" ++ decimal port) m'
            else (err (text "✗ IPFS daemon returned error: " ++ P.status_text response.status), m')
        | err e ↦ (
          err (text "✗ IPFS is not available at 127.0.0.1:" ++ (decimal port ++ (text ": " ++ e))),
          m',
        )
      ]

  -- `json.get(key).and_then(|v| v.as_str())`
  abbrev field : Bytes → P.json.Value → Option Bytes
  field key json = elim (P.json.get key json) [ none ↦ none | some v ↦ P.json.as_str v ]

  abbrev is_some_of : Bytes → Option Bytes → Bool
  is_some_of expected none = false
  is_some_of expected (some s) = bytes_beq s expected

  -- What is said of the body of a successful answer.
  unfoldable pub read_health : Bytes → ℕ → Bytes → Run P (Unit {0})
  unfolding println
  read_health host port body = elim (P.json.from_str body) [
    | err _ ↦
        fail (text "✗ Server at " ++ (place host port ++ text " returned invalid health response"))
    | ok json ↦
        if is_some_of (text "hubert") (field (text "server") json)
        then println P (
            text "✓ Hubert server is available at "
            ++ (place host port
                ++ (text " (version "
                    ++ (unwrap_or (text "unknown") (field (text "version") json) ++ text ")"))))
        else fail (text "✗ Server at " ++ (place host port ++ text " is not a Hubert server"))
  ]

  unfoldable pub read_answer : Bytes → ℕ → HttpResponse → Run P (Unit {0})
  unfolding read_health
  read_answer host port response =
      if is_success response.status
      then elim response.text [
        | ok body ↦ read_health host port body
        | err _ ↦
            fail
              (text "✗ Server at " ++ (place host port ++ text " returned invalid health response"))
      ]
      else fail (
          text "✗ Server at "
          ++ (place host port
              ++ (text " is not available (status: "
                  ++ (P.status_text response.status ++ text ")"))))

  unfoldable pub check_server : Bytes → ℕ → Run P (Unit {0})
  unfolding url read_answer
  check_server host port m =
      let (r, web) = P.get_within (from_secs 2) (url host port ++ text "/health") m.web in
      let m' = record m { web = web } in
      elim r [
        | some (ok response) ↦ read_answer host port response m'
        | some (err e) ↦ (
          err (text "✗ Server is not available at " ++ (place host port ++ (text ": " ++ e))),
          m',
        )
        | none ↦ (
          err (
              text "✗ Server is not available at "
              ++ (place host port ++ text ": connection timeout")),
          m',
        )
      ]
