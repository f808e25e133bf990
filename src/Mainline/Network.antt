-- ===== src/Mainline/Network.antt =====
-- What `MainlineDhtKv` relies on of the DHT, and what follows for its operations.
use hubert_rust.Base.{
  ℕ, suc, ◌+◌, ◌-◌, ◌/◌, ◌≤◌, ◌<◌, ◌≡◌, refl, true, Option, none, some, arith, ◌⊎◌, inl, inr,
}
use hubert_rust.Base.Lists.{Bytes, length}
use hubert_rust.Base.Io.{Result, ok, err}
use hubert_rust.Base.Poll.{again, poll_done, poll_total}
use hubert_rust.Error.{Error, already_exists, mainline, value_too_large}
use hubert_rust.Gordian.{Gordian, IsLawful}
use hubert_rust.AridDerivation.{Crypto, obfuscate_with_arid}
use hubert_rust.AridDerivation.Laws.{obfuscate_with_arid_twice, length-obfuscate_with_arid}
use hubert_rust.Time.{from_secs, from_millis}
use hubert_rust.Mainline.{
  MutableItem, Dht, MainlineDhtKv, pubkey, item, put_impl, get_pass, get_impl, exists_impl,
  default_timeout,
}

-- BEP 44, as far as one client sees it: where nothing was found under a public key and a salt, an item
-- whose put succeeded is found. Nothing is said of a put where there is an item: the nodes refuse
-- another value whose sequence number is not larger.
pub record IsDht (D : Dht) : Type 0 where
  pub put_ok :
      (item : MutableItem) (net : D.Net) (u : Unit {0})
      → D.get_mutable_most_recent (D.verifying_key item.signer) item.salt net ≡ none
      → (D.put_mutable item net).0 ≡ ok u
      → D.get_mutable_most_recent (D.verifying_key item.signer) item.salt (D.put_mutable item net).1
        ≡ some item.value
  pub sleep_passes : (nanos : ℕ) (net : D.Net) → D.now net + nanos ≤ D.now (D.sleep nanos net)

module _ (G : Gordian) (K : Crypto) (D : Dht) where
  open G use {Arid, arid_ur, Envelope, to_cbor_data}
  open D use {Net, get_mutable_most_recent, now, sleep}

  -- What the network has for an ARID.
  abbrev pub item_at : MainlineDhtKv → Arid → Net → Option Bytes
  item_at kv k net = get_mutable_most_recent (pubkey G K D k) kv.salt net

  put_mutable_cases :
      IsDht D
      → (i : MutableItem) (net : Net)
      → get_mutable_most_recent (D.verifying_key i.signer) i.salt net ≡ none
      → ((D.put_mutable i net).0 ≡ ok tt)
          × (get_mutable_most_recent (D.verifying_key i.signer) i.salt (D.put_mutable i net).1
              ≡ some i.value)
        ⊎ ((m : Bytes) × ((D.put_mutable i net).0 ≡ err m))
  put_mutable_cases W i net free = go (D.put_mutable i net).0 refl
    where
      go :
          (r : Result (Unit {0}) Bytes)
          → (D.put_mutable i net).0 ≡ r
          → ((D.put_mutable i net).0 ≡ ok tt)
              × (get_mutable_most_recent (D.verifying_key i.signer) i.salt (D.put_mutable i net).1
                  ≡ some i.value)
            ⊎ ((m : Bytes) × ((D.put_mutable i net).0 ≡ err m))
      go (ok u) q = inl (q, W.put_ok i net u free q)
      go (err m) q = inr (m, q)

  -- An accepted `put` leaves the obfuscated envelope in the network.
  pub put_impl-stored :
      IsDht D
      → (kv : MainlineDhtKv) (k : Arid) (e : Envelope) (net : Net) (receipt : Bytes)
      → (put_impl G K D kv k e net).0 ≡ ok receipt
      → item_at kv k (put_impl G K D kv k e net).1
        ≡ some (obfuscate_with_arid G K k (to_cbor_data e))
  unfolding put_impl
  put_impl-stored W kv k e net receipt h =
      ground (arith, put_mutable_cases W (item G K D kv k e) net)

  -- What was put is what `get` returns, wherever the network still has it.
  pub get_impl-found :
      IsLawful G
      → (fuel : ℕ) (kv : MainlineDhtKv) (k : Arid) (e : Envelope) (timeout : Option ℕ) (net : Net)
      → item_at kv k net ≡ some (obfuscate_with_arid G K k (to_cbor_data e))
      → get_impl G K D (suc fuel) kv k timeout net ≡ some (ok (some e), net)
  unfolding get_impl get_pass
  get_impl-found L fuel kv k e timeout net h =
      poll_done _ _ fuel net
        (ground (arith, obfuscate_with_arid_twice G K k (to_cbor_data e), L.cbor_round_trip e))

  -- An envelope whose `put` was accepted is what the next `get` returns, at once and whatever its
  -- timeout, and `exists` says so.
  pub mainline_get-put :
      IsLawful G
      → IsDht D
      → (fuel : ℕ) (kv : MainlineDhtKv) (k : Arid) (e : Envelope) (timeout : Option ℕ) (net : Net)
        (receipt : Bytes)
      → (put_impl G K D kv k e net).0 ≡ ok receipt
      → let net' = (put_impl G K D kv k e net).1 in
        (get_impl G K D (suc fuel) kv k timeout net' ≡ some (ok (some e), net'))
        × (exists_impl G K D kv k net' ≡ (ok true, net'))
  unfolding exists_impl
  mainline_get-put L W fuel kv k e timeout net receipt h =
      let stored = put_impl-stored W kv k e net receipt h in
      (
        get_impl-found L fuel kv k e timeout (put_impl G K D kv k e net).1 stored,
        ground (arith, stored),
      )

  -- `put` sends nothing, and says why, when the envelope's CBOR is larger than the limit or when the
  -- network has an item for the ARID already. With a large envelope the size is the error.
  pub mainline_put_refused :
      (kv : MainlineDhtKv) (k : Arid) (e : Envelope) (net : Net)
      → ((kv.max_value_size < length (to_cbor_data e))
          → put_impl G K D kv k e net
            ≡ (err (mainline (value_too_large (length (to_cbor_data e)))), net))
        × ((item : Bytes)
            → length (to_cbor_data e) ≤ kv.max_value_size
            → item_at kv k net ≡ some item
            → put_impl G K D kv k e net ≡ (err (already_exists (arid_ur k)), net))
  unfolding put_impl
  mainline_put_refused kv k e net = (
    λ large. ground (arith, length-obfuscate_with_arid G K k (to_cbor_data e)),
    λ item fits there. ground (arith, length-obfuscate_with_arid G K k (to_cbor_data e)),
  )

  get_pass-again :
      (kv : MainlineDhtKv) (k : Arid) (deadline : ℕ) (net net' : Net)
      → get_pass G K D kv k deadline net ≡ again net'
      → (now net < deadline) × (net' ≡ net)
  unfolding get_pass
  get_pass-again kv k deadline net net' h = ground arith

  abbrev pub left : ℕ → Net → ℕ
  left deadline net = (deadline - now net + 999_999_999) / from_millis 1000

  left-falls :
      IsDht D
      → (kv : MainlineDhtKv) (k : Arid) (deadline : ℕ) (net net' : Net)
      → get_pass G K D kv k deadline net ≡ again net'
      → left deadline (sleep (from_millis 1000) net') < left deadline net
  left-falls W kv k deadline net net' h =
      let (early, same) = get_pass-again kv k deadline net net' h in
      rw same (omega (arith, W.sleep_passes (from_millis 1000) net))

  -- With a pass for each second of the timeout and one more, `get` returns.
  pub mainline_get_total :
      IsDht D
      → (fuel : ℕ) (kv : MainlineDhtKv) (k : Arid) (timeout : Option ℕ) (net : Net)
      → default_timeout timeout < fuel
      → (r : Result (Option Envelope) Error) × (net' : Net) × (get_impl G K D fuel kv k timeout net
          ≡ some (r, net'))
  unfolding get_impl
  mainline_get_total W fuel kv k timeout net enough =
      poll_total _ _ (left (now net + from_secs (default_timeout timeout)))
        (left-falls W kv k (now net + from_secs (default_timeout timeout))) fuel net (omega arith)
