-- ===== src/Cli/Stores.antt =====
-- bin/hubert.rs: the functions that put in and get from each backend. Each command makes its own
-- store, so the cache of IPFS keys is empty.
use hubert_rust.Base.{ℕ, Bool, Option, none, some, [], ◌++◌, if◌then◌else◌}
use hubert_rust.Base.Lists.{Bytes, text}
use hubert_rust.Base.Io.{Result, ok, err, map_err, Io, pure, ◌>>=◌, ◌>>◌}
use hubert_rust.Text.Decimal.{decimal}
use hubert_rust.Text.Search.{contains}
use hubert_rust.Text.Split.{nth1}
use hubert_rust.Error.{Error, MainlineError, to_string}
use hubert_rust.Mainline
use hubert_rust.Ipfs
use hubert_rust.Hybrid
use hubert_rust.Client
use hubert_rust.Cli.{Platform, Machine, Run, println}

-- `http://host:port`
unfoldable pub url : Bytes → ℕ → Bytes
url host port = text "http://" ++ (host ++ (text ":" ++ decimal port))

-- `http://127.0.0.1:port`
abbrev pub local_url : ℕ → Bytes
local_url = url (text "127.0.0.1")

module _ (P : Platform) where
  abbrev Arid : Type 0
  Arid = P.gordian.Arid

  abbrev Envelope : Type 0
  Envelope = P.gordian.Envelope

  -- `map_err(|e| anyhow!("{}", e))`
  abbrev pub shown : {A : Type 0} → Result A Error → Result A Bytes
  shown = map_err to_string

  -- An operation of a store, on its part of the machine.
  abbrev pub on_net : {A : Type 0} → Io P.dht.Net Error A → Run P A
  on_net f m = let (r, net) = f m.net in (shown r, record m { net = net })

  abbrev pub on_web : {A : Type 0} → Io P.http.World Error A → Run P A
  on_web f m = let (r, web) = f m.web in (shown r, record m { web = web })

  abbrev pub Session : Type 0
  Session = Ipfs.Session P.gordian P.crypto P.daemon

  abbrev pub session_of : Machine P → Session
  session_of m = record { node = m.node; key_cache = [] }

  abbrev pub on_node : {A : Type 0} → Io Session Error A → Run P A
  on_node f m = let (r, s) = f (session_of m) in (shown r, record m { node = s.node })

  abbrev pub World : Type 0
  World = Hybrid.World P.gordian P.envelopes P.crypto P.dht P.daemon

  abbrev pub world_of : Machine P → World
  world_of m = record { net = m.net; session = session_of m }

  abbrev pub with_world : Machine P → World → Machine P
  with_world m w = record m { net = w.net; node = w.session.node }

  abbrev pub on_both : {A : Type 0} → Io World Error A → Run P A
  on_both f m = let (r, w) = f (world_of m) in (shown r, with_world m w)

  -- `MainlineDhtKv::new`
  unfoldable pub open_mainline : Run P Mainline.MainlineDhtKv
  open_mainline m =
      let (r, net) = P.start_dht m.net in
      let m' = record m { net = net } in
      elim r [
        | ok _ ↦ (ok Mainline.new, m')
        | err e ↦ (err (to_string (Error.mainline (MainlineError.io e))), m')
      ]

  unfoldable pub put_mainline : Arid → Envelope → Run P (Unit {0})
  unfolding open_mainline
  put_mainline arid envelope = do
    store ← open_mainline
    on_net (Mainline.put P.gordian P.crypto P.dht store arid envelope none)
    pure tt

  -- `println!("CID: {}", cid_part)` of what follows `ipfs://` in a receipt, if anything does
  unfoldable pub print_cid : Bytes → Run P (Unit {0})
  unfolding println
  print_cid receipt = elim (nth1 (text "ipfs://") receipt) [
    | some cid ↦ println P (text "CID: " ++ cid)
    | none ↦ pure tt
  ]

  unfoldable pub put_ipfs : Arid → Envelope → ℕ → Bool → Run P (Unit {0})
  unfolding print_cid
  put_ipfs arid envelope port pin = do
    let store = Ipfs.with_pin_content pin (Ipfs.new (local_url port))
    result ← on_node (Ipfs.put P.gordian P.crypto P.daemon store arid envelope none)
    if pin then print_cid result else pure tt

  -- `HybridKv::new`, which starts a DHT client.
  unfoldable pub open_hybrid : ℕ → Run P Hybrid.HybridKv
  unfolding open_mainline
  open_hybrid port = do _ ← open_mainline; pure (Hybrid.new (local_url port))

  unfoldable pub put_hybrid : Arid → Envelope → ℕ → Bool → Run P (Unit {0})
  unfolding open_hybrid print_cid
  put_hybrid arid envelope port pin = do
    store ← open_hybrid port
    result ← λ m.
        on_both
          (Hybrid.put P.gordian P.envelopes P.crypto P.dht P.daemon
            (Hybrid.with_pin_content pin store) m.new_arid arid envelope none)
          m
    if pin
        then (if contains (text "ipfs://") result then print_cid result else pure tt)
        else pure tt

  unfoldable pub put_server : Bytes → ℕ → Arid → Envelope → Option ℕ → Run P (Unit {0})
  put_server host port arid envelope ttl = do
    on_web (Client.put P.gordian P.http (url host port) arid envelope ttl)
    pure tt

  -- What a `get` makes of the answer of a store's loop; nothing if the fuel ran out.
  abbrev pub Got : Type 0
  Got = Option (Result (Option Envelope) Bytes × Machine P)

  abbrev pub returned :
      {S : Type 0} → (S → Machine P) → Option (Result (Option Envelope) Error × S) → Got
  returned f none = none
  returned f (some (r, s)) = some (shown r, f s)

  -- `?` before the loop.
  abbrev pub opened : {A : Type 0} → Result A Bytes × Machine P → (A → Machine P → Got) → Got
  opened (err e, m) f = some (err e, m)
  opened (ok a, m) f = f a m

  unfoldable pub get_mainline : ℕ → Arid → ℕ → Machine P → Got
  get_mainline fuel arid timeout m = opened (open_mainline m) (λ store m'.
      returned (λ net. record m' { net = net })
        (Mainline.get P.gordian P.crypto P.dht fuel store arid (some timeout) m'.net))

  unfoldable pub get_ipfs : ℕ → Arid → ℕ → ℕ → Machine P → Got
  get_ipfs fuel arid timeout port m =
      returned (λ s. record m { node = s.node })
        (Ipfs.get P.gordian P.crypto P.daemon fuel (Ipfs.new (local_url port)) arid (some timeout)
          (session_of m))

  unfoldable pub get_hybrid : ℕ → Arid → ℕ → ℕ → Machine P → Got
  get_hybrid fuel arid timeout port m = opened (open_hybrid port m) (λ store m'.
      returned (with_world m') (
        Hybrid.get P.gordian P.envelopes P.crypto P.dht P.daemon fuel store arid (some timeout)
          (world_of m')))

  unfoldable pub get_server : ℕ → Bytes → ℕ → Arid → ℕ → Machine P → Got
  get_server fuel host port arid timeout m =
      returned (λ web. record m { web = web })
        (Client.get P.gordian P.http fuel (url host port) arid (some timeout) m.web)
