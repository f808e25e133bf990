-- ===== src/Ipfs/RoundTrip.antt =====
-- `get` and `exists` of `IpfsKv` after an accepted `put`.
use hubert_rust.Base.{ℕ, suc, ◌≡◌, refl, ap, true, Option, some, List, arith, bytes_eq}
use hubert_rust.Base.Lists.{Bytes, text}
use hubert_rust.Base.Io.{ok}
use hubert_rust.Base.Poll.{poll_done}
use hubert_rust.Text.Search.{strip_prefix-append}
use hubert_rust.Gordian.{Gordian, IsLawful}
use hubert_rust.AridDerivation.{Crypto, derive_ipfs_key_name}
use hubert_rust.AridDerivation.Laws.{obfuscate_with_arid_twice}
use hubert_rust.Ipfs.Kubo.{Key, Daemon}
use hubert_rust.Ipfs.Promises.{IsDaemon}
use hubert_rust.Ipfs.{
  IpfsKv, Session, get_impl, put_impl, exists_impl, is_published, resolve_with_retry_timeout,
  resolve_pass, after_resolve, fetch, resolve_timeout_of, ask,
}
use hubert_rust.Ipfs.Keys.{CacheIsTrue}
use hubert_rust.Ipfs.Stored.{IsStored}
use hubert_rust.Ipfs.Kept.{put_impl-IsStored}

module _ (G : Gordian) (K : Crypto) (D : Daemon) (L : IsLawful G) (W : IsDaemon D) where
  open G use {Arid, Envelope, to_cbor_data}

  -- The daemon answers: its list comes, what is published resolves, what has content streams it.
  pub record IsAnswering (n : D.Node) : Type 0 where
    pub keys : List Key
    pub lists : D.key_list n ≡ ok keys
    pub resolves : (id path : Bytes) → W.published n id ≡ some path → D.name_resolve id n ≡ ok path
    pub reads :
        (cid bytes : Bytes)
        → W.content n cid ≡ some bytes
        → (chunks : List Bytes) × (D.cat cid n ≡ ok chunks)

  resolve_stored :
      (fuel : ℕ) (k : Arid) (e : Envelope) (limit : ℕ) (s : Session G K D)
      (stored : IsStored G K D W k e s)
      → IsAnswering s.node
      → resolve_with_retry_timeout G K D (suc fuel) stored.id limit s
        ≡ some (ok (some stored.cid), s)
  unfolding resolve_with_retry_timeout resolve_pass
  resolve_stored fuel k e limit s stored up = poll_done _ _ fuel s (
      ground (
        arith,
        up.resolves stored.id _ stored.name,
        strip_prefix-append (text "/ipfs/") stored.cid,
      ))

  fetch_stored :
      (k : Arid) (e : Envelope) (s : Session G K D) (stored : IsStored G K D W k e s)
      → IsAnswering s.node
      → fetch G K D k stored.cid s ≡ (ok (some e), s)
  unfolding fetch ask
  fetch_stored k e s stored up =
      let (chunks, streamed) = up.reads stored.cid _ stored.ready.bytes in
      let joined = W.cat_ok stored.cid _ chunks s.node streamed stored.ready.bytes in
      rw (streamed, joined, obfuscate_with_arid_twice G K k (to_cbor_data e), L.cbor_round_trip e)
        refl

  pub get_stored :
      (fuel : ℕ) (kv : IpfsKv) (k : Arid) (e : Envelope) (timeout : Option ℕ) (s : Session G K D)
      → IsStored G K D W k e s
      → IsAnswering s.node
      → (get_impl G K D (suc fuel) kv k timeout s ≡ some (ok (some e), s))
        × (exists_impl G K D k s ≡ (ok true, s))
  unfolding get_impl exists_impl is_published ask after_resolve
  get_stored fuel kv k e timeout s stored up =
      let (key, found, same) =
        W.key_list_complete s.node up.keys (derive_ipfs_key_name G K k) stored.id up.lists
          stored.ready.key in
      let resolved = resolve_stored fuel k e (resolve_timeout_of G K D kv timeout) s stored up in
      (
        rw (get_impl, up.lists, found, same, resolved) (ap some (fetch_stored k e s stored up)),
        ground (arith, up.resolves stored.id _ stored.name),
      )

  -- Where the cache of keys is true and a `put` was accepted, `get` on a daemon that answers returns
  -- the envelope, in its first pass and whatever its timeout, and `exists` says so.
  pub ipfs_get-put :
      (fuel : ℕ) (kv : IpfsKv) (k : Arid) (e : Envelope) (ttl timeout : Option ℕ)
      (s : Session G K D) (receipt : Bytes)
      → CacheIsTrue G K D W k s
      → (put_impl G K D kv k e ttl s).0 ≡ ok receipt
      → IsAnswering (put_impl G K D kv k e ttl s).1.node
      → let s' = (put_impl G K D kv k e ttl s).1 in
        (get_impl G K D (suc fuel) kv k timeout s' ≡ some (ok (some e), s'))
        × (exists_impl G K D k s' ≡ (ok true, s'))
  ipfs_get-put fuel kv k e ttl timeout s receipt true_cache accepted up =
      get_stored fuel kv k e timeout (put_impl G K D kv k e ttl s).1
        (put_impl-IsStored G K D W kv k e ttl s receipt true_cache accepted) up
