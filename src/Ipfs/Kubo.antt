-- ===== src/Ipfs/Kubo.antt =====
-- The Kubo daemon behind its RPC client (ipfs_api_backend_hyper), with the clock and what happens in
-- a sleep. A request may fail, with an error given by its `Display` text.
use hubert_rust.Base.{ℕ, Bool, Option, List}
use hubert_rust.Base.Lists.{Bytes}
use hubert_rust.Base.Io.{Result}

-- An entry of `key_list`.
pub record Key : Type 0 where
  pub name : Bytes
  pub id : Bytes

pub record Daemon : Type 1 where
  pub Node : Type 0
  pub key_list : Node → Result (List Key) Bytes
  -- `key_gen(name, Ed25519, 0)`: the new key's id
  pub key_gen : Bytes → Node → Result Bytes Bytes × Node
  -- `name_resolve(Some(peer_id), false, false)`: the path
  pub name_resolve : Bytes → Node → Result Bytes Bytes
  -- `name_publish(path, false, lifetime, None, Some(key_name))`
  pub name_publish : Bytes → Option Bytes → Bytes → Node → Result (Unit {0}) Bytes × Node
  -- `add`: the hash
  pub add : Bytes → Node → Result Bytes Bytes × Node
  -- the chunks of the stream of `cat`, up to its end or its first error
  pub cat : Bytes → Node → Result (List Bytes) Bytes
  -- `pin_add(cid, recursive)`
  pub pin_add : Bytes → Bool → Node → Result (Unit {0}) Bytes × Node
  pub now : Node → ℕ
  pub sleep : ℕ → Node → Node
