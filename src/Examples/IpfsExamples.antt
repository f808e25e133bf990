-- ===== src/Examples/IpfsExamples.antt =====
-- The theorems on `IpfsKv` at a small daemon.
use hubert_rust.Base.{ℕ, ◌+◌, ◌*◌, ◌≤◌, ◌<◌, ◌≡◌, refl, true, none, some, [], ◌∷◌, ◌++◌, bytes_eq}
use hubert_rust.Base.Lists.{Bytes, text}
use hubert_rust.Base.Assoc.{lookup}
use hubert_rust.Text.Decimal.{decimal}
use hubert_rust.Base.Io.{ok}
use hubert_rust.Error.{Error}
use hubert_rust.AridDerivation.{derive_ipfs_key_name, obfuscate_with_arid}
use hubert_rust.AridDerivation.Laws.{}
use hubert_rust.Mainline.Network.{}
use hubert_rust.Ipfs
use hubert_rust.Ipfs.{IpfsKv, KeyInfo, Session, find_key, lifetime}
use hubert_rust.Ipfs.Lifetime.{IsUnit, lifetime_bounds}
use hubert_rust.Ipfs.Keys.{CacheIsTrue}
use hubert_rust.Ipfs.RoundTrip.{IsAnswering}
use hubert_rust.Hybrid.Reference.{}
use hubert_rust.Examples.Toys.{Tree, toy, toy-IsLawful}
use hubert_rust.Examples.KeyExamples.{ciphers}
use hubert_rust.Examples.Toys.{hello}
use hubert_rust.Examples.Daemon.{Node, kubo, kubo-IsDaemon}
use hubert_rust.Examples.Aging.{collected}
use hubert_rust.Base.{false}
use hubert_rust.Base.{◌||◌, bytes_beq}
use hubert_rust.Ipfs.Race.{ipfs_publish_race}

abbrev pub idle : Session toy ciphers kubo
idle = record {
  node = record { keys = []; names = λ _. none; blocks = λ _. false; pins = λ _. false; clock = 0 };
  key_cache = [];
}

abbrev ipfs : IpfsKv
ipfs = Ipfs.new (text "http://127.0.0.1:5001")

abbrev pinning : IpfsKv
pinning = Ipfs.with_pin_content true ipfs

abbrev uploaded : Session toy ciphers kubo
uploaded = (Ipfs.put_impl toy ciphers kubo pinning 3 hello none idle).1

pub idle-CacheIsTrue : (k : ℕ) → CacheIsTrue toy ciphers kubo kubo-IsDaemon k idle
unfolding lookup
idle-CacheIsTrue k info h = cc

pub answers : (n : Node) → IsAnswering toy ciphers kubo toy-IsLawful kubo-IsDaemon n
answers n = record {
  keys = n.keys;
  lists = refl;
  resolves = λ id path h. rw h refl;
  reads = λ cid bytes h. (bytes ∷ [], rw h refl);
}

abbrev receipt : Bytes
receipt =
    text "ipns://"
    ++ (derive_ipfs_key_name toy ciphers 3
        ++ (text " -> ipfs://" ++ obfuscate_with_arid toy ciphers 3 (toy.to_cbor_data hello)))

-- Another envelope at another ARID, not pinned, and an hour in which it is collected.
abbrev used : Session toy ciphers kubo
used = (Ipfs.put_impl toy ciphers kubo ipfs 4 hello none uploaded).1

abbrev pub an_hour : ℕ
an_hour = 3_600_000_000_000

abbrev aged : Session toy ciphers kubo
aged = record used { node = collected an_hour used.node }

-- Two threads have uploaded their envelopes for one ARID.
abbrev secret : Tree → Bytes
secret e = obfuscate_with_arid toy ciphers 3 (toy.to_cbor_data e)

abbrev name : Bytes
name = derive_ipfs_key_name toy ciphers 3

abbrev both_uploaded : Session toy ciphers kubo
both_uploaded = record {
  node = record {
    keys = record { name = name; id = name } ∷ [];
    names = λ _. none;
    blocks = λ cid. bytes_beq (secret hello) cid || bytes_beq (secret Tree.unit) cid;
    pins = λ _. false;
    clock = 0;
  };
  key_cache = [];
}

abbrev first_sent : Session toy ciphers kubo
first_sent = (Ipfs.send_name toy ciphers kubo name (secret hello) none both_uploaded).1

abbrev second_sent : Session toy ciphers kubo
second_sent = (Ipfs.send_name toy ciphers kubo name (secret Tree.unit) none first_sent).1

ipfs_publish_race_example :
    (Ipfs.publish_once toy ciphers kubo name name (secret hello) none 3 both_uploaded
      ≡ (ok tt, first_sent))
    × (Ipfs.get_impl toy ciphers kubo 1 ipfs 3 none second_sent
        ≡ some (ok (some Tree.unit), second_sent))
unfolding derive_ipfs_key_name obfuscate_with_arid Ipfs.is_published Ipfs.says_unpublished
    hubert_rust.Text.Search.contains Ipfs.send_name
ipfs_publish_race_example =
    ipfs_publish_race toy ciphers kubo toy-IsLawful kubo-IsDaemon 0 ipfs 3 hello Tree.unit name
      (secret hello) (secret Tree.unit) none none none both_uploaded
      (record { key = refl; bytes = refl }) (record { key = refl; bytes = refl }) refl refl refl
      (answers second_sent.node)

lifetime_bounds_example :
    (n : ℕ) × (letter : Bytes) × (unit : ℕ) × (lifetime 7200 ≡ decimal n ++ letter)
    × IsUnit letter unit
    × (n * unit ≤ 7200)
    × (7200 < n * unit + unit)
    × (1 ≤ 7200 → 1 ≤ n)
lifetime_bounds_example = lifetime_bounds 7200
