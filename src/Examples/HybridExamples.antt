-- ===== src/Examples/HybridExamples.antt =====
-- The theorems on `HybridKv` over the network and the daemon of the other examples.
use hubert_rust.Base.{ℕ, ◌≡◌, refl, true, none, some, ◌++◌, arith, bytes_eq}
use hubert_rust.Base.Lists.{text}
use hubert_rust.Base.Assoc.{lookup}
use hubert_rust.Base.Io.{ok}
use hubert_rust.AridDerivation.{derive_ipfs_key_name, obfuscate_with_arid}
use hubert_rust.AridDerivation.Laws.{}
use hubert_rust.Mainline.{MutableItem, Dht, MainlineDhtKv}
use hubert_rust.Mainline
use hubert_rust.Mainline.Network.{}
use hubert_rust.Ipfs
use hubert_rust.Ipfs.{IpfsKv, KeyInfo, Session, find_key, lifetime}
use hubert_rust.Hybrid
use hubert_rust.Hybrid.{HybridKv, World}
use hubert_rust.Hybrid.Reference.{create_reference_envelope}
use hubert_rust.Hybrid.RoundTrip.{hybrid_get-put_large}
use hubert_rust.Examples.Toys.{toy, toy-IsLawful, forest, forest-AreEnvelopes}
use hubert_rust.Examples.KeyExamples.{ciphers}
use hubert_rust.Examples.Toys.{hello}
use hubert_rust.Examples.DhtExamples.{dht, dht-IsDht, net}
use hubert_rust.Examples.Daemon.{kubo, kubo-IsDaemon}
use hubert_rust.Examples.IpfsExamples.{idle, idle-CacheIsTrue, answers}

-- The limit is small, so that the envelope is above it.
abbrev hybrid : ℕ → HybridKv
hybrid limit = Hybrid.with_dht_size_limit limit (Hybrid.new (text "http://127.0.0.1:5001"))

abbrev world : World toy forest ciphers dht kubo
world = record { net = net; session = idle }

abbrev large : World toy forest ciphers dht kubo
large = (Hybrid.put_impl toy forest ciphers dht kubo (hybrid 1) 7 3 hello none world).1

hybrid_get-put_large_example :
    (Hybrid.get_impl toy forest ciphers dht kubo 1 (hybrid 1) 3 none large
      ≡ some (ok (some hello), large))
    × (Hybrid.exists toy forest ciphers dht kubo (hybrid 1) 3 large ≡ (ok true, large))
unfolding Hybrid.put_impl Hybrid.put_indirect Ipfs.put_impl obfuscate_with_arid
    Ipfs.get_or_create_key lookup Ipfs.upload Ipfs.finish Ipfs.pin_if Ipfs.publish_once
    Ipfs.says_unpublished hubert_rust.Text.Search.contains derive_ipfs_key_name Mainline.put_impl
    create_reference_envelope
hybrid_get-put_large_example =
    hybrid_get-put_large toy forest ciphers dht kubo toy-IsLawful forest-AreEnvelopes dht-IsDht
      kubo-IsDaemon 0 (hybrid 1) 7 3 hello none none world
      (text "Stored in IPFS (ref: "
        ++ (toy.arid_ur 7 ++ (text ") via DHT at ARID: " ++ toy.arid_ur 3)))
      (omega arith) (idle-CacheIsTrue 7) refl (answers large.session.node)
