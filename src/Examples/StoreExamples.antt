-- ===== src/Examples/StoreExamples.antt =====
-- The promise of the trait at small stores.
use hubert_rust.Base.{◌+◌}
use hubert_rust.KvStore.{memory, sqlite, client, mainline, hybrid, ipfs}
use hubert_rust.KvStore.WriteOnce.{Always, IsWriteOnce}
use hubert_rust.KvStore.Stores.{write_once}
use hubert_rust.Mainline
use hubert_rust.Hybrid
use hubert_rust.Base.Lists.{text}
use hubert_rust.Examples.Toys.{toy, toy-IsLawful, forest}
use hubert_rust.Examples.KeyExamples.{ciphers}
use hubert_rust.Examples.DhtExamples.{dht}
use hubert_rust.Examples.Daemon.{Node, kubo, kubo-IsDaemon}
use hubert_rust.Examples.Aging.{kubo-IsLasting}
use hubert_rust.Ipfs
use hubert_rust.Ipfs.Cache.{IsTrue}
use hubert_rust.Ipfs.Steps.{opened}
use hubert_rust.Examples.ServerExamples.{wire, url, connected}
use hubert_rust.Examples.SqliteExamples.{tables, tables-IsTable}

write_once_example :
    IsWriteOnce (memory toy (λ nanos s. record s { now = s.now + nanos })) Always
    × IsWriteOnce (sqlite toy tables (λ nanos s. record s { instant = s.instant + nanos })) Always
    × IsWriteOnce (client toy wire url) Always
    × IsWriteOnce (mainline toy ciphers dht Mainline.new) Always
    × IsWriteOnce
        (hybrid toy forest ciphers dht kubo (Hybrid.new (text "http://127.0.0.1:5001")) 9)
        Always
    × IsWriteOnce
        (ipfs toy ciphers kubo (Ipfs.new (text "http://127.0.0.1:5001")))
        (IsTrue toy ciphers kubo kubo-IsDaemon)
    × ((n : Node)
        → IsTrue toy ciphers kubo kubo-IsDaemon
            (opened toy ciphers kubo kubo-IsDaemon kubo-IsLasting n))
write_once_example =
    write_once toy toy-IsLawful ciphers forest dht kubo tables tables-IsTable wire url connected
      kubo-IsDaemon kubo-IsLasting (λ nanos s. record s { now = s.now + nanos })
      (λ nanos s. record s { instant = s.instant + nanos }) Mainline.new
      (Ipfs.new (text "http://127.0.0.1:5001")) (Hybrid.new (text "http://127.0.0.1:5001")) 9
