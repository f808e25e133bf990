-- ===== src/Examples/WaitingExamples.antt =====
-- Stores into which another party puts an envelope while `get` sleeps.
use hubert_rust.Base.{◌<◌, ◌≤◌, ℕ, zero, suc, ◌+◌, ◌≡◌, refl, Option, none, some, [], ◌∷◌, arith}
use hubert_rust.Base.Lists.{text}
use hubert_rust.Base.Io.{ok}
use hubert_rust.Base.Poll.{slept}
use hubert_rust.Time.{from_millis}
use hubert_rust.AridDerivation.{obfuscate_with_arid}
use hubert_rust.Memory
use hubert_rust.Memory.{Memory}
use hubert_rust.Memory.Waiting.{memory_get_waits}
use hubert_rust.Sqlite
use hubert_rust.Sqlite.{SqliteKv}
use hubert_rust.Sqlite.Waiting.{sqlite_get_waits}
use hubert_rust.Mainline
use hubert_rust.Mainline.{Dht}
use hubert_rust.Mainline.Network.{IsDht}
use hubert_rust.Mainline.Waiting.{mainline_get_waits}
use hubert_rust.Examples.Toys.{hello, toy, toy-IsLawful}
use hubert_rust.Examples.KeyExamples.{ciphers}
use hubert_rust.Examples.DhtExamples.{Net, dht, dht-IsDht, net}
use hubert_rust.Examples.SqliteExamples.{tables}

abbrev half : ℕ
half = from_millis 500

-- Another thread puts `hello` at 3 during the first sleep.
abbrev helped : ℕ → Memory toy → Memory toy
helped nanos s = record {
  storage = (Memory.put toy 3 hello none (Memory.new toy 0)).1.storage;
  now = s.now + nanos;
}

helped-Arrives : Memory.Waiting.Arrives toy helped 3 hello half (Memory.new toy 0)
unfolding hubert_rust.Base.Assoc.lookup Memory.put hubert_rust.Base.Assoc.insert Memory.is_expired
helped-Arrives = record { before = before; after = after }
  where
    before :
        (n : ℕ)
        → let t = slept (helped half) n (Memory.new toy 0) in
          t.now < half → Memory.entry toy 3 t ≡ none
    before zero h = refl
    before (suc n) h = absurd (omega arith)

    after :
        (n : ℕ)
        → let t = slept (helped half) n (Memory.new toy 0) in
          half ≤ t.now → Memory.Polling.visible toy 3 t ≡ some hello
    after zero h = absurd (omega arith)
    after (suc n) h = refl

memory_get_waits_example :
    (s : Memory toy) × (Memory.get toy helped 61 3 none (Memory.new toy 0)
      ≡ some (ok (some hello), s))
memory_get_waits_example =
    memory_get_waits toy helped (record { passes = λ nanos s. omega arith }) 61 3 hello none half
      (Memory.new toy 0) helped-Arrives (omega arith) (omega arith)

-- The same with a row of a database.
abbrev vacant : SqliteKv toy tables
vacant = record {
  db_path = text "hubert.db";
  db = record { keys = []; rows = λ _. none };
  unix_time = ok 1000;
  instant = 0;
}

abbrev helped_by_row : ℕ → SqliteKv toy tables → SqliteKv toy tables
helped_by_row nanos s = record (Sqlite.put toy tables 3 hello none vacant).1 {
  instant = s.instant + nanos;
}

row-Arrives : Sqlite.Waiting.Arrives toy tables helped_by_row 3 hello half vacant
unfolding Sqlite.find_row Sqlite.put Sqlite.check_exists Sqlite.store_row
row-Arrives = record { before = before; after = after }
  where
    before :
        (n : ℕ)
        → let t = slept (helped_by_row half) n vacant in
          t.instant < half → Sqlite.find_row toy tables 3 t ≡ (ok Sqlite.missing, t)
    before zero h = refl
    before (suc n) h = absurd (omega arith)

    after :
        (n : ℕ)
        → let t = slept (helped_by_row half) n vacant in
          half ≤ t.instant
          → Sqlite.find_row toy tables 3 t ≡ (ok (Sqlite.valid (toy.envelope_ur hello)), t)
    after zero h = absurd (omega arith)
    after (suc n) h = refl

sqlite_get_waits_example :
    (s : SqliteKv toy tables) × (Sqlite.get toy tables helped_by_row 61 3 none vacant
      ≡ some (ok (some hello), s))
sqlite_get_waits_example =
    sqlite_get_waits toy tables helped_by_row toy-IsLawful
      (record { passes = λ nanos s. omega arith }) 61 3 hello none half vacant row-Arrives
      (omega arith) (omega arith)

-- A network that has the item after the first sleep.
abbrev busy : Dht
busy = record dht {
  sleep = λ nanos n. record {
    items = λ _. some (obfuscate_with_arid toy ciphers 3 (toy.to_cbor_data hello));
    clock = n.clock + nanos;
  };
}

busy-IsDht : IsDht busy
busy-IsDht = record { put_ok = dht-IsDht.put_ok; sleep_passes = λ nanos n. omega arith }

abbrev second : ℕ
second = from_millis 1000

busy-Arrives : Mainline.Waiting.Arrives toy ciphers busy Mainline.new 3 hello second net
busy-Arrives = record { before = before; after = after }
  where
    before :
        (n : ℕ)
        → let t = slept (busy.sleep second) n net in
          t.clock < second → Mainline.Network.item_at toy ciphers busy Mainline.new 3 t ≡ none
    before zero h = refl
    before (suc n) h = absurd (omega arith)

    after :
        (n : ℕ)
        → let t = slept (busy.sleep second) n net in
          second ≤ t.clock
          → Mainline.Network.item_at toy ciphers busy Mainline.new 3 t
            ≡ some (obfuscate_with_arid toy ciphers 3 (toy.to_cbor_data hello))
    after zero h = absurd (omega arith)
    after (suc n) h = refl

mainline_get_waits_example :
    (n : Net) × (Mainline.get_impl toy ciphers busy 31 Mainline.new 3 none net
      ≡ some (ok (some hello), n))
mainline_get_waits_example =
    mainline_get_waits toy ciphers busy Mainline.new toy-IsLawful busy-IsDht 31 3 hello none second
      net busy-Arrives (omega arith) (omega arith)
