-- ===== src/Storage/Clocks.antt =====
-- The passing of time for the two storages of server/server_kv.rs, and what `put_sync` is for each.
use hubert_rust.Base.{ℕ, ◌+◌, ◌^◌, ◌<◌, ◌≡◌, refl, some, arith, inl, inr}
use hubert_rust.Base.Io.{map_ok}
use hubert_rust.Gordian.{Gordian, IsLawful}
use hubert_rust.Time.{from_secs}
use hubert_rust.Memory
use hubert_rust.Memory.{Memory, entry}
use hubert_rust.Sqlite
use hubert_rust.Sqlite.{SqliteKv}
use hubert_rust.Sqlite.Statements.{Database, IsTable}
use hubert_rust.Storage.{ServerKv, put_sync, memory, sqlite, reply}
use hubert_rust.Storage.Agreement.{IsWorking, AreAlike}

module _ (G : Gordian) (Q : Database) where
  open G use {Arid, arid_ur, Envelope}

  -- Whole seconds that pass.
  abbrev pub memory_later : ℕ → Memory G → Memory G
  memory_later seconds s = record s { now = s.now + from_secs seconds }

  abbrev pub sqlite_later : ℕ → SqliteKv G Q → SqliteKv G Q
  sqlite_later seconds t = record t {
    unix_time = map_ok (λ now. now + seconds) t.unix_time;
    instant = t.instant + from_secs seconds;
  }

  abbrev pub later : ℕ → ServerKv G Q → ServerKv G Q
  later seconds (memory s) = memory (memory_later seconds s)
  later seconds (sqlite t) = sqlite (sqlite_later seconds t)

  pub put_sync-memory :
      (k : Arid) (e : Envelope) (ttl : ℕ) (s : Memory G)
      → put_sync G Q k e ttl (memory s)
        ≡ (reply G Q (Memory.put G k e (some ttl) s).0, memory (Memory.put G k e (some ttl) s).1)
  unfolding put_sync
  put_sync-memory k e ttl s = refl

  pub put_sync-sqlite :
      (k : Arid) (e : Envelope) (ttl : ℕ) (t : SqliteKv G Q)
      → put_sync G Q k e ttl (sqlite t) ≡ (
        reply G Q (Sqlite.put G Q k e (some ttl) t).0,
        sqlite (Sqlite.put G Q k e (some ttl) t).1,
      )
  unfolding put_sync
  put_sync-sqlite k e ttl t = refl

  module _ (L : IsTable Q) (W : IsWorking Q L) (C : IsLawful G) where
    pub later-AreAlike :
        (seconds unix : ℕ) (s : Memory G) (t : SqliteKv G Q)
        → unix + seconds < 2 ^ 63
        → AreAlike G Q L unix s t
        → AreAlike G Q L (unix + seconds) (memory_later seconds s) (sqlite_later seconds t)
    later-AreAlike seconds unix s t small h = record {
      reads = rw h.reads refl;
      in_range = small;
      same = λ k. elim (h.same k) [
        | inl nothing ↦ inl nothing
        | inr b ↦ inr (record {
          envelope = b.envelope;
          expires_at = b.expires_at;
          due = b.due;
          small = b.small;
          in_map = b.in_map;
          in_table = b.in_table;
          in_step = omega (arith, b.in_step);
        })
      ];
    }
