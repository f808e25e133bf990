-- ===== src/KvStore/Local.antt =====
-- `MemoryKv` and `SqliteKv` are written once.
use hubert_rust.Base.{ℕ, ◌≡◌, refl, Bool, true, false, Option, some, arith}
use hubert_rust.Base.Io.{Result, ok, err}
use hubert_rust.Base.Poll.{done, poll_ends}
use hubert_rust.Error.{Error, already_exists}
use hubert_rust.Gordian.{Gordian}
use hubert_rust.KvStore.{memory, sqlite}
use hubert_rust.KvStore.WriteOnce.{Always, IsWriteOnce}
use hubert_rust.Memory
use hubert_rust.Memory.{Memory}
use hubert_rust.Sqlite
use hubert_rust.Sqlite.{SqliteKv}
use hubert_rust.Sqlite.Statements.{Database, IsTable}
use hubert_rust.Sqlite.Rows.{select_expires_at_cases, select_row_cases}

module _ (G : Gordian) where
  open G use {Arid, arid_ur, Envelope}

  memory_read :
      (k : Arid) (timeout start : ℕ) (t s' : Memory G) (e : Envelope)
      → Memory.get_pass G k timeout start t ≡ done (ok (some e)) s'
      → (e' : Envelope) (ttl : Option ℕ)
      → (Memory.put G k e' ttl s').0 ≡ err (already_exists (arid_ur k))
  unfolding Memory.get_pass Memory.put
  memory_read k timeout start t s' e h e' ttl = ground arith

  memory_checked :
      (k : Arid) (s s' : Memory G)
      → ◌≡◌ {A = Option (Result Bool Error × Memory G)}
          (some (Memory.check_exists G k s))
          (some (ok true, s'))
      → (e : Envelope) (ttl : Option ℕ)
      → (Memory.put G k e ttl s').0 ≡ err (already_exists (arid_ur k))
  unfolding Memory.check_exists Memory.put
  memory_checked k s s' h e ttl = ground arith

  pub memory_get_refuses :
      (sleep : ℕ → Memory G → Memory G) (fuel : ℕ) (k : Arid) (timeout : Option ℕ) (s s' : Memory G)
      (e : Envelope)
      → Memory.get G sleep fuel k timeout s ≡ some (ok (some e), s')
      → (e' : Envelope) (ttl : Option ℕ)
      → (error : Error) × ((Memory.put G k e' ttl s').0 ≡ err error)
  unfolding Memory.get
  memory_get_refuses sleep fuel k timeout s s' e h e' ttl =
      let (t, q) = poll_ends _ _ fuel s _ s' h in
      (
        already_exists (arid_ur k),
        memory_read k (Memory.default_timeout G timeout) s.now t s' e q e' ttl,
      )

  pub memory-IsWriteOnce : (sleep : ℕ → Memory G → Memory G) → IsWriteOnce (memory G sleep) Always
  memory-IsWriteOnce sleep = record {
    put_keeps = λ k e ttl s v. tt;
    get_keeps = λ fuel k timeout s s' r v h. tt;
    exists_keeps = λ fuel k s s' r v h. tt;
    read = λ fuel k timeout s s' e v h e' ttl u.
        memory_get_refuses sleep fuel k timeout s s' e h e' ttl;
    checked =
        λ fuel k s s' v h e ttl u. (already_exists (arid_ur k), memory_checked k s s' h e ttl);
  }

  module _ (Q : Database) (L : IsTable Q) where
    -- `check_exists` does not deny what a pass of `get` has read.
    sqlite_seen :
        (k : Arid) (timeout start : ℕ) (t s' : SqliteKv G Q) (e : Envelope)
        → Sqlite.get_pass G Q k timeout start t ≡ done (ok (some e)) s'
        → (s' ≡ t) × ((Sqlite.check_exists G Q k t).0 ≡ ok false → ⊥)
    unfolding Sqlite.get_pass Sqlite.check_exists Sqlite.find_row Sqlite.answer Sqlite.is_due
    sqlite_seen k timeout start t s' e h = ground (
      arith,
      select_row_cases G Q L (arid_ur k) t.db,
      select_expires_at_cases G Q L (arid_ur k) t.db,
    )

    -- Where `check_exists` does not say no, `put` fails.
    sqlite_refuses :
        (k : Arid) (s : SqliteKv G Q)
        → ((Sqlite.check_exists G Q k s).0 ≡ ok false → ⊥)
        → (e : Envelope) (ttl : Option ℕ)
        → (error : Error) × ((Sqlite.put G Q k e ttl s).0 ≡ err error)
    unfolding Sqlite.put
    sqlite_refuses k s h e ttl = go (Sqlite.check_exists G Q k s).0 refl
      where
        go :
            (r : Result Bool Error)
            → (Sqlite.check_exists G Q k s).0 ≡ r
            → (error : Error) × ((Sqlite.put G Q k e ttl s).0 ≡ err error)
        go (ok true) q = (already_exists (arid_ur k), rw q refl)
        go (ok false) q = absurd (h q)
        go (err error) q = (error, rw q refl)

    sqlite_checked :
        (k : Arid) (s s' : SqliteKv G Q)
        → ◌≡◌ {A = Option (Result Bool Error × SqliteKv G Q)}
            (some (Sqlite.check_exists G Q k s))
            (some (ok true, s'))
        → (s' ≡ s) × ((Sqlite.check_exists G Q k s).0 ≡ ok false → ⊥)
    unfolding Sqlite.check_exists Sqlite.is_due
    sqlite_checked k s s' h = ground arith

    pub sqlite_get_refuses :
        (sleep : ℕ → SqliteKv G Q → SqliteKv G Q) (fuel : ℕ) (k : Arid) (timeout : Option ℕ)
        (s s' : SqliteKv G Q) (e : Envelope)
        → Sqlite.get G Q sleep fuel k timeout s ≡ some (ok (some e), s')
        → (e' : Envelope) (ttl : Option ℕ)
        → (error : Error) × ((Sqlite.put G Q k e' ttl s').0 ≡ err error)
    unfolding Sqlite.get
    sqlite_get_refuses sleep fuel k timeout s s' e h e' ttl =
        let (t, q) = poll_ends _ _ fuel s _ s' h in
        let (same, seen) = sqlite_seen k (Sqlite.default_timeout timeout) s.instant t s' e q in
        rw same (sqlite_refuses k t seen e' ttl)

    pub sqlite-IsWriteOnce :
        (sleep : ℕ → SqliteKv G Q → SqliteKv G Q) → IsWriteOnce (sqlite G Q sleep) Always
    sqlite-IsWriteOnce sleep = record {
      put_keeps = λ k e ttl s v. tt;
      get_keeps = λ fuel k timeout s s' r v h. tt;
      exists_keeps = λ fuel k s s' r v h. tt;
      read = λ fuel k timeout s s' e v h e' ttl u.
          sqlite_get_refuses sleep fuel k timeout s s' e h e' ttl;
      checked = λ fuel k s s' v h e ttl u.
          let (same, seen) = sqlite_checked k s s' h in rw same (sqlite_refuses k s seen e ttl);
    }
