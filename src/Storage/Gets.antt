-- ===== src/Storage/Gets.antt =====
-- A lookup in a map and in a table that hold the same (server/server_kv.rs).
use hubert_rust.Base.{
  ℕ, ◌≡◌, refl, ◌∙◌, true, false, Option, none, some, arith, inl, inr, Bool-cases, if◌then◌else◌,
}
use hubert_rust.Base.Int.{pos, as_i64}
use hubert_rust.Base.Io.{ok, map_ok}
use hubert_rust.Base.Poll.{poll_done}
use hubert_rust.Gordian.{Gordian, IsLawful}
use hubert_rust.Memory
use hubert_rust.Memory.{Memory, StorageEntry, entry, is_expired}
use hubert_rust.Memory.Entries.{swept, expired_at, entry-evict, now-evict}
use hubert_rust.Memory.Polling.{visible, get_now}
use hubert_rust.Sqlite
use hubert_rust.Sqlite.{SqliteKv, is_due, find_row, drop_row, get_pass, answer, missing}
use hubert_rust.Sqlite.Expiry.{get-row}
use hubert_rust.Sqlite.Statements.{Database, IsTable}
use hubert_rust.Storage.{get_sync, memory, sqlite}
use hubert_rust.Storage.Agreement.{IsWorking, Both, Agrees, AreAlike, due-expired, arid_ur-beq}

module _ (G : Gordian) (Q : Database) (L : IsTable Q) (W : IsWorking Q L) (C : IsLawful G) where
  open G use {Arid, arid_ur, Envelope, envelope_ur}

  abbrev stay : SqliteKv G Q → SqliteKv G Q
  stay t = t

  -- With a timeout of 0 and no row.
  get-missing :
      (k : Arid) (t : SqliteKv G Q) (unix : ℕ)
      → t.unix_time ≡ ok unix
      → L.row (arid_ur k) t.db ≡ none
      → Sqlite.get G Q (λ _ s. s) 1 k (some 0) t ≡ some (ok none, t)
  unfolding Sqlite.get get_pass find_row answer
  get-missing k t unix clock free =
      let (r, q) = W.select_row (arid_ur k) t.db in
      poll_done _ _ 0 t (ground (arith, L.select_row_row (arid_ur k) t.db r q))

  -- The table without the row of `k`.
  abbrev dropped : Arid → SqliteKv G Q → SqliteKv G Q
  dropped k t = record t { db = (Q.delete_row (arid_ur k) t.db).1 }

  drop_row-works : (k : Arid) (t : SqliteKv G Q) → drop_row G Q k t ≡ (ok tt, dropped k t)
  unfolding drop_row
  drop_row-works k t = rw (W.delete_row (arid_ur k) t.db) refl

  row-dropped :
      (k j : Arid) (t : SqliteKv G Q)
      → L.row (arid_ur j) (dropped k t).db
        ≡ (if G.arid_eq.beq k j then none else L.row (arid_ur j) t.db)
  row-dropped k j t =
      L.delete_row_ok (arid_ur k) t.db tt (arid_ur j) (W.delete_row (arid_ur k) t.db)
      ∙ rw (arid_ur-beq G Q L C k j) refl

  module _ (k : Arid) (unix : ℕ) (s : Memory G) (t : SqliteKv G Q)
      (h : AreAlike G Q L unix s t) where
    -- Both lookups return what the map shows, and leave the same.
    abbrev pub GetAlike : Type 0
    GetAlike =
        (t' : SqliteKv G Q) × (get_sync G Q k (memory s) ≡ (visible G k s, memory (swept G k s)))
        × (get_sync G Q k (sqlite t) ≡ (visible G k s, sqlite t'))
        × AreAlike G Q L unix (swept G k s) t'

    get_sync-memory : get_sync G Q k (memory s) ≡ (visible G k s, memory (swept G k s))
    unfolding get_sync
    get_sync-memory = rw (get_now G (λ _ s. s) 0 k s) refl

    get_sync-sqlite :
        (o : Option Envelope) (t' : SqliteKv G Q)
        → Sqlite.get G Q (λ _ s. s) 1 k (some 0) t ≡ some (ok o, t')
        → get_sync G Q k (sqlite t) ≡ (o, sqlite t')
    unfolding get_sync
    get_sync-sqlite o t' q = rw (get_sync, q) refl

    get_alike_missing : entry G k s ≡ none → L.row (arid_ur k) t.db ≡ none → GetAlike
    get_alike_missing absent free = (
      t,
      get_sync-memory,
      get_sync-sqlite (visible G k s) t
          (get-missing k t unix h.reads free ∙ rw (visible, absent) refl),
      rw (swept, expired_at, absent) h,
    )

    module _ (b : Both G Q L s.now unix (entry G k s) (L.row (arid_ur k) t.db)) where
      due_as : is_due (some (pos b.due)) (as_i64 unix) ≡ is_expired (some b.expires_at) s.now
      due_as = due-expired G Q L b h.in_range

      get_of_row : Sqlite.get G Q (λ _ s. s) 1 k (some 0) t ≡ (
          if is_expired (some b.expires_at) s.now
          then some (map_ok (λ _. none) (drop_row G Q k t).0, (drop_row G Q k t).1)
          else some (ok (some b.envelope), t))
      get_of_row =
          let (r, answered) = W.select_row (arid_ur k) t.db in
          get-row G Q L (λ _ s. s) 0 k b.envelope (some (pos b.due)) (some 0) t unix r C h.reads
            b.in_table answered
          ∙ rw due_as refl

      get_alike_live : is_expired (some b.expires_at) s.now ≡ false → GetAlike
      get_alike_live live = (
        t,
        get_sync-memory,
        get_sync-sqlite (visible G k s) t (
            get_of_row
            ∙ rw (visible, b.in_map, live, Memory.decode, C.cbor_round_trip b.envelope) refl),
        rw (swept, expired_at, b.in_map, live) h,
      )

      dropped-same :
          (j : Arid)
          → Agrees G Q L
              (Memory.evict G k s).now
              unix
              (entry G j (Memory.evict G k s))
              (L.row (arid_ur j) (dropped k t).db)
      dropped-same j =
          rw (now-evict G k s, entry-evict G j k s, row-dropped k j t)
            (elim (Bool-cases (G.arid_eq.beq k j)) [
              | inl same ↦ rw same (inl (refl, refl))
              | inr differs ↦ rw differs (h.same j)
            ])

      get_alike_due : is_expired (some b.expires_at) s.now ≡ true → GetAlike
      get_alike_due due = (
        dropped k t,
        get_sync-memory,
        get_sync-sqlite (visible G k s) (dropped k t)
            (get_of_row ∙ rw (visible, b.in_map, due, drop_row-works k t) refl),
        rw (swept, expired_at, b.in_map, due)
            (record { reads = h.reads; in_range = h.in_range; same = dropped-same }),
      )

    pub get_alike : GetAlike
    get_alike = elim (h.same k) [
      | inl (absent, free) ↦ get_alike_missing absent free
      | inr b ↦ elim (Bool-cases (is_expired (some b.expires_at) s.now)) [
        | inl due ↦ get_alike_due b due
        | inr live ↦ get_alike_live b live
      ]
    ]
