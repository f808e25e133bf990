-- ===== src/Storage/Puts.antt =====
-- A `put` into a map and into a table that hold the same (server/server_kv.rs).
use hubert_rust.Base.{
  ℕ, ◌+◌, ◌^◌, ◌<◌, ◌≡◌, refl, ◌∙◌, min, false, Option, none, some, arith, inl, inr, bytes_eq,
  Bool-cases, ◌++◌, if◌then◌else◌,
}
use hubert_rust.Base.Int.{pos, as_i64, as_i64_small}
use hubert_rust.Base.Lists.{text}
use hubert_rust.Base.Io.{ok, err}
use hubert_rust.Error.{already_exists}
use hubert_rust.Gordian.{Gordian, IsLawful}
use hubert_rust.Time.{from_secs}
use hubert_rust.Text.Decimal.{max_u64}
use hubert_rust.Memory
use hubert_rust.Memory.{Memory, StorageEntry, entry, is_expired}
use hubert_rust.Memory.Entries.{fresh, or_fresh, entry-put, now-put, expired_at}
use hubert_rust.Sqlite
use hubert_rust.Sqlite.{SqliteKv, is_due, check_exists, store_row}
use hubert_rust.Sqlite.Conflicts.{sqlite_put_refused}
use hubert_rust.Sqlite.Statements.{Database, IsTable}
use hubert_rust.Storage.{reply}
use hubert_rust.Storage.Agreement.{IsWorking, Both, Agrees, AreAlike, due-expired, arid_ur-beq}

module _ (G : Gordian) (Q : Database) (L : IsTable Q) (W : IsWorking Q L) (C : IsLawful G) where
  open G use {Arid, arid_ur, Envelope, envelope_ur}

  or_fresh-other : (f : StorageEntry) (o : Option StorageEntry) → or_fresh G false f o ≡ o
  or_fresh-other f none = refl
  or_fresh-other f (some old) = refl

  check_exists-free :
      (k : Arid) (t : SqliteKv G Q) (unix : ℕ)
      → t.unix_time ≡ ok unix
      → L.row (arid_ur k) t.db ≡ none
      → check_exists G Q k t ≡ (ok false, t)
  unfolding check_exists
  check_exists-free k t unix clock free =
      let (r, q) = W.select_expires_at (arid_ur k) t.db in
      ground (arith, L.select_expires_at_row (arid_ur k) t.db r q)

  abbrev inserted : Arid → Envelope → ℕ → SqliteKv G Q → SqliteKv G Q
  inserted k e due t = record t {
    db = (Q.insert_row (arid_ur k) (envelope_ur e) (some (pos due)) t.db).1;
  }

  store_row-free :
      (k : Arid) (e : Envelope) (ttl : ℕ) (t : SqliteKv G Q) (unix : ℕ)
      → t.unix_time ≡ ok unix
      → unix + ttl < 2 ^ 63
      → L.row (arid_ur k) t.db ≡ none
      → store_row G Q k e (some ttl) t
        ≡ (ok (text "Stored in SQLite: " ++ t.db_path), inserted k e (unix + ttl) t)
  unfolding store_row
  store_row-free k e ttl t unix clock small free =
      let whole : min (unix + ttl) max_u64 ≡ unix + ttl = ground arith in
      let cast : as_i64 (min (unix + ttl) max_u64) ≡ pos (unix + ttl) =
        rw whole (as_i64_small (unix + ttl) small) in
      rw (clock, cast, W.insert_row (arid_ur k) (envelope_ur e) (some (pos (unix + ttl))) t.db free)
        refl

  put-free :
      (k : Arid) (e : Envelope) (ttl : ℕ) (t : SqliteKv G Q) (unix : ℕ)
      → t.unix_time ≡ ok unix
      → unix + ttl < 2 ^ 63
      → L.row (arid_ur k) t.db ≡ none
      → Sqlite.put G Q k e (some ttl) t
        ≡ (ok (text "Stored in SQLite: " ++ t.db_path), inserted k e (unix + ttl) t)
  unfolding Sqlite.put
  put-free k e ttl t unix clock small free =
      rw (check_exists-free k t unix clock free, store_row-free k e ttl t unix clock small free)
        refl

  module _ (k : Arid) (e : Envelope) (ttl unix : ℕ) (s : Memory G) (t : SqliteKv G Q)
      (h : AreAlike G Q L unix s t) (small : unix + ttl < 2 ^ 63) where
    -- Both `put`s reply the same, and leave the same.
    abbrev pub PutAlike : Type 0
    PutAlike =
        (reply G Q (Memory.put G k e (some ttl) s).0
          ≡ reply G Q (Sqlite.put G Q k e (some ttl) t).0)
        × AreAlike G Q L unix (Memory.put G k e (some ttl) s).1 (Sqlite.put G Q k e (some ttl) t).1

    row-inserted :
        (j : Arid)
        → L.row (arid_ur k) t.db ≡ none
        → L.row (arid_ur j) (inserted k e (unix + ttl) t).db ≡ (
            if G.arid_eq.beq k j
            then some (envelope_ur e, some (pos (unix + ttl)))
            else L.row (arid_ur j) t.db)
    row-inserted j free =
        let x = some (pos (unix + ttl)) in
        L.insert_row_ok (arid_ur k) (envelope_ur e) x t.db tt (arid_ur j)
          (W.insert_row (arid_ur k) (envelope_ur e) x t.db free)
        ∙ rw (arid_ur-beq G Q L C k j) refl

    put-stored :
        entry G k s ≡ none → (Memory.put G k e (some ttl) s).0 ≡ ok (text "Stored in memory")
    unfolding Memory.put
    put-stored absent = ground arith

    put-same :
        entry G k s ≡ none
        → L.row (arid_ur k) t.db ≡ none
        → (j : Arid)
        → Agrees G Q L
            (Memory.put G k e (some ttl) s).1.now
            unix
            (entry G j (Memory.put G k e (some ttl) s).1)
            (L.row (arid_ur j) (inserted k e (unix + ttl) t).db)
    put-same absent free j =
        rw (now-put G k e (some ttl) s, entry-put G j k e (some ttl) s, row-inserted j free)
          (elim (Bool-cases (G.arid_eq.beq k j)) [
            | inl same ↦
                let here : entry G j s ≡ none = rw ((G.arid_eq.beq_iff k j).0 same) at absent in
                rw (same, here)
                  (inr (record {
                    envelope = e;
                    expires_at = s.now + from_secs ttl;
                    due = unix + ttl;
                    small = small;
                    in_map = refl;
                    in_table = refl;
                    in_step = omega arith;
                  }))
            | inr differs ↦
                rw (differs, or_fresh-other (fresh G e (some ttl) s.now) (entry G j s)) (h.same j)
          ])

    put_alike_free : entry G k s ≡ none → L.row (arid_ur k) t.db ≡ none → PutAlike
    put_alike_free absent free =
        let accepted = put-free k e ttl t unix h.reads small free in
        rw accepted (
          rw (put-stored absent) refl,
          record { reads = h.reads; in_range = h.in_range; same = put-same absent free },
        )

    put-taken :
        (old : StorageEntry)
        → entry G k s ≡ some old
        → Memory.put G k e (some ttl) s ≡ (err (already_exists (arid_ur k)), s)
    unfolding Memory.put
    put-taken old there = ground arith

    put_alike_taken :
        Both G Q L s.now unix (entry G k s) (L.row (arid_ur k) t.db)
        → expired_at G k s ≡ false
        → PutAlike
    put_alike_taken b live =
        let fresh_enough : is_expired (some b.expires_at) s.now ≡ false =
          rw (expired_at, b.in_map) at live in
        let (r, answered) = W.select_expires_at (arid_ur k) t.db in
        let refused =
          sqlite_put_refused G Q L k e (some ttl) t _ unix r h.reads b.in_table
            (due-expired G Q L b h.in_range ∙ fresh_enough) answered in
        rw (put-taken _ b.in_map, refused) (refl, h)

    -- Unless what is there has expired.
    pub put_alike : expired_at G k s ≡ false → PutAlike
    put_alike live = elim (h.same k) [
      | inl (absent, free) ↦ put_alike_free absent free
      | inr b ↦ put_alike_taken b live
    ]
