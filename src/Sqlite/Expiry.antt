-- ===== src/Sqlite/Expiry.antt =====
-- How long `SqliteKv` returns what was put, what an expired row does, and the cast of the expiry.
use hubert_rust.Base.{
  suc, ◌+◌, ◌-◌, ◌^◌, ◌≤◌, ◌<◌, ◌≡◌, refl, Option, none, some, arith, ℕ, ltb, min, if◌then◌else◌,
  bytes_eq, beq_refl, inl, inr, Bool-cases,
}
use hubert_rust.Base.Int.{ℤ, negsuc, as_i64, as_i64_small, as_i64_large}
use hubert_rust.Base.Lists.{Bytes}
use hubert_rust.Base.Io.{ok, map_ok}
use hubert_rust.Base.Poll.{done, poll_done}
use hubert_rust.Text.Decimal.{max_u64}
use hubert_rust.Gordian.{Gordian, IsLawful}
use hubert_rust.Sqlite.Statements.{Database, IsTable, Row}
use hubert_rust.Sqlite.{
  SqliteKv, check_exists, store_row, put, find_row, drop_row, get_pass, get, answer, is_due, valid,
  expired, default_timeout,
}
use hubert_rust.Sqlite.WriteOnce.{unix_time-check_exists}
use hubert_rust.Sqlite.Rows.{row_of, select_row_cases, insert_row_cases}

module _ (G : Gordian) (Q : Database) (L : IsTable Q) where
  open G use {Arid, arid_ur, Envelope, envelope_ur, envelope_from_ur}

  -- The value of the column `expires_at` that `put` writes at time `now`.
  abbrev pub expires_at : Option ℕ → ℕ → Option ℤ
  expires_at none now = none
  expires_at (some ttl) now = some (as_i64 (min (now + ttl) max_u64))

  -- The clock reads `now`.
  abbrev pub at : ℕ → SqliteKv G Q → SqliteKv G Q
  at now s = record s { unix_time = ok now }

  store_row-row_self :
      (k : Arid) (e : Envelope) (ttl : Option ℕ) (s : SqliteKv G Q) (now : ℕ) (receipt : Bytes)
      → s.unix_time ≡ ok now
      → (store_row G Q k e ttl s).0 ≡ ok receipt
      → row_of G Q L (arid_ur k) (store_row G Q k e ttl s).1
        ≡ some (envelope_ur e, expires_at ttl now)
  unfolding store_row
  store_row-row_self k e none s now receipt clock h = ground (
    arith,
    insert_row_cases G Q L (arid_ur k) (envelope_ur e) none s.db (arid_ur k),
    beq_refl bytes_eq (arid_ur k),
  )
  store_row-row_self k e (some ttl) s now receipt clock h = ground (
    arith,
    insert_row_cases G Q L (arid_ur k) (envelope_ur e) (expires_at (some ttl) now) s.db (arid_ur k),
    beq_refl bytes_eq (arid_ur k),
  )

  -- A `put` that is accepted leaves its row in the table.
  pub put-row :
      (k : Arid) (e : Envelope) (ttl : Option ℕ) (s : SqliteKv G Q) (now : ℕ) (receipt : Bytes)
      → s.unix_time ≡ ok now
      → (put G Q k e ttl s).0 ≡ ok receipt
      → row_of G Q L (arid_ur k) (put G Q k e ttl s).1 ≡ some (envelope_ur e, expires_at ttl now)
  unfolding put
  put-row k e ttl s now receipt clock h = ground (
    arith,
    unix_time-check_exists G Q L k s,
    store_row-row_self k e ttl (check_exists G Q k s).1 now receipt,
  )

  find_row_at :
      (k : Arid) (v : Bytes) (x : Option ℤ) (s : SqliteKv G Q) (now : ℕ) (answered : Option Row)
      → s.unix_time ≡ ok now
      → row_of G Q L (arid_ur k) s ≡ some (v, x)
      → Q.select_row (arid_ur k) s.db ≡ ok answered
      → find_row G Q k s ≡ (ok (if is_due x (as_i64 now) then expired else valid v), s)
  unfolding find_row
  find_row_at k v x s now answered clock h q =
      ground (arith, select_row_cases G Q L (arid_ur k) s.db)

  get_pass_due :
      (k : Arid) (timeout start : ℕ) (s : SqliteKv G Q)
      → find_row G Q k s ≡ (ok expired, s)
      → get_pass G Q k timeout start s
        ≡ done (map_ok (λ _. none) (drop_row G Q k s).0) (drop_row G Q k s).1
  unfolding get_pass answer
  get_pass_due k timeout start s h = rw (h, get_pass) refl

  get_pass_live :
      (k : Arid) (e : Envelope) (timeout start : ℕ) (s : SqliteKv G Q)
      → IsLawful G
      → find_row G Q k s ≡ (ok (valid (envelope_ur e)), s)
      → get_pass G Q k timeout start s ≡ done (ok (some e)) s
  unfolding get_pass answer
  get_pass_live k e timeout start s C h = rw (h, get_pass, C.envelope_round_trip e) refl

  -- What `get` does at a row that decodes, if the query is answered.
  pub get-row :
      (sleep : ℕ → SqliteKv G Q → SqliteKv G Q) (fuel : ℕ) (k : Arid) (e : Envelope) (x : Option ℤ)
      (timeout : Option ℕ) (s : SqliteKv G Q) (now : ℕ) (answered : Option Row)
      → IsLawful G
      → s.unix_time ≡ ok now
      → row_of G Q L (arid_ur k) s ≡ some (envelope_ur e, x)
      → Q.select_row (arid_ur k) s.db ≡ ok answered
      → get G Q sleep (suc fuel) k timeout s ≡ (
          if is_due x (as_i64 now)
          then some (map_ok (λ _. none) (drop_row G Q k s).0, (drop_row G Q k s).1)
          else some (ok (some e), s))
  unfolding get
  get-row sleep fuel k e x timeout s now answered C clock h q =
      let found = find_row_at k (envelope_ur e) x s now answered clock h q in
      elim (Bool-cases (is_due x (as_i64 now))) [
        | inl due ↦ rw due (
            poll_done _ _ fuel s
              (get_pass_due k (default_timeout timeout) s.instant s (rw due at found)))
        | inr live ↦ rw live (
            poll_done _ _ fuel s
              (get_pass_live k e (default_timeout timeout) s.instant s C (rw live at found)))
      ]

  -- An envelope whose `put` for `ttl` seconds was accepted is what `get` returns, if the database
  -- answers, exactly while less than `ttl` seconds have passed on a clock that reads less than
  -- 2^63; from then on `get` deletes the row and returns nothing, or the error of the deletion.
  pub sqlite_get-put :
      IsLawful G
      → (sleep : ℕ → SqliteKv G Q → SqliteKv G Q) (fuel : ℕ) (k : Arid) (e : Envelope) (ttl : ℕ)
        (timeout : Option ℕ) (s : SqliteKv G Q) (now passed : ℕ) (receipt : Bytes)
        (answered : Option Row)
      → s.unix_time ≡ ok now
      → (put G Q k e (some ttl) s).0 ≡ ok receipt
      → now + ttl < 2 ^ 63
      → now + passed < 2 ^ 63
      → Q.select_row (arid_ur k) (put G Q k e (some ttl) s).1.db ≡ ok answered
      → let t = at (now + passed) (put G Q k e (some ttl) s).1 in
        get G Q sleep (suc fuel) k timeout t ≡ (
          if ltb passed ttl
          then some (ok (some e), t)
          else some (map_ok (λ _. none) (drop_row G Q k t).0, (drop_row G Q k t).1))
  unfolding is_due
  sqlite_get-put C sleep fuel k e ttl timeout s now passed receipt answered clock h small small' q =
      let t = at (now + passed) (put G Q k e (some ttl) s).1 in
      let stored = put-row k e (some ttl) s now receipt clock h in
      ground (
        arith,
        get-row sleep fuel k e (expires_at (some ttl) now) timeout t (now + passed) answered C refl
            stored q,
        as_i64_small (min (now + ttl) max_u64),
        as_i64_small (now + passed),
      )

  -- A `put` that was accepted for a time to live whose expiry does not fit 63 bits has written a
  -- negative expiry into its row. At any time from then on that fits 63 bits, the instant of the `put`
  -- included, `get` deletes the row, if the database answers, and returns nothing, or the error of the
  -- deletion.
  pub get-put_huge_ttl :
      IsLawful G
      → (sleep : ℕ → SqliteKv G Q → SqliteKv G Q) (fuel : ℕ) (k : Arid) (e : Envelope) (ttl : ℕ)
        (timeout : Option ℕ) (s : SqliteKv G Q) (now passed : ℕ) (receipt : Bytes)
        (answered : Option Row)
      → s.unix_time ≡ ok now
      → (put G Q k e (some ttl) s).0 ≡ ok receipt
      → 2 ^ 63 ≤ now + ttl
      → now + passed < 2 ^ 63
      → Q.select_row (arid_ur k) (put G Q k e (some ttl) s).1.db ≡ ok answered
      → let t = at (now + passed) (put G Q k e (some ttl) s).1 in
        ((below : ℕ) × (row_of G Q L (arid_ur k) (put G Q k e (some ttl) s).1
            ≡ some (envelope_ur e, some (negsuc below))))
        × (get G Q sleep (suc fuel) k timeout t
            ≡ some (map_ok (λ _. none) (drop_row G Q k t).0, (drop_row G Q k t).1))
  unfolding is_due
  get-put_huge_ttl C sleep fuel k e ttl timeout s now passed receipt answered clock h huge small q =
      let t = at (now + passed) (put G Q k e (some ttl) s).1 in
      let stored = put-row k e (some ttl) s now receipt clock h in
      let cast = as_i64_large (min (now + ttl) max_u64) (omega arith) (omega arith) in
      (
        (2 ^ 64 - 1 - min (now + ttl) max_u64, rw cast at stored),
        ground (
          arith,
          get-row sleep fuel k e (expires_at (some ttl) now) timeout t (now + passed) answered C
              refl stored q,
          cast,
          as_i64_small (now + passed),
        ),
      )
