-- ===== src/Sqlite/Rows.antt =====
-- What each critical section of `SqliteKv` does to the row of every ARID.
use mathlib.Core.Option
use hubert_rust.Base.{
  ◌+◌, min, ◌≡◌, refl, ◌∙◌, ap, Bool, false, Option, none, some, arith, if◌then◌else◌, bytes_beq,
  bytes_beq_iff, ℕ, ◌⊎◌, inl, inr,
}
use hubert_rust.Base.Int.{ℤ, as_i64}
use hubert_rust.Base.Lists.{Bytes}
use hubert_rust.Base.Io.{Result, ok, err}
use hubert_rust.Text.Decimal.{max_u64}
use hubert_rust.Gordian.{Gordian}
use hubert_rust.Sqlite.Statements.{Database, IsTable, Row, outlives}
use hubert_rust.Sqlite.{SqliteKv, check_exists, store_row, find_row, prune, is_due}

module _ (G : Gordian) (Q : Database) (L : IsTable Q) where
  open G use {Arid, arid_ur, Envelope, envelope_ur}
  open Q use {Db}

  abbrev pub row_of : Bytes → SqliteKv G Q → Option Row
  row_of k s = L.row k s.db

  -- The row has an expiry, and the clock, if it can be read, has reached it.
  abbrev pub row_due : Result ℕ Bytes → Row → Bool
  row_due (err _) r = false
  row_due (ok now) (_, expires_at) = is_due expires_at (as_i64 now)

  -- A statement that deletes `j` leaves every row as it is, or removes the row of `j`.
  row-delete :
      (k j : Bytes) (d : Db)
      → (L.row k (Q.delete_row j d).1 ≡ L.row k d)
        ⊎ ((j ≡ k) × (L.row k (Q.delete_row j d).1 ≡ none))
  row-delete k j d = go (Q.delete_row j d).0 refl
    where
      go :
          (r : Result (Unit {0}) Bytes)
          → (Q.delete_row j d).0 ≡ r
          → (L.row k (Q.delete_row j d).1 ≡ L.row k d)
            ⊎ ((j ≡ k) × (L.row k (Q.delete_row j d).1 ≡ none))
      go (ok u) e = ground (arith, L.delete_row_ok j d u k e, bytes_beq_iff j k)
      go (err m) e = inl (L.delete_row_err j d m k e)

  -- A query answers by the row, or fails.
  pub select_expires_at_cases :
      (k : Bytes) (d : Db)
      → (Q.select_expires_at k d ≡ ok (Option.map (λ x. x.1) (L.row k d)))
        ⊎ ((e : Bytes) × (Q.select_expires_at k d ≡ err e))
  select_expires_at_cases k d = go (Q.select_expires_at k d) refl
    where
      go :
          (r : Result (Option (Option ℤ)) Bytes)
          → Q.select_expires_at k d ≡ r
          → (Q.select_expires_at k d ≡ ok (Option.map (λ x. x.1) (L.row k d)))
            ⊎ ((e : Bytes) × (Q.select_expires_at k d ≡ err e))
      go (ok r) e = inl (e ∙ ap ok (L.select_expires_at_row k d r e))
      go (err m) e = inr (m, e)

  pub select_row_cases :
      (k : Bytes) (d : Db)
      → (Q.select_row k d ≡ ok (L.row k d)) ⊎ ((e : Bytes) × (Q.select_row k d ≡ err e))
  select_row_cases k d = go (Q.select_row k d) refl
    where
      go :
          (r : Result (Option Row) Bytes)
          → Q.select_row k d ≡ r
          → (Q.select_row k d ≡ ok (L.row k d)) ⊎ ((e : Bytes) × (Q.select_row k d ≡ err e))
      go (ok r) e = inl (e ∙ ap ok (L.select_row_row k d r e))
      go (err m) e = inr (m, e)

  -- An insertion succeeds at a key without a row, or it fails and changes nothing.
  pub insert_row_cases :
      (k v : Bytes) (x : Option ℤ) (d : Db) (j : Bytes)
      → ((Q.insert_row k v x d).0 ≡ ok tt)
          × (L.row k d ≡ none)
          × (L.row j (Q.insert_row k v x d).1 ≡ (if bytes_beq k j then some (v, x) else L.row j d))
        ⊎ ((e : Bytes) × ((Q.insert_row k v x d).0 ≡ err e)
            × (L.row j (Q.insert_row k v x d).1 ≡ L.row j d))
  insert_row_cases k v x d j = go (Q.insert_row k v x d).0 refl
    where
      go :
          (r : Result (Unit {0}) Bytes)
          → (Q.insert_row k v x d).0 ≡ r
          → ((Q.insert_row k v x d).0 ≡ ok tt)
              × (L.row k d ≡ none)
              × (L.row j (Q.insert_row k v x d).1
                  ≡ (if bytes_beq k j then some (v, x) else L.row j d))
            ⊎ ((e : Bytes) × ((Q.insert_row k v x d).0 ≡ err e)
                × (L.row j (Q.insert_row k v x d).1 ≡ L.row j d))
      go (ok u) e = inl (e, L.insert_row_free k v x d u e, L.insert_row_ok k v x d u j e)
      go (err m) e = inr (m, e, L.insert_row_err k v x d m j e)

  -- The cleanup statement removes exactly what has expired, or fails and changes nothing.
  pub row-delete_expired :
      (now : ℤ) (d : Db) (j : Bytes)
      → (L.row j (Q.delete_expired now d).1 ≡ outlives now (L.row j d))
        ⊎ (L.row j (Q.delete_expired now d).1 ≡ L.row j d)
  row-delete_expired now d j = go (Q.delete_expired now d).0 refl
    where
      go :
          (r : Result (Unit {0}) Bytes)
          → (Q.delete_expired now d).0 ≡ r
          → (L.row j (Q.delete_expired now d).1 ≡ outlives now (L.row j d))
            ⊎ (L.row j (Q.delete_expired now d).1 ≡ L.row j d)
      go (ok u) e = inl (L.delete_expired_ok now d u j e)
      go (err m) e = inr (L.delete_expired_err now d m j e)

  -- No critical section but `drop_row` touches a row that has not expired.
  module _ (k : Bytes) (r : Row) (s : SqliteKv G Q) where
    pub check_exists-row :
        (j : Arid)
        → row_of k s ≡ some r
        → row_due s.unix_time r ≡ false
        → row_of k (check_exists G Q j s).1 ≡ some r
    unfolding check_exists
    check_exists-row j h live =
        ground (arith, select_expires_at_cases (arid_ur j) s.db, row-delete k (arid_ur j) s.db)

    row-insert_row :
        (j v : Bytes) (x : Option ℤ)
        → row_of k s ≡ some r
        → L.row k (Q.insert_row j v x s.db).1 ≡ some r
    row-insert_row j v x h = ground (arith, insert_row_cases j v x s.db k, bytes_beq_iff j k)

    pub store_row-row :
        (j : Arid) (e : Envelope) (ttl : Option ℕ)
        → row_of k s ≡ some r
        → row_of k (store_row G Q j e ttl s).1 ≡ some r
    unfolding store_row
    store_row-row j e none h = ground (arith, row-insert_row (arid_ur j) (envelope_ur e) none h)
    store_row-row j e (some ttl) h = go s.unix_time refl
      where
        go :
            (u : Result ℕ Bytes)
            → s.unix_time ≡ u
            → row_of k (store_row G Q j e (some ttl) s).1 ≡ some r
        go (ok now) q = ground (
          arith,
          row-insert_row (arid_ur j) (envelope_ur e) (some (as_i64 (min (now + ttl) max_u64))) h,
        )
        go (err _) q = ground arith

    pub find_row-state : (j : Arid) → (find_row G Q j s).1 ≡ s
    unfolding find_row
    find_row-state j = ground arith

    pub prune-row :
        row_of k s ≡ some r → row_due s.unix_time r ≡ false → row_of k (prune G Q s).1 ≡ some r
    unfolding prune is_due
    prune-row h live = go s.unix_time refl
      where
        go : (u : Result ℕ Bytes) → s.unix_time ≡ u → row_of k (prune G Q s).1 ≡ some r
        go (ok now) q = ground (arith, row-delete_expired (as_i64 now) s.db k)
        go (err _) q = ground arith
