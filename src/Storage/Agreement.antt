-- ===== src/Storage/Agreement.antt =====
-- `MemoryKv` and `SqliteKv` behind server/server_kv.rs: when a map and a table hold the same.
use hubert_rust.Base.{
  ℕ, ◌+◌, ◌^◌, ◌<◌, ◌≡◌, refl, sym, ◌∙◌, Bool, true, false, Option, none, some, arith, ◌⊎◌, inl,
  inr, bytes_eq, bytes_beq, bytes_beq_iff, Bool-cases, leb,
}
use hubert_rust.Base.Int.{ℤ, pos, as_i64, as_i64_small}
use hubert_rust.Base.Lists.{Bytes}
use hubert_rust.Base.Io.{ok}
use hubert_rust.Gordian.{Gordian, IsLawful}
use hubert_rust.Time.{from_secs}
use hubert_rust.Memory.{Memory, StorageEntry, entry, is_expired}
use hubert_rust.Sqlite.{SqliteKv, is_due}
use hubert_rust.Sqlite.Statements.{Database, IsTable, Row}

-- A database in which no statement fails but an insertion at a key that is taken.
pub record IsWorking (Q : Database) (L : IsTable Q) : Type 0 where
  pub select_row : (k : Bytes) (d : Q.Db) → (r : Option Row) × (Q.select_row k d ≡ ok r)
  pub select_expires_at :
      (k : Bytes) (d : Q.Db) → (r : Option (Option ℤ)) × (Q.select_expires_at k d ≡ ok r)
  pub insert_row :
      (k v : Bytes) (x : Option ℤ) (d : Q.Db) → L.row k d ≡ none → (Q.insert_row k v x d).0 ≡ ok tt
  pub delete_row : (k : Bytes) (d : Q.Db) → (Q.delete_row k d).0 ≡ ok tt

module _ (G : Gordian) (Q : Database) (L : IsTable Q) where
  open G use {Arid, arid_ur, Envelope, envelope_ur, to_cbor_data}

  -- One envelope in both, which expires at the same time on the clock of each.
  pub record Both (now unix : ℕ) (o : Option StorageEntry) (r : Option Row) : Type 0 where
    pub envelope : Envelope
    pub expires_at : ℕ
    pub due : ℕ
    pub small : due < 2 ^ 63
    pub in_map :
        o ≡ some (record { envelope_cbor = to_cbor_data envelope; expires_at = some expires_at })
    pub in_table : r ≡ some (envelope_ur envelope, some (pos due))
    pub in_step : expires_at + from_secs unix ≡ from_secs due + now

  abbrev pub Agrees : ℕ → ℕ → Option StorageEntry → Option Row → Type 0
  Agrees now unix o r = ((o ≡ none) × (r ≡ none)) ⊎ Both now unix o r

  -- The map and the table hold the same at every ARID, and the clock reads `unix`.
  pub record AreAlike (unix : ℕ) (s : Memory G) (t : SqliteKv G Q) : Type 0 where
    pub reads : t.unix_time ≡ ok unix
    pub in_range : unix < 2 ^ 63
    pub same : (k : Arid) → Agrees s.now unix (entry G k s) (L.row (arid_ur k) t.db)

  -- It has expired in the one exactly when it is due in the other.
  pub due-expired :
      {now unix : ℕ} {o : Option StorageEntry} {r : Option Row} (b : Both now unix o r)
      → unix < 2 ^ 63
      → is_due (some (pos b.due)) (as_i64 unix) ≡ is_expired (some b.expires_at) now
  unfolding is_due is_expired
  due-expired {now} {unix} b range = rw (as_i64_small unix range) (go (leb b.due unix) refl)
    where
      go : (v : Bool) → leb b.due unix ≡ v → leb b.due unix ≡ leb b.expires_at now
      go true h = ground (arith, b.in_step)
      go false h = ground (arith, b.in_step)

  -- ARIDs with one UR are one ARID.
  pub arid_ur-beq :
      IsLawful G → (k j : Arid) → bytes_beq (arid_ur k) (arid_ur j) ≡ G.arid_eq.beq k j
  arid_ur-beq C k j = elim (Bool-cases (bytes_beq (arid_ur k) (arid_ur j))) [
    | inl same ↦
        let urs = (bytes_beq_iff (arid_ur k) (arid_ur j)).0 same in
        let arids : k ≡ j = cc (C.arid_round_trip k, C.arid_round_trip j) in
        same ∙ sym ((G.arid_eq.beq_iff k j).1 arids)
    | inr differs ↦ ground (arith, bytes_beq_iff (arid_ur k) (arid_ur j), G.arid_eq.beq_iff k j)
  ]
