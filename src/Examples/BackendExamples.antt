-- ===== src/Examples/BackendExamples.antt =====
-- The server over its two storages at a few requests.
use hubert_rust.Base.{ℕ, ◌+◌, ◌≡◌, refl, Option, none, some, List, [], ◌∷◌, arith, inl, inr}
use hubert_rust.Base.Int.{ℤ}
use hubert_rust.Base.Lists.{Bytes, text}
use hubert_rust.Base.Io.{ok}
use hubert_rust.Memory
use hubert_rust.Memory.{Memory}
use hubert_rust.Sqlite.{SqliteKv}
use hubert_rust.Storage.{memory, sqlite}
use hubert_rust.Storage.Agreement.{IsWorking, AreAlike}
use hubert_rust.Server.Backends.{
  Request, put_body, get_body, wait, AreTame, responses, over, servers_agree,
}
use hubert_rust.Server.{default_config}
use hubert_rust.Base.{◌++◌}
use hubert_rust.Examples.Toys.{Tree, hello, toy, toy-IsLawful}
use hubert_rust.Examples.SqliteExamples.{Table, tables, tables-IsTable}

insert_row_works :
    (k v : Bytes) (x : Option ℤ) (d : Table)
    → d.rows k ≡ none
    → (tables.insert_row k v x d).0 ≡ ok tt
insert_row_works k v x d free = rw free refl

tables-IsWorking : IsWorking tables tables-IsTable
tables-IsWorking = record {
  select_row = λ k d. (d.rows k, refl);
  select_expires_at = λ k d. (_, refl);
  insert_row = insert_row_works;
  delete_row = λ k d. refl;
}

abbrev map : Memory toy
map = Memory.new toy 0

abbrev table : SqliteKv toy tables
table = record {
  db_path = text "hubert.db";
  db = record { keys = []; rows = λ _. none };
  unix_time = ok 1000;
  instant = 0;
}

both_empty-AreAlike : AreAlike toy tables tables-IsTable 1000 map table
unfolding hubert_rust.Base.Assoc.lookup
both_empty-AreAlike = record { reads = refl; in_range = omega arith; same = λ k. inl (refl, refl) }

-- `hello` expires between the two lookups, and something else takes its place.
abbrev lines_of : Bytes → Bytes
lines_of rest = toy.arid_ur 3 ++ (b'\n' ∷ rest)

abbrev requests : List Request
requests =
    put_body (lines_of (toy.envelope_ur hello ++ text "\n60"))
    ∷ get_body (toy.arid_ur 3)
    ∷ put_body (text "nonsense")
    ∷ wait 61
    ∷ get_body (toy.arid_ur 3)
    ∷ put_body (lines_of (toy.envelope_ur Tree.unit))
    ∷ []

requests-AreTame : AreTame toy tables default_config requests map 1000
unfolding AreTame hubert_rust.Text.Utf8.is_utf8 hubert_rust.Text.Lines.lines
    hubert_rust.Server.parse_ttl hubert_rust.Text.Decimal.parse_u64 hubert_rust.Base.Assoc.lookup
    Memory.put hubert_rust.Base.Assoc.insert Memory.is_expired Memory.evict
    hubert_rust.Base.Assoc.remove hubert_rust.Text.Trim.trim hubert_rust.Server.is_empty
    hubert_rust.Server.effective_ttl
requests-AreTame = (refl, omega arith, (tt, omega arith, (omega arith, (refl, omega arith, tt))))

servers_agree_example :
    responses toy tables requests (over toy tables default_config (memory map))
    ≡ responses toy tables requests (over toy tables default_config (sqlite table))
servers_agree_example =
    servers_agree toy tables tables-IsTable tables-IsWorking toy-IsLawful default_config requests
      1000 map table both_empty-AreAlike requests-AreTame
