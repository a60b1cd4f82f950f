-- ===== src/Tests/Tables.antt =====
-- SSTables at small inputs (src/sstable.cpp).
use vortex_db.Base.{ℕ, ◌≡◌, refl, [], ◌∷◌, arith}
use vortex_db.Base.Words.{Bytes}
use vortex_db.Base.Order.{lex}
use vortex_db.Base.Map
use vortex_db.Base.Map.{Map, lower_bound}
use vortex_db.Files.{ok, ◌>>=◌}
use vortex_db.Vlog.{ValuePointer}
use vortex_db.SsTable.{SsTableIterator, table_bytes, new, write_new, find, seek, new_iterator}
use vortex_db.SsTable.Index.{IsTable, write_new-IsFile, table_of}
use vortex_db.SsTable.Seek.{IsOn, Stopped, seek-Stopped}
use vortex_db.SsTable.Find.{new_iterator-IsOn, find-write_new}

abbrev pointer_at : ℕ → ValuePointer
pointer_at n = record { file_id = 0; value_size = 1; offset = n }

abbrev a_key : Bytes
a_key = b'a' ∷ []

abbrev b_key : Bytes
b_key = b'b' ∷ []

abbrev table_name : Bytes
table_name = b't' ∷ []

abbrev two_entries : Map ValuePointer
two_entries = (a_key, pointer_at 13) ∷ (b_key, pointer_at 28) ∷ []

two_entries-IsTable : IsTable two_entries
unfolding lex
two_entries-IsTable = record {
  sorted = ((refl, tt), (tt, tt));
  few = omega arith;
  fits = omega arith;
}

find-write_new_example :
    (new table_name (write_new table_name two_entries []) >>= λ t.
    find t (write_new table_name two_entries []) b_key)
    ≡ ok (Map.find b_key two_entries)
find-write_new_example = find-write_new table_name b_key two_entries [] two_entries-IsTable

-- An iterator on the table, before the first entry.
abbrev first_iterator : SsTableIterator
first_iterator =
    new_iterator (table_of table_name two_entries) (write_new table_name two_entries [])

first_iterator-IsOn : IsOn two_entries first_iterator
first_iterator-IsOn =
    new_iterator-IsOn table_name two_entries (write_new table_name two_entries [])
      two_entries-IsTable (write_new-IsFile table_name two_entries [])

seek-Stopped_example :
    (it' : SsTableIterator) × (seek b_key first_iterator ≡ ok it')
    × Stopped (table_bytes two_entries) (b_key, pointer_at 28) (lower_bound b_key two_entries) it'
seek-Stopped_example =
    seek-Stopped b_key (a_key, pointer_at 13) ((b_key, pointer_at 28) ∷ []) first_iterator
      two_entries-IsTable first_iterator-IsOn
