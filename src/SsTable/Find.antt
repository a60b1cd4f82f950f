-- ===== src/SsTable/Find.antt =====
-- `find` on a table that was written, and a walk through it by `next` (src/sstable.cpp).
use vortex_db.Base.{
  ◌+◌, ◌≡◌, refl, ap, sym, false, some, none, [], ◌∷◌, length, All, arith, if◌then◌else◌, lt,
  Option,
}
use vortex_db.Base.Words.{Bytes, u32, le_bytes, le_value-le_bytes, length-le_bytes}
use vortex_db.Base.Order.{lex, ◌=ˢ◌}
use vortex_db.Base.Map
use vortex_db.Base.Map.{Map, IsSorted, IsAbove, IsBelow, lower_bound}
use vortex_db.Files.{ok, ◌>>=◌, Disk}
use vortex_db.Files.Reading.{read-ahead}
use vortex_db.Vlog.{ValuePointer}
use vortex_db.SsTable.{
  SsTableIterator, entries_bytes, table_bytes, write_new, new, new_iterator, seek, next, find,
  read_at_current,
}
use vortex_db.SsTable.Index.{
  IsTable, index_from, IsFile, write_new-IsFile, table_of, new-table_of, table_bytes-ahead,
}
use vortex_db.SsTable.Layout.{IsEntry}
use vortex_db.SsTable.Seek.{
  Faces, read_at_current-read_one, read_one-Stands, IsOn, Stands, Stopped, last_entry, seek-Stopped,
}

pub new_iterator-IsOn :
    (fname : Bytes) (m : Map ValuePointer) (d : Disk)
    → IsTable m
    → IsFile fname m d
    → IsOn m (new_iterator (table_of fname m) d)
unfolding new_iterator
new_iterator-IsOn fname m d t file =
    let arrived =
      read-ahead (table_bytes m) 0 (le_bytes 4 (length m)) (entries_bytes m)
        (table_bytes-ahead m t.few) 4 (sym (length-le_bytes 4 (length m))) in
    record {
      pos = 4;
      at = ground (arith, file, arrived);
      index = refl;
      total = ground (arith, file, arrived, le_value-le_bytes 4 (length m) t.few);
    }

-- The answer of `find`, from where `seek` has stopped.
answer : SsTableIterator → Bytes → Option ValuePointer
answer it key = if it.is_valid then if it.cur_key =ˢ key then some it.cur_ptr else none else none

pub last_entry-below :
    (key : Bytes) (e : Bytes × ValuePointer) (m : Map ValuePointer)
    → lower_bound key (e ∷ m) ≡ []
    → lex (last_entry e m).0 key ≡ lt
unfolding lower_bound
last_entry-below key (j, p) [] h = ground arith
last_entry-below key (j, p) (e ∷ m) h = last_entry-below key e m (ground arith)

answer-Stopped :
    (content key : Bytes) (e : Bytes × ValuePointer) (m : Map ValuePointer) (it : SsTableIterator)
    → IsSorted (e ∷ m)
    → Stopped content (last_entry e m) (lower_bound key (e ∷ m)) it
    → answer it key ≡ Map.find key (e ∷ m)
unfolding answer
answer-Stopped content key e m it s st =
    rw (Map.find-lower_bound key (e ∷ m) s) (go (lower_bound key (e ∷ m)) refl st)
  where
    go :
        (low : Map ValuePointer)
        → lower_bound key (e ∷ m) ≡ low
        → Stopped content (last_entry e m) low it
        → answer it key ≡ (elim low [ [] ↦ none | x ∷ _ ↦ if x.0 =ˢ key then some x.1 else none ])
    go [] h ((valid, k, p), count, few) = ground (arith, last_entry-below key e m h)
    go ((k, p) ∷ rest) h stands = ground (arith, stands.valid, stands.key, stands.ptr)

pub find-table_of :
    (fname key : Bytes) (m : Map ValuePointer) (d : Disk)
    → IsTable m
    → IsFile fname m d
    → find (table_of fname m) d key ≡ ok (Map.find key m)
unfolding find index_from seek answer Map.find
find-table_of fname key [] d t file = ground (arith, (new_iterator-IsOn fname [] d t file).index)
find-table_of fname key (e ∷ m) d t file =
    let on = new_iterator-IsOn fname (e ∷ m) d t file in
    let (it, run, st) = seek-Stopped key e m _ t on in
    rw run (ap ok (answer-Stopped (table_bytes (e ∷ m)) key e m it t.sorted st))

-- A table that `write_new` has written, when it is opened again, answers for every key what
-- the written map holds for it, if the map is sorted, has fewer than 2^32 entries and keys of
-- fewer than 2^32 bytes, and its pointers are in the range of their members.
pub find-write_new :
    (fname key : Bytes) (m : Map ValuePointer) (d : Disk)
    → IsTable m
    → (new fname (write_new fname m d) >>= λ t. find t (write_new fname m d) key)
      ≡ ok (Map.find key m)
find-write_new fname key m d t =
    let file = write_new-IsFile fname m d in
    rw (new-table_of fname m (write_new fname m d) t file)
      (find-table_of fname key m (write_new fname m d) t file)

-- One step of a walk: from an entry to the one behind it, or to the end.
abbrev pub Stepped : Bytes → Map ValuePointer → SsTableIterator → Type 0
Stepped content [] it = it.is_valid ≡ false
Stepped content ((k, p) ∷ rest) it = Stands content k p rest it

-- `next` on an iterator that stands on an entry goes to the entry behind it, and is no longer
-- valid if there is none.
pub next-Stands :
    (content k : Bytes) (p : ValuePointer) (rest : Map ValuePointer) (it : SsTableIterator)
    → All IsEntry rest
    → Stands content k p rest it
    → (it' : SsTableIterator) × (next it ≡ ok it') × Stepped content rest it'
unfolding next read_at_current
next-Stands content k p [] it fits s =
    (record it { cur_idx = u32 (it.cur_idx + 1); is_valid = false }, ground (arith, s.count), refl)
next-Stands content k p ((j, q) ∷ rest) it fits s =
    let faces : Faces content ((j, q) ∷ rest) (record it { cur_idx = u32 (it.cur_idx + 1) }) =
      record {
        pos = s.pos;
        at = s.at;
        ahead = s.ahead;
        count = omega (arith, s.count);
        few = s.few;
        fits = fits;
      } in
    (_, read_at_current-read_one content j q rest _ faces, read_one-Stands content j q rest _ faces)
