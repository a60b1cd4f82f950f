-- ===== src/Engine/Merge/Views.antt =====
-- What a client sees of an iterator: the entries that are still to come.
use vortex_db.Base.{ℕ, ◌+◌, ◌≡◌, refl, true, false, [], ◌∷◌, All, arith, inl, inr, leb, Bool-cases}
use vortex_db.Base.Words.{Bytes, u32}
use vortex_db.Base.Order.{lex, Ordering-cases}
use vortex_db.Base.Map.{Map, lower_bound}
use vortex_db.Files.{ok, read, read_word}
use vortex_db.Vlog.{ValuePointer}
use vortex_db.SsTable
use vortex_db.SsTable.{SsTableIterator, table_bytes, entries_bytes, read_at_current}
use vortex_db.SsTable.Layout.{IsEntry}
use vortex_db.SsTable.Index.{IsTable, index_from}
use vortex_db.SsTable.Seek.{Faces, Shows, Stands, Stopped, IsOn, last_entry, seek-Stopped}
use vortex_db.SsTable.Find.{next-Stands}
use vortex_db.Engine.Merge.{
  InternalIterator, memtable_iterator, sst_iterator, valid, seek, next, key, value,
}

-- The iterator stands on the first of the entries, and `next` leads through the others.
abbrev pub Views : InternalIterator → Map ValuePointer → Type 0
Views it [] = valid it ≡ false
Views it ((k, p) ∷ m) =
    (valid it ≡ true)
    × (key it ≡ k)
    × (value it ≡ p)
    × ((it' : InternalIterator) × (next it ≡ ok it') × Views it' m)

pub memtable-Views : (entries rest : Map ValuePointer) → Views (memtable_iterator entries rest) rest
unfolding valid key value next
memtable-Views entries [] = refl
memtable-Views entries ((k, p) ∷ rest) =
    (refl, refl, refl, (memtable_iterator entries rest, refl, memtable-Views entries rest))

Stands-Views :
    (content k : Bytes) (p : ValuePointer) (rest : Map ValuePointer) (it : SsTableIterator)
    → All IsEntry rest
    → Stands content k p rest it
    → Views (sst_iterator it) ((k, p) ∷ rest)
unfolding valid key value next
Stands-Views content k p [] it fits s =
    let (it', run, step) = next-Stands content k p [] it fits s in
    (s.valid, s.key, s.ptr, (sst_iterator it', rw run, step))
Stands-Views content k p ((j, q) ∷ rest) it (fit, fits) s =
    let (it', run, step) = next-Stands content k p ((j, q) ∷ rest) it (fit, fits) s in
    (s.valid, s.key, s.ptr, (sst_iterator it', rw run, Stands-Views content j q rest it' fits step))

-- The entries that an iterator on a table shows after `seek`: those from the target on, or the last
-- one if all are below the target.
unfoldable pub from_target : Bytes → Map ValuePointer → Map ValuePointer
from_target target [] = []
from_target target (e ∷ m) = elim (lower_bound target (e ∷ m)) [
  | [] ↦ last_entry e m ∷ []
  | l ∷ ls ↦ l ∷ ls
]

-- `next` behind the last entry ends a walk, also where the index wraps round: the stream is at its
-- end.
read_at_current-end :
    (content : Bytes) (it : SsTableIterator)
    → Faces content [] it
    → (i : ℕ)
    → (it' : SsTableIterator) × (read_at_current (record it { cur_idx = i }) ≡ ok it')
      × (it'.is_valid ≡ false)
unfolding read_at_current read_word read entries_bytes
read_at_current-end content it f i =
    let (got, s) = read_word 4 it.file in
    elim (Bool-cases (leb it.total_keys i)) [
      | inl past_all ↦ (record it { cur_idx = i; is_valid = false }, ground (arith, past_all), refl)
      | inr wrapped ↦ (
        record it { cur_idx = i; is_valid = false; file = s },
        ground (arith, wrapped, f.at, f.ahead),
        refl,
      )
    ]

last-Views :
    (content : Bytes) (e : Bytes × ValuePointer) (it : SsTableIterator)
    → Shows e it
    → Faces content [] it
    → Views (sst_iterator it) (e ∷ [])
unfolding valid key value next SsTable.next
last-Views content e it (ok_valid, k, p) f =
    let (it', run, ended) = read_at_current-end content it f (u32 (it.cur_idx + 1)) in
    (ok_valid, k, p, (sst_iterator it', rw run, ended))

All-lower_bound :
    (target : Bytes) (m : Map ValuePointer) → All IsEntry m → All IsEntry (lower_bound target m)
unfolding lower_bound
All-lower_bound target [] a = tt
All-lower_bound target ((k, p) ∷ m) (a, rest) = elim (Ordering-cases (lex k target)) [
  | inl below ↦ rw (below, lower_bound) (All-lower_bound target m rest)
  | inr (inl same) ↦ rw (same, lower_bound) (a, rest)
  | inr (inr above) ↦ rw (above, lower_bound) (a, rest)
]

Stopped-Views :
    (content : Bytes) (e : Bytes × ValuePointer) (low : Map ValuePointer) (it : SsTableIterator)
    → All IsEntry low
    → Stopped content e low it
    → Views (sst_iterator it) (elim low [ [] ↦ e ∷ [] | l ∷ ls ↦ l ∷ ls ])
Stopped-Views content e [] it fits (shows, _, faces) = last-Views content e it shows faces
Stopped-Views content e ((k, p) ∷ rest) it (fit, fits) s = Stands-Views content k p rest it fits s

-- `seek` of an iterator on a table shows the entries from the target on.
pub sst-seek-Views :
    (target : Bytes) (m : Map ValuePointer) (it : SsTableIterator)
    → IsTable m
    → IsOn m it
    → (it' : InternalIterator) × (seek target (sst_iterator it) ≡ ok it')
      × Views it' (from_target target m)
unfolding seek from_target SsTable.seek index_from valid
sst-seek-Views target [] it t on =
    let stopped : SsTableIterator = record it { is_valid = false } in
    (sst_iterator stopped, ground (arith, on.index), refl)
sst-seek-Views target (e ∷ m) it t on =
    let (it', run, st) = seek-Stopped target e m it t on in
    (
      sst_iterator it',
      rw run,
      Stopped-Views (table_bytes (e ∷ m)) (last_entry e m) (lower_bound target (e ∷ m)) it'
          (All-lower_bound target (e ∷ m) t.fits) st,
    )
