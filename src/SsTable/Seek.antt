-- ===== src/SsTable/Seek.antt =====
-- `seek`, `next` and `find` on a written table, against the map that was written
-- (src/sstable.cpp).
use vortex_db.Base.{
  ℕ, suc, ◌+◌, ◌-◌, ◌<◌, ◌^◌, ◌≡◌, refl, ap, sym, ◌∙◌, true, [], ◌∷◌, ◌++◌, length, drop, All,
  arith, length-append, inl, inr, All-append_right,
}
use mathlib.Core.Path.{ap₂}
use vortex_db.Base.Words.{Bytes, u32}
use vortex_db.Base.Order.{lex, Ordering-cases}
use vortex_db.Base.Map
use vortex_db.Base.Map.{Map, IsSorted, IsAbove, IsBelow, lower_bound}
use vortex_db.Files.{ok, In, stream_at, seek_to}
use vortex_db.Vlog.{ValuePointer}
use vortex_db.SsTable.{
  SsTableIterator, entries_bytes, table_bytes, choose, scan, seek_from, seek, read_at_current,
}
use vortex_db.SsTable.Layout.{IsEntry, past, rest-ahead, read_at_current-entry}
use vortex_db.SsTable.Index.{IsTable, index_from, entries_bytes-ahead, StartsAt, choose-StartsAt}

-- The iterator has read the entry of `k`, and `rest` comes behind it.
pub record Stands (content : Bytes) (k : Bytes) (p : ValuePointer) (rest : Map ValuePointer)
    (it : SsTableIterator) : Type 0 where
  pub pos : ℕ
  pub at : it.file ≡ stream_at content pos
  pub ahead : drop pos content ≡ entries_bytes rest
  pub valid : it.is_valid ≡ true
  pub key : it.cur_key ≡ k
  pub ptr : it.cur_ptr ≡ p
  pub count : it.cur_idx + suc (length rest) ≡ it.total_keys
  pub few : it.total_keys < 2 ^ 32

-- The iterator is about to read the entries `m`.
pub record Faces (content : Bytes) (m : Map ValuePointer) (it : SsTableIterator) : Type 0 where
  pub pos : ℕ
  pub at : it.file ≡ stream_at content pos
  pub ahead : drop pos content ≡ entries_bytes m
  pub count : it.cur_idx + length m ≡ it.total_keys
  pub few : it.total_keys < 2 ^ 32
  pub fits : All IsEntry m

module _ (content : Bytes) (k : Bytes) (p : ValuePointer) (m : Map ValuePointer)
    (it : SsTableIterator) (f : Faces content ((k, p) ∷ m) it) where
  -- The iterator after one read.
  abbrev pub read_one : SsTableIterator
  read_one = record it {
    file = stream_at content (past f.pos k);
    cur_key = k;
    cur_ptr = p;
    is_valid = true;
  }

  pub read_at_current-read_one : read_at_current it ≡ ok read_one
  read_at_current-read_one =
      read_at_current-entry content f.pos k p m f.fits.0 f.ahead it f.at (omega (arith, f.count))

  pub read_one-Stands : Stands content k p m read_one
  read_one-Stands = record {
    pos = past f.pos k;
    at = refl;
    ahead = rest-ahead content f.pos k p m f.fits.0 f.ahead;
    valid = refl;
    key = refl;
    ptr = refl;
    count = f.count;
    few = f.few;
  }

  pub read_one-Faces : Faces content m (record read_one { cur_idx = u32 (it.cur_idx + 1) })
  read_one-Faces = record {
    pos = past f.pos k;
    at = refl;
    ahead = rest-ahead content f.pos k p m f.fits.0 f.ahead;
    count = omega (arith, f.count, f.few);
    few = f.few;
    fits = f.fits.1;
  }

-- The last entry of `e ∷ m`.
abbrev pub last_entry : Bytes × ValuePointer → Map ValuePointer → Bytes × ValuePointer
last_entry e [] = e
last_entry e (e' ∷ m) = last_entry e' m

abbrev pub Shows : Bytes × ValuePointer → SsTableIterator → Type 0
Shows e it = (it.is_valid ≡ true) × (it.cur_key ≡ e.0) × (it.cur_ptr ≡ e.1)

-- Where a scan ends: on the first entry of the lower bound, or, if that is empty, still showing
-- the last entry that was read, with no entry left.
abbrev pub Stopped : Bytes → Bytes × ValuePointer → Map ValuePointer → SsTableIterator → Type 0
Stopped content e [] it = Shows e it × (it.cur_idx ≡ it.total_keys) × Faces content [] it
Stopped content e ((k, p) ∷ rest) it = Stands content k p rest it

scan-Stopped :
    (content target : Bytes) (e : Bytes × ValuePointer) (m : Map ValuePointer)
    (it : SsTableIterator)
    → Faces content m it
    → (length m ≡ 0 → Shows e it)
    → (it' : SsTableIterator) × (scan target (length m) it ≡ ok it')
      × Stopped content (last_entry e m) (lower_bound target m) it'
unfolding scan lower_bound
scan-Stopped content target e [] it f shows = (it, refl, (shows refl, omega (arith, f.count), f))
scan-Stopped content target e ((j, q) ∷ m) it f shows =
    let read_it = read_at_current-read_one content j q m it f in
    elim (Ordering-cases (lex j target)) [
      | inl below ↦
          let (it', run, st) =
            scan-Stopped content target (j, q) m _ (read_one-Faces content j q m it f)
              (λ _. (refl, refl, refl)) in
          (it', rw (read_it, below) run, rw (below, lower_bound) st)
      | inr (inl same) ↦ (
        read_one content j q m it f,
        rw (read_it, same),
        rw (same, lower_bound) (read_one-Stands content j q m it f),
      )
      | inr (inr above) ↦ (
        read_one content j q m it f,
        rw (read_it, above),
        rw (above, lower_bound) (read_one-Stands content j q m it f),
      )
    ]

last_entry-append :
    (e e' : Bytes × ValuePointer) (front back : Map ValuePointer)
    → 0 < length back
    → last_entry e back ≡ last_entry e' (front ++ back)
last_entry-append e e' [] [] h = absurd (omega arith)
last_entry-append e e' [] (b ∷ back) h = refl
last_entry-append e e' (f ∷ front) back h = last_entry-append e f front back h

-- An iterator on the table of the entries `m`, wherever its stream stands.
pub record IsOn (m : Map ValuePointer) (it : SsTableIterator) : Type 0 where
  pub pos : ℕ
  pub at : it.file ≡ stream_at (table_bytes m) pos
  pub index : it.table.sparse_index ≡ index_from 0 4 m
  pub total : it.total_keys ≡ length m

first_start : (target : Bytes) (m : Map ValuePointer) → 0 < length m → StartsAt target m (4, 0)
first_start target m h = record {
  front = [];
  back = m;
  split = refl;
  number = refl;
  offset = λ content e. e;
  below = tt;
  more = h;
}

from_start-Stopped :
    (target : Bytes) (e : Bytes × ValuePointer) (m : Map ValuePointer) (it : SsTableIterator)
    (start : ℕ × ℕ)
    → IsTable (e ∷ m)
    → IsOn (e ∷ m) it
    → StartsAt target (e ∷ m) start
    → (it' : SsTableIterator) × (scan target
          (it.total_keys - start.1)
          (record it { file = seek_to start.0 it.file; cur_idx = start.1 })
        ≡ ok it')
      × Stopped (table_bytes (e ∷ m)) (last_entry e m) (lower_bound target (e ∷ m)) it'
from_start-Stopped target e m it start t on s =
    let all : Map ValuePointer = e ∷ m in
    let content = table_bytes all in
    let counts : length s.front + length s.back ≡ length all =
      omega (arith, length-append s.front s.back, ap length s.split) in
    let it₁ : SsTableIterator = record it { file = stream_at content start.0; cur_idx = start.1 } in
    let faces : Faces content s.back it₁ = record {
      pos = start.0;
      at = refl;
      ahead = s.offset content (entries_bytes-ahead all t.few);
      count = omega (arith, counts, s.number, on.total);
      few = omega (arith, t.few, on.total);
      fits = All-append_right IsEntry s.front s.back (rw s.split t.fits);
    } in
    let left : it.total_keys - start.1 ≡ length s.back =
      omega (arith, counts, s.number, on.total) in
    let (it', run, st) =
      scan-Stopped content target e s.back it₁ faces (λ empty. absurd (omega (arith, s.more))) in
    let low : lower_bound target all ≡ lower_bound target s.back =
      ap (lower_bound target) (sym s.split)
      ∙ Map.lower_bound-append target s.front s.back s.below in
    let last : last_entry e s.back ≡ last_entry e all =
      last_entry-append e e s.front s.back s.more ∙ ap (last_entry e) s.split in
    let placed : seek_to start.0 it.file ≡ stream_at content start.0 = rw on.at in
    let same =
      ap₂ (λ (l : ℕ) (f : In). scan target l (record it { file = f; cur_idx = start.1 })) left
        placed in
    (it', same ∙ run, rw (low, ← last) st)

seek_from-Stopped :
    (target : Bytes) (e : Bytes × ValuePointer) (m : Map ValuePointer) (it : SsTableIterator)
    → IsTable (e ∷ m)
    → IsOn (e ∷ m) it
    → (it' : SsTableIterator) × (seek_from target 4 it ≡ ok it')
      × Stopped (table_bytes (e ∷ m)) (last_entry e m) (lower_bound target (e ∷ m)) it'
unfolding seek_from
seek_from-Stopped target e m it t on =
    let all : Map ValuePointer = e ∷ m in
    let s =
      choose-StartsAt target all [] all 0 0 4 (4, 0) refl refl (omega arith) (omega arith) t
        (λ content e. e) (first_start target all (omega arith)) in
    let (it', run, st) = from_start-Stopped target e m it _ t on s in
    (
      it',
      ap
            (λ ix.
              let c = choose target 0 ix (4, 0) in
              scan target (it.total_keys - c.1)
                (record it { file = seek_to c.0 it.file; cur_idx = c.1 }))
            on.index
          ∙ run,
      st,
    )

-- `seek` on the table of a sorted map that is not empty, of fewer than 2^32 entries in range, runs
-- through, wherever the stream stood. It stops on the first entry of the map whose key is not
-- below the target, with the entries behind it still to come. If every key is below the target, it
-- stops valid on the last entry of the map.
pub seek-Stopped :
    (target : Bytes) (e : Bytes × ValuePointer) (m : Map ValuePointer) (it : SsTableIterator)
    → IsTable (e ∷ m)
    → IsOn (e ∷ m) it
    → (it' : SsTableIterator) × (seek target it ≡ ok it')
      × Stopped (table_bytes (e ∷ m)) (last_entry e m) (lower_bound target (e ∷ m)) it'
unfolding seek index_from
seek-Stopped target e m it t on =
    let (it', run, st) = seek_from-Stopped target e m it t on in
    (it', ground (arith, on.index, on.total, run), st)
