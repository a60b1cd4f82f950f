-- ===== src/Engine/Latest.antt =====
-- What recovery puts into the memtable (src/vortex.cpp): the latest entry of each key.
use vortex_db.Base.{
  ℕ, zero, suc, ◌+◌, ◌^◌, ◌<◌, ◌≤◌, ◌≡◌, refl, ap, ◌∙◌, Option, none, some, List, [], ◌∷◌, length,
  drop, if◌then◌else◌, arith, All, length-append, Bool-cases, inl, inr,
}
use vortex_db.Base.Words.{Bytes}
use vortex_db.Base.Order.{◌=ˢ◌}
use vortex_db.Base.Map
use vortex_db.Base.Map.{Map, IsSorted}
use vortex_db.Files.{ok, Disk}
use vortex_db.Vlog.{ValuePointer, VortexData}
use vortex_db.Vlog.Writer.{segment, contents, entry_bytes}
use vortex_db.Vlog.Reader.{VLogReader, Cursor}
use vortex_db.Vlog.Append.{length-entry_bytes}
use vortex_db.Vlog.Points.{Points}
use vortex_db.Vlog.Cache.{IsCoherent, nonempty_of_drop}
use vortex_db.Vlog.ReadBack.{Item, IsItem}
use vortex_db.Vlog.Next.{
  cursor_at, cursor-Points, rest-ahead, read_next_entry-entry, read_next_entry-end,
}
use vortex_db.Engine.Scan.{is_tombstone}
use vortex_db.Engine.Replay.{log_bytes, replay}
use vortex_db.Engine.State.{VortexDb, memtable_limit, make_room}
use vortex_db.Engine.Recover.{recover_entry, recover_segment}

-- The last entry of a key.
unfoldable pub latest : Bytes → List Item → Option VortexData
latest key [] = none
latest key ((k, x) ∷ items) = elim (latest key items) [
  | some y ↦ some y
  | none ↦ if key =ˢ k then some x else none
]

-- What a key is to lead to in the memtable by its last entry, if it led to `before`; `log` gives the
-- bytes of each segment.
abbrev pub IsRecovered :
    (ℕ → Bytes) → Option VortexData → Option ValuePointer → Option ValuePointer → Type 0
IsRecovered log none before found = found ≡ before
IsRecovered log (some x) before found =
    if is_tombstone x.type
    then found ≡ none
    else (p : ValuePointer) × (found ≡ some p) × Points (log p.file_id) p x

pub recover_entry-IsSorted :
    (c : Cursor) (m : Map ValuePointer) → IsSorted m → IsSorted (recover_entry c m)
unfolding recover_entry
recover_entry-IsSorted c m s =
    ground (arith, Map.erase-IsSorted c.key m s, Map.insert-IsSorted c.key c.ptr m s)

find-recover_entry :
    (c : Cursor) (m : Map ValuePointer) (key : Bytes)
    → IsSorted m
    → Map.find key (recover_entry c m) ≡ (
        if key =ˢ c.key
        then if is_tombstone c.entry.type then none else some c.ptr
        else Map.find key m)
unfolding recover_entry
find-recover_entry c m key s =
    ground (arith, Map.find-erase c.key key m s, Map.find-insert c.key key c.ptr m)

-- One entry more at the front.
IsRecovered-entry :
    (log : ℕ → Bytes) (key k : Bytes) (x : VortexData) (p : ValuePointer)
    (later : Option VortexData) (before between found : Option ValuePointer)
    → Points (log p.file_id) p x
    → between ≡ (if key =ˢ k then if is_tombstone x.type then none else some p else before)
    → IsRecovered log later between found
    → IsRecovered log
        (elim later [ some y ↦ some y | none ↦ if key =ˢ k then some x else none ])
        before
        found
IsRecovered-entry log key k x p (some y) before between found h e r = r
IsRecovered-entry log key k x p none before between found h e r = elim (Bool-cases (key =ˢ k)) [
  | inr other ↦ rw other (ground (arith, e, r))
  | inl here ↦ elim (Bool-cases (is_tombstone x.type)) [
    | inl dead ↦ rw (here, dead) (ground (arith, e, r))
    | inr live ↦ rw (here, live) (p, ground (arith, e, r), h)
  ]
]

pub replay-IsRecovered :
    (log : ℕ → Bytes) (id pos : ℕ) (items : List Item) (m : Map ValuePointer) (key : Bytes)
    → All IsItem items
    → drop pos (log id) ≡ log_bytes items
    → pos + length (log_bytes items) < 2 ^ 63
    → IsSorted m
    → IsRecovered log
        (latest key items)
        (Map.find key m)
        (Map.find key (replay recover_entry id pos items m))
unfolding latest log_bytes replay
replay-IsRecovered log id pos [] m key good ahead small s = refl
replay-IsRecovered log id pos ((k, x) ∷ items) m key (item, good) ahead small s =
    let c = cursor_at id pos (k, x) in
    let len = length-append (entry_bytes k x.value x.type) (log_bytes items) in
    let size = length-entry_bytes k x.value x.type in
    IsRecovered-entry log key k x c.ptr (latest key items) (Map.find key m)
      (Map.find key (recover_entry c m)) _
      (cursor-Points (log id) pos k x (log_bytes items) item ahead id
        (omega (arith, len, size, small)))
      (find-recover_entry c m key s)
      (replay-IsRecovered log id c.current_pos items (recover_entry c m) key good
        (rest-ahead (log id) pos k x (log_bytes items) item ahead) (omega (arith, len, size, small))
        (recover_entry-IsSorted c m s))

length-insert-le :
    (k : Bytes) (p : ValuePointer) (m : Map ValuePointer) → length (Map.insert k p m) ≤ length m + 1
unfolding Map.insert
length-insert-le k p [] = omega arith
length-insert-le k p ((j, q) ∷ m) = ground (arith, length-insert-le k p m)

length-erase-le : (k : Bytes) (m : Map ValuePointer) → length (Map.erase k m) ≤ length m
unfolding Map.erase
length-erase-le k [] = omega arith
length-erase-le k ((j, q) ∷ m) = ground (arith, length-erase-le k m)

pub length-recover_entry-le :
    (c : Cursor) (m : Map ValuePointer) → length (recover_entry c m) ≤ length m + 1
unfolding recover_entry
length-recover_entry-le c m =
    ground (arith, length-insert-le c.key c.ptr m, length-erase-le c.key m)

pub recover_from-replay :
    (clock : ℕ → ℕ) (items : List Item) (fuel id pos : ℕ) (c : Cursor) (db : VortexDb) (d : Disk)
    → length items < fuel
    → length db.memtable + length items < memtable_limit
    → All IsItem items
    → drop pos (contents (segment db.reader.base_path id) d) ≡ log_bytes items
    → c.current_pos ≡ pos
    → pos + length (log_bytes items) < 2 ^ 63
    → IsCoherent db.reader d
    → (r' : VLogReader) × (recover_segment clock fuel id c db d
        ≡ ok (
          record db { reader = r'; memtable = replay recover_entry id pos items db.memtable },
          d,
        ))
      × IsCoherent r' d
      × (r'.base_path ≡ db.reader.base_path)
unfolding recover_segment log_bytes replay make_room
recover_from-replay clock items zero id pos c db d more few good ahead at small co =
    absurd (omega arith)
recover_from-replay clock [] (suc fuel) id pos c db d more few _ ahead at small co =
    let (c', r', run, co', base) = read_next_entry-end id c db.reader d (rw at ahead) co in
    (r', ground (arith, run), co', base)
recover_from-replay clock ((k, x) ∷ items) (suc fuel) id pos c db d more few (item, good) ahead at
      small co =
    let file = contents (segment db.reader.base_path id) d in
    let len = length-append (entry_bytes k x.value x.type) (log_bytes items) in
    let size = length-entry_bytes k x.value x.type in
    let (r₁, run, co₁, base₁) =
      read_next_entry-entry file pos k x (log_bytes items) id c db.reader d item ahead refl at
        (omega (arith, len, size, small))
        (nonempty_of_drop pos file (omega (arith, ap length ahead, len, size))) co in
    let c₁ = cursor_at id pos (k, x) in
    let m₁ = recover_entry c₁ db.memtable in
    let grown = length-recover_entry-le c₁ db.memtable in
    let (r', run', co', base') =
      recover_from-replay clock items fuel id c₁.current_pos c₁
        (record db { reader = r₁; memtable = m₁ }) d (omega arith) (omega (arith, grown, few)) good
        (rw base₁ (rest-ahead file pos k x (log_bytes items) item ahead)) refl
        (omega (arith, len, size, small)) co₁ in
    (r', ground (arith, run, run', grown, few), co', base' ∙ base₁)
