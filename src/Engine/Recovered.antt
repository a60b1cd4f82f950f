-- ===== src/Engine/Recovered.antt =====
-- What `recover_from_vlog` makes of a log of several segments (src/vortex.cpp).
use vortex_db.Base.{
  ℕ, ◌+◌, ◌^◌, ◌<◌, ◌≤◌, ◌≡◌, refl, ap, ◌∙◌, Option, none, some, List, [], ◌∷◌, ◌++◌, length, arith,
  All, length-append,
}
use vortex_db.Base.Words.{Bytes}
use vortex_db.Base.Map
use vortex_db.Base.Map.{Map, IsSorted}
use vortex_db.Files.{ok, Disk}
use vortex_db.Vlog.{ValuePointer, VortexData}
use vortex_db.Vlog.Writer.{segment, contents}
use vortex_db.Vlog.Reader.{VLogReader}
use vortex_db.Vlog.Cache.{IsCoherent}
use vortex_db.Vlog.ReadBack.{Item, IsItem}
use vortex_db.Vlog.Next.{cursor_at}
use vortex_db.Engine.Scan.{fresh_cursor}
use vortex_db.Engine.Replay.{log_bytes, replay}
use vortex_db.Engine.State.{VortexDb, memtable_limit, save_index}
use vortex_db.Engine.Recover.{recover_entry, recover_segments, recover_from_vlog}
use vortex_db.Engine.Latest.{
  latest, IsRecovered, replay-IsRecovered, recover_from-replay, recover_entry-IsSorted,
  length-recover_entry-le,
}

-- The entries of the segments, one segment behind another.
unfoldable pub entries_of : (ℕ → List Item) → List ℕ → List Item
entries_of items [] = []
entries_of items (id ∷ ids) = items id ++ entries_of items ids

-- The segment holds the entries, and nothing else.
pub record IsLogOf (items : List Item) (fuel : ℕ) (content : Bytes) : Type 0 where
  pub fits : All IsItem items
  pub holds : content ≡ log_bytes items
  pub small : length content < 2 ^ 63
  pub more : length items < fuel

latest-append :
    (key : Bytes) (xs ys : List Item)
    → latest key (xs ++ ys) ≡ (elim (latest key ys) [ some y ↦ some y | none ↦ latest key xs ])
unfolding latest
latest-append key [] ys = ground arith
latest-append key ((k, x) ∷ xs) ys = ground (arith, latest-append key xs ys)

IsRecovered-trans :
    (log : ℕ → Bytes) (earlier later : Option VortexData)
    (before between found : Option ValuePointer)
    → IsRecovered log earlier before between
    → IsRecovered log later between found
    → IsRecovered log (elim later [ some y ↦ some y | none ↦ earlier ]) before found
IsRecovered-trans log earlier none before between found a b = rw b a
IsRecovered-trans log earlier (some y) before between found a b = b

replay-IsSorted :
    (id pos : ℕ) (items : List Item) (m : Map ValuePointer)
    → IsSorted m
    → IsSorted (replay recover_entry id pos items m)
unfolding replay
replay-IsSorted id pos [] m s = s
replay-IsSorted id pos (item ∷ items) m s =
    let c = cursor_at id pos item in
    replay-IsSorted id c.current_pos items (recover_entry c m) (recover_entry-IsSorted c m s)

length-replay-le :
    (id pos : ℕ) (items : List Item) (m : Map ValuePointer)
    → length (replay recover_entry id pos items m) ≤ length m + length items
unfolding replay
length-replay-le id pos [] m = omega arith
length-replay-le id pos (item ∷ items) m =
    let c = cursor_at id pos item in
    let rest = length-replay-le id c.current_pos items (recover_entry c m) in
    omega (arith, rest, length-recover_entry-le c m)

recover_segments-IsRecovered :
    (clock : ℕ → ℕ) (items : ℕ → List Item) (fuel : ℕ) (ids : List ℕ) (db : VortexDb) (d : Disk)
    → All (λ id. IsLogOf (items id) fuel (contents (segment db.reader.base_path id) d)) ids
    → length db.memtable + length (entries_of items ids) < memtable_limit
    → IsCoherent db.reader d
    → IsSorted db.memtable
    → (r' : VLogReader) × (m' : Map ValuePointer) × (recover_segments clock fuel ids db d
        ≡ ok (record db { reader = r'; memtable = m' }, d))
      × IsCoherent r' d
      × (r'.base_path ≡ db.reader.base_path)
      × IsSorted m'
      × ((key : Bytes)
          → IsRecovered
              (λ id. contents (segment db.reader.base_path id) d)
              (latest key (entries_of items ids))
              (Map.find key db.memtable)
              (Map.find key m'))
unfolding recover_segments entries_of latest
recover_segments-IsRecovered clock items fuel [] db d logs few co s =
    (db.reader, db.memtable, refl, co, refl, s, λ key. refl)
recover_segments-IsRecovered clock items fuel (id ∷ ids) db d (log, logs) few co s =
    let base = db.reader.base_path in
    let len = length-append (items id) (entries_of items ids) in
    let small : 0 + length (log_bytes (items id)) < 2 ^ 63 =
      omega (arith, log.small, ap length log.holds) in
    let (r₁, run, co₁, base₁) =
      recover_from-replay clock (items id) fuel id 0 fresh_cursor db d log.more
        (omega (arith, few, len)) log.fits log.holds refl small co in
    let m₁ = replay recover_entry id 0 (items id) db.memtable in
    let db₁ : VortexDb = record db { reader = r₁; memtable = m₁ } in
    let (r', m', run', co', base', s', finds) =
      recover_segments-IsRecovered clock items fuel ids db₁ d (rw base₁ logs)
        (omega (arith, few, len, length-replay-le id 0 (items id) db.memtable)) co₁
        (replay-IsSorted id 0 (items id) db.memtable s) in
    (
      r',
      m',
      rw run run',
      co',
      base' ∙ base₁,
      s',
      λ key. rw (latest-append key (items id) (entries_of items ids)) (
          IsRecovered-trans (λ j. contents (segment base j) d) (latest key (items id))
            (latest key (entries_of items ids)) (Map.find key db.memtable) (Map.find key m₁)
            (Map.find key m')
            (replay-IsRecovered (λ j. contents (segment base j) d) id 0 (items id) db.memtable key
              log.fits log.holds small s)
            (rw base₁ at finds key)),
    )

-- Recovery from the log, segment by segment in the order of the list, ends, and makes a new memtable
-- from it: a key leads to the value of its last entry in all segments, through a pointer to the value
-- in the log; a key whose last entry is a tombstone, or which has no entry, is not in the memtable. The
-- index is saved at the end; besides, only the memtable and the reader change, whose cache is
-- coherent. Each segment holds entries one behind another, and nothing else, is shorter than 2^63
-- bytes, and has fewer entries than there are rounds; the entries are shorter than 2^32 bytes, and
-- each type is the one that its byte stands for; all segments together have fewer entries than the
-- memtable may hold; the cache is coherent before.
pub recover_from_vlog-IsRecovered :
    (clock : ℕ → ℕ) (items : ℕ → List Item) (fuel : ℕ) (ids : List ℕ) (db : VortexDb) (d : Disk)
    → All (λ id. IsLogOf (items id) fuel (contents (segment db.reader.base_path id) d)) ids
    → length (entries_of items ids) < memtable_limit
    → IsCoherent db.reader d
    → (r' : VLogReader) × (m' : Map ValuePointer) × (recover_from_vlog clock fuel ids db d
        ≡ ok (save_index (record db { reader = r'; memtable = m' }) d))
      × IsCoherent r' d
      × ((key : Bytes)
          → IsRecovered
              (λ id. contents (segment db.reader.base_path id) d)
              (latest key (entries_of items ids))
              none
              (Map.find key m'))
unfolding recover_from_vlog Map.find
recover_from_vlog-IsRecovered clock items fuel ids db d logs few co =
    let (r', m', run, co', base, s, finds) =
      recover_segments-IsRecovered clock items fuel ids (record db { memtable = [] }) d logs
        (omega (arith, few)) co tt in
    (r', m', rw (recover_from_vlog, run) refl, co', finds)
