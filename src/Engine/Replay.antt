-- ===== src/Engine/Replay.antt =====
-- What a scan of a segment of the log visits (src/vlog.cpp, src/vortex.cpp).
use vortex_db.Base.{
  ℕ, zero, suc, ◌+◌, ◌^◌, ◌<◌, ◌≡◌, refl, ap, ◌∙◌, List, [], ◌∷◌, ◌++◌, length, drop, arith, All,
  length-append,
}
use vortex_db.Base.Words.{Bytes}
use vortex_db.Files.{ok, Disk}
use vortex_db.Vlog.Writer.{segment, contents, entry_bytes}
use vortex_db.Vlog.Reader.{VLogReader, Cursor}
use vortex_db.Vlog.Append.{length-entry_bytes}
use vortex_db.Vlog.Cache.{IsCoherent, nonempty_of_drop}
use vortex_db.Vlog.ReadBack.{Item, IsItem}
use vortex_db.Engine.Scan.{fresh_cursor, scan_segment}
use vortex_db.Vlog.Next.{cursor_at, rest-ahead, read_next_entry-entry, read_next_entry-end}

-- The bytes of entries one behind another.
unfoldable pub log_bytes : List Item → Bytes
log_bytes [] = []
log_bytes ((key, x) ∷ items) = entry_bytes key x.value x.type ++ log_bytes items

-- The body of the loop on the entries in their order, each with its place in the segment.
unfoldable pub replay {ℓ} : {A : Type ℓ} → (Cursor → A → A) → ℕ → ℕ → List Item → A → A
replay body id pos [] a = a
replay body id pos (item ∷ items) a =
    let c = cursor_at id pos item in replay body id c.current_pos items (body c a)

scan_from-replay {ℓ} :
    {A : Type ℓ} (body : Cursor → A → A) (items : List Item) (fuel id pos : ℕ) (c : Cursor)
    (r : VLogReader) (d : Disk) (a : A)
    → length items < fuel
    → All IsItem items
    → drop pos (contents (segment r.base_path id) d) ≡ log_bytes items
    → c.current_pos ≡ pos
    → pos + length (log_bytes items) < 2 ^ 63
    → IsCoherent r d
    → (r' : VLogReader) × (scan_segment body fuel id c r d a ≡ ok (replay body id pos items a, r'))
      × IsCoherent r' d
      × (r'.base_path ≡ r.base_path)
unfolding scan_segment log_bytes replay
scan_from-replay body items zero id pos c r d a more good ahead at small co = absurd (omega arith)
scan_from-replay body [] (suc fuel) id pos c r d a more _ ahead at small co =
    let (c', r', run, co', base) = read_next_entry-end id c r d (rw at ahead) co in
    (r', ground (arith, run), co', base)
scan_from-replay body ((key, x) ∷ items) (suc fuel) id pos c r d a more (item, good) ahead at small
      co =
    let file = contents (segment r.base_path id) d in
    let entry = entry_bytes key x.value x.type in
    let len = length-append entry (log_bytes items) in
    let (r₁, run, co₁, base₁) =
      read_next_entry-entry file pos key x (log_bytes items) id c r d item ahead refl at
        (omega (arith, len, length-entry_bytes key x.value x.type, small))
        (nonempty_of_drop pos file
          (omega (arith, ap length ahead, len, length-entry_bytes key x.value x.type)))
        co in
    let c₁ = cursor_at id pos (key, x) in
    let (r', run', co', base') =
      scan_from-replay body items fuel id c₁.current_pos c₁ r₁ d (body c₁ a) (omega arith) good
        (rw base₁ (rest-ahead file pos key x (log_bytes items) item ahead)) refl
        (omega (arith, len, length-entry_bytes key x.value x.type, small)) co₁ in
    (r', ground (arith, run, run'), co', base' ∙ base₁)

-- The loop over a segment that holds entries one behind another, and nothing else, ends. It does
-- its body once for each entry, in their order, with the key, the type and the value of the entry
-- and a pointer to the value, and leaves the cache coherent with the disk. It needs one round more
-- than there are entries. The segment is shorter than 2^63 bytes, the entries are shorter than
-- 2^32 bytes, each type is the one that its byte stands for, and the cache is coherent before.
pub scan_segment-replay {ℓ} :
    {A : Type ℓ} (body : Cursor → A → A) (items : List Item) (fuel id : ℕ) (r : VLogReader)
    (d : Disk) (a : A)
    → length items < fuel
    → All IsItem items
    → contents (segment r.base_path id) d ≡ log_bytes items
    → length (log_bytes items) < 2 ^ 63
    → IsCoherent r d
    → (r' : VLogReader) × (scan_segment body fuel id fresh_cursor r d a
        ≡ ok (replay body id 0 items a, r'))
      × IsCoherent r' d
      × (r'.base_path ≡ r.base_path)
scan_segment-replay body items fuel id r d a more good file small co =
    scan_from-replay body items fuel id 0 fresh_cursor r d a more good file refl (omega arith) co
