-- ===== src/Engine/Index.antt =====
-- The index file of the memtable: `load_index` of src/vortex.cpp, and what it reads back.
use vortex_db.Base.{
  ℕ, zero, suc, ◌+◌, ◌^◌, ◌<◌, ◌≤◌, ◌≡◌, refl, sym, ap, ◌∙◌, Bool, true, ◌||◌, not, none, some, [],
  ◌∷◌, ◌++◌, length, length-append, drop, leb, if◌then◌else◌, arith, All, append_assoc, append-nil,
}
use vortex_db.Base.Words.{Bytes, le_bytes, length-le_bytes}
use vortex_db.Base.Order.{lex_refl, lex-flip}
use vortex_db.Base.Map
use vortex_db.Base.Map.{Map, IsSorted, IsBelow, IsAbove}
use vortex_db.Files.{
  Run, ok, indeterminate, ◌>>=◌, Disk, In, open_in, stream_at, read, read_word, read_string,
}
use vortex_db.Files.Reading.{
  drop-ahead, read-ahead, read_string-ahead, read_word-ahead, drop_word-ahead,
}
use vortex_db.Vlog.{ValuePointer}
use vortex_db.Vlog.Pointer.{
  pointer_size, pointer_bytes, to_pointer, IsPointer, length-pointer_bytes,
  to_pointer-pointer_bytes,
}
use vortex_db.Vlog.Writer.{flush}
use vortex_db.Engine.State.{VortexDb, index_bytes, index_name, save_index}

-- `idx_file.peek() == EOF`
abbrev pub at_end : In → Bool
at_end s = not s.good || leb (length s.content) s.pos

-- The loop of `load_index`. A run that is out of fuel has no result.
unfoldable pub load_keys : ℕ → In → Map ValuePointer → Run (Map ValuePointer)
load_keys zero s m = indeterminate
load_keys (suc fuel) s m =
    let (key_len, s₁) = read_word 8 s in
    if at_end s then ok m else elim key_len [
      | none ↦ ok m
      | some n ↦
          let (key, s₂) = read_string n [] s₁ in
          let (ptr, s₃) = read pointer_size s₂ in
          let rest = load_keys fuel s₃ (Map.insert key (to_pointer ptr) m) in
          if s₃.good then rest else indeterminate
    ]

unfoldable pub load_index : ℕ → VortexDb → Disk → Run VortexDb
unfolding load_keys
load_index fuel db d = elim (Map.find (index_name db) d) [
  | none ↦ ok db
  | some content ↦ do m ← load_keys fuel (open_in content) []; ok (record db { memtable = m })
]

-- The length of a key fits in a `size_t`, and the pointer's members in their types.
abbrev pub IsIndexed : Bytes × ValuePointer → Type 0
IsIndexed (k, p) = (length k < 2 ^ 64) × IsPointer p

le_of_drop : (n : ℕ) (xs : Bytes) → drop n xs ≡ [] → length xs ≤ n
le_of_drop zero [] h = omega arith
le_of_drop zero (x ∷ xs) h = absurd cc
le_of_drop (suc n) [] h = omega arith
le_of_drop (suc n) (x ∷ xs) h = omega (arith, le_of_drop n xs h)

lt_of_drop : (n : ℕ) (xs : Bytes) → 0 < length (drop n xs) → n < length xs
lt_of_drop zero xs h = h
lt_of_drop (suc n) [] h = absurd (omega arith)
lt_of_drop (suc n) (x ∷ xs) h = omega (arith, lt_of_drop n xs h)

-- A key above all others goes to the end.
insert-last :
    (k : Bytes) (p : ValuePointer) (front : Map ValuePointer)
    → IsBelow k front
    → Map.insert k p front ≡ front ++ (k, p) ∷ []
unfolding Map.insert
insert-last k p [] b = refl
insert-last k p ((j, q) ∷ front) (below, b) = ground (arith, insert-last k p front b, lex-flip j k)

module _ (content : Bytes) (pos : ℕ) (k : Bytes) (p : ValuePointer) (m : Map ValuePointer)
    (fits : IsIndexed (k, p)) (ahead : drop pos content ≡ index_bytes ((k, p) ∷ m)) where
  size-ahead : drop pos content ≡ le_bytes 8 (length k) ++ (k ++ (pointer_bytes p ++ index_bytes m))
  unfolding index_bytes
  size-ahead = ahead

  index_key-ahead : drop (pos + 8) content ≡ k ++ (pointer_bytes p ++ index_bytes m)
  index_key-ahead = drop_word-ahead content pos 8 (length k) _ size-ahead fits.0

  index_pointer-ahead : drop (pos + 8 + length k) content ≡ pointer_bytes p ++ index_bytes m
  index_pointer-ahead = drop-ahead content (pos + 8) k _ index_key-ahead (length k) refl

  index_rest-ahead : drop (pos + 8 + length k + 16) content ≡ index_bytes m
  index_rest-ahead =
      drop-ahead content (pos + 8 + length k) (pointer_bytes p) _ index_pointer-ahead 16
        (sym (length-pointer_bytes p))

  inside : pos < length content
  inside = lt_of_drop pos content (
      omega (
        arith,
        ap length size-ahead,
        length-append (le_bytes 8 (length k)) (k ++ (pointer_bytes p ++ index_bytes m)),
        length-le_bytes 8 (length k),
      ))

  -- One round of the loop.
  load_keys-entry :
      (fuel : ℕ) (front : Map ValuePointer)
      → load_keys (suc fuel) (stream_at content pos) front
        ≡ load_keys fuel (stream_at content (pos + 8 + length k + 16)) (Map.insert k p front)
  unfolding load_keys
  load_keys-entry fuel front = ground (
    arith,
    inside,
    read_word-ahead content pos 8 (length k) _ size-ahead fits.0,
    read_string-ahead content (pos + 8) k _ index_key-ahead (length k) [] refl,
    read-ahead content (pos + 8 + length k) (pointer_bytes p) _ index_pointer-ahead 16
        (sym (length-pointer_bytes p)),
    to_pointer-pointer_bytes p fits.1,
  )

pub load_keys-index_bytes :
    (content : Bytes) (pos fuel : ℕ) (front m : Map ValuePointer)
    → length m < fuel
    → IsSorted (front ++ m)
    → All IsIndexed m
    → drop pos content ≡ index_bytes m
    → load_keys fuel (stream_at content pos) front ≡ ok (front ++ m)
unfolding load_keys index_bytes
load_keys-index_bytes content pos zero front m more s fits ahead = absurd (omega arith)
load_keys-index_bytes content pos (suc fuel) front [] more s fits ahead =
    ground (arith, le_of_drop pos content ahead, append-nil front)
load_keys-index_bytes content pos (suc fuel) front ((k, p) ∷ m) more s (fit, fits) ahead =
    load_keys-entry content pos k p m fit ahead fuel front
    ∙ ap (load_keys fuel (stream_at content (pos + 8 + length k + 16)))
        (insert-last k p front (Map.IsBelow-before k p front m s))
    ∙ load_keys-index_bytes content (pos + 8 + length k + 16) fuel (front ++ (k, p) ∷ []) m
        (omega arith) (rw (append_assoc front ((k, p) ∷ []) m) s) fits
        (index_rest-ahead content pos k p m fit ahead)
    ∙ ap ok (append_assoc front ((k, p) ∷ []) m)

-- The memtable that `save_index` has written is read back by `load_index` key by key, whatever
-- memtable the object that loads it had, if the memtable is sorted, its keys are shorter than 2^64
-- bytes, and its pointers are in the range of their members. The loop of `load_index` needs one
-- round more than there are keys.
pub load_index-save_index :
    (fuel : ℕ) (db : VortexDb) (before : Map ValuePointer) (d : Disk)
    → length db.memtable < fuel
    → IsSorted db.memtable
    → All IsIndexed db.memtable
    → load_index fuel (record (save_index db d).0 { memtable = before }) (save_index db d).1
      ≡ ok (save_index db d).0
unfolding load_index save_index
load_index-save_index fuel db before d more s fits = ground (
  arith,
  Map.find-insert (index_name db) (index_name db) (index_bytes db.memtable)
      (flush true db.writer d).1,
  lex_refl (index_name db),
  load_keys-index_bytes (index_bytes db.memtable) 0 fuel [] db.memtable more s fits refl,
)
