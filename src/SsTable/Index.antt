-- ===== src/SsTable/Index.antt =====
-- The sparse index that is loaded from a written table (src/sstable.cpp), and the place where a
-- search begins.
use vortex_db.Base.{
  ℕ, ◌+◌, ◌*◌, ◌%◌, ◌<◌, ◌≤◌, ◌^◌, ◌≡◌, refl, ap, ◌∙◌, false, some, List, [], ◌∷◌, ◌++◌, length,
  drop, All, arith, append_assoc, length-append, ◌==◌, if◌then◌else◌, Bool-cases, inl, inr,
  All-append_right,
}
use vortex_db.Base.Words.{Bytes, u32, le_bytes}
use vortex_db.Base.Order.{lex, lex_refl, eq_of_lex, is_gt, Ordering-cases}
use vortex_db.Base.Map
use vortex_db.Base.Map.{Map, IsSorted, IsAbove, IsBelow}
use vortex_db.Files.{ok, Disk, open_in, stream_at, need_word}
use vortex_db.Files.Reading.{read_string-ahead, need_word-ahead, drop_word-ahead}
use vortex_db.Vlog.{ValuePointer}
use vortex_db.SsTable.{
  SsTable, index_step, entries_bytes, table_bytes, write_new, index_keys, load_sparse_index, new,
  choose,
}
use vortex_db.SsTable.Layout.{IsEntry, past, entry-ahead, key-ahead, rest-ahead}

-- What the index of a table holds: the keys number `i`, `i + 100`, … with their positions.
unfoldable pub index_from : ℕ → ℕ → Map ValuePointer → List (Bytes × ℕ)
index_from i pos [] = []
index_from i pos ((k, p) ∷ m) =
    let rest = index_from (i + 1) (past pos k) m in
    if i % index_step == 0 then (k, pos) ∷ rest else rest

index_keys-index_from :
    (content : Bytes) (pos i : ℕ) (m : Map ValuePointer)
    → All IsEntry m
    → drop pos content ≡ entries_bytes m
    → index_keys (length m) i (stream_at content pos) ≡ ok (index_from i pos m)
unfolding index_keys index_from
index_keys-index_from content pos i [] fits ahead = refl
index_keys-index_from content pos i ((k, p) ∷ m) (fit, fits) ahead = ground (
  arith,
  need_word-ahead content pos 4 (length k) _ (entry-ahead content pos k p m fit ahead) fit.0,
  read_string-ahead content (pos + 4) k _ (key-ahead content pos k p m fit ahead) (length k) []
      refl,
  index_keys-index_from content (past pos k) (i + 1) m fits
      (rest-ahead content pos k p m fit ahead),
)

-- A table of fewer than 2^32 entries with members in range.
pub record IsTable (m : Map ValuePointer) : Type 0 where
  pub sorted : IsSorted m
  pub few : length m < 2 ^ 32
  pub fits : All IsEntry m

pub table_bytes-ahead :
    (m : Map ValuePointer)
    → length m < 2 ^ 32
    → drop 0 (table_bytes m) ≡ le_bytes 4 (length m) ++ entries_bytes m
unfolding table_bytes
table_bytes-ahead m few = let e : u32 (length m) ≡ length m = omega arith in rw e

pub entries_bytes-ahead :
    (m : Map ValuePointer) → length m < 2 ^ 32 → drop 4 (table_bytes m) ≡ entries_bytes m
entries_bytes-ahead m few =
    drop_word-ahead (table_bytes m) 0 4 (length m) (entries_bytes m) (table_bytes-ahead m few) few

pub count-ahead :
    (m : Map ValuePointer)
    → length m < 2 ^ 32
    → need_word 4 (open_in (table_bytes m)) ≡ ok (length m, stream_at (table_bytes m) 4)
count-ahead m few =
    need_word-ahead (table_bytes m) 0 4 (length m) (entries_bytes m) (table_bytes-ahead m few) few

-- The file `fname` is the table of the entries `m`.
abbrev pub IsFile : Bytes → Map ValuePointer → Disk → Type 0
IsFile fname m d = Map.find fname d ≡ some (table_bytes m)

pub write_new-IsFile :
    (fname : Bytes) (m : Map ValuePointer) (d : Disk) → IsFile fname m (write_new fname m d)
unfolding write_new
write_new-IsFile fname m d = rw (Map.find-insert fname fname (table_bytes m) d, lex_refl fname)

-- What the constructor makes of the file.
abbrev pub table_of : Bytes → Map ValuePointer → SsTable
table_of fname m = record { filename = fname; sparse_index = index_from 0 4 m }

pub new-table_of :
    (fname : Bytes) (m : Map ValuePointer) (d : Disk)
    → IsTable m
    → IsFile fname m d
    → new fname d ≡ ok (table_of fname m)
unfolding new load_sparse_index
new-table_of fname m d t file = ground (
  arith,
  file,
  count-ahead m t.few,
  index_keys-index_from (table_bytes m) 4 0 m t.fits (entries_bytes-ahead m t.few),
)

-- A position in the file and the number of the key there.
pub record StartsAt (target : Bytes) (all : Map ValuePointer) (start : ℕ × ℕ) : Type 0 where
  pub front : Map ValuePointer
  pub back : Map ValuePointer
  pub split : front ++ back ≡ all
  pub number : start.1 ≡ length front
  pub offset :
      (content : Bytes)
      → drop 4 content ≡ entries_bytes all
      → drop start.0 content ≡ entries_bytes back
  pub below : IsBelow target front
  pub more : 0 < length back

IsBelow-target :
    (target k : Bytes) (m : Map ValuePointer)
    → is_gt (lex k target) ≡ false
    → IsBelow k m
    → IsBelow target m
IsBelow-target target k m h b = elim (Ordering-cases (lex k target)) [
  | inl l ↦ Map.IsBelow-trans k target m l b
  | inr (inl e) ↦ rw (← eq_of_lex k target e) b
  | inr (inr g) ↦ absurd (ground arith)
]

-- The loop of `seek` over the index finds such a start.
pub choose-StartsAt :
    (target : Bytes) (all : Map ValuePointer) (front m : Map ValuePointer) (i j pos : ℕ)
    (best : ℕ × ℕ)
    → front ++ m ≡ all
    → length front ≡ i
    → i ≤ j * 100
    → j * 100 < i + 100
    → IsTable all
    → ((content : Bytes) → drop 4 content ≡ entries_bytes all → drop pos content ≡ entries_bytes m)
    → StartsAt target all best
    → StartsAt target all (choose target j (index_from i pos m) best)
unfolding choose index_from
choose-StartsAt target all front [] i j pos best split len low high t offset b = b
choose-StartsAt target all front ((k, p) ∷ m) i j pos best split len low high t offset b =
    let fits = All-append_right IsEntry front ((k, p) ∷ m) (rw split t.fits) in
    let sorted : IsSorted (front ++ (k, p) ∷ m) = rw split t.sorted in
    let rest =
      λ (j' : ℕ) (best' : ℕ × ℕ) (low' : i + 1 ≤ j' * 100) (high' : j' * 100 < i + 1 + 100)
          (b' : StartsAt target all best').
        choose-StartsAt target all (front ++ (k, p) ∷ []) m (i + 1) j' (past pos k) best'
          (append_assoc front ((k, p) ∷ []) m ∙ split)
          (omega (arith, length-append front ((k, p) ∷ []))) low' high' t
          (λ content e. rest-ahead content pos k p m fits.0 (offset content e)) b' in
    elim (Bool-cases (i % 100 == 0)) [
      | inr skip ↦ rw (skip, index_from) (rest j best (ground arith) (omega arith) b)
      | inl listed ↦ elim (Bool-cases (is_gt (lex k target))) [
        | inl above ↦ rw (listed, index_from, above, choose) b
        | inr below ↦
            let number : u32 (j * 100) ≡ length front =
              ground (arith, length-append front ((k, p) ∷ m), ap length split, t.few) in
            let here : StartsAt target all (pos, u32 (j * 100)) = record {
              front = front;
              back = (k, p) ∷ m;
              split = split;
              number = number;
              offset = offset;
              below = IsBelow-target target k front below (Map.IsBelow-before k p front m sorted);
              more = omega arith;
            } in
            rw (listed, index_from, below, choose)
              (rest (j + 1) (pos, u32 (j * 100)) (ground arith) (omega arith) here)
      ]
    ]
