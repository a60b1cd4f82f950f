-- ===== src/SsTable.antt =====
-- src/sstable.h and src/sstable.cpp: sorted tables on disk with a sparse index.
pub mod Layout
pub mod Seek
pub mod Find
pub mod Index
use vortex_db.Base.{
  ℕ, zero, suc, ◌+◌, ◌-◌, ◌*◌, ◌%◌, Ordering, lt, eq, gt, Bool, true, false, ◌||◌, not, Option,
  none, some, List, [], ◌∷◌, ◌++◌, ◌==◌, leb, if◌then◌else◌, length, take,
}
use vortex_db.Base.Words.{Bytes, u32, le_bytes, le_value}
use vortex_db.Base.Order.{lex, is_eq, is_lt, is_gt, ◌=ˢ◌}
use vortex_db.Base.Map
use vortex_db.Base.Map.{Map}
use vortex_db.Files.{
  Run, ok, indeterminate, ◌>>=◌, Disk, In, open_in, seek_to, read, read_word, need_word,
  read_string,
}
use vortex_db.Vlog.{ValuePointer}
use vortex_db.Vlog.Pointer.{pointer_size, pointer_bytes, to_pointer}

-- Every hundredth key is in the sparse index.
abbrev pub index_step : ℕ
index_step = 100

pub record SsTable : Type 0 where
  pub filename : Bytes
  pub sparse_index : List (Bytes × ℕ)

-- The loop of `write_new`.
unfoldable pub entry_bytes : Bytes → ValuePointer → Bytes
entry_bytes key ptr =
    let k_size : ℕ = u32 (length key) in le_bytes 4 k_size ++ (take k_size key ++ pointer_bytes ptr)

unfoldable pub entries_bytes : Map ValuePointer → Bytes
entries_bytes [] = []
entries_bytes ((key, ptr) ∷ entries) = entry_bytes key ptr ++ entries_bytes entries

unfoldable pub table_bytes : Map ValuePointer → Bytes
table_bytes entries = le_bytes 4 (u32 (length entries)) ++ entries_bytes entries

unfoldable pub write_new : Bytes → Map ValuePointer → Disk → Disk
write_new fname entries d = Map.insert fname (table_bytes entries) d

-- The loop of `load_sparse_index`: `left` keys are to come, and `i` keys are read.
unfoldable pub index_keys : ℕ → ℕ → In → Run (List (Bytes × ℕ))
index_keys zero i s = ok []
index_keys (suc left) i s = do
  (k_size, s₁) ← need_word 4 s
  let (key, s₂) = read_string k_size [] s₁
  rest ← index_keys left (i + 1) (seek_to (s₂.pos + pointer_size) s₂)
  ok (if i % index_step == 0 then (key, s.pos) ∷ rest else rest)

unfoldable pub load_sparse_index : Bytes → Disk → Run (List (Bytes × ℕ))
load_sparse_index filename d = elim (Map.find filename d) [
  | none ↦ ok []
  | some content ↦ do (num_keys, s) ← need_word 4 (open_in content); index_keys num_keys 0 s
]

-- The constructor.
unfoldable pub new : Bytes → Disk → Run SsTable
new fname d = do
  index ← load_sparse_index fname d
  ok (record { filename = fname; sparse_index = index })

-- `table` is the table that the iterator refers to.
pub record SsTableIterator : Type 0 where
  pub table : SsTable
  pub file : In
  pub cur_key : Bytes
  pub cur_ptr : ValuePointer
  pub is_valid : Bool
  pub total_keys : ℕ
  pub cur_idx : ℕ

-- No member reads `cur_ptr` before a key is read, so that its first value does not matter.
-- A stream that is not open is one that fails.
unfoldable pub new_iterator : SsTable → Disk → SsTableIterator
new_iterator table d =
    let opened : Bytes × In = elim (Map.find table.filename d) [
      | none ↦ ([], record { content = []; pos = 0; good = false })
      | some content ↦ read 4 (open_in content)
    ] in
    record {
      table = table;
      file = opened.1;
      cur_key = [];
      cur_ptr = record { file_id = 0; value_size = 0; offset = 0 };
      is_valid = false;
      total_keys = le_value opened.0;
      cur_idx = 0;
    }

-- A short read of the pointer leaves bytes of two pointers, and is `indeterminate` here.
unfoldable pub read_at_current : SsTableIterator → Run SsTableIterator
read_at_current it =
    let (k_size, s₁) = read_word 4 it.file in
    let stopped : SsTableIterator = record it { is_valid = false; file = s₁ } in
    if leb it.total_keys it.cur_idx then ok (record it { is_valid = false }) else elim k_size [
      | none ↦ ok stopped
      | some n ↦
          let (key, s₂) = read_string n it.cur_key s₁ in
          let (ptr, s₃) = read pointer_size s₂ in
          if s₃.good
          then ok
              (record it { file = s₃; cur_key = key; cur_ptr = to_pointer ptr; is_valid = true })
          else indeterminate
    ]

-- The loop of `seek` over the sparse index: the last entry whose key is not above the target.
unfoldable pub choose : Bytes → ℕ → List (Bytes × ℕ) → ℕ × ℕ → ℕ × ℕ
choose target i [] best = best
choose target i ((key, offset) ∷ index) best =
    let rest = choose target (i + 1) index (offset, u32 (i * index_step)) in
    if is_gt (lex key target) then best else rest

-- The loop of `seek` over the file; `left` is `total_keys - cur_idx`.
unfoldable pub scan : Bytes → ℕ → SsTableIterator → Run SsTableIterator
scan target zero it = ok it
scan target (suc left) it = do
  it' ← read_at_current it
  let more = scan target left (record it' { cur_idx = u32 (it'.cur_idx + 1) })
  if not it'.is_valid || not (is_lt (lex it'.cur_key target)) then ok it' else more

-- `seek` with the first entry of the index at hand.
unfoldable pub seek_from : Bytes → ℕ → SsTableIterator → Run SsTableIterator
seek_from target first it =
    let (offset, idx) = choose target 0 it.table.sparse_index (first, 0) in
    scan target (it.total_keys - idx) (record it { file = seek_to offset it.file; cur_idx = idx })

unfoldable pub seek : Bytes → SsTableIterator → Run SsTableIterator
seek target it = elim it.table.sparse_index [
  | [] ↦ ok (record it { is_valid = false })
  | entry ∷ _ ↦
      let start = seek_from target entry.1 it in
      if it.total_keys == 0 then ok (record it { is_valid = false }) else start
]

unfoldable pub next : SsTableIterator → Run SsTableIterator
next it = read_at_current (record it { cur_idx = u32 (it.cur_idx + 1) })

-- `find`: the out parameter is set exactly when the answer is true.
unfoldable pub find : SsTable → Disk → Bytes → Run (Option ValuePointer)
find t d key = do
  it ← seek key (new_iterator t d)
  ok (if it.is_valid then if it.cur_key =ˢ key then some it.cur_ptr else none else none)
