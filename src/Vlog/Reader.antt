-- ===== src/Vlog/Reader.antt =====
-- `VLogReader` of src/vlog.h and src/vlog.cpp. `block_cache` is the index of `lru_list` by place:
-- each place is in the list at most once, and a search of the list stands for the index. A handle
-- that is open is the number of its segment; the program removes files only after `close_all`.
use vortex_db.Base.{
  ℕ, Bool, true, false, Option, none, some, List, [], ◌∷◌, ltb, leb, ◌==◌, if◌then◌else◌, length,
}
use vortex_db.Base.Words.{Bytes}
use vortex_db.Base.Map.{find}
use vortex_db.Files.{
  Run, ok, ◌>>=◌, Disk, In, open_in, clear_seek, tell, read_word, need_word, read_string,
}
use vortex_db.Vlog.{tombstone, of_tag, VortexData, ValuePointer, same_place}
use vortex_db.Vlog.Writer.{segment, contents}

abbrev pub max_cache_size : ℕ
max_cache_size = 2000

pub record CacheEntry : Type 0 where
  pub ptr : ValuePointer
  pub cached : VortexData

pub record VLogReader : Type 0 where
  pub base_path : Bytes
  pub handle_cache : List ℕ
  pub lru_list : List CacheEntry

unfoldable pub new : Bytes → VLogReader
new filepath = record { base_path = filepath; handle_cache = []; lru_list = [] }

unfoldable pub has_handle : ℕ → List ℕ → Bool
has_handle id [] = false
has_handle id (h ∷ hs) = let rest = has_handle id hs in if h == id then true else rest

-- The bytes behind the stream, or nothing for a null pointer.
unfoldable pub get_handle : ℕ → VLogReader → Disk → Option Bytes × VLogReader
unfolding has_handle
get_handle file_id r d =
    let target = segment r.base_path file_id in
    if has_handle file_id r.handle_cache
    then (some (contents target d), r)
    else elim (find target d) [
      | none ↦ (none, r)
      | some bs ↦ (some bs, record r { handle_cache = file_id ∷ r.handle_cache })
    ]

unfoldable pub remove_handle : ℕ → List ℕ → List ℕ
remove_handle id [] = []
remove_handle id (h ∷ hs) = let rest = remove_handle id hs in if h == id then rest else h ∷ rest

unfoldable pub remove_file : ℕ → List CacheEntry → List CacheEntry
remove_file id [] = []
remove_file id (e ∷ es) =
    let rest = remove_file id es in if e.ptr.file_id == id then rest else e ∷ rest

unfoldable pub invalidate : ℕ → VLogReader → VLogReader
unfolding remove_handle remove_file
invalidate file_id r = record r {
  handle_cache = remove_handle file_id r.handle_cache;
  lru_list = remove_file file_id r.lru_list;
}

unfoldable pub close_all : VLogReader → VLogReader
close_all r = record r { handle_cache = []; lru_list = [] }

-- `block_cache.find(ptr)`: the entry, and the list without it.
unfoldable pub find_cached : ValuePointer → List CacheEntry → Option (CacheEntry × List CacheEntry)
find_cached ptr [] = none
find_cached ptr (e ∷ es) =
    let rest = find_cached ptr es in
    if same_place e.ptr ptr
    then some (e, es)
    else elim rest [ none ↦ none | some found ↦ some (found.0, e ∷ found.1) ]

-- `lru_list.pop_back()`
unfoldable pub pop_back : List CacheEntry → List CacheEntry
pop_back [] = []
pop_back (e ∷ es) = let rest = pop_back es in elim es [ [] ↦ [] | _ ∷ _ ↦ e ∷ rest ]

-- A place is made in a full cache, and the entry becomes the most recent one.
unfoldable pub push_front : CacheEntry → List CacheEntry → List CacheEntry
unfolding pop_back
push_front e es = e ∷ (if leb max_cache_size (length es) then pop_back es else es)

-- The reads from the file that `read_value` makes.
unfoldable pub load_value : ValuePointer → Bytes → Run VortexData
load_value ptr content = do
  (tag, s₁) ← need_word 1 (clear_seek ptr.offset (open_in content))
  let (val, s₂) = read_string ptr.value_size [] s₁
  ok (record { type = of_tag tag; value = val })

unfoldable pub read_value : ValuePointer → VLogReader → Disk → Run (VortexData × VLogReader)
unfolding push_front load_value get_handle
read_value ptr r d = elim (find_cached ptr r.lru_list) [
  | some (e, rest) ↦ ok (e.cached, record r { lru_list = e ∷ rest })
  | none ↦
      let (handle, r₁) = get_handle ptr.file_id r d in
      elim handle [
        | none ↦ ok (record { type = tombstone; value = [] }, r₁)
        | some content ↦ do
          result ← load_value ptr content
          let e : CacheEntry = record { ptr = ptr; cached = result }
          ok (result, record r₁ { lru_list = push_front e r₁.lru_list })
      ]
]

-- The variables that `read_next_entry` writes through references.
pub record Cursor : Type 0 where
  pub key : Bytes
  pub entry : VortexData
  pub ptr : ValuePointer
  pub current_pos : ℕ

-- The reads from the file behind the checksum, whose value is not used.
unfoldable pub load_entry : ℕ → Cursor → In → Run Cursor
load_entry file_id c s = do
  (k_size, s₁) ← need_word 4 s
  let (key, s₂) = read_string k_size c.key s₁
  (v_size, s₃) ← need_word 4 s₂
  (tag, s₄) ← need_word 1 s₃
  let (value, s₅) = read_string v_size c.entry.value s₄
  ok (record {
    key = key;
    entry = record { type = of_tag tag; value = value };
    ptr = record { file_id = file_id; value_size = v_size; offset = tell s₃ };
    current_pos = tell s₅;
  })

-- An entry that was scanned enters the cache only while there is room.
unfoldable pub note_entry : Cursor → VLogReader → VLogReader
note_entry c r = elim (find_cached c.ptr r.lru_list) [
  | some _ ↦ r
  | none ↦
      if ltb (length r.lru_list) max_cache_size
      then record r { lru_list = record { ptr = c.ptr; cached = c.entry } ∷ r.lru_list }
      else r
]

unfoldable pub read_next_entry : ℕ → Cursor → VLogReader → Disk → Run (Bool × Cursor × VLogReader)
unfolding load_entry note_entry get_handle
read_next_entry file_id c r d =
    let (handle, r₁) = get_handle file_id r d in
    elim handle [
      | none ↦ ok (false, c, r₁)
      | some content ↦
          let (expected_crc, s) = read_word 4 (clear_seek c.current_pos (open_in content)) in
          elim expected_crc [
            | none ↦ ok (false, c, r₁)
            | some _ ↦ do c' ← load_entry file_id c s; ok (true, c', note_entry c' r₁)
          ]
    ]
