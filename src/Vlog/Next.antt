-- ===== src/Vlog/Next.antt =====
-- One call of `read_next_entry` (src/vlog.cpp).
use vortex_db.Base.{
  ℕ, ◌+◌, ◌%◌, ◌^◌, ◌<◌, ◌≡◌, refl, sym, ap, ◌∙◌, true, false, some, [], ◌∷◌, ◌++◌, ltb, length,
  drop, arith, append_assoc, Option-cases, Bool-cases, inl, inr,
}
use vortex_db.Base.Words.{Bytes, u32, le_bytes, le_value, length-le_bytes}
use vortex_db.Base.Map.{find}
use vortex_db.Files.{ok, Disk, stream_at, read, read_word}
use vortex_db.Files.Reading.{
  drop-ahead, read-ahead, read_string-ahead, need_word-ahead, drop_word-ahead,
}
use vortex_db.Vlog.{VortexData, to_tag}
use vortex_db.Vlog.Crc.{calculate_crc32}
use vortex_db.Vlog.Writer.{segment, contents, entry_bytes, body_bytes}
use vortex_db.Vlog.Reader.{
  VLogReader, Cursor, max_cache_size, has_handle, get_handle, find_cached, load_entry, note_entry,
  read_next_entry,
}
use vortex_db.Vlog.Points.{Points, value_bytes}
use vortex_db.Vlog.Cache.{IsCoherent, get_handle-open}
use vortex_db.Vlog.ReadBack.{Item, IsItem}

-- The variables after the entry at `pos` has been read.
abbrev pub cursor_at : ℕ → ℕ → Item → Cursor
cursor_at id pos (key, x) = record {
  key = key;
  entry = x;
  ptr = record { file_id = id; value_size = length x.value; offset = pos + 4 + 4 + length key + 4 };
  current_pos = pos + 4 + 4 + length key + 4 + 1 + length x.value;
}

module _ (content : Bytes) (pos : ℕ) (key : Bytes) (x : VortexData) (rest : Bytes)
    (item : IsItem (key, x))
    (ahead : drop pos content ≡ entry_bytes key x.value x.type ++ rest) where
  crc-ahead :
      drop pos content
      ≡ le_bytes 4 (calculate_crc32 (body_bytes key x.value x.type))
        ++ (le_bytes 4 (length key) ++ (key ++ value_bytes x rest))
  unfolding entry_bytes body_bytes
  crc-ahead =
      let k : u32 (length key) ≡ length key = omega (arith, item.0) in
      let v : u32 (length x.value) ≡ length x.value = omega (arith, item.0) in
      ahead ∙ rw (k, v, append_assoc, append_assoc, append_assoc, append_assoc)

  size-ahead : drop (pos + 4) content ≡ le_bytes 4 (length key) ++ (key ++ value_bytes x rest)
  size-ahead =
      drop-ahead content pos (le_bytes 4 (calculate_crc32 (body_bytes key x.value x.type))) _
        crc-ahead 4 (sym (length-le_bytes 4 _))

  key-ahead : drop (pos + 4 + 4) content ≡ key ++ value_bytes x rest
  key-ahead =
      drop_word-ahead content (pos + 4) 4 (length key) (key ++ value_bytes x rest) size-ahead
        (omega (arith, item.0))

  pub value-ahead : drop (pos + 4 + 4 + length key) content ≡ value_bytes x rest
  value-ahead =
      drop-ahead content (pos + 4 + 4) key (value_bytes x rest) key-ahead (length key) refl

  tag-ahead :
      drop (pos + 4 + 4 + length key + 4) content ≡ le_bytes 1 (to_tag x.type) ++ (x.value ++ rest)
  unfolding le_bytes
  tag-ahead =
      let byte : to_tag x.type % 256 ≡ to_tag x.type = omega (arith, item.1.1) in
      rw byte (
        drop_word-ahead content (pos + 4 + 4 + length key) 4 (length x.value)
          (to_tag x.type ∷ (x.value ++ rest)) value-ahead (omega (arith, item.0)))

  content-ahead : drop (pos + 4 + 4 + length key + 4 + 1) content ≡ x.value ++ rest
  content-ahead =
      drop_word-ahead content (pos + 4 + 4 + length key + 4) 1 (to_tag x.type) (x.value ++ rest)
        tag-ahead (omega (arith, item.1.1))

  pub rest-ahead : drop (cursor_at 0 pos (key, x)).current_pos content ≡ rest
  rest-ahead =
      drop-ahead content (pos + 4 + 4 + length key + 4 + 1) x.value rest content-ahead
        (length x.value) refl

  load_entry-entry :
      (id : ℕ) (c : Cursor)
      → load_entry id c (stream_at content (pos + 4)) ≡ ok (cursor_at id pos (key, x))
  unfolding load_entry
  load_entry-entry id c = ground (
    arith,
    need_word-ahead content (pos + 4) 4 (length key) _ size-ahead (omega (arith, item.0)),
    read_string-ahead content (pos + 4 + 4) key _ key-ahead (length key) c.key refl,
    need_word-ahead content (pos + 4 + 4 + length key) 4 (length x.value) _ value-ahead
        (omega (arith, item.0)),
    need_word-ahead content (pos + 4 + 4 + length key + 4) 1 (to_tag x.type) _ tag-ahead
        (omega (arith, item.1.1)),
    read_string-ahead content (pos + 4 + 4 + length key + 4 + 1) x.value rest content-ahead
        (length x.value) c.entry.value refl,
    item.1.0,
  )

  pub cursor-Points :
      (id : ℕ)
      → pos + 4 + 4 + length key + 4 < 2 ^ 63
      → Points content (cursor_at id pos (key, x)).ptr x
  cursor-Points id small = record {
    front = pos + 4 + 4 + length key;
    back = rest;
    ahead = value-ahead;
    offset = refl;
    size = refl;
    small = small;
    short = omega (arith, item.0);
    type = item.1;
  }

-- The checksum is read, whatever it is.
word-some :
    (content : Bytes) (pos k v : ℕ) (rest : Bytes)
    → drop pos content ≡ le_bytes k v ++ rest
    → read_word k (stream_at content pos)
      ≡ (some (le_value (le_bytes k v)), stream_at content (pos + k))
unfolding read_word
word-some content pos k v rest ahead =
    ground (arith, read-ahead content pos (le_bytes k v) rest ahead k (sym (length-le_bytes k v)))

note_entry-IsCoherent :
    (c : Cursor) (r : VLogReader) (d : Disk)
    → IsCoherent r d
    → Points (contents (segment r.base_path c.ptr.file_id) d) c.ptr c.entry
    → IsCoherent (note_entry c r) d × ((note_entry c r).base_path ≡ r.base_path)
unfolding note_entry
note_entry-IsCoherent c r d co h = elim (Option-cases (find_cached c.ptr r.lru_list)) [
  | inr (e, found) ↦ rw (found, note_entry) (co, refl)
  | inl missing ↦ elim (Bool-cases (ltb (length r.lru_list) max_cache_size)) [
    | inr full ↦ rw (missing, note_entry, full) (co, refl)
    | inl roomy ↦
        rw (missing, note_entry, roomy)
          (record { entries = (h, co.entries); bounded = ground arith }, refl)
  ]
]

pub IsCoherent-same :
    (r r₁ : VLogReader) (d : Disk)
    → r₁.lru_list ≡ r.lru_list
    → r₁.base_path ≡ r.base_path
    → IsCoherent r d
    → IsCoherent r₁ d
IsCoherent-same r r₁ d list base co = record {
  entries = rw (list, base) co.entries;
  bounded = rw list co.bounded;
}

-- One call on a segment with an entry at the position.
pub read_next_entry-entry :
    (content : Bytes) (pos : ℕ) (key : Bytes) (x : VortexData) (rest : Bytes) (id : ℕ) (c : Cursor)
    (r : VLogReader) (d : Disk)
    → IsItem (key, x)
    → drop pos content ≡ entry_bytes key x.value x.type ++ rest
    → contents (segment r.base_path id) d ≡ content
    → c.current_pos ≡ pos
    → pos + 4 + 4 + length key + 4 < 2 ^ 63
    → 0 < length content
    → IsCoherent r d
    → (r' : VLogReader) × (read_next_entry id c r d ≡ ok (true, cursor_at id pos (key, x), r'))
      × IsCoherent r' d
      × (r'.base_path ≡ r.base_path)
unfolding read_next_entry
read_next_entry-entry content pos key x rest id c r d item ahead file at small some_bytes co =
    let (r₁, handle, list, base) = get_handle-open id r d (omega (arith, ap length file)) in
    let c' = cursor_at id pos (key, x) in
    let co₁ = IsCoherent-same r r₁ d list base co in
    let points = cursor-Points content pos key x rest item ahead id small in
    let (co₂, base₂) = note_entry-IsCoherent c' r₁ d co₁ (rw (base, file) points) in
    (
      note_entry c' r₁,
      ground (
        arith,
        handle,
        file,
        at,
        word-some content pos 4 _ _ (crc-ahead content pos key x rest item ahead),
        load_entry-entry content pos key x rest item ahead id c,
      ),
      co₂,
      base₂ ∙ base,
    )

contents_found :
    (name : Bytes) (d : Disk) (bs : Bytes) (pos : ℕ)
    → find name d ≡ some bs
    → drop pos (contents name d) ≡ []
    → drop pos bs ≡ []
unfolding contents
contents_found name d bs pos found h = ground arith

-- One call at the end of a segment, or on one that is not there.
pub read_next_entry-end :
    (id : ℕ) (c : Cursor) (r : VLogReader) (d : Disk)
    → drop c.current_pos (contents (segment r.base_path id) d) ≡ []
    → IsCoherent r d
    → (c' : Cursor) × (r' : VLogReader) × (read_next_entry id c r d ≡ ok (false, c', r'))
      × IsCoherent r' d
      × (r'.base_path ≡ r.base_path)
unfolding read_next_entry get_handle read_word read
read_next_entry-end id c r d done co = elim (Bool-cases (has_handle id r.handle_cache)) [
  | inl cached ↦ (c, r, ground (arith, cached, done), co, refl)
  | inr new ↦ elim (Option-cases (find (segment r.base_path id) d)) [
    | inl missing ↦ (c, r, ground (arith, new, missing), co, refl)
    | inr (bs, found) ↦
        let r₁ : VLogReader = record r { handle_cache = id ∷ r.handle_cache } in
        let empty : drop c.current_pos bs ≡ [] =
          contents_found (segment r.base_path id) d bs c.current_pos found done in
        (c, r₁, ground (arith, new, found, empty), IsCoherent-same r r₁ d refl refl co, refl)
  ]
]
