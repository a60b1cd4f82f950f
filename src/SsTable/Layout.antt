-- ===== src/SsTable/Layout.antt =====
-- The bytes of a table, and one read of an entry (src/sstable.cpp).
use vortex_db.Base.{
  ℕ, ◌+◌, ◌<◌, ◌^◌, ◌≡◌, refl, sym, ◌∙◌, true, ◌∷◌, ◌++◌, length, drop, arith, append_assoc,
  take-length,
}
use vortex_db.Base.Words.{Bytes, u32, le_bytes}
use vortex_db.Base.Map.{Map}
use vortex_db.Files.{ok, stream_at}
use vortex_db.Files.Reading.{
  drop-ahead, read-ahead, read_string-ahead, read_word-ahead, drop_word-ahead,
}
use vortex_db.Vlog.{ValuePointer}
use vortex_db.Vlog.Pointer.{
  pointer_size, pointer_bytes, IsPointer, length-pointer_bytes, to_pointer-pointer_bytes,
}
use vortex_db.SsTable.{SsTableIterator, entry_bytes, entries_bytes, read_at_current}

-- The key's length fits in a `uint32_t`, and the pointer's members in their types.
abbrev pub IsEntry : Bytes × ValuePointer → Type 0
IsEntry (k, p) = (length k < 2 ^ 32) × IsPointer p

-- The position behind an entry that begins at `pos`.
abbrev pub past : ℕ → Bytes → ℕ
past pos k = pos + 4 + length k + pointer_size

module _ (content : Bytes) (pos : ℕ) (k : Bytes) (p : ValuePointer) (m : Map ValuePointer)
    (fits : IsEntry (k, p)) (ahead : drop pos content ≡ entries_bytes ((k, p) ∷ m)) where
  pub entry-ahead :
      drop pos content ≡ le_bytes 4 (length k) ++ (k ++ (pointer_bytes p ++ entries_bytes m))
  unfolding entries_bytes entry_bytes
  entry-ahead =
      let short : u32 (length k) ≡ length k = omega (arith, fits.0) in
      ahead ∙ rw (short, take-length (length k) k refl, append_assoc, append_assoc)

  pub key-ahead : drop (pos + 4) content ≡ k ++ (pointer_bytes p ++ entries_bytes m)
  key-ahead = drop_word-ahead content pos 4 (length k) _ entry-ahead fits.0

  pub pointer-ahead : drop (pos + 4 + length k) content ≡ pointer_bytes p ++ entries_bytes m
  pointer-ahead = drop-ahead content (pos + 4) k _ key-ahead (length k) refl

  pub rest-ahead : drop (past pos k) content ≡ entries_bytes m
  rest-ahead =
      drop-ahead content (pos + 4 + length k) (pointer_bytes p) _ pointer-ahead 16
        (sym (length-pointer_bytes p))

  -- `read_at_current` reads the entry that the stream stands before.
  pub read_at_current-entry :
      (it : SsTableIterator)
      → it.file ≡ stream_at content pos
      → it.cur_idx < it.total_keys
      → read_at_current it
        ≡ ok (record it {
          file = stream_at content (past pos k);
          cur_key = k;
          cur_ptr = p;
          is_valid = true;
        })
  unfolding read_at_current
  read_at_current-entry it at more = ground (
    arith,
    read_word-ahead content pos 4 (length k) _ entry-ahead fits.0,
    read_string-ahead content (pos + 4) k _ key-ahead (length k) it.cur_key refl,
    read-ahead content (pos + 4 + length k) (pointer_bytes p) (entries_bytes m) pointer-ahead 16
        (sym (length-pointer_bytes p)),
    to_pointer-pointer_bytes p fits.1,
  )
