-- ===== src/Manifest/Reload.antt =====
-- A manifest is read back as it was saved (src/manifest.cpp).
use vortex_db.Base.{
  take-length, ℕ, ◌+◌, ◌<◌, ◌^◌, ◌≡◌, refl, ap, ◌∙◌, List, [], ◌∷◌, ◌++◌, length, drop, All, arith,
  append_assoc, append-nil,
}
use vortex_db.Base.Words.{Bytes, u32, le_bytes}
use vortex_db.Base.Order.{lex_refl}
use vortex_db.Base.Map.{find-insert}
use vortex_db.Files.{ok, Disk, stream_at}
use vortex_db.Files.Reading.{
  drop-ahead, read_string-ahead, read_word-ahead, need_word-ahead, drop_word-ahead,
}
use vortex_db.Manifest.{Manifest, name_bytes, file_bytes, save, load_names, load_from, load}

-- A length that fits in a `uint32_t`.
abbrev pub IsShort : Bytes → Type 0
IsShort s = length s < 2 ^ 32

u32-short : (s : Bytes) → IsShort s → u32 (length s) ≡ length s
u32-short s h = omega arith

load_names-name_bytes :
    (content : Bytes) (pos : ℕ) (names done : List Bytes)
    → All IsShort names
    → drop pos content ≡ name_bytes names
    → load_names (length names) (stream_at content pos) done ≡ ok (done ++ names)
unfolding load_names name_bytes
load_names-name_bytes content pos [] done short ahead = rw append-nil
load_names-name_bytes content pos (n ∷ names) done (h, short) ahead =
    let len = u32-short n h in
    let ahead' : drop pos content ≡ le_bytes 4 (length n) ++ (n ++ name_bytes names) =
      ahead ∙ rw (len, take-length (length n) n refl) in
    let after = drop_word-ahead content pos 4 (length n) (n ++ name_bytes names) ahead' h in
    rw
      (
        need_word-ahead content pos 4 (length n) (n ++ name_bytes names) ahead' h,
        read_string-ahead content (pos + 4) n (name_bytes names) after (length n) [] refl,
      )
      (load_names-name_bytes content (pos + 4 + length n) names (done ++ n ∷ []) short
          (drop-ahead content (pos + 4) n (name_bytes names) after (length n) refl)
        ∙ ap ok (append_assoc done (n ∷ []) names))

file_bytes-ahead :
    (names : List Bytes)
    → length names < 2 ^ 32
    → drop 0 (file_bytes names) ≡ le_bytes 4 (length names) ++ name_bytes names
unfolding file_bytes
file_bytes-ahead names few = let e : u32 (length names) ≡ length names = omega arith in rw e

pub load_from-file_bytes :
    (m : Manifest) (names : List Bytes)
    → length names < 2 ^ 32
    → All IsShort names
    → load_from m (stream_at (file_bytes names) 0) ≡ ok (record m { sst_filenames = names })
unfolding load_from
load_from-file_bytes m names few short =
    let content = file_bytes names in
    let n : ℕ = length names in
    let ahead = file_bytes-ahead names few in
    ground (
      arith,
      read_word-ahead content 0 4 n (name_bytes names) ahead few,
      load_names-name_bytes content 4 names [] short
          (drop_word-ahead content 0 4 n (name_bytes names) ahead few),
    )

-- A manifest that `save` has written is read back by `load` name by name, whatever the object
-- that loads it held before, if there are fewer than 2^32 names of fewer than 2^32 bytes each.
pub load-save :
    (path : Bytes) (names before : List Bytes) (d : Disk)
    → length names < 2 ^ 32
    → All IsShort names
    → load
        (record { filepath = path; sst_filenames = before })
        (save (record { filepath = path; sst_filenames = names }) d)
      ≡ ok (record { filepath = path; sst_filenames = names })
unfolding load save
load-save path names before d few short =
    rw (find-insert path path (file_bytes names) d, load, lex_refl path)
      (load_from-file_bytes (record { filepath = path; sst_filenames = before }) names few short)
