-- ===== src/Manifest.antt =====
-- src/manifest.h and src/manifest.cpp: the registry of SSTable files. Opening the file for
-- writing succeeds in the model, so that the early return of `save` does not arise.
pub mod Reload
use vortex_db.Base.{ℕ, zero, suc, Option, none, some, List, [], ◌∷◌, ◌++◌, length, take}
use vortex_db.Base.Words.{Bytes, u32, le_bytes}
use vortex_db.Base.Map.{find, insert}
use vortex_db.Files.{Run, ok, ◌>>=◌, Disk, In, open_in, read_word, need_word, read_string}

pub record Manifest : Type 0 where
  pub filepath : Bytes
  pub sst_filenames : List Bytes

unfoldable pub new : Bytes → Manifest
new path = record { filepath = path; sst_filenames = [] }

-- The loop of `save`: each name behind its length.
unfoldable pub name_bytes : List Bytes → Bytes
name_bytes [] = []
name_bytes (fname ∷ rest) =
    let len : ℕ = u32 (length fname) in le_bytes 4 len ++ (take len fname ++ name_bytes rest)

unfoldable pub file_bytes : List Bytes → Bytes
unfolding name_bytes
file_bytes names = le_bytes 4 (u32 (length names)) ++ name_bytes names

unfoldable pub save : Manifest → Disk → Disk
save m d = insert m.filepath (file_bytes m.sst_filenames) d

unfoldable pub register_sstable : Bytes → Manifest → Disk → Manifest × Disk
register_sstable fname m d =
    let m' : Manifest = record m { sst_filenames = m.sst_filenames ++ fname ∷ [] } in
    (m', save m' d)

unfoldable pub clear : Manifest → Disk → Manifest × Disk
clear m d = let m' : Manifest = record m { sst_filenames = [] } in (m', save m' d)

-- The loop of `load`; `count` names are left.
unfoldable pub load_names : ℕ → In → List Bytes → Run (List Bytes)
load_names zero s names = ok names
load_names (suc count) s names = do
  (len, s₁) ← need_word 4 s
  let (fname, s₂) = read_string len [] s₁
  load_names count s₂ (names ++ fname ∷ [])

unfoldable pub load_from : Manifest → In → Run Manifest
unfolding load_names
load_from m s =
    let (count, s₁) = read_word 4 s in
    elim count [
      | none ↦ ok (record m { sst_filenames = [] })
      | some n ↦ do names ← load_names n s₁ []; ok (record m { sst_filenames = names })
    ]

unfoldable pub load : Manifest → Disk → Run Manifest
load m d = elim (find m.filepath d) [ none ↦ ok m | some content ↦ load_from m (open_in content) ]
