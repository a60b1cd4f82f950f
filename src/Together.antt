-- ===== src/Together.antt =====
-- The server (src/server.cpp) over the engine (src/vortex.cpp): the operations that are modelled on keys
-- without a slash serve them, and all else is left to other operations on the same state.
pub mod Answers
use vortex_db.Base.{
  ℕ, Bool, true, false, ◌||◌, ◌==◌, Option, none, some, List, [], ◌∷◌, if◌then◌else◌,
}
use vortex_db.Base.Words.{Bytes}
use vortex_db.Base.Map.{Map}
use vortex_db.Files.{Run, ok, indeterminate, ◌>>=◌, Disk}
use vortex_db.Database.{Database}
use vortex_db.Engine.State
use vortex_db.Engine.State.{VortexDb}
use vortex_db.Engine.Delete
use vortex_db.Engine.Segments

-- `key.find('/') != npos`
unfoldable pub has_slash : Bytes → Bool
has_slash [] = false
has_slash (c ∷ key) = c == b'/' || has_slash key

-- The draws of the filter, the clock, and a number of rounds that is enough are given.
abbrev pub engine :
    (ℕ → ℕ) → ℕ → ℕ → Database Unit (VortexDb × Disk) → Database Unit (VortexDb × Disk)
engine draw now fuel rest = record rest {
  put = λ u key value s.
      if has_slash key then rest.put u key value s else State.put draw now key value s.0 s.1;
  del = λ u key s. if has_slash key then rest.del u key s else (do
    gone ← Delete.del now key s.0 s.1
    elim gone [ none ↦ rest.del u key s | some s' ↦ ok s' ]);
  get = λ u key s.
      if has_slash key
      then rest.get u key s
      else (do (value, db, d) ← State.get key s.0 s.1; ok (value, (db, d)));
  get_type = λ u key s.
      if has_slash key
      then rest.get_type u key s
      else (do (type, db, d) ← State.get_type key s.0 s.1; ok (type, (db, d)));
  get_range = λ u start end_key s. (do
    (results, db, d) ← Segments.get_range fuel start end_key s.0 s.1
    ok (results, (db, d)));
  get_all_keys = λ u s. (do (keys, db, d) ← Segments.get_all_keys fuel s.0 s.1; ok (keys, (db, d)));
  get_prefix = λ u prefix s.
      if has_slash prefix
      then rest.get_prefix u prefix s
      else (do (results, db, d) ← Segments.get_prefix fuel prefix s.0 s.1; ok (results, (db, d)));
  get_stats = λ u s. (do (stats, db, d) ← Segments.get_stats fuel s.0 s.1; ok (stats, (db, d)));
}
