-- ===== src/Database.antt =====
-- The members of `VortexDB` (src/vortex.h) that the server and the shell call. `D` are the pointers to
-- databases, `S` is all that they share. The ratio in `VortexStats` is a `double` and left out.
use vortex_db.Base.{ℕ, Option, List}
use vortex_db.Base.Words.{Bytes}
use vortex_db.Base.Map.{Map}
use vortex_db.Files.{Run}
use vortex_db.Vlog.{ValueType}

pub record VortexStats : Type 0 where
  pub live_keys : ℕ
  pub total_entries : ℕ

pub record Database (D S : Type 0) : Type 0 where
  pub put : D → Bytes → Bytes → S → Run S
  pub del : D → Bytes → S → Run S
  pub get : D → Bytes → S → Run (Bytes × S)
  pub get_type : D → Bytes → S → Run (ValueType × S)
  pub spawn_vortex : D → Bytes → S → Run S
  pub resolve_path : D → Bytes → S → Run (Option D × S)
  pub compact : D → S → Run S
  pub compact_all : D → S → Run S
  pub get_stats : D → S → Run (VortexStats × S)
  pub save_state : D → Bytes → Bytes → S → Run S
  pub load_state : D → Bytes → S → Run S
  pub get_all_keys : D → S → Run (List Bytes × S)
  pub get_db_name : D → Bytes
  pub get_prefix : D → Bytes → S → Run (Map Bytes × S)
  pub get_range : D → Bytes → Bytes → S → Run (Map Bytes × S)
  pub convert_to_subdb : D → Bytes → S → Run S
