-- ===== src/Server/Commands.antt =====
-- The commands that the server understands (src/server.cpp), and the text that asks for each.
use vortex_db.Base.{◌≡◌, false, [], ◌∷◌, ◌++◌}
use vortex_db.Base.Words.{Bytes}
use vortex_db.Base.Order.{◌=ˢ◌}
use vortex_db.Base.Decimal.{to_string}
use vortex_db.Base.Map.{Map}
use vortex_db.Files.{Run, ok, ◌>>=◌}
use vortex_db.Text.{codes, is_space, is_line_end, front_is, back_is, to_upper_all}
use vortex_db.Text.Words.{IsSolid, IsWord, IsLine}
use vortex_db.Database.{Database}
use vortex_db.Server.{is_star, crlf, match_lines}

pub data Command : Type 0 where
  set_key : Bytes → Bytes → Command
  get_key : Bytes → Command
  get_range : Bytes → Bytes → Command
  get_prefix : Bytes → Command
  del_key : Bytes → Command
  convert_key : Bytes → Command
  save_all : Bytes → Command
  save_part : Bytes → Bytes → Command
  load_all : Bytes → Command
  stats : Command

-- The operands that the text of a command can carry.
abbrev pub IsCommand : Command → Type 0
IsCommand (set_key k v) =
    IsWord k × IsLine v × (front_is is_space v ≡ false) × (back_is is_line_end v ≡ false)
IsCommand (get_key k) =
    IsWord k × ((to_upper_all k =ˢ codes "RANGE") ≡ false) × (back_is is_star k ≡ false)
IsCommand (get_range a b) = IsSolid a × IsSolid b
IsCommand (get_prefix p) = IsSolid p
IsCommand (del_key k) = IsWord k
IsCommand (convert_key []) = ⊥
IsCommand (convert_key (c ∷ k)) = IsLine (c ∷ k)
IsCommand (save_all n) = IsWord n
IsCommand (save_part path n) = IsWord path × IsWord n
IsCommand (load_all n) = IsWord n
IsCommand stats = Unit

abbrev pub quoted : Bytes → Bytes
quoted s = b'"' ∷ (s ++ b'"' ∷ [])

unfoldable pub print : Command → Bytes
print (set_key k v) = codes "SET " ++ (k ++ (b' ' ∷ v))
print (get_key k) = codes "GET " ++ k
print (get_range a b) = codes "GET RANGE " ++ (quoted a ++ (b' ' ∷ quoted b))
print (get_prefix p) = codes "GET " ++ (p ++ (b'*' ∷ []))
print (del_key k) = codes "DEL " ++ k
print (convert_key k) = codes "CONVERT " ++ quoted k
print (save_all n) = codes "SAVE " ++ n
print (save_part path n) = codes "SAVE " ++ (path ++ (b' ' ∷ n))
print (load_all n) = codes "LOAD " ++ n
print stats = codes "STATS"

-- The matches under their title, or that there is none.
unfoldable pub matches : Bytes → Map Bytes → Bytes
matches title [] = codes "ERROR: No matching keys found"
matches title (e ∷ results) =
    title ++ (crlf ++ (match_lines (e ∷ results) ++ codes "----------------------"))

-- What a command does to the database, and its answer.
module _ {D S : Type 0} (ops : Database D S) (db : D) where
  unfoldable pub perform : Command → S → Run (Bytes × S)
  unfolding matches
  perform (set_key k v) s = do s' ← ops.put db k v s; ok (codes "OK", s')
  perform (get_key k) s = ops.get db k s
  perform (get_range a b) s = do
    (results, s') ← ops.get_range db a b s
    ok (matches (codes "--- RANGE MATCHES ---") results, s')
  perform (get_prefix p) s = do
    (results, s') ← ops.get_prefix db p s
    ok (matches (codes "--- PREFIX MATCHES ---") results, s')
  perform (del_key k) s = do s' ← ops.del db k s; ok (codes "OK", s')
  perform (convert_key k) s = do s' ← ops.convert_to_subdb db k s; ok (codes "OK", s')
  perform (save_all n) s = do s' ← ops.save_state db n [] s; ok (codes "OK", s')
  perform (save_part path n) s = do s' ← ops.save_state db n path s; ok (codes "OK", s')
  perform (load_all n) s = do s' ← ops.load_state db n s; ok (codes "OK", s')
  perform stats s = do
    (v, s') ← ops.get_stats db s
    ok (
      codes "LIVE:" ++ (to_string v.live_keys ++ (codes " TOTAL:" ++ to_string v.total_entries)),
      s',
    )
