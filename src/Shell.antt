-- ===== src/Shell.antt =====
-- The shell of src/main.cpp.
pub mod Step
pub mod Loop
pub mod Stacks
pub mod Moves
pub mod Rounds
use vortex_db.Base.{
  ℕ, Bool, true, false, ◌&&◌, ◌||◌, not, ◌==◌, ltb, Option, none, some, List, [], ◌∷◌, ◌++◌,
  if◌then◌else◌,
}
use vortex_db.Base.Words.{Bytes}
use vortex_db.Base.Order.{◌=ˢ◌}
use vortex_db.Base.Decimal.{to_string}
use vortex_db.Base.Map.{Map}
use vortex_db.Files.{Run, ok, indeterminate, ◌>>=◌}
use vortex_db.Vlog.{ValueType}
use vortex_db.Text.{
  begins_with, codes, skip_space, read_word, get_line, front_is, back_is, erase_front, drop_back,
  unquote,
}
use vortex_db.Database.{VortexStats, Database}
use vortex_db.Engine.State.{is_sub_vortex}
use vortex_db.Server.{is_star}

-- `path_stack` and `name_stack`, the back of each first.
pub record Shell (D : Type 0) : Type 0 where
  pub path_stack : List D
  pub name_stack : List Bytes

-- A file in the working directory. The times are counted from `file_time_type::min()`.
pub record Entry : Type 0 where
  pub stem : Bytes
  pub extension : Bytes
  pub last_write_time : ℕ

abbrev pub newline : Bytes
newline = b'\n' ∷ []

-- `ss >> word` into an empty string, which stays empty if there is no word.
unfoldable pub word_or_empty : Bytes → Bytes × Bytes
word_or_empty s = elim (read_word s) [ none ↦ ([], []) | some found ↦ found ]

abbrev pub is_slash : ℕ → Bool
is_slash c = c == b'/'

abbrev pub is_blank : ℕ → Bool
is_blank c = c == b' ' || c == b'\t'

abbrev pub is_empty : Bytes → Bool
is_empty [] = true
is_empty (c ∷ s) = false

-- The names of the databases from the root on, a slash between two of them.
unfoldable pub joined : List Bytes → Bytes
joined [] = []
joined (n ∷ []) = n
joined (n ∷ n' ∷ ns) = joined (n' ∷ ns) ++ b'/' ∷ n

unfoldable pub prompt : List Bytes → Bytes
unfolding joined
prompt names = codes "Vortex [" ++ (joined names ++ codes "] > ")

-- `while (std::getline(path_ss, part, '/'))`
unfoldable pub parts : Bytes → List Bytes
parts [] = []
parts (c ∷ s) =
    let rest = parts s in
    if is_slash c then [] ∷ rest else elim rest [ [] ↦ (c ∷ []) ∷ [] | p ∷ ps ↦ (c ∷ p) ∷ ps ]

unfoldable pub match_text : Map Bytes → Bytes
match_text [] = []
match_text ((k, v) ∷ results) =
    codes "[" ++ (k ++ (codes "] => " ++ (v ++ (newline ++ match_text results))))

-- What is printed of a range or a prefix, under its title.
unfoldable pub print_matches : Bytes → Map Bytes → Bytes
unfolding match_text
print_matches title [] = codes "ERROR: No matching keys found" ++ newline
print_matches title (e ∷ results) =
    title ++ (newline ++ (match_text (e ∷ results) ++ (codes "----------------------" ++ newline)))

-- `s.find(t) != npos` for a text that is not empty.
unfoldable pub contains_text : Bytes → Bytes → Bool
unfolding begins_with
contains_text t [] = false
contains_text t (b ∷ s) = begins_with t (b ∷ s) || contains_text t s

-- The loop of `loadlast` over the files.
unfoldable pub newest_from : ℕ → Bytes → List Entry → Bytes
unfolding contains_text
newest_from last_time newest_state [] = newest_state
newest_from last_time newest_state (e ∷ entries) =
    let taken = newest_from e.last_write_time e.stem entries in
    let kept = newest_from last_time newest_state entries in
    if (e.extension =ˢ codes ".meta")
      && (not (contains_text (codes "autosave_") e.stem) && ltb last_time e.last_write_time)
    then taken
    else kept

unfoldable pub newest_state_of : List Entry → Bytes
unfolding newest_from
newest_state_of entries = newest_from 0 [] entries
