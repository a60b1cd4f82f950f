-- ===== src/Files.antt =====
-- What the program uses of `<fstream>` and `<filesystem>`: a directory of files, and an input
-- stream on the bytes of one file. Bytes that a stream writes are in the file at once.
pub mod Reading
use vortex_db.Base.{
  ℕ, ◌+◌, ◌-◌, ◌^◌, Bool, true, Option, none, some, [], ◌++◌, ◌==◌, ltb, if◌then◌else◌, length,
  take, drop, replicate,
}
use vortex_db.Base.Words.{Bytes, le_value}
use vortex_db.Base.Map.{Map}

-- `indeterminate`: a value is used that is not there: a variable that a short read left without one,
-- the end of a container, or what a null pointer leads to.
pub data Run {ℓ} (A : Type ℓ) : Type ℓ where
  ok : A → Run A
  indeterminate : Run A

infixl 5 ◌>>=◌
abbrev pub ◌>>=◌ {ℓ κ} : {A : Type ℓ} {B : Type κ} → Run A → (A → Run B) → Run B
ok a >>= f = f a
indeterminate >>= f = indeterminate

-- The working directory: the contents of each file under its name.
abbrev pub Disk : Type 0
Disk = Map Bytes

-- `std::ifstream`. `good` is false once `failbit` is set.
pub record In : Type 0 where
  pub content : Bytes
  pub pos : ℕ
  pub good : Bool

abbrev pub stream_at : Bytes → ℕ → In
stream_at content pos = record { content = content; pos = pos; good = true }

abbrev pub open_in : Bytes → In
open_in content = stream_at content 0

-- `in.read(p, n)`: the bytes that arrive.
unfoldable pub read : ℕ → In → Bytes × In
read n s =
    let got = take n (drop s.pos s.content) in
    if s.good then (got, record s { pos = s.pos + length got; good = length got == n }) else ([], s)

-- `in.clear(); in.seekg(p)`: `p` becomes a signed offset, and a negative one is refused.
abbrev pub clear_seek : ℕ → In → In
clear_seek p s = record s { pos = p; good = ltb p (2 ^ 63) }

-- `in.tellg()`, converted to `uint64_t`: a failed stream answers -1.
abbrev pub tell : In → ℕ
tell s = if s.good then s.pos else 2 ^ 64 - 1

-- `in.seekg(p)` on a stream that has not been cleared.
abbrev pub seek_to : ℕ → In → In
seek_to p s = if s.good then record s { pos = p } else s

-- An unsigned integer of `k` bytes, if all of them arrive.
unfoldable pub read_word : ℕ → In → Option ℕ × In
read_word k s = let (got, s') = read k s in ((if s'.good then some (le_value got) else none), s')

-- The same into a variable that is used whether or not the read succeeded.
unfoldable pub need_word : ℕ → In → Run (ℕ × In)
need_word k s = let (v, s') = read_word k s in elim v [ none ↦ indeterminate | some n ↦ ok (n, s') ]

-- `str.resize(n)`
unfoldable pub resize : ℕ → Bytes → Bytes
resize n str = take n (str ++ replicate n 0)

-- `str.resize(n); in.read(&str[0], n)`: what does not arrive keeps its old byte.
unfoldable pub read_string : ℕ → Bytes → In → Bytes × In
read_string n old s = let (got, s') = read n s in (got ++ drop (length got) (resize n old), s')
