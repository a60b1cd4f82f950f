-- ===== src/Files/Reading.antt =====
-- Reading back what was written: a stream that stands before known bytes.
use vortex_db.Base.{
  ℕ, zero, suc, ◌+◌, ◌≤◌, ◌<◌, ◌^◌, ◌≡◌, refl, sym, ◌∙◌, some, [], ◌∷◌, ◌++◌, length, take, drop,
  replicate, arith, take-append, drop-append, drop-drop, append-nil,
}
use vortex_db.Base.Words.{Bytes, le_bytes, length-le_bytes, le_value-le_bytes}
use vortex_db.Files.{ok, stream_at, read, read_word, need_word, resize, read_string}

drop-all : (n : ℕ) (xs : Bytes) → length xs ≤ n → drop n xs ≡ []
drop-all zero [] h = refl
drop-all zero (x ∷ xs) h = absurd (omega arith)
drop-all (suc n) [] h = refl
drop-all (suc n) (x ∷ xs) h = drop-all n xs (omega arith)

length-take-le : (n : ℕ) (xs : Bytes) → length (take n xs) ≤ n
length-take-le zero xs = omega arith
length-take-le (suc n) [] = omega arith
length-take-le (suc n) (x ∷ xs) = omega (arith, length-take-le n xs)

-- A read that brings all bytes leaves none of the old ones.
resize-covered : (n : ℕ) (xs old : Bytes) → n ≡ length xs → drop (length xs) (resize n old) ≡ []
unfolding resize
resize-covered n xs old e =
    drop-all (length xs) _ (omega (arith, length-take-le n (old ++ replicate n 0)))

module _ (content : Bytes) (pos : ℕ) (xs rest : Bytes) (ahead : drop pos content ≡ xs ++ rest) where
  pub drop-ahead : (n : ℕ) → n ≡ length xs → drop (pos + n) content ≡ rest
  drop-ahead n e = sym (drop-drop n pos (pos + n) content refl) ∙ rw ahead (drop-append xs rest n e)

  pub read-ahead :
      (n : ℕ) → n ≡ length xs → read n (stream_at content pos) ≡ (xs, stream_at content (pos + n))
  unfolding read
  read-ahead n e = rw (ahead, take-append xs rest n e, ← e) (ground arith)

  pub read_string-ahead :
      (n : ℕ) (old : Bytes)
      → n ≡ length xs
      → read_string n old (stream_at content pos) ≡ (xs, stream_at content (pos + n))
  unfolding read_string
  read_string-ahead n old e = rw (read-ahead n e, resize-covered n xs old e, append-nil)

-- The same for an integer.
module _ (content : Bytes) (pos k v : ℕ) (rest : Bytes)
    (ahead : drop pos content ≡ le_bytes k v ++ rest) (small : v < 256 ^ k) where
  pub read_word-ahead : read_word k (stream_at content pos) ≡ (some v, stream_at content (pos + k))
  unfolding read_word
  read_word-ahead = rw (
    read-ahead content pos (le_bytes k v) rest ahead k (sym (length-le_bytes k v)),
    le_value-le_bytes k v small,
  )

  pub need_word-ahead : need_word k (stream_at content pos) ≡ ok (v, stream_at content (pos + k))
  unfolding need_word
  need_word-ahead = ground (arith, read_word-ahead)

  pub drop_word-ahead : drop (pos + k) content ≡ rest
  drop_word-ahead = drop-ahead content pos (le_bytes k v) rest ahead k (sym (length-le_bytes k v))
