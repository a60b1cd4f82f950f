-- ===== src/Vlog/Points.antt =====
-- A pointer into a segment, and the value that `read_value` loads through it (src/vlog.cpp).
use vortex_db.Base.{
  ℕ, ◌+◌, ◌%◌, ◌^◌, ◌<◌, ◌≡◌, ap, sym, ◌∙◌, [], ◌∷◌, ◌++◌, length, arith, drop, take, take-append,
}
use vortex_db.Base.Words.{Bytes, le_bytes, le_value, length-le_bytes, le_value-le_bytes}
use vortex_db.Files.{ok}
use vortex_db.Files.Reading.{need_word-ahead, drop_word-ahead, read_string-ahead}
use vortex_db.Vlog.{ValueType, ValuePointer, VortexData, to_tag, of_tag}
use vortex_db.Vlog.Reader.{load_value}

-- The type byte of an entry stands for the type.
abbrev pub IsType : ValueType → Type 0
IsType type = (of_tag (to_tag type) ≡ type) × (to_tag type < 256)

-- A value as the log holds it: its length, its type and its bytes.
abbrev pub value_bytes : VortexData → Bytes → Bytes
value_bytes x back = le_bytes 4 (length x.value) ++ (to_tag x.type ∷ (x.value ++ back))

-- In a segment with the bytes `content` the pointer is that of the value `x`.
pub record Points (content : Bytes) (p : ValuePointer) (x : VortexData) : Type 0 where
  pub front : ℕ
  pub back : Bytes
  pub ahead : drop front content ≡ value_bytes x back
  pub offset : p.offset ≡ front + 4
  pub size : p.value_size ≡ length x.value
  pub small : p.offset < 2 ^ 63
  pub short : length x.value < 2 ^ 32
  pub type : IsType x.type

module _ (content : Bytes) (p : ValuePointer) (x : VortexData) (h : Points content p x) where
  value-ahead : drop p.offset content ≡ le_bytes 1 (to_tag x.type) ++ (x.value ++ h.back)
  unfolding le_bytes
  value-ahead =
      let e : p.offset ≡ h.front + 4 = h.offset in
      let byte : to_tag x.type % 256 ≡ to_tag x.type = omega (arith, h.type.1) in
      rw (e, byte)
        (drop_word-ahead content h.front 4 (length x.value) (to_tag x.type ∷ (x.value ++ h.back))
          h.ahead h.short)

  -- What `read_value` loads through a pointer is the value to which it points.
  pub load_value-Points : load_value p content ≡ ok x
  unfolding load_value
  load_value-Points = ground (
    arith,
    h.small,
    h.size,
    h.type.0,
    need_word-ahead content p.offset 1 (to_tag x.type) (x.value ++ h.back) value-ahead h.type.1,
    read_string-ahead content (p.offset + 1) x.value h.back
        (drop_word-ahead content p.offset 1 (to_tag x.type) (x.value ++ h.back) value-ahead
          h.type.1)
        p.value_size [] h.size,
  )

word-injective :
    (k a b : ℕ) (xs ys : Bytes)
    → a < 256 ^ k
    → b < 256 ^ k
    → le_bytes k a ++ xs ≡ le_bytes k b ++ ys
    → a ≡ b
word-injective k a b xs ys ha hb e =
    sym (le_value-le_bytes k a ha)
    ∙ ap le_value (
        sym (take-append (le_bytes k a) xs k (sym (length-le_bytes k a)))
        ∙ ap (take k) e
        ∙ take-append (le_bytes k b) ys k (sym (length-le_bytes k b)))
    ∙ le_value-le_bytes k b hb

load_value-same :
    (p q : ValuePointer) (content : Bytes)
    → p.offset ≡ q.offset
    → p.value_size ≡ q.value_size
    → load_value p content ≡ load_value q content
unfolding load_value
load_value-same p q content e f = ground arith

ok-injective : {x y : VortexData} → ok x ≡ ok y → x ≡ y
ok-injective e = cc

-- Two pointers to one place point to the same value.
pub Points-unique :
    (content : Bytes) (p q : ValuePointer) (x y : VortexData)
    → Points content p x
    → Points content q y
    → p.offset ≡ q.offset
    → x ≡ y
Points-unique content p q x y h k e =
    let front : h.front ≡ k.front = omega (arith, h.offset, k.offset) in
    let same : value_bytes x h.back ≡ value_bytes y k.back =
      sym h.ahead ∙ ap (λ n. drop n content) front ∙ k.ahead in
    let len : length x.value ≡ length y.value =
      word-injective 4 (length x.value) (length y.value) _ _ h.short k.short same in
    let size : p.value_size ≡ q.value_size = omega (arith, h.size, k.size) in
    let loads : load_value p content ≡ load_value q content = load_value-same p q content e size in
    ok-injective (sym (load_value-Points content p x h) ∙ loads ∙ load_value-Points content q y k)
