-- ===== src/Vlog/Log.antt =====
-- The writer of src/vlog.cpp against an abstract log, the bytes of each segment with those that
-- are still in the buffer.
use vortex_db.Base.{
  Bool, ℕ, ◌+◌, ◌^◌, ◌<◌, ◌≤◌, ◌≡◌, refl, sym, ◌∙◌, true, false, [], ◌∷◌, ◌++◌, ltb, ◌==◌, ==_iff,
  if◌then◌else◌, length, arith, Bool-cases, inl, inr, ap, length-append, append-nil, eq,
}
use vortex_db.Base.Words.{Bytes, u32}
use vortex_db.Base.Order.{lex, lex_refl, eq_of_lex, ◌=ˢ◌}
use vortex_db.Base.Decimal.{to_string-injective}
use vortex_db.Base.Map.{insert, find-insert}
use vortex_db.Files.{Disk}
use vortex_db.Vlog.Writer.{
  new, VLogWriter, buffer_size, segment, contents, append_file, active, flush, rotate,
}

cons-tail : {x y : ℕ} {xs ys : Bytes} → x ∷ xs ≡ y ∷ ys → xs ≡ ys
cons-tail e = cc

append-cancel : (xs ys zs : Bytes) → xs ++ ys ≡ xs ++ zs → ys ≡ zs
append-cancel [] ys zs e = e
append-cancel (x ∷ xs) ys zs e = append-cancel xs ys zs (cons-tail e)

-- Segments with different numbers are different files.
pub segment-eq : (b : Bytes) (i j : ℕ) → (segment b i =ˢ segment b j) ≡ (i == j)
unfolding segment
segment-eq b i j = elim (Bool-cases (i == j)) [
  | inl e ↦
      let same : i ≡ j = (==_iff i j).0 e in
      rw (same, lex_refl (segment b j)) (sym ((==_iff j j).1 refl))
  | inr n ↦ elim (Bool-cases (segment b i =ˢ segment b j)) [
    | inr d ↦ rw (d, n)
    | inl s ↦
        let l : lex (segment b i) (segment b j) ≡ eq = ground arith in
        let names = append-cancel b _ _ (eq_of_lex _ _ l) in
        let same : i ≡ j = to_string-injective i j (cons-tail names) in absurd (ground arith)
  ]
]

pub contents-insert :
    (n m bs : Bytes) (d : Disk) → contents n (insert m bs d) ≡ (if n =ˢ m then bs else contents n d)
unfolding contents
contents-insert n m bs d = ground (arith, find-insert m n bs d)

pub contents-append_file :
    (n m bs : Bytes) (d : Disk)
    → contents n (append_file m bs d) ≡ (if n =ˢ m then contents m d ++ bs else contents n d)
unfolding append_file
contents-append_file n m bs d = contents-insert n m (contents m d ++ bs) d

-- The bytes of a segment, those in the buffer included.
unfoldable pub logical : VLogWriter → Disk → ℕ → Bytes
logical w d id =
    contents (segment w.base_path id) d ++ (if id == w.current_file_id then w.buffer else [])

pub logical-empty :
    (w : VLogWriter) (d : Disk) (j : ℕ)
    → w.buffer ≡ []
    → logical w d j ≡ contents (segment w.base_path j) d
unfolding logical
logical-empty w d j e = ground (arith, e, append-nil (contents (segment w.base_path j) d))

pub record IsOpen (w : VLogWriter) (d : Disk) : Type 0 where
  pub size : w.current_size ≡ length (contents (active w) d)
  pub dirty : 0 < length w.buffer → w.is_dirty ≡ true
  pub bounded : length w.buffer ≤ buffer_size
  pub small : w.current_file_id < 2 ^ 32
  pub fresh : (id : ℕ) → w.current_file_id < id → contents (segment w.base_path id) d ≡ []

-- The constructor opens a writer that satisfies the invariant, and no segment loses or gains a
-- byte, if the number of the segment fits in a `uint32_t` and no segment with a greater number has
-- bytes.
pub new-IsOpen :
    (base : Bytes) (id : ℕ) (d : Disk)
    → id < 2 ^ 32
    → ((j : ℕ) → id < j → contents (segment base j) d ≡ [])
    → IsOpen (new base id d).0 (new base id d).1
      × ((j : ℕ) → logical (new base id d).0 (new base id d).1 j ≡ contents (segment base j) d)
unfolding new logical
new-IsOpen base id d small fresh =
    let kept = λ (j : ℕ).
      contents-append_file (segment base j) (segment base id) [] d
      ∙ ap (λ b. if b then contents (segment base id) d ++ [] else contents (segment base j) d)
          (segment-eq base j id) in
    (
      record {
        size = refl;
        dirty = λ h. absurd (omega arith);
        bounded = omega arith;
        small = small;
        fresh = λ j h. ground (arith, kept j, fresh j h);
      },
      λ j. ground (
        arith,
        kept j,
        append-nil (contents (segment base id) d),
        append-nil (contents (segment base j) d),
      ),
    )

-- A flush without `force` does what one with `force` does.
pub flush-force : (w : VLogWriter) (d : Disk) → IsOpen w d → flush false w d ≡ flush true w d
unfolding flush
flush-force w d o = ground (arith, o.dirty)

-- What the results of `flush` and `rotate` have in common.
pub record Keeps (w : VLogWriter) (d : Disk) (r : VLogWriter × Disk) : Type 0 where
  pub opened : IsOpen r.0 r.1
  pub base : r.0.base_path ≡ w.base_path
  pub empty : r.0.buffer ≡ []
  pub same : (id : ℕ) → logical r.0 r.1 id ≡ logical w d id

nil_of_length : (xs : Bytes) → ltb 0 (length xs) ≡ false → xs ≡ []
nil_of_length [] h = refl
nil_of_length (x ∷ xs) h = absurd (ground arith)

module _ (w : VLogWriter) (d : Disk) (o : IsOpen w d) where
  -- One segment of the disk after a write to the active one.
  pub active-append :
      (id : ℕ) (bs : Bytes)
      → contents (segment w.base_path id) (append_file (active w) bs d) ≡ (
          if id == w.current_file_id
          then contents (active w) d ++ bs
          else contents (segment w.base_path id) d)
  active-append id bs = rw (
    contents-append_file (segment w.base_path id) (active w) bs d,
    segment-eq w.base_path id w.current_file_id,
  )

  -- What a flush of a buffer that is not empty makes of the state.
  abbrev flushed : VLogWriter × Disk
  flushed = (
    record w { current_size = w.current_size + length w.buffer; buffer = []; is_dirty = false },
    append_file (active w) w.buffer d,
  )

  flushed-Keeps : Keeps w d flushed
  unfolding logical
  flushed-Keeps = record {
    opened = record {
      size =
          rw (active-append w.current_file_id w.buffer, (==_iff w.current_file_id _).1 refl)
            (omega (arith, o.size, length-append (contents (active w) d) w.buffer));
      dirty = λ h. absurd (omega arith);
      bounded = omega arith;
      small = o.small;
      fresh = λ id h. ground (arith, active-append id w.buffer, o.fresh id h);
    };
    base = refl;
    empty = refl;
    same = λ id.
        ground (arith, active-append id w.buffer, append-nil (contents (active w) d ++ w.buffer));
  }

  pub flush-Keeps :
      Keeps w d (flush true w d) × ((flush true w d).0.current_file_id ≡ w.current_file_id)
  unfolding flush
  flush-Keeps = elim (Bool-cases (ltb 0 (length w.buffer))) [
    | inr none_left ↦
        let e : flush true w d ≡ (w, d) = ground arith in
        rw e (
          record {
            opened = o;
            base = refl;
            empty = nil_of_length w.buffer none_left;
            same = λ id. refl;
          },
          refl,
        )
    | inl some_left ↦ let e : flush true w d ≡ flushed = ground arith in rw e (flushed-Keeps, refl)
  ]

flush_forced :
    (w : VLogWriter) (d : Disk)
    → IsOpen w d
    → IsOpen (flush true w d).0 (flush true w d).1
      × ((flush true w d).0.buffer ≡ [])
      × ((flush true w d).0.base_path ≡ w.base_path)
      × ((flush true w d).0.current_file_id ≡ w.current_file_id)
      × ((id : ℕ) → contents (segment w.base_path id) (flush true w d).1 ≡ logical w d id)
flush_forced w d o =
    let (keeps, number) = flush-Keeps w d o in
    let r = flush true w d in
    (
      keeps.opened,
      keeps.empty,
      keeps.base,
      number,
      λ id.
          ap (λ b. contents (segment b id) r.1) (sym keeps.base)
          ∙ sym (logical-empty r.0 r.1 id keeps.empty)
          ∙ keeps.same id,
    )

-- A flush, forced or not, writes the buffer, under the writer's invariant: the buffer is empty
-- afterwards, the file of each segment has the bytes that the segment had with those in the buffer,
-- and the invariant holds. The base path and the number of the active segment are as they were.
pub flush-contents :
    (force : Bool) (w : VLogWriter) (d : Disk)
    → IsOpen w d
    → IsOpen (flush force w d).0 (flush force w d).1
      × ((flush force w d).0.buffer ≡ [])
      × ((flush force w d).0.base_path ≡ w.base_path)
      × ((flush force w d).0.current_file_id ≡ w.current_file_id)
      × ((id : ℕ) → contents (segment w.base_path id) (flush force w d).1 ≡ logical w d id)
flush-contents true w d o = flush_forced w d o
flush-contents false w d o = rw (flush-force w d o) (flush_forced w d o)

-- The second half of a rotation: a new segment is begun.
module _ (w : VLogWriter) (d : Disk) (o : IsOpen w d) (empty : w.buffer ≡ [])
    (room : w.current_file_id + 1 < 2 ^ 32) where
  abbrev begun : VLogWriter × Disk
  begun =
      let w₂ : VLogWriter = record w {
        current_file_id = u32 (w.current_file_id + 1);
        current_size = 0;
        buffer = [];
        is_dirty = false;
      } in
      (w₂, insert (active w₂) [] d)

  number : u32 (w.current_file_id + 1) ≡ w.current_file_id + 1
  number = omega arith

  begun-contents :
      (id : ℕ)
      → contents (segment w.base_path id) begun.1
        ≡ (if id == u32 (w.current_file_id + 1) then [] else contents (segment w.base_path id) d)
  begun-contents id = rw (
    contents-insert (segment w.base_path id) (segment w.base_path (u32 (w.current_file_id + 1))) []
        d,
    segment-eq w.base_path id (u32 (w.current_file_id + 1)),
  )

  begun-Keeps : Keeps w d begun
  unfolding logical
  begun-Keeps = record {
    opened = record {
      size = ground (arith, begun-contents (u32 (w.current_file_id + 1)));
      dirty = λ h. absurd (omega arith);
      bounded = omega arith;
      small = omega arith;
      fresh = λ id h. ground (arith, begun-contents id, number, o.fresh id);
    };
    base = refl;
    empty = refl;
    same = λ id. ground (
      arith,
      begun-contents id,
      number,
      o.fresh id,
      empty,
      append-nil (contents (segment w.base_path id) d),
    );
  }

Keeps-trans :
    {w : VLogWriter} {d : Disk} (r : VLogWriter × Disk) (s : VLogWriter × Disk)
    → Keeps w d r
    → Keeps r.0 r.1 s
    → Keeps w d s
Keeps-trans r s k l = record {
  opened = l.opened;
  base = l.base ∙ k.base;
  empty = l.empty;
  same = λ id. l.same id ∙ k.same id;
}

-- A rotation loses nothing, under the writer's invariant and if the next number fits in a
-- `uint32_t`: each segment still has its bytes, the buffered ones included, the buffer is empty,
-- the invariant holds, and the segment with the next number is active.
pub rotate-Keeps :
    (w : VLogWriter) (d : Disk)
    → IsOpen w d
    → w.current_file_id + 1 < 2 ^ 32
    → Keeps w d (rotate w d) × ((rotate w d).0.current_file_id ≡ w.current_file_id + 1)
unfolding rotate
rotate-Keeps w d o room =
    let (k, id) = flush-Keeps w d o in
    let r = flush true w d in
    let room' : r.0.current_file_id + 1 < 2 ^ 32 = omega (arith, id) in
    (Keeps-trans r _ k (begun-Keeps r.0 r.1 k.opened k.empty room'), omega (arith, id))
