-- ===== src/Vlog/ReadBack.antt =====
-- Appends one after another, a flush, and reads through the pointers (src/vlog.cpp).
use vortex_db.Base.{
  ℕ, ◌+◌, ◌^◌, ◌<◌, ◌≤◌, ◌≡◌, refl, sym, subst, ◌∙◌, true, false, List, [], ◌∷◌, length, arith, All,
  append-nil,
}
use mathlib.Core.Path.{ap₂, fun_ext}
use vortex_db.Base.Words.{Bytes}
use vortex_db.Files.{ok, Disk}
use vortex_db.Vlog.{ValuePointer, VortexData}
use vortex_db.Vlog.Writer.{VLogWriter, segment, contents, flush, append_entry}
use vortex_db.Vlog.Reader.{VLogReader, read_value}
use vortex_db.Vlog.Log.{logical, IsOpen, flush-Keeps, flush-force}
use vortex_db.Vlog.Append.{IsShort, Appends, append_entry-Appends}
use vortex_db.Vlog.Points.{IsType, Points}
use vortex_db.Vlog.Durable.{append_entry-start, append_entry-Points, Points-append}
use vortex_db.Vlog.Cache.{IsCoherent, read_value-Points}

-- A key with what is to be stored under it.
abbrev pub Item : Type 0
Item = Bytes × VortexData

-- Successive calls of `append_entry`, and the pointers that they return.
unfoldable pub append_all : List Item → VLogWriter → Disk → VLogWriter × Disk × List ValuePointer
append_all [] w d = (w, d, [])
append_all ((key, x) ∷ items) w d =
    let (w₁, d₁, p) = append_entry key x.value x.type w d in
    let (w₂, d₂, ps) = append_all items w₁ d₁ in (w₂, d₂, p ∷ ps)

abbrev pub IsItem : Item → Type 0
IsItem (key, x) = IsShort key x.value × IsType x.type

-- Item by item, the pointer leads to the value in the bytes that `log` gives for its segment.
abbrev pub Leads : (ℕ → Bytes) → List Item → List ValuePointer → Type 0
Leads log [] [] = Unit
Leads log [] (p ∷ ps) = ⊥
Leads log (i ∷ is) [] = ⊥
Leads log (i ∷ is) (p ∷ ps) = Points (log p.file_id) p i.1 × Leads log is ps

-- What one append does to the writer's state.
module _ (w : VLogWriter) (d : Disk) (key : Bytes) (x : VortexData) (o : IsOpen w d)
    (room : w.current_file_id + 1 < 2 ^ 32) (item : IsItem (key, x)) where
  one : Appends w d key x.value x.type (append_entry key x.value x.type w d)
  one = append_entry-Appends w d key x.value x.type o room item.0

  one_number : (append_entry key x.value x.type w d).0.current_file_id ≤ w.current_file_id + 1
  one_number = omega (arith, one.place, append_entry-start w d key x.value x.type o room)

  one-Points :
      (p : ValuePointer) (y : VortexData)
      → Points (logical w d p.file_id) p y
      → Points
          (logical
            (append_entry key x.value x.type w d).0
            (append_entry key x.value x.type w d).1
            p.file_id)
          p
          y
  one-Points p y h = rw (one.grown p.file_id) (Points-append _ _ p y h)

-- The writer's invariant after all appends, and a pointer from before them.
append_all-IsOpen :
    (items : List Item) (w : VLogWriter) (d : Disk)
    → IsOpen w d
    → w.current_file_id + length items < 2 ^ 32
    → All IsItem items
    → IsOpen (append_all items w d).0 (append_all items w d).1
unfolding append_all
append_all-IsOpen [] w d o room _ = o
append_all-IsOpen ((key, x) ∷ items) w d o room (item, rest) =
    append_all-IsOpen items _ _ (one w d key x o (omega arith) item).opened
      (omega (arith, one_number w d key x o (omega arith) item)) rest

append_all-Points :
    (items : List Item) (w : VLogWriter) (d : Disk)
    → IsOpen w d
    → w.current_file_id + length items < 2 ^ 32
    → All IsItem items
    → (p : ValuePointer) (y : VortexData) → Points (logical w d p.file_id) p y
    → Points (logical (append_all items w d).0 (append_all items w d).1 p.file_id) p y
unfolding append_all
append_all-Points [] w d o room _ p y h = h
append_all-Points ((key, x) ∷ items) w d o room (item, rest) p y h =
    append_all-Points items _ _ (one w d key x o (omega arith) item).opened
      (omega (arith, one_number w d key x o (omega arith) item)) rest p y
      (one-Points w d key x o (omega arith) item p y h)

append_all-Leads :
    (items : List Item) (w : VLogWriter) (d : Disk)
    → IsOpen w d
    → w.current_file_id + length items < 2 ^ 32
    → All IsItem items
    → Leads
        (logical (append_all items w d).0 (append_all items w d).1)
        items
        (append_all items w d).2
unfolding append_all
append_all-Leads [] w d o room _ = tt
append_all-Leads ((key, x) ∷ items) w d o room (item, rest) =
    let o₁ = (one w d key x o (omega arith) item).opened in
    let room₁ = one_number w d key x o (omega arith) item in
    (
      append_all-Points items _ _ o₁ (omega (arith, room₁)) rest _ x
          (append_entry-Points w d key x.value x.type o (omega arith) item.0 item.1),
      append_all-Leads items _ _ o₁ (omega (arith, room₁)) rest,
    )

logical_empty :
    (w : VLogWriter) (d : Disk) (base : Bytes) (id : ℕ)
    → w.buffer ≡ []
    → w.base_path ≡ base
    → logical w d id ≡ contents (segment base id) d
unfolding logical
logical_empty w d base id empty same =
    ground (arith, empty, same, append-nil (contents (segment base id) d))

-- After a flush the files hold the abstract log.
pub flush-logical :
    (w : VLogWriter) (d : Disk) (id : ℕ)
    → IsOpen w d
    → logical w d id ≡ contents (segment w.base_path id) (flush true w d).1
flush-logical w d id o =
    let (k, _) = flush-Keeps w d o in
    let r = flush true w d in sym (k.same id) ∙ logical_empty r.0 r.1 w.base_path id k.empty k.base

append_all-base_path :
    (items : List Item) (w : VLogWriter) (d : Disk)
    → IsOpen w d
    → w.current_file_id + length items < 2 ^ 32
    → All IsItem items
    → (append_all items w d).0.base_path ≡ w.base_path
unfolding append_all
append_all-base_path [] w d o room _ = refl
append_all-base_path ((key, x) ∷ items) w d o room (item, rest) =
    let a = one w d key x o (omega arith) item in
    append_all-base_path items _ _ a.opened
      (omega (arith, one_number w d key x o (omega arith) item)) rest
    ∙ a.base

-- Item by item, `read_value` through the pointer returns the item's value, and leaves the cache
-- coherent.
abbrev pub Reads : VLogReader → Disk → List Item → List ValuePointer → Type 0
Reads r d [] [] = Unit
Reads r d [] (p ∷ ps) = ⊥
Reads r d (i ∷ is) [] = ⊥
Reads r d (i ∷ is) (p ∷ ps) =
    ((r' : VLogReader) × (read_value p r d ≡ ok (i.1, r')) × IsCoherent r' d) × Reads r d is ps

Leads-Reads :
    (r : VLogReader) (d : Disk) (items : List Item) (ps : List ValuePointer)
    → IsCoherent r d
    → Leads (λ id. contents (segment r.base_path id) d) items ps
    → Reads r d items ps
Leads-Reads r d [] [] c l = tt
Leads-Reads r d [] (p ∷ ps) c l = l
Leads-Reads r d (i ∷ is) [] c l = l
Leads-Reads r d (i ∷ is) (p ∷ ps) c (h, l) =
    let (r', run, c', _) = read_value-Points p i.1 r d c h in
    ((r', run, c'), Leads-Reads r d is ps c l)

-- After any appends and a flush without `force`, `read_value` through each of the pointers that
-- the appends returned gives the type and the value that were appended. The reader is any one
-- whose cache is coherent with the disk; the writer's invariant holds at the start, the segment
-- numbers stay below 2^32, the entries are shorter than 2^32 bytes, and each type is the one that
-- its byte stands for.
pub read_value-append_all :
    (items : List Item) (w : VLogWriter) (d : Disk) (r : VLogReader)
    → IsOpen w d
    → w.current_file_id + length items < 2 ^ 32
    → All IsItem items
    → r.base_path ≡ w.base_path
    → IsCoherent r (flush false (append_all items w d).0 (append_all items w d).1).1
    → Reads r
        (flush false (append_all items w d).0 (append_all items w d).1).1
        items
        (append_all items w d).2
read_value-append_all items w d r o room good base c =
    let s = append_all items w d in
    let o' = append_all-IsOpen items w d o room good in
    let flushed : flush false s.0 s.1 ≡ flush true s.0 s.1 = flush-force s.0 s.1 o' in
    let same = base ∙ sym (append_all-base_path items w d o room good) in
    Leads-Reads r (flush false s.0 s.1).1 items s.2 c (
      subst (λ log. Leads log items s.2)
        (fun_ext (λ id.
          flush-logical s.0 s.1 id o'
          ∙ ap₂ (λ (b : Bytes) (f : VLogWriter × Disk). contents (segment b id) f.1) (sym same)
              (sym flushed)))
        (append_all-Leads items w d o room good))
