-- ===== src/Engine/Open/Restart.antt =====
-- A database that is closed and opened again (src/vortex.cpp): its memtable and its log.
use vortex_db.Base.{
  ℕ, ◌+◌, ◌^◌, ◌<◌, ◌≤◌, ◌≡◌, ◌≢◌, refl, sym, ap, subst, ◌∙◌, true, false, some, List, [], ◌∷◌,
  ◌++◌, length, All, arith, if◌then◌else◌, append_assoc,
}
use vortex_db.Base.Words.{Bytes}
use vortex_db.Base.Order.{lex, lex_refl, lex-flip, is_eq, ◌=ˢ◌}
use vortex_db.Base.Map
use vortex_db.Base.Map.{Map, IsSorted}
use vortex_db.Vlog.{ValuePointer}
use vortex_db.Base.Decimal.{to_string}
use vortex_db.Files.{ok, Disk}
use vortex_db.Text.{codes}
use vortex_db.Vlog.Writer
use vortex_db.Vlog.Writer.{segment, contents, append_file, flush}
use vortex_db.Vlog.Log.{logical, logical-empty, IsOpen, new-IsOpen, flush-Keeps, contents-insert}
use vortex_db.Vlog.Beside.{IsBeside, find-flush}
use vortex_db.Engine.State.{VortexDb, index_name, index_bytes, save_index}
use vortex_db.Engine.Index.{load_index, IsIndexed, load_keys-index_bytes}
use vortex_db.Engine.Segments.{discover_vlog_segments, last_or}
use vortex_db.Engine.Segments.Discovered.{IsIn, discover_vlog_segments-IsOrdered, last-discovered}
use vortex_db.Engine.Segments.Reopened.{IsPlaced}
use vortex_db.Engine.Segments.Answered.{active-flush}
use vortex_db.Engine.Open.{is_empty, next_segment, begun, open_memtable}

pub lex-append : (n a b : Bytes) → lex (n ++ a) (n ++ b) ≡ lex a b
unfolding lex
lex-append [] a b = refl
lex-append (c ∷ n) a b = ground (arith, lex-append n a b)

-- A segment is never the index file.
segment-index :
    (name : Bytes) (j : ℕ) → (segment (name ++ codes ".vlog") j =ˢ (name ++ codes ".idx")) ≡ false
unfolding segment lex
segment-index name j = ap is_eq (
    ap (λ s. lex s (name ++ codes ".idx")) (append_assoc name (codes ".vlog") (b'.' ∷ to_string j))
    ∙ lex-append name (codes ".vlog" ++ b'.' ∷ to_string j) (codes ".idx"))

index-segment :
    (name : Bytes) (j : ℕ) → ((name ++ codes ".idx") =ˢ segment (name ++ codes ".vlog") j) ≡ false
index-segment name j = ground (
  arith,
  segment-index name j,
  lex-flip (segment (name ++ codes ".vlog") j) (name ++ codes ".idx"),
)

next_segment-last :
    (segments : List ℕ)
    → segments ≢ []
    → last_or 0 segments + 1 < 2 ^ 32
    → next_segment segments ≡ last_or 0 segments + 1
unfolding next_segment
next_segment-last [] some_segment h = absurd (some_segment refl)
next_segment-last (id ∷ segments) some_segment h = omega (arith, h)

not_nil : (i : ℕ) (ids : List ℕ) → IsIn i ids → ids ≢ []
not_nil i ids h e = subst (IsIn i) e h

load_index-index_bytes :
    (fuel : ℕ) (db : VortexDb) (d : Disk) (m : Map ValuePointer)
    → Map.find (index_name db) d ≡ some (index_bytes m)
    → length m < fuel
    → IsSorted m
    → All IsIndexed m
    → load_index fuel db d ≡ ok (record db { memtable = m })
unfolding load_index
load_index-index_bytes fuel db d m e more s fits =
    ground (arith, e, load_keys-index_bytes (index_bytes m) 0 fuel [] m more s fits refl)

open_memtable-load_index :
    (clock : ℕ → ℕ) (fuel : ℕ) (segments : List ℕ) (db : VortexDb) (d : Disk)
    (e : Bytes × ValuePointer) (m m' : Map ValuePointer)
    → m' ≡ e ∷ m
    → load_index fuel db d ≡ ok (record db { memtable = m' })
    → open_memtable clock fuel segments db d ≡ ok (record db { memtable = m' }, d)
unfolding open_memtable
open_memtable-load_index clock fuel segments db d e m m' some_key run =
    ground (arith, run, ap is_empty some_key)

begun-index :
    (db : VortexDb) (segments : List ℕ) (d : Disk)
    → Map.find (db.db_name ++ codes ".idx") (begun db.db_name segments d).1
      ≡ Map.find (db.db_name ++ codes ".idx") d
unfolding begun Writer.new append_file
begun-index db segments d =
    let base = db.db_name ++ codes ".vlog" in
    let n = segment base (next_segment segments) in
    Map.find-insert n (db.db_name ++ codes ".idx") (contents n d ++ []) d
    ∙ ap (λ b. if b then some (contents n d ++ []) else Map.find (db.db_name ++ codes ".idx") d)
        (index-segment db.db_name (next_segment segments))

module _ (db : VortexDb) (d : Disk) (o : IsOpen db.writer d) (placed : IsPlaced db d) where
  -- What closing leaves on disk.
  abbrev closed : Disk
  closed = (save_index db d).1

  abbrev base : Bytes
  base = db.db_name ++ codes ".vlog"

  closed-contents : (j : ℕ) → contents (segment base j) closed ≡ logical db.writer d j
  unfolding save_index
  closed-contents j =
      let (keeps, number) = flush-Keeps db.writer d o in
      contents-insert (segment base j) (index_name db) (index_bytes db.memtable)
        (flush true db.writer d).1
      ∙ ap
          (λ b.
            if b
            then index_bytes db.memtable
            else contents (segment base j) (flush true db.writer d).1)
          (segment-index db.db_name j)
      ∙ ap (λ b. contents (segment b j) (flush true db.writer d).1) (sym (keeps.base ∙ placed.base))
      ∙ sym (logical-empty (flush true db.writer d).0 (flush true db.writer d).1 j keeps.empty)
      ∙ keeps.same j

  closed-fresh : (j : ℕ) → db.writer.current_file_id < j → contents (segment base j) closed ≡ []
  unfolding logical
  closed-fresh j h = closed-contents j ∙ ground (arith, o.fresh j h, h)

  closed-there : (bs : Bytes) × (Map.find (segment base db.writer.current_file_id) closed ≡ some bs)
  unfolding save_index
  closed-there =
      let (bs, there) = active-flush db.writer d placed.bytes placed.there in
      (
        bs,
        Map.find-insert (index_name db) (segment base db.writer.current_file_id)
              (index_bytes db.memtable) (flush true db.writer d).1
            ∙ ap
                (λ b.
                  if b
                  then some (index_bytes db.memtable)
                  else Map.find (segment base db.writer.current_file_id) (flush true db.writer d).1)
                (segment-index db.db_name db.writer.current_file_id)
            ∙ ap (λ b. Map.find (segment b db.writer.current_file_id) (flush true db.writer d).1)
                (sym placed.base)
            ∙ there,
      )

  closed-index : Map.find (db.db_name ++ codes ".idx") closed ≡ some (index_bytes db.memtable)
  unfolding save_index
  closed-index = ground (
    arith,
    Map.find-insert (index_name db) (index_name db) (index_bytes db.memtable)
        (flush true db.writer d).1,
    lex_refl (index_name db),
  )

  -- The segments that are there when it is opened again, and the state with a new segment.
  abbrev pub segments_again : List ℕ
  segments_again = discover_vlog_segments db.db_name closed

  abbrev pub again : VortexDb × Disk
  again = begun db.db_name segments_again closed

  -- A file that is neither a segment nor the index is as it was.
  pub again-other :
      (n : Bytes)
      → IsBeside base n
      → (n =ˢ index_name db) ≡ false
      → Map.find n again.1 ≡ Map.find n d
  unfolding begun Writer.new append_file save_index
  again-other n beside other =
      let m = segment base (next_segment segments_again) in
      Map.find-insert m n (contents m closed ++ []) closed
      ∙ ap (λ b. if b then some (contents m closed ++ []) else Map.find n closed)
          (beside (next_segment segments_again))
      ∙ Map.find-insert (index_name db) n (index_bytes db.memtable) (flush true db.writer d).1
      ∙ ap
          (λ b. if b then some (index_bytes db.memtable) else Map.find n (flush true db.writer d).1)
          other
      ∙ find-flush n db.writer d (λ id. ap (λ b. n =ˢ segment b id) placed.base ∙ beside id) true

  -- The first steps of the constructor on a database that is closed by `save_index` and the end of its
  -- writer: they make the memtable that it had, and an open writer whose log has the bytes that it had,
  -- those in the buffer included. The memtable is not empty and is sorted, its keys are shorter than 2^64 bytes and its
  -- pointers in range, the numbers of the segments leave room for one more, the writer satisfies its
  -- invariant and is on a segment that the directory has, and the loop of `load_index` has one round
  -- more than there are keys.
  pub open_memtable-save_index :
      (clock : ℕ → ℕ) (fuel : ℕ) (e : Bytes × ValuePointer) (m : Map ValuePointer)
      → db.memtable ≡ e ∷ m
      → IsSorted db.memtable
      → All IsIndexed db.memtable
      → length db.memtable < fuel
      → last_or 0 segments_again + 1 < 2 ^ 32
      → (open_memtable clock fuel segments_again again.0 again.1
          ≡ ok (record again.0 { memtable = db.memtable }, again.1))
        × IsOpen again.0.writer again.1
        × ((id : ℕ) → logical again.0.writer again.1 id ≡ logical db.writer d id)
        × ((id : ℕ) → contents (segment base id) again.1 ≡ logical db.writer d id)
  unfolding begun open_memtable load_index Writer.new
  open_memtable-save_index clock fuel e m some_key sorted fits more room =
      let segments = discover_vlog_segments db.db_name closed in
      let (bs, there) = closed-there in
      let (ordered, fit, listed) = discover_vlog_segments-IsOrdered db.db_name closed in
      let (small, above) = last-discovered db.db_name closed in
      let le : db.writer.current_file_id ≤ last_or 0 segments =
        above db.writer.current_file_id bs o.small there in
      let next : next_segment segments ≡ last_or 0 segments + 1 =
        next_segment-last segments
          (not_nil db.writer.current_file_id segments
            (listed db.writer.current_file_id bs o.small there))
          room in
      let (opened, kept) =
        new-IsOpen base (next_segment segments) closed (omega (arith, next, room))
          (λ j h. closed-fresh j (omega (arith, next, le, h))) in
      let (db₀, d₁) = begun db.db_name segments closed in
      let stored : Map.find (index_name db₀) d₁ ≡ some (index_bytes db.memtable) =
        begun-index db segments closed ∙ closed-index in
      (
        open_memtable-load_index clock fuel segments db₀ d₁ e m db.memtable some_key
            (load_index-index_bytes fuel db₀ d₁ db.memtable stored more sorted fits),
        opened,
        λ id. kept id ∙ closed-contents id,
        λ id. sym (logical-empty db₀.writer d₁ id refl) ∙ kept id ∙ closed-contents id,
      )
