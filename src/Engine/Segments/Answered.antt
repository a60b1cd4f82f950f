-- ===== src/Engine/Segments/Answered.antt =====
-- What `get_range` and `get_prefix` answer (src/vortex.cpp), while entries may be in the buffer.
use vortex_db.Base.{
  ℕ, ◌<◌, ◌≡◌, refl, subst, ◌∙◌, true, false, none, some, List, [], ◌∷◌, ◌++◌, length, arith, All,
  inl, inr, Bool-cases, ltb,
}
use vortex_db.Base.Words.{Bytes}
use vortex_db.Base.Order.{lex, lex_refl, ◌=ˢ◌, is_lt}
use vortex_db.Base.Map
use vortex_db.Base.Map.{Map, IsSorted}
use vortex_db.Files.{ok, Disk}
use vortex_db.Vlog.{ValuePointer, VortexData}
use vortex_db.Vlog.Writer.{VLogWriter, segment, contents, active, append_file, flush}
use vortex_db.Vlog.Reader.{VLogReader, close_all}
use vortex_db.Vlog.Log.{logical, IsOpen, flush-Keeps}
use vortex_db.Vlog.Points.{Points}
use vortex_db.Engine.State.{VortexDb}
use vortex_db.Engine.Ready.{IsReady, log-flush}
use vortex_db.Engine.Tables.{TableFile, tables_of, IsStored, newest}
use vortex_db.Engine.Merge.Sources.{weight}
use vortex_db.Engine.Range.Shown.{shown}
use vortex_db.Engine.Range.Sources.{sources, IsServing}
use vortex_db.Engine.Range.Exact.{get_range_internal-exact}
use vortex_db.Engine.Segments.{let_go, reopen, get_range}
use vortex_db.Engine.Segments.Reopened.{IsPlaced, reopen-IsOpen}

-- Each pointer of the map leads to its value, in the buffer or on disk.
abbrev pub AreLogged : (ValuePointer → VortexData) → (ℕ → Bytes) → Map ValuePointer → Type 0
AreLogged load log m = All (λ e. Points (log e.1.file_id) e.1 (load e.1)) m

-- The database and its files fit together, and no table has the name of the active segment.
pub record IsWhole (load : ValuePointer → VortexData) (files : List TableFile) (db : VortexDb)
    (d : Disk) : Type 0 where
  pub ready : IsReady db.writer db.reader d
  pub placed : IsPlaced db d
  pub sorted : IsSorted db.memtable
  pub tables : db.sstables ≡ tables_of files
  pub stored : All (IsStored d) files
  pub apart : All (λ f. (f.0 =ˢ active db.writer) ≡ false) files
  pub logged : AreLogged load (logical db.writer d) db.memtable
  pub logged_tables : All (λ f. AreLogged load (logical db.writer d) f.1) files

find-flush :
    (w : VLogWriter) (d : Disk) (n : Bytes)
    → (n =ˢ active w) ≡ false
    → Map.find n (flush true w d).1 ≡ Map.find n d
unfolding flush append_file
find-flush w d n other =
    ground (arith, other, Map.find-insert (active w) n (contents (active w) d ++ w.buffer) d)

pub active-flush :
    (w : VLogWriter) (d : Disk) (bs : Bytes)
    → Map.find (active w) d ≡ some bs
    → (bs' : Bytes) × (Map.find (active w) (flush true w d).1 ≡ some bs')
unfolding flush append_file
active-flush w d bs e = elim (Bool-cases (ltb 0 (length w.buffer))) [
  | inr none_left ↦ (bs, ground (arith, none_left, e))
  | inl more ↦ (
    contents (active w) d ++ w.buffer,
    ground (
      arith,
      more,
      lex_refl (active w),
      Map.find-insert (active w) (active w) (contents (active w) d ++ w.buffer) d,
    ),
  )
]

stored-flush :
    (w : VLogWriter) (d : Disk) (files : List TableFile)
    → All (IsStored d) files
    → All (λ f. (f.0 =ˢ active w) ≡ false) files
    → All (IsStored (flush true w d).1) files
stored-flush w d [] a b = tt
stored-flush w d ((fname, m) ∷ files) ((table, file), a) (other, b) =
    ((table, find-flush w d fname other ∙ file), stored-flush w d files a b)

let_go-IsServing :
    (load : ValuePointer → VortexData) (files : List TableFile) (db : VortexDb) (d : Disk)
    → IsWhole load files db d
    → IsServing load files (let_go db d).0 (let_go db d).1
unfolding let_go close_all
let_go-IsServing load files db d h =
    let onto = log-flush db.writer d db.reader.base_path h.ready.opened h.ready.base in
    record {
      sorted = h.sorted;
      tables = h.tables;
      stored = stored-flush db.writer d files h.stored h.apart;
      coherent = record { entries = tt; bounded = omega arith };
      loaded = subst (λ log. AreLogged load log db.memtable) onto h.logged;
      loaded_tables = subst (λ log. All (λ f. AreLogged load log f.1) files) onto h.logged_tables;
    }

let_go-IsOpen :
    (load : ValuePointer → VortexData) (files : List TableFile) (db : VortexDb) (d : Disk)
    → IsWhole load files db d
    → IsOpen (let_go db d).0.writer (let_go db d).1
      × ((let_go db d).0.writer.buffer ≡ [])
      × IsPlaced (let_go db d).0 (let_go db d).1
      × ((id : ℕ) → logical (let_go db d).0.writer (let_go db d).1 id ≡ logical db.writer d id)
unfolding let_go
let_go-IsOpen load files db d h =
    let (keeps, number) = flush-Keeps db.writer d h.ready.opened in
    let (bs, there) = active-flush db.writer d h.placed.bytes h.placed.there in
    (
      keeps.opened,
      keeps.empty,
      record {
        base = keeps.base ∙ h.placed.base;
        bytes = bs;
        there = ap₂_segment keeps.base number ∙ there;
      },
      keeps.same,
    )
  where
    ap₂_segment :
        {b b' : Bytes} {i i' : ℕ}
        → b ≡ b'
        → i ≡ i'
        → Map.find (segment b i) (flush true db.writer d).1
          ≡ Map.find (segment b' i') (flush true db.writer d).1
    ap₂_segment eb ei = cc (eb, ei)

-- What a range leaves behind it.
pub record Leaves (db : VortexDb) (d : Disk) (db' : VortexDb) (d' : Disk) : Type 0 where
  pub opened : IsOpen db'.writer d'
  pub log : (id : ℕ) → logical db'.writer d' id ≡ logical db.writer d id
  pub memtable : db'.memtable ≡ db.memtable

reopen-Leaves :
    (load : ValuePointer → VortexData) (files : List TableFile) (db : VortexDb) (d : Disk)
    (r : VLogReader)
    → IsWhole load files db d
    → Leaves db d
        (reopen (record (let_go db d).0 { reader = r }) (let_go db d).1).0
        (reopen (record (let_go db d).0 { reader = r }) (let_go db d).1).1
unfolding let_go reopen
reopen-Leaves load files db d r h =
    let (opened, empty, placed, same) = let_go-IsOpen load files db d h in
    let db₁ : VortexDb = record (let_go db d).0 { reader = r } in
    let placed₁ : IsPlaced db₁ (let_go db d).1 = record {
      base = placed.base;
      bytes = placed.bytes;
      there = placed.there;
    } in
    let (opened', kept) = reopen-IsOpen db₁ (let_go db d).1 opened empty placed₁ in
    record { opened = opened'; log = λ id. kept id ∙ same id; memtable = refl }

-- `get_range` answers, for every key that is not below its start, what the memtable, or else the newest
-- table with the key, points to, in the buffer or on disk, if the key is not beyond the end and the
-- value is no tombstone, and nothing otherwise; its answers are in the order of the keys. It leaves an
-- open writer, whose log has the bytes that it had, and the same memtable. The database and its files
-- fit together, and there is one round more than the sources have entries.
pub get_range-exact :
    (load : ValuePointer → VortexData) (fuel : ℕ) (start end_key : Bytes) (files : List TableFile)
    (db : VortexDb) (d : Disk)
    → IsWhole load files db d
    → weight (sources start db.memtable files) < fuel
    → (results : Map Bytes) × (db' : VortexDb) × (d' : Disk) × (get_range fuel start end_key db d
        ≡ ok (results, db', d'))
      × IsSorted results
      × ((j : Bytes)
          → is_lt (lex j start) ≡ false
          → Map.find j results
            ≡ shown load end_key j
                (elim (Map.find j db.memtable) [ some p ↦ some p | none ↦ newest j files ]))
      × Leaves db d db' d'
unfolding get_range let_go
get_range-exact load fuel start end_key files db d h more =
    let (db₁, d₁) = let_go db d in
    let (results, r, run, sorted, finds) =
      get_range_internal-exact load fuel start end_key files db₁ d₁
        (let_go-IsServing load files db d h) more in
    let s = reopen (record db₁ { reader = r }) d₁ in
    (results, s.0, s.1, rw (get_range, run) refl, sorted, finds, reopen-Leaves load files db d r h)
