-- ===== src/Engine/Ready.antt =====
-- The log, its reader and the reader's cache while entries are still in the buffer (src/vlog.cpp):
-- what `flush_and_read` of the engine finds.
use vortex_db.Base.{
  ℕ, ◌+◌, ◌^◌, ◌<◌, ◌≤◌, ◌≡◌, sym, ap, subst, ◌∙◌, true, false, List, [], ◌∷◌, length, ◌==◌, arith,
  All, Bool-cases, inl, inr,
}
use mathlib.Core.Path.{fun_ext}
use vortex_db.Base.Words.{Bytes}
use vortex_db.Files.{ok, Disk}
use vortex_db.Vlog.{ValueType, ValuePointer, VortexData}
use vortex_db.Vlog.Writer.{VLogWriter, segment, contents, flush, append_entry}
use vortex_db.Vlog.Reader.{
  VLogReader, CacheEntry, max_cache_size, remove_file, invalidate, read_value,
}
use vortex_db.Vlog.Log.{logical, IsOpen, flush-Keeps, flush-force}
use vortex_db.Vlog.Append.{IsShort, append_entry-Appends}
use vortex_db.Vlog.Points.{Points}
use vortex_db.Vlog.Durable.{Points-append}
use vortex_db.Vlog.Cache.{IsCoherent, read_value-Points}
use vortex_db.Vlog.ReadBack.{flush-logical}

-- The entry of the cache is in the log that `log` gives for each segment.
abbrev pub IsLogged : (ℕ → Bytes) → CacheEntry → Type 0
IsLogged log e = Points (log e.ptr.file_id) e.ptr e.cached

-- The writer's invariant, and a reader of the same log whose cache holds what is in the log.
pub record IsReady (w : VLogWriter) (r : VLogReader) (d : Disk) : Type 0 where
  pub opened : IsOpen w d
  pub base : r.base_path ≡ w.base_path
  pub entries : All (IsLogged (logical w d)) r.lru_list
  pub bounded : length r.lru_list ≤ max_cache_size

abbrev flushed : VLogWriter → Disk → VLogWriter × Disk
flushed w d = flush true w d

pub log-flush :
    (w : VLogWriter) (d : Disk) (base : Bytes)
    → IsOpen w d
    → base ≡ w.base_path
    → logical w d ≡ (λ id. contents (segment base id) (flush true w d).1)
log-flush w d base o same =
    fun_ext (λ id.
      flush-logical w d id o ∙ ap (λ b. contents (segment b id) (flush true w d).1) (sym same))

log-same :
    (w : VLogWriter) (d : Disk)
    → IsOpen w d
    → logical w d ≡ logical (flush true w d).0 (flush true w d).1
log-same w d o = fun_ext (λ id. sym ((flush-Keeps w d o).0.same id))

-- What a read after a flush finds.
pub record Served (w : VLogWriter) (r : VLogReader) (d : Disk) (p : ValuePointer) (x : VortexData)
    (s : VLogWriter × Disk) : Type 0 where
  pub reader : VLogReader
  pub run : read_value p r s.1 ≡ ok (x, reader)
  pub ready : IsReady s.0 reader s.1
  pub same : logical w d ≡ logical s.0 s.1
  pub number : s.0.current_file_id ≡ w.current_file_id

pub flush-Served :
    (w : VLogWriter) (r : VLogReader) (d : Disk) (p : ValuePointer) (x : VortexData)
    → IsReady w r d
    → Points (logical w d p.file_id) p x
    → Served w r d p x (flush false w d)
flush-Served w r d p x ready h =
    let o = ready.opened in
    let (keeps, number) = flush-Keeps w d o in
    let onto = log-flush w d r.base_path o ready.base in
    let co : IsCoherent r (flush true w d).1 = record {
      entries = subst (λ log. All (IsLogged log) r.lru_list) onto ready.entries;
      bounded = ready.bounded;
    } in
    let (r', run, co', base) =
      read_value-Points p x r (flush true w d).1 co
        (subst (λ log. Points (log p.file_id) p x) onto h) in
    let back = log-flush w d r'.base_path o (base ∙ ready.base) in
    rw (flush-force w d o) (record {
      reader = r';
      run = run;
      ready = record {
        opened = keeps.opened;
        base = base ∙ ready.base ∙ sym keeps.base;
        entries =
            subst (λ log. All (IsLogged log) r'.lru_list) (sym back ∙ log-same w d o) co'.entries;
        bounded = co'.bounded;
      };
      same = log-same w d o;
      number = number;
    })

remove_file-All :
    (P : CacheEntry → Type 0) (id : ℕ) (es : List CacheEntry)
    → All P es
    → All P (remove_file id es) × (length (remove_file id es) ≤ length es)
unfolding remove_file
remove_file-All P id [] a = (tt, omega arith)
remove_file-All P id (e ∷ es) (a, rest) =
    let (all, len) = remove_file-All P id es rest in
    elim (Bool-cases (e.ptr.file_id == id)) [
      | inl gone ↦ rw (gone, remove_file) (all, omega (arith, len))
      | inr stays ↦ rw (stays, remove_file) ((a, all), omega (arith, len))
    ]

pub invalidate-IsReady :
    (id : ℕ) (w : VLogWriter) (r : VLogReader) (d : Disk)
    → IsReady w r d
    → IsReady w (invalidate id r) d
unfolding invalidate
invalidate-IsReady id w r d ready =
    let (all, len) = remove_file-All (IsLogged (logical w d)) id r.lru_list ready.entries in
    record {
      opened = ready.opened;
      base = ready.base;
      entries = all;
      bounded = omega (arith, len, ready.bounded);
    }

-- An append leaves the reader ready, and every pointer good.
module _ (w : VLogWriter) (r : VLogReader) (d : Disk) (key value : Bytes) (type : ValueType)
    (ready : IsReady w r d) (room : w.current_file_id + 1 < 2 ^ 32)
    (short : IsShort key value) where
  abbrev appended : VLogWriter × Disk × ValuePointer
  appended = append_entry key value type w d

  pub append_entry-grows :
      (p : ValuePointer) (x : VortexData)
      → Points (logical w d p.file_id) p x
      → Points (logical appended.0 appended.1 p.file_id) p x
  append_entry-grows p x h =
      rw ((append_entry-Appends w d key value type ready.opened room short).grown p.file_id)
        (Points-append _ _ p x h)

  All-grows :
      (es : List CacheEntry)
      → All (IsLogged (logical w d)) es
      → All (IsLogged (logical appended.0 appended.1)) es
  All-grows [] a = tt
  All-grows (e ∷ es) (a, rest) = (append_entry-grows e.ptr e.cached a, All-grows es rest)

  pub append_entry-IsReady : IsReady appended.0 r appended.1
  append_entry-IsReady =
      let a = append_entry-Appends w d key value type ready.opened room short in
      record {
        opened = a.opened;
        base = ready.base ∙ sym a.base;
        entries = All-grows r.lru_list ready.entries;
        bounded = ready.bounded;
      }
