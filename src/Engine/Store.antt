-- ===== src/Engine/Store.antt =====
-- What `put` stores (src/vortex.cpp), on keys without a slash.
use vortex_db.Base.{
  ℕ, ◌+◌, ◌^◌, ◌<◌, ◌≡◌, ap, subst, Bool-cases, ◌∙◌, true, false, ◌||◌, none, length, arith, inl,
  inr, ◌⊎◌,
}
use vortex_db.Base.Words.{Bytes}
use vortex_db.Base.Order.{lex_refl, eq_of_lex, ◌=ˢ◌}
use vortex_db.Base.Map
use vortex_db.Files.{ok, Disk}
use vortex_db.Vlog.{VortexData}
use vortex_db.Vlog.Writer.{append_entry}
use vortex_db.Vlog.Append.{IsShort}
use vortex_db.Vlog.Durable.{append_entry-Points}
use vortex_db.Cuckoo
use vortex_db.Cuckoo.{bucket, first_index, second_index}
use vortex_db.Cuckoo.Conserve.{insert-Conserves}
use vortex_db.Cuckoo.Membership.{has, contains-insert}
use vortex_db.Engine.Infer.{infer_type, infer_type-is_plain}
use vortex_db.Engine.State.{VortexDb, memtable_limit, make_room, store, is_sub_vortex, put}
use vortex_db.Engine.Ready.{append_entry-IsReady}
use vortex_db.Engine.Reaches.{
  pointer_of, Reaches, IsSeparate, IsNoDatabase, Spares, Spares-pointer, Spares-Reaches,
}
use vortex_db.Engine.Spares.{append_entry-Spares, Spares-after}
use vortex_db.Engine.Lookup.{plain-IsType, Holds, IsSound, IsSame, flush_and_read-IsSame}

-- What the operations on a key need: the entry is shorter than 2^32 bytes, the number of the next
-- segment fits in a `uint32_t`, and one of the key's two buckets has a free slot.
pub record IsStorable (key value : Bytes) (db : VortexDb) : Type 0 where
  pub short : IsShort key value
  pub room : db.writer.current_file_id + 1 < 2 ^ 32
  pub free :
      (has 0 (bucket db.filter (first_index db.filter key))
        || has 0 (bucket db.filter (second_index db.filter key)))
      ≡ true

abbrev pub inferred : Bytes → VortexData
inferred value = record { type = infer_type value; value = value }

-- The state `s` is one in which the key leads to the value, and the rest is as it was.
pub record Stores (key value : Bytes) (db : VortexDb) (d : Disk) (s : VortexDb × Disk)
    : Type 0 where
  pub sound : IsSound s.0 s.1
  pub holds : Holds s.0 s.1 key (inferred value)
  pub spares : Spares key db d s.0 s.1
  pub listed : Cuckoo.contains s.0.filter key ≡ true
  pub kept : (j : Bytes) → Cuckoo.contains db.filter j ≡ true → Cuckoo.contains s.0.filter j ≡ true

pub store-Stores :
    (draw : ℕ → ℕ) (key value : Bytes) (db : VortexDb) (d : Disk)
    → IsSound db d
    → IsStorable key value db
    → Stores key value db d (store draw key value db d)
unfolding store
store-Stores draw key value db d sound can =
    let type = infer_type value in
    let w = db.writer in
    let r = append_entry key value type w d in
    let (is_type, live) = plain-IsType type (infer_type-is_plain value) in
    let (inserted, mine, old) = contains-insert draw db.filter key sound.table can.free in
    let (lost, conserved) = insert-Conserves draw db.filter key sound.table in
    record {
      sound = record {
        ready = append_entry-IsReady w db.reader d key value type sound.ready can.room can.short;
        table = conserved.table;
      };
      holds = record {
        ptr = r.2;
        found = rw (Map.find-insert key key r.2 db.memtable, lex_refl key);
        points =
            append_entry-Points w d key value type sound.ready.opened can.room can.short is_type;
      };
      spares =
          append_entry-Spares key value type db d sound.ready can.room can.short
            (Cuckoo.insert draw db.filter key).1;
      listed = mine;
      kept = old;
    }

Stores-after :
    (key value : Bytes) (db : VortexDb) (d : Disk) (db' : VortexDb) (d' : Disk)
    (s : VortexDb × Disk)
    → IsSame db d db' d'
    → Stores key value db' d' s
    → Stores key value db d s
Stores-after key value db d db' d' s same st = record {
  sound = st.sound;
  holds = st.holds;
  spares = Spares-after key db d db' d' s same st.spares;
  listed = st.listed;
  kept = λ j h. st.kept j (ap (λ f. Cuckoo.contains f j) same.filter ∙ h);
}

-- The memtable does not have the key, or leads it to something other than a database.
abbrev pub IsOverwritable : Bytes → VortexDb → Disk → Type 0
IsOverwritable key db d =
    (Map.find key db.memtable ≡ none)
    ⊎ ((x : VortexData) × Holds db d key x × (is_sub_vortex x.type ≡ false))

put_runs :
    (draw : ℕ → ℕ) (now : ℕ) (key value : Bytes) (db : VortexDb) (d : Disk)
    → IsSound db d
    → IsStorable key value db
    → length db.memtable < memtable_limit
    → IsOverwritable key db d
    → (s : VortexDb × Disk) × (put draw now key value db d ≡ ok s) × Stores key value db d s
unfolding put make_room
put_runs draw now key value db d sound can small (inl new) =
    (store draw key value db d, ground (arith, new), store-Stores draw key value db d sound can)
put_runs draw now key value db d sound can small (inr (x, h, plain)) =
    let (db', d', run, same) = flush_and_read-IsSame db d h.ptr x sound h.points in
    let can' : IsStorable key value db' = record {
      short = can.short;
      room = omega (arith, can.room, same.number);
      free = rw same.filter can.free;
    } in
    (
      store draw key value db' d',
      ground (arith, h.found, run, plain),
      Stores-after key value db d db' d' _ same
          (store-Stores draw key value db' d' same.sound can'),
    )

-- A lookup of another key finds what it found, in the memtable or in a table, and every database is
-- still there.
pub record Others (key : Bytes) (db : VortexDb) (d : Disk) (s : VortexDb × Disk) : Type 0 where
  pub pointers : (j : Bytes) → (j =ˢ key) ≡ false → pointer_of j s.0 s.1 ≡ pointer_of j db d
  pub values :
      (j : Bytes) (x : VortexData) → (j =ˢ key) ≡ false → Reaches db d j x → Reaches s.0 s.1 j x
  pub databases :
      (j : Bytes) (x : VortexData)
      → Reaches db d j x
      → is_sub_vortex x.type ≡ true
      → Reaches s.0 s.1 j x

pub Spares-Others :
    (key : Bytes) (db : VortexDb) (d : Disk) (s : VortexDb × Disk)
    → IsSeparate db
    → IsNoDatabase key db d
    → Spares key db d s.0 s.1
    → Others key db d s
Spares-Others key db d s separate plain spares =
    let values = Spares-Reaches key db d s.0 s.1 spares separate in
    record {
      pointers = Spares-pointer key db d s.0 s.1 spares separate;
      values = values;
      databases = λ j x r sub. elim (Bool-cases (j =ˢ key)) [
        | inr apart ↦ values j x apart r
        | inl here ↦
            let e : j ≡ key = eq_of_lex j key (ground arith) in
            let p : is_sub_vortex x.type ≡ false = plain x (subst (λ k. Reaches db d k x) e r) in
            absurd cc
      ];
    }

-- `put` with room in the memtable runs through. Afterwards the memtable leads from the key to the
-- value with the inferred type, and the filter has the key. The list of the tables is as it was, a
-- lookup of any other key finds the pointer that it found, in the memtable or in a table, and the
-- value behind it, and every key that led to a database still does; the filter has every key that it
-- had; the log, the reader's cache and the filter satisfy their invariants. Neither the memtable nor
-- a table leads the key to a database, the memtable's entry of the key, if there is one, leads to a
-- value, no table has the name of a segment, the entry is shorter than 2^32 bytes, the number of the
-- next segment fits in a `uint32_t`, and one of the key's two buckets has a free slot; the
-- invariants hold before.
pub put-Stores :
    (draw : ℕ → ℕ) (now : ℕ) (key value : Bytes) (db : VortexDb) (d : Disk)
    → IsSound db d
    → IsStorable key value db
    → length db.memtable < memtable_limit
    → IsOverwritable key db d
    → IsNoDatabase key db d
    → IsSeparate db
    → (s : VortexDb × Disk) × (put draw now key value db d ≡ ok s)
      × Stores key value db d s
      × Others key db d s
put-Stores draw now key value db d sound can small over plain separate =
    let (s, run, st) = put_runs draw now key value db d sound can small over in
    (s, run, st, Spares-Others key db d s separate plain st.spares)
