-- ===== src/Vlog/Beside.antt =====
-- The writer of src/vlog.cpp beside the other files of the directory: it writes segments only.
use vortex_db.Base.{
  ℕ, Bool, ◌+◌, ◌≡◌, refl, ap, ◌∙◌, true, false, [], ◌++◌, ltb, length, arith, Bool-cases, inl, inr,
  if◌then◌else◌,
}
use vortex_db.Base.Words.{Bytes}
use vortex_db.Base.Order.{◌=ˢ◌}
use vortex_db.Base.Map
use vortex_db.Files.{Disk}
use vortex_db.Vlog.{ValueType}
use vortex_db.Vlog.Writer.{
  VLogWriter, max_log_size, buffer_size, segment, contents, append_file, active, flush, rotate,
  entry_bytes, total_entry_size, append_large, append_small, append_entry,
}

-- The name is that of no segment of the log.
abbrev pub IsBeside : Bytes → Bytes → Type 0
IsBeside base n = (id : ℕ) → (n =ˢ segment base id) ≡ false

find-append_file :
    (n m bs : Bytes) (d : Disk) → (n =ˢ m) ≡ false → Map.find n (append_file m bs d) ≡ Map.find n d
unfolding append_file
find-append_file n m bs d other = ground (arith, other, Map.find-insert m n (contents m d ++ bs) d)

-- The step `r` left the base path and the file alone.
abbrev IsLeft : Bytes → VLogWriter → Disk → VLogWriter → Disk → Type 0
IsLeft n w d w' d' = (w'.base_path ≡ w.base_path) × (Map.find n d' ≡ Map.find n d)

pub flush-base :
    (w : VLogWriter) (d : Disk) (force : Bool) → (flush force w d).0.base_path ≡ w.base_path
unfolding flush
flush-base w d force = ground arith

module _ (n : Bytes) (w : VLogWriter) (d : Disk) (beside : IsBeside w.base_path n) where
  pub find-flush : (force : Bool) → Map.find n (flush force w d).1 ≡ Map.find n d
  unfolding flush
  find-flush force =
      ground (arith, find-append_file n (active w) w.buffer d (beside w.current_file_id))

  flush-IsLeft : IsLeft n w d (flush true w d).0 (flush true w d).1
  flush-IsLeft = (flush-base w d true, find-flush true)

-- The name is beside the log of a writer with the same base path.
moved : (n : Bytes) (b b' : Bytes) → b' ≡ b → IsBeside b n → IsBeside b' n
moved n b b' e beside = λ id. ap (λ c. n =ˢ segment c id) e ∙ beside id

rotate-IsLeft :
    (n : Bytes) (w : VLogWriter) (d : Disk)
    → IsBeside w.base_path n
    → IsLeft n w d (rotate w d).0 (rotate w d).1
unfolding rotate
rotate-IsLeft n w d beside =
    let (base, same) = flush-IsLeft n w d beside in
    let r = flush true w d in
    let there = moved n w.base_path r.0.base_path base beside in
    (
      base,
      ground (
        arith,
        Map.find-insert (active (rotate w d).0) n [] r.1,
        there (rotate w d).0.current_file_id,
        same,
      ),
    )

module _ (n : Bytes) (key value : Bytes) (type : ValueType) (w : VLogWriter) (d : Disk)
    (beside : IsBeside w.base_path n) where
  append_large-IsLeft :
      IsLeft n w d (append_large key value type w d).0 (append_large key value type w d).1
  unfolding append_large
  append_large-IsLeft =
      let (base, same) = flush-IsLeft n w d beside in
      let r = flush true w d in
      let there = moved n w.base_path r.0.base_path base beside in
      (
        base,
        find-append_file n (active r.0) (entry_bytes key value type) r.1 (there r.0.current_file_id)
            ∙ same,
      )

  append_small-IsLeft :
      IsLeft n w d (append_small key value type w d).0 (append_small key value type w d).1
  unfolding append_small
  append_small-IsLeft =
      elim (Bool-cases (ltb buffer_size (length w.buffer + total_entry_size key value))) [
        | inl crowded ↦ rw (crowded, append_small) (flush-IsLeft n w d beside)
        | inr roomy ↦ rw (roomy, append_small) (refl, refl)
      ]

  step-IsLeft :
      let r =
        if ltb buffer_size (total_entry_size key value)
        then append_large key value type w d
        else append_small key value type w d in
      IsLeft n w d r.0 r.1
  step-IsLeft = elim (Bool-cases (ltb buffer_size (total_entry_size key value))) [
    | inl big ↦ rw big append_large-IsLeft
    | inr little ↦ rw little append_small-IsLeft
  ]

-- `append_entry` leaves a file that is no segment of the log as it is, and the base path.
pub append_entry-IsLeft :
    (n : Bytes) (key value : Bytes) (type : ValueType) (w : VLogWriter) (d : Disk)
    → IsBeside w.base_path n
    → IsLeft n w d (append_entry key value type w d).0 (append_entry key value type w d).1
unfolding append_entry
append_entry-IsLeft n key value type w d beside =
    elim (Bool-cases
      (ltb max_log_size (w.current_size + length w.buffer + total_entry_size key value))) [
        | inl full ↦
            let r = rotate w d in
            let left = rotate-IsLeft n w d beside in
            let there = moved n w.base_path r.0.base_path left.0 beside in
            let (base, same) = step-IsLeft n key value type r.0 r.1 there in
            rw (full, append_entry) (base ∙ left.0, same ∙ left.1)
        | inr roomy ↦ rw (roomy, append_entry) (step-IsLeft n key value type w d beside)
      ]
