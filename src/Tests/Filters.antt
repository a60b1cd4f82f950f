-- ===== src/Tests/Filters.antt =====
-- The cuckoo filter and the manifest at small inputs (src/cuckoo.cpp, src/manifest.cpp).
use vortex_db.Base.{ℕ, ◌≡◌, refl, true, List, [], ◌∷◌, arith}
use vortex_db.Base.Words.{Bytes}
use vortex_db.Files.{ok}
use vortex_db.Cuckoo
use vortex_db.Cuckoo.{
  CuckooFilter, hash_string, hash_int, create_fingerprint, get_index, get_alt_index, fingerprint,
  first_index, second_index, bucket, place, add_item, kick, either_has, contains, insert, remove,
}
use vortex_db.Cuckoo.Conserve.{Conserves, insert-Conserves}
use vortex_db.Cuckoo.Valid.{IsValid, new-IsValid, insert-IsValid, Removes, remove-Removes}
use vortex_db.Cuckoo.Membership.{has, contains-insert}
use vortex_db.Manifest.{save, load}
use vortex_db.Manifest.Reload.{load-save}

-- Three buckets, and draws that are always zero.
abbrev small_filter : CuckooFilter
small_filter = Cuckoo.new 3

abbrev no_draw : ℕ → ℕ
no_draw n = 0

abbrev key_a : Bytes
key_a = b'a' ∷ []

hash_of_a : hash_string key_a ≡ 0xe40c292c
unfolding hash_string
hash_of_a = refl

-- A filter of the default size, of which only the number of buckets is read.
abbrev wide_filter : CuckooFilter
wide_filter = record { num_buckets = 10000; num_items = 0; buckets = [] }

-- The alternate index is no involution: from 0 it leads to 5495, and from there to 2208.
alternate : (get_alt_index wide_filter 0 1 ≡ 5495) × (get_alt_index wide_filter 5495 1 ≡ 2208)
unfolding get_alt_index hash_int
alternate = (refl, refl)

small_filter-IsValid : IsValid small_filter
small_filter-IsValid = new-IsValid 3 (omega arith) (omega arith)

insert-Conserves_example :
    (lost : ℕ) × Conserves (fingerprint key_a) lost small_filter (insert no_draw small_filter key_a)
insert-Conserves_example = insert-Conserves no_draw small_filter key_a small_filter-IsValid.table

insert-IsValid_example : IsValid (insert no_draw small_filter key_a).1
insert-IsValid_example = insert-IsValid no_draw small_filter key_a small_filter-IsValid

remove-Removes_example : Removes (fingerprint key_a) small_filter (remove small_filter key_a)
remove-Removes_example = remove-Removes small_filter key_a small_filter-IsValid

contains-insert_example :
    ((insert no_draw small_filter key_a).0 ≡ true)
    × (contains (insert no_draw small_filter key_a).1 key_a ≡ true)
    × ((q : Bytes)
        → contains small_filter q ≡ true
        → contains (insert no_draw small_filter key_a).1 q ≡ true)
unfolding Cuckoo.new hash_string create_fingerprint get_index get_alt_index hash_int has
contains-insert_example = contains-insert no_draw small_filter key_a small_filter-IsValid.table refl

abbrev names : List Bytes
names = (b'a' ∷ b'.' ∷ b's' ∷ []) ∷ (b'b' ∷ []) ∷ []

load-save_example :
    load
      (record { filepath = key_a; sst_filenames = [] })
      (save (record { filepath = key_a; sst_filenames = names }) [])
    ≡ ok (record { filepath = key_a; sst_filenames = names })
load-save_example = load-save key_a names [] [] (omega arith) (omega arith)
