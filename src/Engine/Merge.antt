-- ===== src/Engine/Merge.antt =====
-- The iterators of src/vortex.h and `MergingIterator` of src/vortex.cpp. `std::priority_queue` is a
-- list in the order of its nodes: no two nodes have the same key and the same priority, and a node's
-- key changes only while it is out of the queue.
pub mod Views
pub mod Streams
pub mod First
pub mod Settle
pub mod Collect
pub mod Nodes
pub mod Sources
use vortex_db.Base.{
  ℕ, lt, eq, gt, zero, suc, ◌+◌, Bool, true, false, ◌==◌, List, [], ◌∷◌, length, ltb, if◌then◌else◌,
}
use vortex_db.Base.Words.{Bytes}
use vortex_db.Base.Order.{lex, is_eq, is_gt}
use vortex_db.Base.Map.{Map, lower_bound}
use vortex_db.Files.{Run, ok, indeterminate, ◌>>=◌}
use vortex_db.Vlog.{ValuePointer}
use vortex_db.SsTable
use vortex_db.SsTable.{SsTableIterator}

-- The two classes that implement `InternalIterator`. The second member of a memtable's iterator is
-- the part of the map from its position on.
pub data InternalIterator : Type 0 where
  memtable_iterator : Map ValuePointer → Map ValuePointer → InternalIterator
  sst_iterator : SsTableIterator → InternalIterator

unfoldable pub valid : InternalIterator → Bool
valid (memtable_iterator entries []) = false
valid (memtable_iterator entries (e ∷ rest)) = true
valid (sst_iterator it) = it.is_valid

unfoldable pub seek : Bytes → InternalIterator → Run InternalIterator
seek target (memtable_iterator entries rest) =
    ok (memtable_iterator entries (lower_bound target entries))
seek target (sst_iterator it) = do it' ← SsTable.seek target it; ok (sst_iterator it')

-- The end of a map has no successor.
unfoldable pub next : InternalIterator → Run InternalIterator
next (memtable_iterator entries []) = indeterminate
next (memtable_iterator entries (e ∷ rest)) = ok (memtable_iterator entries rest)
next (sst_iterator it) = do it' ← SsTable.next it; ok (sst_iterator it')

-- `key` and `value` are called on a valid iterator only; the end of a map has neither.
unfoldable pub key : InternalIterator → Bytes
key (memtable_iterator entries []) = []
key (memtable_iterator entries (e ∷ rest)) = e.0
key (sst_iterator it) = it.cur_key

unfoldable pub value : InternalIterator → ValuePointer
value (memtable_iterator entries []) = record { file_id = 0; value_size = 0; offset = 0 }
value (memtable_iterator entries (e ∷ rest)) = e.1
value (sst_iterator it) = it.cur_ptr

pub record IterNode : Type 0 where
  pub iter : InternalIterator
  pub priority : ℕ

-- `operator>` on keys and priorities.
unfoldable pub is_after : Bytes → ℕ → Bytes → ℕ → Bool
is_after k i j h = elim (lex k j) [ lt ↦ false | gt ↦ true | eq ↦ ltb h i ]

-- `pq.push(node)`
unfoldable pub push : IterNode → List IterNode → List IterNode
unfolding is_after
push node [] = node ∷ []
push node (n ∷ pq) =
    let rest = push node pq in
    if is_after (key node.iter) node.priority (key n.iter) n.priority
    then n ∷ rest
    else node ∷ n ∷ pq

-- An iterator goes into the queue unless it is at its end.
unfoldable pub push_back : InternalIterator → ℕ → List IterNode → List IterNode
unfolding push valid
push_back it i pq = if valid it then push (record { iter = it; priority = i }) pq else pq

-- The loop of `MergingIterator::seek`; the next iterator has the number `i`.
unfoldable pub seek_all : Bytes → ℕ → List InternalIterator → List IterNode → Run (List IterNode)
unfolding push_back seek
seek_all target i [] pq = ok pq
seek_all target i (it ∷ iters) pq = do
  it' ← seek target it
  seek_all target (i + 1) iters (push_back it' i pq)

-- The loop of `MergingIterator::next`. A run that is out of fuel has no result.
unfoldable pub advance : ℕ → Bytes → List IterNode → Run (List IterNode)
unfolding push_back next
advance fuel current_key [] = ok []
advance zero current_key (top ∷ pq) = indeterminate
advance (suc fuel) current_key (top ∷ pq) =
    let rest = next top.iter >>= λ it. advance fuel current_key (push_back it top.priority pq) in
    if is_eq (lex (key top.iter) current_key) then rest else ok (top ∷ pq)

-- `MergingIterator::next`. The rounds are bounded by the number of the nodes and one more.
unfoldable pub merge_next : List IterNode → Run (List IterNode)
unfolding advance
merge_next [] = ok []
merge_next (top ∷ pq) = advance (suc (suc (length pq))) (key top.iter) (top ∷ pq)
