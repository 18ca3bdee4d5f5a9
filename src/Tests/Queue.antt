-- ===== src/Tests/Queue.antt =====
-- A priority queue of capacity 4 whose head has moved round.
use jemsys.Base.{ℕ, ◌+◌, ◌≡◌, ◌==◌, if◌then◌else◌, refl, true, false, arith}
use jemsys.Quartz.RequestQueue.{
  RequestQueue, lookup, insert, pop, is_valid_heap, is_valid_heap_subtree, build_heap,
  rebalance_after_pop, each_leaf, climb, bubble, exchange, assign, peek,
}
use jemsys.Quartz.RequestQueue.Heapify.{build_heap-IsHeap}
use jemsys.Quartz.RequestQueue.Insert.{IsHeap, key}
use jemsys.Quartz.RequestQueue.Contents.{tally}
use jemsys.Quartz.RequestQueue.Extract.{pop-contents, insert_lem}

-- A request's priority is its number.
abbrev priority : ℕ → ℕ
priority r = r

abbrev cells : ℕ → ℕ
cells p = if p == 3 then 10 else 20

-- The entries 10 and 20, in the cells 3 and 0.
abbrev queue : RequestQueue
queue = record { capacity = 4; queue_head_index = 2; queue_size = 2; entry_array = cells }

queue-IsHeap : IsHeap (key priority queue) 2
unfolding lookup
queue-IsHeap i l u = rw two (ground arith)
  where
    two : i ≡ 2
    two = omega arith

insert_lem_example :
    let q' = insert priority queue 5 in
    IsHeap (key priority q') 3
    × (q'.queue_size ≡ 3)
    × ((r : ℕ) → tally (lookup q') 3 r ≡ tally (lookup queue) 2 r + (if 5 == r then 1 else 0))
insert_lem_example = insert_lem priority queue 5 (ground arith) (ground arith) queue-IsHeap

pop-contents_example :
    let (taken, q') = pop priority queue in
    (taken ≡ lookup queue 1)
    × (q'.queue_size ≡ 1)
    × ((if taken == 20 then 1 else 0) + tally (lookup q') 1 20 ≡ tally (lookup queue) 2 20)
pop-contents_example = pop-contents priority queue 1 20 (ground arith) refl (ground arith)

-- Out of order.
abbrev scattered : RequestQueue
scattered = record queue { entry_array = λ p. if p == 3 then 20 else 10 }

build_heap-IsHeap_example :
    let q' = build_heap priority scattered in
    IsHeap (key priority q') 2
    × (q'.queue_size ≡ 2)
    × ((r : ℕ) → tally (lookup q') 2 r ≡ tally (lookup scattered) 2 r)
build_heap-IsHeap_example = build_heap-IsHeap priority scattered (ground arith) (ground arith)

-- The entries 1 5 2 7 6 3 8 are in heap order; after a pop, 5 stands over 3.
abbrev seven : RequestQueue
seven = record {
  capacity = 8;
  queue_head_index = 0;
  queue_size = 7;
  entry_array = λ p.
      if p == 1
      then 1
      else if p == 2
      then 5
      else if p == 3
      then 2
      else if p == 4
      then 7
      else if p == 5
      then 6
      else if p == 6
      then 3
      else 8;
}

heap_before_pop : is_valid_heap priority seven ≡ true
unfolding is_valid_heap is_valid_heap_subtree lookup
heap_before_pop = refl

no_heap_after_pop : is_valid_heap priority (pop priority seven).1 ≡ false
unfolding is_valid_heap is_valid_heap_subtree lookup pop rebalance_after_pop each_leaf climb bubble
    exchange assign peek
no_heap_after_pop = refl
