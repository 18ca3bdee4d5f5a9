-- ===== src/Quartz/RequestQueue/Order.antt =====
-- The order of the priority queue in src/quartz/internal.hpp: its root and its own test.
use jemsys.Base.{ℕ, zero, suc, ◌+◌, ◌*◌, ◌/◌, ◌≤◌, ◌<◌, ◌≡◌, refl, inl, inr, true, arith, eq-cases}
use jemsys.Quartz.RequestQueue.{
  RequestQueue, lookup, pop, peek, is_valid_heap_subtree, is_valid_heap,
}
use jemsys.Quartz.RequestQueue.Insert.{IsHeap, key}

root_le : (k : ℕ → ℕ) (n fuel i : ℕ) → IsHeap k n → i ≤ fuel → 0 < i → i ≤ n → k 1 ≤ k i
root_le k n zero i h f l u = absurd (omega arith)
root_le k n (suc fuel) i h f l u = elim (eq-cases i 1) [
  | inl e ↦ ground (arith, e)
  | inr ne ↦ ground (
    arith,
    h i (omega arith) u,
    root_le k n fuel (i / 2) h (omega arith) (omega arith) (omega arith),
  )
]

module _ (priority : ℕ → ℕ) where
  -- What `pop` takes from a queue in heap order has the least priority of all its entries.
  pub pop-least :
      (q : RequestQueue) (i : ℕ)
      → IsHeap (key priority q) q.queue_size
      → 0 < i
      → i ≤ q.queue_size
      → priority (pop priority q).0 ≤ priority (lookup q i)
  unfolding pop peek
  pop-least q i h l u = root_le (key priority q) q.queue_size i i h (omega arith) l u

  -- The test of a subtree passes on a heap in order.
  subtree-valid :
      (fuel : ℕ) (q : RequestQueue) (i : ℕ)
      → IsHeap (key priority q) q.queue_size
      → 0 < i
      → is_valid_heap_subtree priority fuel q i ≡ true
  unfolding is_valid_heap_subtree
  subtree-valid zero q i h l = refl
  subtree-valid (suc fuel) q i h l = ground (
    arith,
    h (2 * i),
    h (2 * i + 1),
    subtree-valid fuel q (2 * i) h,
    subtree-valid fuel q (2 * i + 1) h,
  )

  -- The queue's own test passes on every queue in heap order.
  pub is_valid_heap-IsHeap :
      (q : RequestQueue) → IsHeap (key priority q) q.queue_size → is_valid_heap priority q ≡ true
  unfolding is_valid_heap
  is_valid_heap-IsHeap q h = subtree-valid (suc q.queue_size) q 1 h (omega arith)
