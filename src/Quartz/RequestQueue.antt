-- ===== src/Quartz/RequestQueue.antt =====
-- src/quartz/internal.hpp, class request_priority_queue: a binary heap, least priority first, in an
-- array whose head moves round when a request is popped. Requests are named by numbers; `priority`
-- is their member queuePriority. The capacity is a power of two, so `indexMask & n` is the
-- remainder by it.
pub mod Window
pub mod Insert
pub mod Contents
pub mod Extract
pub mod Order
pub mod Heapify
use jemsys.Base.{
  ℕ, zero, suc, ◌+◌, ◌-◌, ◌*◌, ◌/◌, ◌%◌, ltb, leb, ◌==◌, if◌then◌else◌, Bool, true, false, ◌&&◌,
  Option, none, some, update,
}

pub record RequestQueue : Type 0 where
  pub capacity : ℕ
  pub queue_head_index : ℕ
  pub queue_size : ℕ
  pub entry_array : ℕ → ℕ

abbrev pub parent : ℕ → ℕ
parent i = i / 2

abbrev pub left : ℕ → ℕ
left i = 2 * i

abbrev pub right : ℕ → ℕ
right i = 2 * i + 1

unfoldable pub make_queue : ℕ → (ℕ → ℕ) → RequestQueue
make_queue capacity memory = record {
  capacity = capacity;
  queue_head_index = 0;
  queue_size = 0;
  entry_array = memory;
}

-- The position in the array of the `i`th entry.
abbrev pub position : RequestQueue → ℕ → ℕ
position q i = (q.queue_head_index + i) % q.capacity

unfoldable pub lookup : RequestQueue → ℕ → ℕ
lookup q i = q.entry_array (position q i)

unfoldable pub assign : RequestQueue → ℕ → ℕ → RequestQueue
assign q i r = record q { entry_array = update q.entry_array (position q i) r }

unfoldable pub exchange : RequestQueue → ℕ → ℕ → RequestQueue
exchange q i j = assign (assign q i (lookup q j)) j (lookup q i)

-- lookup(++queueSize) = request
unfoldable pub append : RequestQueue → ℕ → RequestQueue
append q request = assign (record q { queue_size = q.queue_size + 1 }) (q.queue_size + 1) request

module _ (priority : ℕ → ℕ) where
  abbrev pub is_less_than : RequestQueue → ℕ → ℕ → Bool
  is_less_than q a b = ltb (priority (lookup q a)) (priority (lookup q b))

  -- Each round goes to a child, so that `queue_size` rounds reach a leaf.
  unfoldable pub heapify : ℕ → RequestQueue → ℕ → RequestQueue
  heapify zero q i = q
  heapify (suc fuel) q i =
      let s = if is_less_than q (left i) (right i) then left i else right i in
      let deeper = heapify fuel (exchange q s i) s in
      if ltb q.queue_size (left i)
      then q
      else if ltb q.queue_size (right i)
      then (if is_less_than q (left i) i then exchange q (left i) i else q)
      else if is_less_than q s i
      then deeper
      else q

  -- The loop of `build_heap`, from `i` down to 1.
  unfoldable pub build_from : ℕ → RequestQueue → RequestQueue
  build_from zero q = q
  build_from (suc i) q = build_from i (heapify q.queue_size q (suc i))

  unfoldable pub build_heap : RequestQueue → RequestQueue
  build_heap q = build_from (parent q.queue_size) q

  -- The loop of `rebalance_after_insert`: the new entry at `node` rises. Its index is halved each
  -- round.
  unfoldable pub rise : ℕ → RequestQueue → ℕ → RequestQueue
  rise zero q node = q
  rise (suc fuel) q node =
      let higher = rise fuel (exchange q node (parent node)) (parent node) in
      if parent node == 0
      then q
      else if leb (priority (lookup q (parent node))) (priority (lookup q node))
      then q
      else higher

  unfoldable pub insert : RequestQueue → ℕ → RequestQueue
  insert q request = let q' = append q request in rise q'.queue_size q' q'.queue_size

  -- The innermost loop of `rebalance_after_pop`: `p` and `node` are an entry and the one it is
  -- compared with.
  unfoldable pub bubble : ℕ → RequestQueue → ℕ → ℕ → ℕ → RequestQueue
  bubble zero q p node last = q
  bubble (suc fuel) q p node last =
      let deeper = bubble fuel (exchange q p node) node (2 * node) last in
      if ltb (priority (lookup q p)) (priority (lookup q node))
      then q
      else if leb (2 * node) last
      then deeper
      else exchange q p node

  -- The middle loop: from `j` up to the first entry with an odd index.
  unfoldable pub climb : ℕ → RequestQueue → ℕ → ℕ → RequestQueue
  climb zero q j last = q
  climb (suc fuel) q j last =
      let q' = bubble (suc last) q (parent j) j last in
      let higher = climb fuel q' (parent j) last in if parent j % 2 == 0 then higher else q'

  -- The outer loop: every left leaf.
  unfoldable pub each_leaf : ℕ → RequestQueue → ℕ → RequestQueue
  each_leaf zero q i = q
  each_leaf (suc fuel) q i =
      let next = each_leaf fuel (climb (suc i) q i i) (i + 2) in
      if leb i q.queue_size then next else q

  unfoldable pub rebalance_after_pop : RequestQueue → RequestQueue
  rebalance_after_pop q =
      let start = parent q.queue_size in
      each_leaf (suc q.queue_size) q ((if start % 2 == 0 then start + 1 else start) + 1)

  unfoldable pub peek : RequestQueue → ℕ
  peek q = lookup q 1

  unfoldable pub pop : RequestQueue → ℕ × RequestQueue
  pop q = (
    peek q,
    rebalance_after_pop (record q {
      queue_head_index = (q.queue_head_index + 1) % q.capacity;
      queue_size = q.queue_size - 1;
    }),
  )

  unfoldable pub is_valid_heap_subtree : ℕ → RequestQueue → ℕ → Bool
  is_valid_heap_subtree zero q i = true
  is_valid_heap_subtree (suc fuel) q i =
      let ordered_left = leb (priority (lookup q i)) (priority (lookup q (left i))) in
      let ordered_right = leb (priority (lookup q i)) (priority (lookup q (right i))) in
      let below = is_valid_heap_subtree fuel q (left i) && is_valid_heap_subtree fuel q (right i) in
      if ltb q.queue_size (left i)
      then true
      else if left i == q.queue_size
      then ordered_left
      else ordered_left && (ordered_right && below)

  unfoldable pub is_valid_heap : RequestQueue → Bool
  is_valid_heap q = is_valid_heap_subtree (suc q.queue_size) q 1
