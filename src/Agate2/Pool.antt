-- ===== src/Agate2/Pool.antt =====
-- src/agate2/pool.hpp, class Pool: blocks of one size, in slabs that stand in an array. Slabs and
-- blocks are named by their addresses, entries of the array by their index; 0 is the null pointer.
-- `fresh` is the slab that the allocator returns, `moved` whether the array moves when it grows.
pub mod Blocks
pub mod Exhausted
pub mod Reuse
pub mod Bounds
use Prim.Native.Nat.{bit_and}
use jemsys.Base.{
  ℕ, zero, suc, ◌+◌, ◌-◌, ◌*◌, ◌/◌, ◌%◌, ◌^◌, Bool, not, ◌&&◌, Option, none, some, List, [], ◌∷◌,
  ◌==◌, ltb, if◌then◌else◌, update,
}

pub record Pool : Type 0 where
  pub block_size : ℕ
  pub blocks_per_slab : ℕ
  pub stack : ℕ → ℕ
  pub head : ℕ
  pub top : ℕ
  pub full_stack : ℕ
  pub alloc_slab : ℕ
  pub free_slab : ℕ
  pub slab_alignment : ℕ
  pub available : ℕ → ℕ
  pub next_free : ℕ → ℕ
  pub position : ℕ → ℕ
  pub word : ℕ → ℕ
  pub released : List ℕ

unfoldable pub lookup_block : Pool → ℕ → ℕ → ℕ
lookup_block p slab i = slab + i * p.block_size

-- The mask is ~(slabAlignment - 1) on 64 bits.
unfoldable pub lookup_slab : Pool → ℕ → ℕ
lookup_slab p block = bit_and block (2 ^ 64 - p.slab_alignment)

unfoldable pub index_of_block : Pool → ℕ → ℕ → ℕ
index_of_block p slab block = (block - slab) / p.block_size

unfoldable pub is_empty : Pool → ℕ → Bool
is_empty p s = p.available s == p.blocks_per_slab

unfoldable pub is_full : Pool → ℕ → Bool
is_full p s = p.available s == 0

-- The loop over the entries, after the array has moved: each slab learns its entry again.
unfoldable pub reposition : (ℕ → ℕ) → ℕ → (ℕ → ℕ) → ℕ → ℕ
reposition stack zero position = position
reposition stack (suc n) position = update (reposition stack n position) (stack n) n

-- The start of makeNewSlab. An array that grows in place keeps its bounds.
unfoldable pub grow : Bool → Pool → Pool
unfolding reposition
grow moved p =
    if (p.head == p.top) && moved
    then (record p {
      top = 2 * p.top;
      head = p.top;
      full_stack = p.top;
      position = reposition p.stack p.top p.position;
    })
    else p

-- The loop over the blocks from `i` on; the last one keeps the zero of the new slab. Its counter
-- has 32 bits: this is the loop for fewer than 2^32 blocks, and it does not end for more.
unfoldable pub thread_blocks : ℕ → ℕ → ℕ → ℕ → (ℕ → ℕ) → ℕ → ℕ
thread_blocks slab size i zero word = update word (slab + i * size) 0
thread_blocks slab size i (suc k) word =
    thread_blocks slab size (suc i) k (update word (slab + i * size) (slab + suc i * size))

-- The rest of makeNewSlab, for fewer than 2^32 blocks.
unfoldable pub add_slab : ℕ → Pool → Pool
unfolding lookup_block thread_blocks
add_slab fresh p = record p {
  stack = update p.stack p.head fresh;
  available = update p.available fresh (p.blocks_per_slab % 2 ^ 32);
  next_free = update p.next_free fresh (lookup_block p fresh 1);
  position = update p.position fresh p.head;
  alloc_slab = fresh;
  word = thread_blocks fresh p.block_size 1 (p.blocks_per_slab - 1) p.word;
  head = suc p.head;
}

unfoldable pub make_new_slab : ℕ → Bool → Pool → Pool
unfolding add_slab grow
make_new_slab fresh moved p = add_slab fresh (grow moved p)

unfoldable pub swap_slabs : ℕ → ℕ → Pool → Pool
swap_slabs a b p =
    let at_a = p.position a in
    let at_b = p.position b in
    record p {
      stack = update (update p.stack at_a (p.stack at_b)) at_b (p.stack at_a);
      position = update (update p.position a at_b) b at_a;
    }

-- The end of findAllocSlab: the entry behind the full slabs becomes the slab to allocate from.
unfoldable pub next_slab : Pool → Pool
unfolding swap_slabs
next_slab p =
    let q =
      if p.alloc_slab == p.stack p.full_stack
      then p
      else swap_slabs p.alloc_slab (p.stack p.full_stack) p in
    record q { full_stack = suc q.full_stack; alloc_slab = q.stack (suc q.full_stack) }

unfoldable pub find_alloc_slab : ℕ → Bool → Pool → Pool
unfolding is_full make_new_slab next_slab
find_alloc_slab fresh moved p =
    if is_full p p.alloc_slab
    then (if p.full_stack == p.head then make_new_slab fresh moved p else next_slab p)
    else p

-- `none`: a null slab is read.
unfoldable pub take_block : Pool → Option (Pool × ℕ)
take_block p =
    let s = p.alloc_slab in
    let block = p.next_free s in
    if s == 0
    then none
    else some (
      record p {
        next_free = update p.next_free s (p.word block);
        available = update p.available s ((p.available s + (2 ^ 64 - 1)) % 2 ^ 64);
        free_slab = if p.free_slab == s then 0 else p.free_slab;
      },
      block,
    )

unfoldable pub alloc_block : ℕ → Bool → Pool → Option (Pool × ℕ)
alloc_block fresh moved p = take_block (find_alloc_slab fresh moved p)

unfoldable pub remove_stack_entry : ℕ → Pool → Pool
remove_stack_entry s p =
    let last = p.head - 1 in
    let at = p.position s in
    let q = if at == last then p else record p {
      position = update p.position (p.stack last) at;
      stack = update (update p.stack at (p.stack last)) last (p.stack at);
    } in
    record q { head = last; released = q.stack last ∷ q.released }

unfoldable pub prune_slabs : ℕ → Pool → Pool
prune_slabs s p =
    if is_empty p s
    then (let q =
          if not (p.free_slab == 0) && is_empty p p.free_slab
          then remove_stack_entry p.free_slab p
          else p in
        record q { free_slab = s })
    else if ltb (p.position s) p.full_stack
    then (let q = record p { full_stack = p.full_stack - 1 } in
        if q.position s == q.full_stack then q else swap_slabs s (q.stack q.full_stack) q)
    else p

unfoldable pub free_block : ℕ → Pool → Pool
free_block block p =
    let s = lookup_slab p block in
    let q = record p {
      word = update p.word block (p.next_free s);
      next_free = update p.next_free s block;
      available = update p.available s ((p.available s + 1) % 2 ^ 64);
    } in
    record (prune_slabs s q) { alloc_slab = s }

unfoldable pub block_alignment : Pool → ℕ
block_alignment p = bit_and (2 ^ 64 - p.block_size) p.block_size

-- The least power of 2 that is not below n, out of those up to 2^k.
unfoldable pub bit_ceil : ℕ → ℕ → ℕ
bit_ceil zero n = 1
bit_ceil (suc k) n = let below = bit_ceil k n in if ltb (2 ^ k) n then 2 ^ suc k else below

-- The constructor's fields; the array has four entries, which are null.
unfoldable pub empty_pool : ℕ → ℕ → Pool
empty_pool block_size blocks =
    let size = if ltb block_size 24 then 24 else block_size in
    record {
      block_size = size;
      blocks_per_slab = blocks - 1;
      stack = λ _. 0;
      head = 0;
      top = 4;
      full_stack = 0;
      alloc_slab = 0;
      free_slab = 0;
      slab_alignment = bit_ceil 64 (size * blocks);
      available = λ _. 0;
      next_free = λ _. 0;
      position = λ _. 0;
      word = λ _. 0;
      released = [];
    }

-- The constructor.
unfoldable pub make_pool : ℕ → ℕ → ℕ → Bool → Pool
make_pool block_size blocks fresh moved = make_new_slab fresh moved (empty_pool block_size blocks)

-- The destructor: the slabs that it gives back, in order.
unfoldable pub destroyed : (ℕ → ℕ) → ℕ → List ℕ
destroyed stack zero = []
destroyed stack (suc head) = stack (suc head) ∷ destroyed stack head
