-- ===== src/Agate2/Pool/Exhausted.antt =====
-- A new pool of src/agate2/pool.hpp: its blocks, what happens behind the last of them, and what its
-- destructor gives back.
use jemsys.Base.{
  ℕ, zero, suc, ◌+◌, ◌-◌, ◌*◌, ◌%◌, ◌^◌, ◌<◌, ◌≡◌, ◌≢◌, refl, sym, ap, ◌∙◌, subst, Bool, true,
  false, none, some, [], ◌∷◌, length, arith, update, Stack, ◌==◌, ltb, if◌then◌else◌,
}
use jemsys.Agate2.Pool.{
  Pool, is_full, thread_blocks, find_alloc_slab, next_slab, take_block, alloc_block, empty_pool,
  make_pool, make_new_slab, add_slab, grow, destroyed, lookup_block,
}
use jemsys.Agate2.Pool.Blocks.{
  blocks_from, thread_blocks-Stack, FreeBlocks, allocs, drained, allocs-FreeBlocks, drained-kept,
}

length-blocks_from : (slab size i n : ℕ) → length (blocks_from slab size i n) ≡ n
length-blocks_from slab size i zero = refl
length-blocks_from slab size i (suc n) = ap suc (length-blocks_from slab size (suc i) n)

update_self : (f : ℕ → ℕ) (a v : ℕ) → update f a v a ≡ v
update_self f a v = ground arith

-- A new slab has all its blocks free.
add_slab-FreeBlocks :
    (fresh n : ℕ) (p : Pool)
    → p.blocks_per_slab ≡ suc n
    → suc n < 2 ^ 32
    → 0 < p.block_size
    → fresh ≢ 0
    → FreeBlocks (add_slab fresh p) (blocks_from fresh p.block_size 1 (suc n))
unfolding add_slab lookup_block
add_slab-FreeBlocks fresh n p e h z f =
    let size = p.block_size in
    let word = thread_blocks fresh size 1 (p.blocks_per_slab - 1) p.word in
    let count : p.blocks_per_slab - 1 ≡ n = omega arith in
    let blocks = blocks_from fresh size 1 (suc n) in
    (
      subst (λ t. Stack word t blocks) (sym (update_self p.next_free fresh (fresh + 1 * size)))
          (subst (λ k. Stack (thread_blocks fresh size 1 k p.word) (fresh + 1 * size) blocks)
            (sym count) (thread_blocks-Stack fresh size 1 n p.word z)),
      update_self p.available fresh (p.blocks_per_slab % 2 ^ 32)
          ∙ omega (arith, e, h)
          ∙ sym (length-blocks_from fresh size 1 (suc n)),
      subst (λ k. k < 2 ^ 64) (sym (length-blocks_from fresh size 1 (suc n))) (omega arith),
      f,
    )

make_pool_eq :
    (size blocks fresh : ℕ) (moved : Bool)
    → make_pool size blocks fresh moved ≡ add_slab fresh (empty_pool size blocks)
unfolding make_pool make_new_slab grow empty_pool
make_pool_eq size blocks fresh moved = refl

empty_pool-size : (size blocks : ℕ) → 0 < (empty_pool size blocks).block_size
unfolding empty_pool
empty_pool-size size blocks = ground arith

-- A slab that is full, with the array's next entry still null, ends the pool: alloc_block reads a
-- null slab.
alloc_block-null :
    (fresh : ℕ) (moved : Bool) (p : Pool)
    → p.available p.alloc_slab ≡ 0
    → p.stack p.full_stack ≡ p.alloc_slab
    → p.full_stack ≢ p.head
    → p.stack (suc p.full_stack) ≡ 0
    → alloc_block fresh moved p ≡ none
unfolding alloc_block find_alloc_slab next_slab take_block is_full
alloc_block-null fresh moved p full at behind null =
    let is_full : (p.available p.alloc_slab == 0) ≡ true = ground arith in
    let not_last : (p.full_stack == p.head) ≡ false = ground arith in
    let same : (p.alloc_slab == p.stack p.full_stack) ≡ true = ground arith in
    rw (is_full, not_last, same, null) refl

-- The entries of a new pool.
new_entries :
    (fresh size blocks : ℕ)
    → let p = add_slab fresh (empty_pool size blocks) in
      (p.stack p.full_stack ≡ p.alloc_slab)
      × (p.full_stack ≢ p.head)
      × (p.stack (suc p.full_stack) ≡ 0)
unfolding empty_pool add_slab
new_entries fresh size blocks = (refl, (λ e. absurd (omega (arith, e))), refl)

-- A new pool of two to 2^32 blocks for each slab gives out the blocks of its slab in order, block
-- by block behind the header, as many as are asked for less one. When they are used up, the next
-- allocation reads a null slab, whatever the allocators would give: findAllocSlab moves on to the
-- entry behind the last slab, and a second slab is never made.
pub make_pool-allocs :
    (size n fresh other : ℕ) (moved again : Bool)
    → suc n < 2 ^ 32
    → fresh ≢ 0
    → (p : Pool) × (allocs other again (suc n) (make_pool size (suc (suc n)) fresh moved)
        ≡ some (p, blocks_from fresh (if ltb size 24 then 24 else size) 1 (suc n)))
      × (alloc_block other again p ≡ none)
unfolding empty_pool
make_pool-allocs size n fresh other moved again h z =
    let e = empty_pool size (suc (suc n)) in
    let new = add_slab fresh e in
    let blocks = blocks_from fresh e.block_size 1 (suc n) in
    let f = add_slab-FreeBlocks fresh n e (omega arith) h (empty_pool-size size (suc (suc n))) z in
    let a = allocs-FreeBlocks other again new blocks f in
    let k = drained-kept blocks new in
    let first = new_entries fresh size (suc (suc n)) in
    (
      drained blocks new,
      ap (allocs other again (suc n)) (make_pool_eq size (suc (suc n)) fresh moved)
          ∙ ap (λ l. allocs other again l new)
              (sym (length-blocks_from fresh e.block_size 1 (suc n)))
          ∙ a.0,
      alloc_block-null other again (drained blocks new) a.1.1 (rw (k.1, k.3, k.0) first.0)
          (rw (k.3, k.2) first.1) (rw (k.1, k.3) first.2),
    )

-- The destructor of a new pool gives back a null slab and keeps the one that there is: it reads the
-- entry behind the last and stops above the first.
pub destroyed-make_pool :
    (size blocks fresh : ℕ) (moved : Bool)
    → let p = make_pool size blocks fresh moved in
      (destroyed p.stack p.head ≡ 0 ∷ []) × (p.stack 0 ≡ fresh)
unfolding destroyed make_pool make_new_slab grow add_slab empty_pool
destroyed-make_pool size blocks fresh moved = (refl, refl)
