-- ===== src/Agate2/Pool/Blocks.antt =====
-- The blocks that the pools of src/agate2/pool.hpp give out: the chain of free blocks of a slab,
-- and where the blocks lie.
use jemsys.Base.{
  ℕ, zero, suc, ◌+◌, ◌-◌, ◌*◌, ◌%◌, ◌^◌, ◌<◌, ◌≡◌, ◌≢◌, refl, sym, ap, ◌∙◌, subst, Bool, false,
  Option, none, some, List, [], ◌∷◌, length, arith, update, Stack, ◌==◌, if◌then◌else◌,
}
use jemsys.Agate2.Pool.{Pool, is_full, thread_blocks, find_alloc_slab, take_block, alloc_block}

-- The blocks from the i-th of a slab on.
abbrev pub blocks_from : ℕ → ℕ → ℕ → ℕ → List ℕ
blocks_from slab size i zero = []
blocks_from slab size i (suc n) = (slab + i * size) ∷ blocks_from slab size (suc i) n

next_block : (slab size i : ℕ) → slab + suc i * size ≡ slab + i * size + size
next_block slab size i = grind arith

-- Threading the blocks from the i-th on leaves what lies before them.
thread_blocks-below :
    (slab size i k : ℕ) (word : ℕ → ℕ) (x : ℕ)
    → x < slab + i * size
    → thread_blocks slab size i k word x ≡ word x
unfolding thread_blocks
thread_blocks-below slab size i zero word x h = ground arith
thread_blocks-below slab size i (suc k) word x h =
    thread_blocks-below slab size (suc i) k _ x (omega (arith, next_block slab size i))
    ∙ ground arith

-- It makes a chain of them.
pub thread_blocks-Stack :
    (slab size i k : ℕ) (word : ℕ → ℕ)
    → 0 < size
    → Stack (thread_blocks slab size i k word) (slab + i * size) (blocks_from slab size i (suc k))
unfolding thread_blocks
thread_blocks-Stack slab size i zero word h = (refl, tt)
thread_blocks-Stack slab size i (suc k) word h =
    let word' = update word (slab + i * size) (slab + suc i * size) in
    let after = thread_blocks slab size (suc i) k word' in
    let kept : after (slab + i * size) ≡ slab + suc i * size =
      thread_blocks-below slab size (suc i) k word' (slab + i * size)
        (omega (arith, next_block slab size i))
      ∙ ground arith in
    (
      refl,
      subst (λ t. Stack after t (blocks_from slab size (suc i) (suc k))) (sym kept)
          (thread_blocks-Stack slab size (suc i) k word' h),
    )

-- The free blocks of the slab that is allocated from, in the order in which they are given out.
abbrev pub FreeBlocks : Pool → List ℕ → Type 0
FreeBlocks p fs =
    Stack p.word (p.next_free p.alloc_slab) fs
    × (p.available p.alloc_slab ≡ length fs)
    × (length fs < 2 ^ 64)
    × (p.alloc_slab ≢ 0)

-- The pool after the first free block of its slab is taken.
abbrev pub taken : Pool → Pool
taken p =
    let s = p.alloc_slab in
    record p {
      next_free = update p.next_free s (p.word (p.next_free s));
      available = update p.available s ((p.available s + (2 ^ 64 - 1)) % 2 ^ 64);
      free_slab = if p.free_slab == s then 0 else p.free_slab;
    }

pub take_eq :
    (p : Pool) → p.alloc_slab ≢ 0 → take_block p ≡ some (taken p, p.next_free p.alloc_slab)
unfolding take_block
take_eq p n = let there : (p.alloc_slab == 0) ≡ false = ground arith in rw there refl

pub alloc_eq :
    (fresh : ℕ) (moved : Bool) (p : Pool)
    → p.available p.alloc_slab ≢ 0
    → alloc_block fresh moved p ≡ take_block p
unfolding alloc_block find_alloc_slab is_full
alloc_eq fresh moved p n =
    let some_left : (p.available p.alloc_slab == 0) ≡ false = ground arith in rw some_left refl

pub self : (f : ℕ → ℕ) (a v : ℕ) → v ≡ update f a v a
self f a v = ground arith

pub alloc_block-FreeBlocks :
    (fresh : ℕ) (moved : Bool) (p : Pool) (b : ℕ) (fs : List ℕ)
    → FreeBlocks p (b ∷ fs)
    → (alloc_block fresh moved p ≡ some (taken p, b)) × FreeBlocks (taken p) fs
alloc_block-FreeBlocks fresh moved p b fs (s, n, l, z) = (
  alloc_eq fresh moved p (λ e. absurd (omega (arith, e, n)))
      ∙ take_eq p z
      ∙ ap (λ x. some (taken p, x)) s.0,
  (
    subst (λ t. Stack p.word t fs)
        (ap p.word (sym s.0) ∙ self p.next_free p.alloc_slab (p.word (p.next_free p.alloc_slab)))
        s.1,
    sym (self p.available p.alloc_slab ((p.available p.alloc_slab + (2 ^ 64 - 1)) % 2 ^ 64))
        ∙ omega (arith, n, l),
    omega (arith, l),
    z,
  ),
)

-- What `n` calls of alloc_block give out, and the pool after them.
abbrev pub and_block : ℕ → Option (Pool × List ℕ) → Option (Pool × List ℕ)
and_block b none = none
and_block b (some (p, bs)) = some (p, b ∷ bs)

abbrev pub and_then : Option (Pool × ℕ) → (Pool → Option (Pool × List ℕ)) → Option (Pool × List ℕ)
and_then none rest = none
and_then (some (p, b)) rest = and_block b (rest p)

unfoldable pub allocs : ℕ → Bool → ℕ → Pool → Option (Pool × List ℕ)
allocs fresh moved zero p = some (p, [])
allocs fresh moved (suc n) p = and_then (alloc_block fresh moved p) (allocs fresh moved n)

-- The pool after all of some blocks are taken.
abbrev pub drained : List ℕ → Pool → Pool
drained [] p = p
drained (b ∷ bs) p = drained bs (taken p)

pub allocs-FreeBlocks :
    (fresh : ℕ) (moved : Bool) (p : Pool) (fs : List ℕ)
    → FreeBlocks p fs
    → (allocs fresh moved (length fs) p ≡ some (drained fs p, fs)) × FreeBlocks (drained fs p) []
unfolding allocs
allocs-FreeBlocks fresh moved p [] f = (refl, f)
allocs-FreeBlocks fresh moved p (b ∷ fs) f =
    let one = alloc_block-FreeBlocks fresh moved p b fs f in
    let rest = allocs-FreeBlocks fresh moved (taken p) fs one.1 in
    (ap (λ o. and_then o (allocs fresh moved (length fs))) one.0 ∙ ap (and_block b) rest.0, rest.1)

pub drained-kept :
    (fs : List ℕ) (p : Pool)
    → ((drained fs p).alloc_slab ≡ p.alloc_slab)
      × ((drained fs p).stack ≡ p.stack)
      × ((drained fs p).head ≡ p.head)
      × ((drained fs p).full_stack ≡ p.full_stack)
drained-kept [] p = (refl, refl, refl, refl)
drained-kept (b ∷ fs) p = drained-kept fs (taken p)
