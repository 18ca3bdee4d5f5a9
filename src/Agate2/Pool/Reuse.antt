-- ===== src/Agate2/Pool/Reuse.antt =====
-- Blocks that are freed and given out again, in src/agate2/pool.hpp.
use jemsys.Base.{
  ℕ, suc, ◌+◌, ◌-◌, ◌%◌, ◌^◌, ◌<◌, ◌≡◌, ◌≢◌, refl, sym, ap, ◌∙◌, Bool, true, false, not, ◌&&◌, some,
  arith, update, Bool-cases, inl, inr, ◌==◌, ltb, if◌then◌else◌,
}
use jemsys.Agate2.Pool.{
  Pool, lookup_slab, is_empty, swap_slabs, alloc_block, remove_stack_entry, prune_slabs, free_block,
}
use jemsys.Agate2.Pool.Blocks.{alloc_eq, take_eq, self, taken}

-- The chains of free blocks are as before.
record Kept (p q : Pool) : Type 0 where
  available : q.available ≡ p.available
  next_free : q.next_free ≡ p.next_free
  word : q.word ≡ p.word

if-Kept : (p x y : Pool) (b : Bool) → Kept p x → Kept p y → Kept p (if b then x else y)
if-Kept p x y true k l = k
if-Kept p x y false k l = l

swap_slabs-Kept : (a b : ℕ) (p : Pool) → Kept p (swap_slabs a b p)
unfolding swap_slabs
swap_slabs-Kept a b p = record { available = refl; next_free = refl; word = refl }

remove_stack_entry-Kept : (s : ℕ) (p : Pool) → Kept p (remove_stack_entry s p)
unfolding remove_stack_entry
remove_stack_entry-Kept s p = elim (Bool-cases (p.position s == p.head - 1)) [
  | inl e ↦ rw e (record { available = refl; next_free = refl; word = refl })
  | inr e ↦ rw e (record { available = refl; next_free = refl; word = refl })
]

same-Kept : (p : Pool) → Kept p p
same-Kept p = record { available = refl; next_free = refl; word = refl }

retained : ℕ → Pool → Pool
retained s p =
    let q =
      if not (p.free_slab == 0) && is_empty p p.free_slab
      then remove_stack_entry p.free_slab p
      else p in
    record q { free_slab = s }

retained-Kept : (s : ℕ) (p : Pool) → Kept p (retained s p)
unfolding retained
retained-Kept s p =
    let k =
      if-Kept p (remove_stack_entry p.free_slab p) p
        (not (p.free_slab == 0) && is_empty p p.free_slab) (remove_stack_entry-Kept p.free_slab p)
        (same-Kept p) in
    record { available = k.available; next_free = k.next_free; word = k.word }

lowered : Pool → Pool
lowered p = record p { full_stack = p.full_stack - 1 }

prune_slabs-Kept : (s : ℕ) (p : Pool) → Kept p (prune_slabs s p)
unfolding prune_slabs retained lowered
prune_slabs-Kept s p = if-Kept p (retained s p) _ (is_empty p s) (retained-Kept s p) (
    if-Kept p _ p (ltb (p.position s) p.full_stack)
      (if-Kept p (lowered p) (swap_slabs s ((lowered p).stack (lowered p).full_stack) (lowered p))
        ((lowered p).position s == (lowered p).full_stack)
        (record { available = refl; next_free = refl; word = refl })
        (let k = swap_slabs-Kept s ((lowered p).stack (lowered p).full_stack) (lowered p) in
          record { available = k.available; next_free = k.next_free; word = k.word }))
      (same-Kept p))

-- The slab of the block that was freed.
free_block-chain :
    (p : Pool) (block : ℕ)
    → let f = free_block block p in
      (f.alloc_slab ≡ lookup_slab p block)
      × (f.available f.alloc_slab ≡ (p.available (lookup_slab p block) + 1) % 2 ^ 64)
      × (f.next_free f.alloc_slab ≡ block)
      × (f.word block ≡ p.next_free (lookup_slab p block))
      × ((b : ℕ) → b ≢ block → f.word b ≡ p.word b)
      × ((s : ℕ)
          → s ≢ lookup_slab p block
          → (f.available s ≡ p.available s) × (f.next_free s ≡ p.next_free s))
unfolding free_block
free_block-chain p block =
    let s = lookup_slab p block in
    let q = record p {
      word = update p.word block (p.next_free s);
      next_free = update p.next_free s block;
      available = update p.available s ((p.available s + 1) % 2 ^ 64);
    } in
    let k = prune_slabs-Kept s q in
    (
      refl,
      ap (λ g. g s) k.available ∙ sym (self p.available s ((p.available s + 1) % 2 ^ 64)),
      ap (λ g. g s) k.next_free ∙ sym (self p.next_free s block),
      ap (λ g. g block) k.word ∙ sym (self p.word block (p.next_free s)),
      (λ b other. ap (λ g. g b) k.word ∙ ground arith),
      (λ t other.
          (ap (λ g. g t) k.available ∙ ground arith, ap (λ g. g t) k.next_free ∙ ground arith)),
    )

-- A block that is freed is the next to be given out, whatever its slab does to the array, provided
-- that the free blocks of the slab are fewer than 2^64 - 1 and that the slab is not null. The slab
-- then has as many free blocks as before, from the same first one; the links in all blocks but
-- this one, and the counts and the first free blocks of all other slabs, are what they were.
pub alloc_block-free_block :
    (fresh : ℕ) (moved : Bool) (p : Pool) (block : ℕ)
    → lookup_slab p block ≢ 0
    → suc (p.available (lookup_slab p block)) < 2 ^ 64
    → (q : Pool) × (alloc_block fresh moved (free_block block p) ≡ some (q, block))
      × (q.available (lookup_slab p block) ≡ p.available (lookup_slab p block))
      × (q.next_free (lookup_slab p block) ≡ p.next_free (lookup_slab p block))
      × ((b : ℕ) → b ≢ block → q.word b ≡ p.word b)
      × ((s : ℕ)
          → s ≢ lookup_slab p block
          → (q.available s ≡ p.available s) × (q.next_free s ≡ p.next_free s))
alloc_block-free_block fresh moved p block z h =
    let s = lookup_slab p block in
    let f = free_block block p in
    let k = free_block-chain p block in
    let left : f.available f.alloc_slab ≡ suc (p.available s) = k.1 ∙ omega arith in
    let first : f.next_free f.alloc_slab ≡ block = k.2 in
    (
      taken f,
      alloc_eq fresh moved f (λ e. absurd (omega (arith, e, left)))
          ∙ take_eq f (λ e. z (sym k.0 ∙ e))
          ∙ ap (λ b. some (taken f, b)) first,
      ap (taken f).available (sym k.0)
          ∙ sym (self f.available f.alloc_slab ((f.available f.alloc_slab + (2 ^ 64 - 1)) % 2 ^ 64))
          ∙ omega (arith, left),
      ap (taken f).next_free (sym k.0)
          ∙ sym (self f.next_free f.alloc_slab (f.word (f.next_free f.alloc_slab)))
          ∙ ap f.word first
          ∙ k.3,
      k.4,
      (λ t other.
          let apart : t ≢ f.alloc_slab = λ e. other (e ∙ k.0) in
          let kept = k.5 t other in (ground arith ∙ kept.0, ground arith ∙ kept.1)),
    )
