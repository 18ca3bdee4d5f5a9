-- ===== src/Quartz/Log/Buffered/Start.antt =====
-- A new async_buffered_output_log of src/quartz/internal.hpp: its buffers in the pool.
use jemsys.Base.{
  ℕ, zero, suc, ◌+◌, ◌-◌, ◌<◌, ◌≡◌, refl, sym, ap, ◌∙◌, subst, List, [], ◌∷◌, ◌++◌, arith, update,
  Fresh, Disjoint, Stack, Stack-push, count_up, length-count_up, Distinct-count_up,
}
use mathlib.Core.List.{append-nil}
use jemsys.Support.Counter.{u32}
use jemsys.Quartz.Log.Buffered.{link_buffers, bytes}
use jemsys.Quartz.Log.Buffered.Contents.{queue_text, current_text}
use jemsys.Quartz.Log.Buffered.Rep.{Rep}
use jemsys.Quartz.Log.Buffered.Thread.{start}
use jemsys.Quartz.Log.Buffered.Fifo.{Sound}

count_up-snoc :
    (i n : ℕ) (rest : List ℕ) → count_up i (suc n) ++ rest ≡ count_up i n ++ (i + n) ∷ rest
count_up-snoc i zero rest = ap (λ k. k ∷ rest) (omega arith)
count_up-snoc i (suc n) rest =
    let shifted : suc i + n ≡ i + suc n = omega arith in
    ap (λ l. i ∷ l)
      (count_up-snoc (suc i) n rest ∙ ap (λ k. count_up (suc i) n ++ k ∷ rest) shifted)

-- All of `xs` lie behind `k`.
abbrev Above : ℕ → List ℕ → Type 0
Above k [] = Unit
Above k (x ∷ xs) = (k < x) × Above k xs

Above-Fresh : (k : ℕ) (xs : List ℕ) → Above k xs → Fresh k xs
Above-Fresh k [] a = tt
Above-Fresh k (x ∷ xs) a = (omega (arith, a.0), Above-Fresh k xs a.1)

Above-less : (j k : ℕ) (xs : List ℕ) → j < k → Above k xs → Above j xs
Above-less j k [] h a = tt
Above-less j k (x ∷ xs) h a = (omega (arith, a.0), Above-less j k xs h a.1)

-- What the loop leaves, from the buffer behind the last one linked: the buffers from 2 on, in
-- order.
link_buffers-Stack :
    (i : ℕ) (next : ℕ → ℕ) (rest : List ℕ)
    → Stack next (suc (suc i)) rest
    → Above (suc i) rest
    → let r = link_buffers i (suc (suc i)) next in Stack r.0 r.1 (count_up 2 i ++ rest) × (r.1 ≡ 2)
unfolding link_buffers
link_buffers-Stack zero next rest s a = (s, refl)
link_buffers-Stack (suc i) next rest s a =
    let place : 2 + i ≡ suc (suc i) = omega arith in
    let next' = update next (suc (suc i)) (suc (suc (suc i))) in
    let linked =
      link_buffers-Stack i next' (suc (suc i) ∷ rest)
        (Stack-push next (suc (suc (suc i))) rest (suc (suc i)) (Above-Fresh (suc (suc i)) rest a)
          s)
        (omega arith, Above-less (suc i) (suc (suc i)) rest (omega arith) a) in
    let r = link_buffers i (suc (suc i)) next' in
    (
      subst (λ l. Stack r.0 r.1 l)
          (sym (count_up-snoc 2 i rest ∙ ap (λ k. count_up 2 i ++ k ∷ rest) place)) linked.0,
      linked.1,
    )

Above-count_up : (k i n : ℕ) → k < i → Above k (count_up i n)
Above-count_up k i zero h = tt
Above-count_up k i (suc n) h = (h, Above-count_up k (suc i) n (omega arith))

Above-Disjoint : (k : ℕ) (xs : List ℕ) → Above k xs → Disjoint xs (k ∷ [])
Above-Disjoint k [] a = tt
Above-Disjoint k (x ∷ xs) a = ((omega (arith, a.0), tt), Above-Disjoint k xs a.1)

link_all :
    (next : ℕ → ℕ) (n : ℕ)
    → let r = link_buffers (suc (suc (suc n)) - 1) 0 next in
      Stack r.0 (r.0 r.1) (count_up 3 (suc n)) × (r.1 ≡ 2)
unfolding link_buffers
link_all next n =
    let rounds : suc (suc (suc n)) - 1 ≡ suc (suc n) = omega arith in
    let place : 3 + n ≡ suc (suc (suc n)) = omega arith in
    let next' = update next (suc (suc (suc n))) 0 in
    let r = link_buffers (suc n) (suc (suc (suc n))) next' in
    let linked =
      link_buffers-Stack (suc n) next' (suc (suc (suc n)) ∷ []) (refl, tt) (omega arith, tt) in
    let others : count_up 3 n ++ suc (suc (suc n)) ∷ [] ≡ count_up 3 (suc n) =
      ap (λ k. count_up 3 n ++ k ∷ []) (sym place)
      ∙ sym (count_up-snoc 3 n [])
      ∙ append-nil (count_up 3 (suc n)) in
    subst
      (λ k. let q = link_buffers k 0 next in Stack q.0 (q.0 q.1) (count_up 3 (suc n)) × (q.1 ≡ 2))
      (sym rounds)
      (
        subst (λ b. Stack r.0 (r.0 b) (count_up 3 (suc n))) (sym linked.1)
            (subst (λ l. Stack r.0 (r.0 2) l) others linked.0.1),
        linked.1,
      )

-- With `n + 3` buffers: the pool has all but the current one and the one before the queue.
start-Rep :
    (fresh_next : ℕ → ℕ) (fresh_bytes : ℕ) (fresh_text : ℕ → ℕ → ℕ) (size n : ℕ)
    → suc (suc (suc n)) < u32
    → let y = start fresh_next fresh_bytes fresh_text size (suc (suc (suc n))) in
      Rep y.log y.buf (count_up 3 (suc n)) []
unfolding start
start-Rep fresh_next fresh_bytes fresh_text size n h =
    let linked = link_all fresh_next n in
    record {
      stack = linked.0;
      available = omega (arith, length-count_up 3 (suc n));
      links = refl;
      counted = refl;
      whole = omega (arith, length-count_up 3 (suc n));
      few = h;
      enough = omega arith;
      free_once = Distinct-count_up 3 (suc n);
      queued_once = (tt, tt);
      apart = Above-Disjoint 1 (count_up 3 (suc n)) (Above-count_up 1 3 (suc n) (omega arith));
      outside =
          subst (λ k. Fresh k (count_up 3 (suc n)) × Fresh k (1 ∷ [])) (sym linked.1)
            (
              Above-Fresh 2 (count_up 3 (suc n)) (Above-count_up 2 3 (suc n) (omega arith)),
              (omega arith, tt),
            );
    }

-- A new log with three buffers at least has nothing to print.
pub start-Sound :
    (fresh_next : ℕ → ℕ) (fresh_bytes : ℕ) (fresh_text : ℕ → ℕ → ℕ) (size n : ℕ)
    → suc (suc (suc n)) < u32
    → Sound (start fresh_next fresh_bytes fresh_text size (suc (suc (suc n)))) []
unfolding start queue_text current_text bytes
start-Sound fresh_next fresh_bytes fresh_text size n h = record {
  free = count_up 3 (suc n);
  queue = [];
  ready = record { rep = start-Rep fresh_next fresh_bytes fresh_text size n h; content = refl };
}
