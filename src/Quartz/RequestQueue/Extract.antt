-- ===== src/Quartz/RequestQueue/Extract.antt =====
-- `insert` and `pop` of the priority queue in src/quartz/internal.hpp, and which requests the queue
-- holds.
use jemsys.Base.{
  ℕ, zero, suc, ◌+◌, ◌-◌, ◌*◌, ◌%◌, ◌≤◌, ◌<◌, ◌≡◌, refl, sym, ◌∙◌, inl, inr, ap, ◌==◌, leb, ltb,
  if◌then◌else◌, arith, Bool-cases,
}
use jemsys.Quartz.RequestQueue.{
  RequestQueue, lookup, assign, exchange, append, parent, rise, insert, bubble, climb, each_leaf,
  rebalance_after_pop, pop, peek,
}
use jemsys.Quartz.RequestQueue.Window.{mod-add_cases, lookup-assign}
use jemsys.Quartz.RequestQueue.Insert.{IsHeap, key, insert-IsHeap}
use jemsys.Quartz.RequestQueue.Contents.{
  tally, tally-zero, tally-cong, tally-suc, tally_next, Rearranged, Rearranged-refl,
  Rearranged-trans, Fits, Fits-Rearranged, exchange-Rearranged, if_Rearranged,
}

module _ (priority : ℕ → ℕ) where
  rise-Rearranged :
      (fuel : ℕ) (q : RequestQueue) (n x : ℕ)
      → Fits n q
      → (0 < x) × (x ≤ n)
      → Rearranged n q (rise priority fuel q x)
  unfolding rise
  rise-Rearranged zero q n x f w = Rearranged-refl n q
  rise-Rearranged (suc fuel) q n x f w = elim (Bool-cases (parent x == 0)) [
    | inl root ↦ rw root (Rearranged-refl n q)
    | inr inner ↦
        let up = exchange-Rearranged q n x (parent x) f w (ground arith, omega arith) in
        rw inner (
          if_Rearranged n q q _ (leb (priority (lookup q (parent x))) (priority (lookup q x)))
            (Rearranged-refl n q)
            (Rearranged-trans n q _ _ up (
              rise-Rearranged fuel (exchange q x (parent x)) n (parent x)
                (Fits-Rearranged n q _ up f) (ground arith, omega arith))))
  ]

  bubble-Rearranged :
      (fuel : ℕ) (q : RequestQueue) (n p node last : ℕ)
      → Fits n q
      → (0 < p) × (p ≤ n)
      → (0 < node) × (node ≤ n)
      → last ≤ n
      → Rearranged n q (bubble priority fuel q p node last)
  unfolding bubble
  bubble-Rearranged zero q n p node last f wp wn l = Rearranged-refl n q
  bubble-Rearranged (suc fuel) q n p node last f wp wn l =
      if_Rearranged n q q _ (ltb (priority (lookup q p)) (priority (lookup q node)))
        (Rearranged-refl n q)
        (elim (Bool-cases (leb (2 * node) last)) [
          | inl deeper ↦ rw deeper (
              Rearranged-trans n q _ _ (exchange-Rearranged q n p node f wp wn) (
                bubble-Rearranged fuel (exchange q p node) n node (2 * node) last
                  (Fits-Rearranged n q _ (exchange-Rearranged q n p node f wp wn) f) wn
                  (ground arith) l))
          | inr leaf ↦ rw leaf (exchange-Rearranged q n p node f wp wn)
        ])

  climb-Rearranged :
      (fuel : ℕ) (q : RequestQueue) (n j last : ℕ)
      → Fits n q
      → (2 ≤ j) × (j ≤ n)
      → last ≤ n
      → Rearranged n q (climb priority fuel q j last)
  unfolding climb
  climb-Rearranged zero q n j last f w l = Rearranged-refl n q
  climb-Rearranged (suc fuel) q n j last f w l =
      let first =
        bubble-Rearranged (suc last) q n (parent j) j last f (omega arith) (omega arith) l in
      elim (Bool-cases (parent j % 2 == 0)) [
        | inl even ↦ rw even (
            Rearranged-trans n q _ _ first (
              climb-Rearranged fuel (bubble priority (suc last) q (parent j) j last) n (parent j)
                last (Fits-Rearranged n q _ first f) (ground arith) l))
        | inr odd ↦ rw odd first
      ]

  each_leaf-Rearranged :
      (fuel : ℕ) (q : RequestQueue) (n i : ℕ)
      → Fits n q
      → q.queue_size ≡ n
      → 2 ≤ i
      → Rearranged n q (each_leaf priority fuel q i)
  unfolding each_leaf
  each_leaf-Rearranged zero q n i f e l = Rearranged-refl n q
  each_leaf-Rearranged (suc fuel) q n i f e l = elim (Bool-cases (leb i q.queue_size)) [
    | inl more ↦
        let first = climb-Rearranged (suc i) q n i i f (ground arith) (ground arith) in
        rw more (
          Rearranged-trans n q _ _ first (
            each_leaf-Rearranged fuel (climb priority (suc i) q i i) n (i + 2)
              (Fits-Rearranged n q _ first f) (first.size ∙ e) (omega arith)))
    | inr done ↦ rw done (Rearranged-refl n q)
  ]

  rebalance_after_pop-Rearranged :
      (q : RequestQueue)
      → Fits q.queue_size q
      → Rearranged q.queue_size q (rebalance_after_pop priority q)
  unfolding rebalance_after_pop
  rebalance_after_pop-Rearranged q f =
      each_leaf-Rearranged (suc q.queue_size) q q.queue_size _ f refl (ground arith)

  -- The first of `n + 1` values and the others.
  tally_head :
      (f g : ℕ → ℕ) (n r : ℕ)
      → ((i : ℕ) → 0 < i → i ≤ n → g i ≡ f (suc i))
      → tally f (suc n) r ≡ (if f 1 == r then 1 else 0) + tally g n r
  tally_head f g zero r e = omega (arith, tally-suc f zero r, tally-zero f r, tally-zero g r)
  tally_head f g (suc n) r e = ground (
    arith,
    tally-suc f (suc n) r,
    tally-suc g n r,
    tally_head f g n r (λ i l u. e i l (omega arith)),
    e (suc n) (omega arith) (omega arith),
  )

  head_next : (c h : ℕ) → h < c → (h + 1) % c < c
  head_next c h p = omega (arith, mod-add_cases c h 1 p (omega arith))

  position_next : (c h i : ℕ) → h < c → suc i ≤ c → ((h + 1) % c + i) % c ≡ (h + suc i) % c
  position_next c h i p w = omega (
    arith,
    mod-add_cases c h 1 p (omega arith),
    mod-add_cases c ((h + 1) % c) i (head_next c h p) (omega arith),
    mod-add_cases c h (suc i) p w,
  )

  abbrev popped : RequestQueue → RequestQueue
  popped q = record q {
    queue_head_index = (q.queue_head_index + 1) % q.capacity;
    queue_size = q.queue_size - 1;
  }

  lookup-popped :
      (q : RequestQueue) (i : ℕ)
      → q.queue_head_index < q.capacity
      → suc i ≤ q.capacity
      → lookup (popped q) i ≡ lookup q (suc i)
  unfolding lookup
  lookup-popped q i h w = ap q.entry_array (position_next q.capacity q.queue_head_index i h w)

  -- From a queue that is not empty and fits its array, `pop` takes the request at the root, and
  -- keeps each other request as often as it was there.
  pub pop-contents :
      (q : RequestQueue) (n r : ℕ)
      → q.queue_head_index < q.capacity
      → q.queue_size ≡ suc n
      → q.queue_size ≤ q.capacity
      → let (taken, q') = pop priority q in
        (taken ≡ lookup q 1)
        × (q'.queue_size ≡ n)
        × ((if taken == r then 1 else 0) + tally (lookup q') n r ≡ tally (lookup q) (suc n) r)
  unfolding pop peek
  pop-contents q n r h e c =
      let kept =
        rebalance_after_pop-Rearranged (popped q)
          (head_next q.capacity q.queue_head_index h, omega arith) in
      (
        refl,
        kept.size ∙ omega arith,
        ap (λ t. (if peek priority q == r then 1 else 0) + t)
              (ap (λ m. tally (lookup (rebalance_after_pop priority (popped q))) m r) (omega arith)
                ∙ kept.contents r
                ∙ ap (λ m. tally (lookup (popped q)) m r) (omega arith))
            ∙ sym (
                tally_head (lookup q) (lookup (popped q)) n r
                  (λ i l u. lookup-popped q i h (omega arith))),
      )

  lookup-append :
      (q : RequestQueue) (request i : ℕ)
      → q.queue_head_index < q.capacity
      → q.queue_size < q.capacity
      → 0 < i
      → i ≤ q.queue_size + 1
      → lookup (append q request) i ≡ (if q.queue_size + 1 == i then request else lookup q i)
  unfolding append lookup
  lookup-append q request i h c l u =
      lookup-assign (record q { queue_size = q.queue_size + 1 }) (q.queue_size + 1) i request h
        (omega arith) (omega arith)

  -- Where the queue has room, `insert` adds one to the count of the request inserted, and leaves
  -- the others.
  pub insert-contents :
      (q : RequestQueue) (request r : ℕ)
      → q.queue_head_index < q.capacity
      → q.queue_size < q.capacity
      → tally (lookup (insert priority q request)) (q.queue_size + 1) r
        ≡ tally (lookup q) q.queue_size r + (if request == r then 1 else 0)
  unfolding insert append assign
  insert-contents q request r h c =
      (rise-Rearranged (q.queue_size + 1) (append q request) (q.queue_size + 1) (q.queue_size + 1)
          (h, omega arith) (omega arith)).contents
        r
      ∙ tally_next (lookup (append q request)) q.queue_size r
      ∙ ground (
        arith,
        tally-cong (lookup (append q request)) (lookup q) q.queue_size r
            (λ i l u. ground (arith, lookup-append q request i h c l (omega arith))),
        lookup-append q request (q.queue_size + 1) h c,
      )

  -- Inserting a request into a queue in heap order that has room leaves it in heap order with one
  -- entry more: the request once more than before, and every other as often as it was.
  pub insert_lem :
      (q : RequestQueue) (request : ℕ)
      → q.queue_head_index < q.capacity
      → q.queue_size < q.capacity
      → IsHeap (key priority q) q.queue_size
      → let q' = insert priority q request in
        IsHeap (key priority q') (q.queue_size + 1)
        × (q'.queue_size ≡ q.queue_size + 1)
        × ((r : ℕ)
            → tally (lookup q') (q.queue_size + 1) r
              ≡ tally (lookup q) q.queue_size r + (if request == r then 1 else 0))
  insert_lem q request h c heap =
      let ordered = insert-IsHeap priority q request h c heap in
      (ordered.0, ordered.1, λ r. insert-contents q request r h c)
