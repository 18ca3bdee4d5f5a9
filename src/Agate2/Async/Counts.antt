-- ===== src/Agate2/Async/Counts.antt =====
-- Responses and references in src/agate2/async.cpp: what answers to messages do to the data of the
-- asynchronous operation that the messages were sent with.
use jemsys.Base.{
  ℕ, suc, ◌+◌, ◌-◌, ◌%◌, ◌^◌, ◌≤◌, ◌<◌, ◌≡◌, refl, ap, ◌∙◌, false, List, [], ◌∷◌, length, ◌==◌,
  if◌then◌else◌, arith,
}
use jemsys.Agate2.Atomic.{acquire, release, increment}
use jemsys.Agate2.Async.{
  AsyncData, Memory, write, respond, data_attach, data_drop, data_arrive, data_destroy,
  data_do_reset,
}

-- How a message is done with, and the key that it was sent with.
pub data Answer : Type 0 where
  arrived dropped : ℕ → Answer

abbrev pub answer : Memory → ℕ → Answer → Memory
answer m a (Answer.arrived key) = data_arrive m a key
answer m a (Answer.dropped key) = data_drop m a key

abbrev pub answers : Memory → ℕ → List Answer → Memory
answers m a [] = m
answers m a (x ∷ xs) = answers (answer m a x) a xs

abbrev pub key_of : Answer → ℕ
key_of (Answer.arrived key) = key
key_of (Answer.dropped key) = key

-- The answers with the key `k`.
abbrev pub matching : ℕ → List Answer → ℕ
matching k [] = 0
matching k (x ∷ xs) = (if k == key_of x then 1 else 0) + matching k xs

-- The data at `a` after answers that were counted `c` times, with `r` references left.
pub record Counted (m n : Memory) (a c r : ℕ) : Type 0 where
  pub responses : (n.cell a).response_count ≡ ((m.cell a).response_count + c) % 2 ^ 32
  pub references : (n.cell a).ref_count ≡ r
  pub key : (n.cell a).current_key ≡ (m.cell a).current_key
  pub alive : n.live a ≡ (if r == 0 then false else m.live a)

module _ (m : Memory) (a : ℕ) (responses : (m.cell a).response_count < 2 ^ 32)
    (references : (m.cell a).ref_count < 2 ^ 32) (some_left : 0 < (m.cell a).ref_count) where
  arrive-Counted :
      (key : ℕ)
      → Counted m
          (data_arrive m a key)
          a
          (if (m.cell a).current_key == key then 1 else 0)
          ((m.cell a).ref_count - 1)
  unfolding data_arrive respond write data_destroy increment release
  arrive-Counted key = record {
    responses = ground arith;
    references = ground arith;
    key = ground arith;
    alive = ground arith;
  }

  -- asyncDataDrop and asyncDataArrive do the same.
  drop_eq : (key : ℕ) → data_drop m a key ≡ data_arrive m a key
  unfolding data_drop data_arrive
  drop_eq key = refl

  answer-Counted :
      (x : Answer)
      → Counted m
          (answer m a x)
          a
          (if (m.cell a).current_key == key_of x then 1 else 0)
          ((m.cell a).ref_count - 1)
  answer-Counted (Answer.arrived key) = arrive-Counted key
  answer-Counted (Answer.dropped key) = rw (drop_eq key) (arrive-Counted key)

-- Answers to messages, as many as there are references at most and in any order: each with the
-- current key counts as one response, whether its message arrived or was dropped, the others count
-- for nothing; each gives up a reference, and the data are freed by the answer that gives up the
-- last.
pub answers-Counted :
    (m : Memory) (a : ℕ) (xs : List Answer)
    → (m.cell a).response_count < 2 ^ 32
    → (m.cell a).ref_count < 2 ^ 32
    → 0 < (m.cell a).ref_count
    → length xs ≤ (m.cell a).ref_count
    → Counted m
        (answers m a xs)
        a
        (matching (m.cell a).current_key xs)
        ((m.cell a).ref_count - length xs)
answers-Counted m a [] hc hr z h = record {
  responses = omega arith;
  references = omega arith;
  key = refl;
  alive = ground arith;
}
answers-Counted m a (x ∷ []) hc hr z h =
    let c = answer-Counted m a hc hr z x in
    record {
      responses = omega (arith, c.responses);
      references = c.references;
      key = c.key;
      alive = c.alive;
    }
answers-Counted m a (x ∷ y ∷ xs) hc hr z h =
    let c = answer-Counted m a hc hr z x in
    let n = answer m a x in
    let ih =
      answers-Counted n a (y ∷ xs) (omega (arith, c.responses)) (omega (arith, c.references))
        (omega (arith, c.references)) (omega (arith, c.references)) in
    let same : matching (n.cell a).current_key (y ∷ xs) ≡ matching (m.cell a).current_key (y ∷ xs) =
      ap (λ k. matching k (y ∷ xs)) c.key in
    record {
      responses = omega (arith, ih.responses, c.responses, same);
      references = omega (arith, ih.references, c.references);
      key = ih.key ∙ c.key;
      alive = ground (arith, ih.alive, c.alive, c.references);
    }

module _ (m : Memory) (a context : ℕ) where
  attached : Memory
  attached = (data_attach m a context).0

  attached-kept :
      suc (m.cell a).ref_count < 2 ^ 32
      → ((attached.cell a).ref_count ≡ suc (m.cell a).ref_count)
        × ((attached.cell a).response_count ≡ (m.cell a).response_count)
        × ((attached.cell a).current_key ≡ (m.cell a).current_key)
        × (attached.live a ≡ m.live a)
  unfolding attached data_attach write acquire
  attached-kept h = (ground arith, ground arith, ground arith, refl)

  attach_key : (data_attach m a context).1 ≡ (m.cell a).current_key
  unfolding data_attach
  attach_key = refl

  -- A message that is sent with an operation, so that it takes a reference and the key, and is then
  -- answered with that key leaves the references as they were, the data alive if they were, and one
  -- response more.
  pub answer-attach :
      (x : Answer)
      → key_of x ≡ (data_attach m a context).1
      → (m.cell a).response_count < 2 ^ 32
      → 0 < (m.cell a).ref_count
      → suc (m.cell a).ref_count < 2 ^ 32
      → Counted m (answer (data_attach m a context).0 a x) a 1 (m.cell a).ref_count
  unfolding attached
  answer-attach x k hc z hr =
      let t = attached-kept hr in
      let c =
        answer-Counted attached a (omega (arith, t.1)) (omega (arith, t.0)) (omega (arith, t.0))
          x in
      let hit : (let one : ℕ = 1 in if (attached.cell a).current_key == key_of x then one else 0)
          ≡ 1 =
        ground (arith, k, attach_key, t.2) in
      record {
        responses = omega (arith, c.responses, t.1, hit);
        references = omega (arith, c.references, t.0);
        key = c.key ∙ t.2;
        alive = ground (arith, c.alive, t.0, t.3);
      }

-- Once the operation has been reset, an answer with the key of before counts for nothing.
pub respond-data_do_reset :
    (d : AsyncData) (max : ℕ)
    → d.current_key < 2 ^ 32
    → respond (data_do_reset d max) d.current_key ≡ data_do_reset d max
unfolding respond data_do_reset
respond-data_do_reset d max h = ground arith
