-- ===== src/Agate2/Channel/Sends.antt =====
-- What any interleaving of senders of src/agate2/channels.cpp leaves: the messages in a queue.
use jemsys.Base.{
  ℕ, ◌≡◌, ◌≢◌, refl, sym, ap, ◌∙◌, subst, Bool, true, false, ◌||◌, ◌&&◌, not, List, [], ◌∷◌, ◌++◌,
  arith, update, Fresh, Distinct, Distinct-append, Links, All, member, member-append, Bool-cases,
  eq-cases, inl, inr, ◌==◌,
}
use jemsys.Agate2.Channel.{
  Phase, loading, holding, swapping, linking, releasing, sent, Senders, access, run, begin,
}
use jemsys.Agate2.Channel.Chain.{
  Done, Chain, Chain-outside, Chain-swap, Chain-link, Chain-release, Chain-Links,
}

-- The sender has swapped its message in.
abbrev pub has_swapped : Phase → Bool
has_swapped loading = false
has_swapped (holding seen) = false
has_swapped (swapping seen) = false
has_swapped (linking seen) = true
has_swapped releasing = true
has_swapped sent = true

-- Behind `start`, the messages that were swapped in stand in a chain, each once, and they are those
-- whose senders say so.
pub record Sending (start : ℕ) (s : Senders) : Type 0 where
  pub chain : Chain s.next s.phase start s.swapped s.last_queued_slot
  pub once : Distinct (start ∷ s.swapped)
  pub members : (a : ℕ) → member a s.swapped ≡ has_swapped (s.phase a)

Fresh-of_member : (a : ℕ) (xs : List ℕ) → member a xs ≡ false → Fresh a xs
Fresh-of_member a [] h = tt
Fresh-of_member a (x ∷ xs) h = elim (eq-cases x a) [
  | inl e ↦ absurd (ground arith)
  | inr n ↦ ((λ e. n (sym e)), Fresh-of_member a xs (ground arith))
]

-- A sender's phase changes, and whether it has swapped does not.
members-update :
    (phase : ℕ → Phase) (xs : List ℕ) (a : ℕ) (x : Phase)
    → ((b : ℕ) → member b xs ≡ has_swapped (phase b))
    → has_swapped x ≡ has_swapped (phase a)
    → (b : ℕ) → member b xs ≡ has_swapped (update phase a x b)
members-update phase xs a x h e b = elim (eq-cases a b) [
  | inl same ↦
      let self : (a == b) ≡ true = ground arith in
      rw self (h b ∙ sym (ap (λ t. has_swapped (phase t)) same) ∙ sym e)
  | inr other ↦ let apart : (a == b) ≡ false = ground arith in rw apart (h b)
]

-- A sender that has not swapped its message in goes on without doing so.
module _ (start a : ℕ) (s : Senders) (w : Sending start s) (x : Phase)
    (before : has_swapped (s.phase a) ≡ false) (after : has_swapped x ≡ false) where
  outside-Sending : Sending start (record s { phase = update s.phase a x })
  outside-Sending =
      let fresh = Fresh-of_member a s.swapped (w.members a ∙ before) in
      record {
        chain = Chain-outside s.next s.phase start s.swapped s.last_queued_slot a x fresh w.chain;
        once = w.once;
        members = members-update s.phase s.swapped a x w.members (after ∙ sym before);
      }

or_true : (b : Bool) → (b || true) ≡ true
or_true true = refl
or_true false = refl

or_false : (b : Bool) → (b || false) ≡ b
or_false true = refl
or_false false = refl

-- The sender swaps its message in.
members-swap :
    (phase : ℕ → Phase) (xs : List ℕ) (a seen : ℕ)
    → ((b : ℕ) → member b xs ≡ has_swapped (phase b))
    → (b : ℕ) → member b (xs ++ a ∷ []) ≡ has_swapped (update phase a (linking seen) b)
members-swap phase xs a seen h b = elim (Bool-cases (a == b)) [
  | inl same ↦ rw (member-append b xs a, same) (or_true (member b xs))
  | inr other ↦ rw (member-append b xs a, other) (or_false (member b xs) ∙ h b)
]

-- Every access of a sender whose message is not the one that the queue ends with keeps the chain.
access-Sending :
    (start a : ℕ) (fails : Bool) (s : Senders) (x : Phase)
    → s.phase a ≡ x
    → a ≢ start
    → Sending start s
    → Sending start (access a fails s x)
unfolding access
access-Sending start a fails s loading e n w =
    outside-Sending start a s w (holding s.last_queued_slot) (ap has_swapped e) refl
access-Sending start a fails s (holding seen) e n w =
    let t = outside-Sending start a s w (swapping seen) (ap has_swapped e) refl in
    record { chain = t.chain; once = t.once; members = t.members }
access-Sending start a fails s (swapping seen) e n w =
    elim (Bool-cases (not fails && (s.last_queued_slot == seen))) [
      | inl swaps ↦
          let fresh = Fresh-of_member a s.swapped (w.members a ∙ ap has_swapped e) in
          let found : s.last_queued_slot ≡ seen = ground arith in
          rw swaps (record {
            chain =
                subst
                  (λ l. Chain s.next (update s.phase a (linking l)) start (s.swapped ++ a ∷ []) a)
                  found
                  (Chain-swap s.next s.phase start s.swapped s.last_queued_slot a fresh w.chain);
            once = Distinct-append (start ∷ s.swapped) a w.once (n, fresh);
            members = members-swap s.phase s.swapped a seen w.members;
          })
      | inr fails ↦
          rw fails
            (outside-Sending start a s w (swapping s.last_queued_slot) (ap has_swapped e) refl)
    ]
access-Sending start a fails s (linking seen) e n w = record {
  chain =
      Chain-link s.next s.phase start s.swapped s.last_queued_slot a seen w.once e
        (w.members a ∙ ap has_swapped e) w.chain;
  once = w.once;
  members = members-update s.phase s.swapped a releasing w.members (sym (ap has_swapped e));
}
access-Sending start a fails s releasing e n w = record {
  chain = Chain-release s.next s.phase start s.swapped s.last_queued_slot a e w.chain;
  once = w.once;
  members = members-update s.phase s.swapped a sent w.members (sym (ap has_swapped e));
}
access-Sending start a fails s sent e n w = w

begin-Sending : (next : ℕ → ℕ) (last queued : ℕ) → Sending last (begin next last queued)
unfolding begin
begin-Sending next last queued = record { chain = refl; once = (tt, tt); members = λ a. refl }

run-Sending :
    (start : ℕ) (turns : List (ℕ × Bool)) (s : Senders)
    → All (λ t. t.0 ≢ start) turns
    → Sending start s
    → Sending start (run turns s)
unfolding run
run-Sending start [] s n w = w
run-Sending start ((a, fails) ∷ turns) s n w =
    run-Sending start turns (access a fails s (s.phase a)) n.1
      (access-Sending start a fails s (s.phase a) refl n.0 w)

-- In every interleaving of any number of senders, with any spurious failures, none of them sending
-- the message that the queue ends with, once all whose messages were swapped in are past the link:
-- the messages are linked behind that one in the order of their swaps, each once, the last of
-- them is the last queued slot, and they are those whose senders have swapped.
pub run-Links :
    (next : ℕ → ℕ) (last queued : ℕ) (turns : List (ℕ × Bool))
    → All (λ t. t.0 ≢ last) turns
    → All
        (λ q. Done ((run turns (begin next last queued)).phase q))
        (run turns (begin next last queued)).swapped
    → let s = run turns (begin next last queued) in
      Links s.next last s.swapped s.last_queued_slot
      × Distinct (last ∷ s.swapped)
      × ((a : ℕ) → member a s.swapped ≡ has_swapped (s.phase a))
run-Links next last queued turns n d =
    let s = run turns (begin next last queued) in
    let w = run-Sending last turns (begin next last queued) n (begin-Sending next last queued) in
    (Chain-Links s.next s.phase last s.swapped s.last_queued_slot d w.chain, w.once, w.members)
