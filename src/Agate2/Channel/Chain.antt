-- ===== src/Agate2/Channel/Chain.antt =====
-- The chain that the senders of src/agate2/channels.cpp build, while some of them have swapped
-- their messages in and not linked them yet.
use jemsys.Base.{
  ℕ, ◌≡◌, ◌≢◌, refl, sym, ap, ◌∙◌, subst, true, false, List, [], ◌∷◌, ◌++◌, arith, update, Fresh,
  Distinct, Links, All, member, eq-cases, inl, inr, ◌⊎◌, ◌==◌,
}
use jemsys.Agate2.Channel.{Phase, loading, holding, swapping, linking, releasing, sent}

-- The message is linked, and its sender past the link.
abbrev pub Done : Phase → Type 0
Done loading = ⊥
Done (holding seen) = ⊥
Done (swapping seen) = ⊥
Done (linking seen) = ⊥
Done releasing = Unit
Done sent = Unit

-- Of the messages `qs` that were swapped in behind `p`, each is linked to the one before it, or its
-- sender is about to link it there; the last one is `last`.
abbrev pub Chain : (ℕ → ℕ) → (ℕ → Phase) → ℕ → List ℕ → ℕ → Type 0
Chain next phase p [] last = last ≡ p
Chain next phase p (q ∷ qs) last =
    ((phase q ≡ linking p) ⊎ ((next p ≡ q) × Done (phase q))) × Chain next phase q qs last

-- The sender of a message outside the chain changes its phase.
pub Chain-outside :
    (next : ℕ → ℕ) (phase : ℕ → Phase) (p : ℕ) (qs : List ℕ) (last a : ℕ) (x : Phase)
    → Fresh a qs
    → Chain next phase p qs last
    → Chain next (update phase a x) p qs last
Chain-outside next phase p [] last a x f c = c
Chain-outside next phase p (q ∷ qs) last a x f c =
    let other : (a == q) ≡ false = ground arith in
    (rw other c.0, Chain-outside next phase q qs last a x f.1 c.1)

-- The sender of a new message swaps it in.
pub Chain-swap :
    (next : ℕ → ℕ) (phase : ℕ → Phase) (p : ℕ) (qs : List ℕ) (last a : ℕ)
    → Fresh a qs
    → Chain next phase p qs last
    → Chain next (update phase a (linking last)) p (qs ++ a ∷ []) a
Chain-swap next phase p [] last a f c =
    let self : (a == a) ≡ true = ground arith in (inl (rw self (ap linking c)), refl)
Chain-swap next phase p (q ∷ qs) last a f c =
    let other : (a == q) ≡ false = ground arith in
    (rw other c.0, Chain-swap next phase q qs last a f.1 c.1)

-- A write to the link of a message that is not in the chain.
Chain-next :
    (next : ℕ → ℕ) (phase : ℕ → Phase) (p : ℕ) (qs : List ℕ) (last v a : ℕ)
    → Fresh v (p ∷ qs)
    → Chain next phase p qs last
    → Chain (update next v a) phase p qs last
Chain-next next phase p [] last v a f c = c
Chain-next next phase p (q ∷ qs) last v a f c =
    let other : (v == p) ≡ false = ground arith in
    (rw other c.0, Chain-next next phase q qs last v a f.1 c.1)

-- Where a sender is about to link its message to: the message before it in the chain.
Chain-before :
    (next : ℕ → ℕ) (phase : ℕ → Phase) (p : ℕ) (qs : List ℕ) (last a v r : ℕ)
    → Fresh r (p ∷ qs)
    → phase a ≡ linking v
    → member a qs ≡ true
    → Chain next phase p qs last
    → r ≢ v
Chain-before next phase p [] last a v r f e m c = cc
Chain-before next phase p (q ∷ qs) last a v r f e m c = elim (eq-cases q a) [
  | inl same ↦ elim c.0 [
    | inl l ↦
        let places : linking p ≡ linking v = sym l ∙ ap phase same ∙ e in
        let before : p ≡ v = cc in λ g. f.0 (g ∙ sym before)
    | inr d ↦ absurd (subst Done (ap phase same ∙ e) d.1)
  ]
  | inr other ↦
      let behind : member a qs ≡ true = ground arith in
      Chain-before next phase q qs last a v r f.1 e behind c.1
]

-- A sender links its message.
pub Chain-link :
    (next : ℕ → ℕ) (phase : ℕ → Phase) (p : ℕ) (qs : List ℕ) (last a v : ℕ)
    → Distinct (p ∷ qs)
    → phase a ≡ linking v
    → member a qs ≡ true
    → Chain next phase p qs last
    → Chain (update next v a) (update phase a releasing) p qs last
Chain-link next phase p [] last a v d e m c = cc
Chain-link next phase p (q ∷ qs) last a v d e m c = elim (eq-cases q a) [
  | inl same ↦ elim c.0 [
    | inl l ↦
        let places : linking p ≡ linking v = sym l ∙ ap phase same ∙ e in
        let before : p ≡ v = cc in
        let self : (a == q) ≡ true = ground arith in
        let link : (v == p) ≡ true = ground arith in
        (
          inr (rw link (sym same), rw self tt),
          Chain-outside (update next v a) phase q qs last a releasing
              (subst (λ t. Fresh t qs) same d.1.0)
              (Chain-next next phase q qs last v a (subst (λ t. Fresh t (q ∷ qs)) before d.0) c.1),
        )
    | inr done ↦ absurd (subst Done (ap phase same ∙ e) done.1)
  ]
  | inr other ↦
      let behind : member a qs ≡ true = ground arith in
      let apart : (a == q) ≡ false = ground arith in
      let elsewhere : (v == p) ≡ false =
        ground (arith, Chain-before next phase q qs last a v p d.0 e behind c.1) in
      (rw (apart, elsewhere) c.0, Chain-link next phase q qs last a v d.1 e behind c.1)
]

-- A sender that has linked its message comes to its end.
pub Chain-release :
    (next : ℕ → ℕ) (phase : ℕ → Phase) (p : ℕ) (qs : List ℕ) (last a : ℕ)
    → phase a ≡ releasing
    → Chain next phase p qs last
    → Chain next (update phase a sent) p qs last
Chain-release next phase p [] last a e c = c
Chain-release next phase p (q ∷ qs) last a e c = elim (eq-cases q a) [
  | inl same ↦ elim c.0 [
    | inl l ↦ let odd : linking p ≡ releasing = sym l ∙ ap phase same ∙ e in cc
    | inr done ↦
        let self : (a == q) ≡ true = ground arith in
        (inr (done.0, rw self tt), Chain-release next phase q qs last a e c.1)
  ]
  | inr other ↦
      let apart : (a == q) ≡ false = ground arith in
      (rw apart c.0, Chain-release next phase q qs last a e c.1)
]

-- When all of them are past the link, the messages are a queue.
pub Chain-Links :
    (next : ℕ → ℕ) (phase : ℕ → Phase) (p : ℕ) (qs : List ℕ) (last : ℕ)
    → All (λ q. Done (phase q)) qs
    → Chain next phase p qs last
    → Links next p qs last
Chain-Links next phase p [] last d c = sym c
Chain-Links next phase p (q ∷ qs) last d c = (
  elim c.0 [ inl l ↦ absurd (subst Done l d.0) | inr done ↦ done.0 ],
  Chain-Links next phase q qs last d.1 c.1,
)
