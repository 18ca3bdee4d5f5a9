-- ===== src/Agate2/Channel/Early.antt =====
-- src/agate2/channels.cpp, LocalMpMcChannel::send: a message announced before the one in front of
-- it is linked.
use jemsys.Base.{ℕ, ◌+◌, ◌≡◌, ◌≢◌, Bool, false, List, [], ◌∷◌, arith}
use jemsys.Agate2.Channel.{linking, sent, access, run, begin}

-- The sender of `a` stops between its swap and its link, and the sender of `b` comes to its end.
abbrev pub early : ℕ → ℕ → List (ℕ × Bool)
early a b =
    (a, false)
    ∷ (a, false)
    ∷ (a, false)
    ∷ (b, false)
    ∷ (b, false)
    ∷ (b, false)
    ∷ (b, false)
    ∷ (b, false)
    ∷ []

-- The send of the second of two messages may return, and its permit let a receiver in, while the
-- first one is not linked: the queue's old end still leads to what it led to before, and the
-- second message is linked behind the first.
pub run-early :
    (next : ℕ → ℕ) (last queued a b : ℕ)
    → a ≢ b
    → a ≢ last
    → let s = run (early a b) (begin next last queued) in
      (s.phase b ≡ sent)
      × (s.phase a ≡ linking last)
      × (s.queued_messages ≡ queued + 1)
      × (s.next last ≡ next last)
      × (s.next a ≡ b)
unfolding run access begin
run-early next last queued a b n m = ground arith
