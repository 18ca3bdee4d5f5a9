-- ===== src/Agate/Local/Race.antt =====
-- src/agate/mpsc_mailbox.cpp, local_mpsc_send, one atomic access at a time (local_mpmc_send has the
-- same loop): two senders link their messages behind the last one.
use jemsys.Base.{
  ℕ, ap, refl, ◌∙◌, ◌≡◌, ◌≢◌, ◌==◌, if◌then◌else◌, Bool, true, false, List, [], ◌∷◌, update, arith,
}

pub record Memory : Type 0 where
  pub next : ℕ → ℕ
  pub last_queued_slot : ℕ

-- Where a sender stands, with what it holds in `lastQueuedMessage`.
pub data Sender : Type 0 where
  loading : Sender
  linking : ℕ → Sender
  swapping : ℕ → Sender
  sent : Sender

-- The next access of the sender of `message`. A failed compare-exchange loads the value it found.
unfoldable pub access : ℕ → Memory → Sender → Memory × Sender
access message m loading = (m, linking m.last_queued_slot)
access message m (linking seen) = (record m { next = update m.next seen message }, swapping seen)
access message m (swapping seen) =
    if m.last_queued_slot == seen
    then (record m { last_queued_slot = message }, sent)
    else (m, linking m.last_queued_slot)
access message m sent = (m, sent)

pub record Senders : Type 0 where
  pub memory : Memory
  pub one : Sender
  pub two : Sender

unfoldable pub turn : ℕ → ℕ → Bool → Senders → Senders
unfolding access
turn a b true s = let (m, p) = access a s.memory s.one in record s { memory = m; one = p }
turn a b false s = let (m, p) = access b s.memory s.two in record s { memory = m; two = p }

-- An interleaving: `true` where the sender of `a` has its turn.
unfoldable pub run : ℕ → ℕ → List Bool → Senders → Senders
unfolding turn
run a b [] s = s
run a b (t ∷ ts) s = run a b ts (turn a b t s)

abbrev pub start : Memory → Senders
start m = record { memory = m; one = loading; two = loading }

abbrev pub Finished : Senders → Type 0
Finished s = (s.one ≡ sent) × (s.two ≡ sent)

abbrev pub one_by_one : List Bool
one_by_one = true ∷ true ∷ true ∷ false ∷ false ∷ false ∷ []

-- The queue holds both messages if the senders come one by one.
pub mpsc_send-one_by_one :
    (m : Memory) (a b : ℕ)
    → m.last_queued_slot ≢ a
    → let s = run a b one_by_one (start m) in
      Finished s
      × (s.memory.next m.last_queued_slot ≡ a)
      × (s.memory.next a ≡ b)
      × (s.memory.last_queued_slot ≡ b)
unfolding run turn access
mpsc_send-one_by_one m a b n = ground arith

-- Both senders have linked behind the last slot, the sender of `b` later.
abbrev pub linked : Memory → Senders
linked m = record {
  memory = m;
  one = swapping m.last_queued_slot;
  two = swapping m.last_queued_slot;
}

-- The sender of `a` has swapped; where the other one then stands, with `last` before both messages.
data Losing (last a b : ℕ) (s : Senders) : Type 0 where
  behind :
      s.one ≡ sent
      → s.two ≡ swapping last
      → s.memory.last_queued_slot ≡ a
      → s.memory.next last ≡ b
      → Losing last a b s
  again :
      s.one ≡ sent
      → s.two ≡ linking a
      → s.memory.last_queued_slot ≡ a
      → s.memory.next last ≡ b
      → Losing last a b s
  relinked :
      s.one ≡ sent
      → s.two ≡ swapping a
      → s.memory.last_queued_slot ≡ a
      → s.memory.next last ≡ b
      → s.memory.next a ≡ b
      → Losing last a b s
  lost :
      s.one ≡ sent
      → s.two ≡ sent
      → s.memory.last_queued_slot ≡ b
      → s.memory.next last ≡ b
      → s.memory.next a ≡ b
      → Losing last a b s

access-sent : (x : ℕ) (m : Memory) (p : Sender) → p ≡ sent → access x m p ≡ (m, sent)
unfolding access
access-sent x m p e = rw e refl

-- A turn of the sender of `a` changes nothing any more.
turn-one :
    (a b : ℕ) (s : Senders)
    → s.one ≡ sent
    → ((turn a b true s).memory ≡ s.memory)
      × ((turn a b true s).one ≡ sent)
      × ((turn a b true s).two ≡ s.two)
unfolding turn
turn-one a b s e =
    let r = access-sent a s.memory s.one e in
    (ap (λ (q : Memory × Sender). q.0) r, ap (λ (q : Memory × Sender). q.1) r, refl)

Losing-same :
    (last a b : ℕ) (s t : Senders)
    → t.memory ≡ s.memory
    → t.one ≡ sent
    → t.two ≡ s.two
    → Losing last a b s
    → Losing last a b t
Losing-same last a b s t m o w (behind x y z u) = behind o (w ∙ y) (rw m z) (rw m u)
Losing-same last a b s t m o w (again x y z u) = again o (w ∙ y) (rw m z) (rw m u)
Losing-same last a b s t m o w (relinked x y z u v) = relinked o (w ∙ y) (rw m z) (rw m u) (rw m v)
Losing-same last a b s t m o w (lost x y z u v) = lost o (w ∙ y) (rw m z) (rw m u) (rw m v)

one-Losing : (last a b : ℕ) (s : Senders) → Losing last a b s → s.one ≡ sent
one-Losing last a b s (behind x y z u) = x
one-Losing last a b s (again x y z u) = x
one-Losing last a b s (relinked x y z u v) = x
one-Losing last a b s (lost x y z u v) = x

turn-Losing :
    (last a b : ℕ) (t : Bool) (s : Senders)
    → last ≢ a
    → Losing last a b s
    → Losing last a b (turn a b t s)
unfolding turn access
turn-Losing last a b true s n l =
    let k = turn-one a b s (one-Losing last a b s l) in
    Losing-same last a b s (turn a b true s) k.0 k.1 k.2 l
turn-Losing last a b false s n (behind x y z u) =
    again x (ground arith) (ground arith) (ground arith)
turn-Losing last a b false s n (again x y z u) =
    relinked x (ground arith) (ground arith) (ground arith) (ground arith)
turn-Losing last a b false s n (relinked x y z u v) =
    lost x (ground arith) (ground arith) (ground arith) (ground arith)
turn-Losing last a b false s n (lost x y z u v) =
    lost x (ground arith) (ground arith) (ground arith) (ground arith)

run-Losing :
    (last a b : ℕ) (ts : List Bool) (s : Senders)
    → last ≢ a
    → Losing last a b s
    → Losing last a b (run a b ts s)
unfolding run
run-Losing last a b [] s n l = l
run-Losing last a b (t ∷ ts) s n l =
    run-Losing last a b ts (turn a b t s) n (turn-Losing last a b t s n l)

-- The message `a` is lost.
abbrev pub Lost : ℕ → ℕ → ℕ → Senders → Type 0
Lost last a b s =
    Finished s × (s.memory.next last ≡ b) × (s.memory.next a ≡ b) × (s.memory.last_queued_slot ≡ b)

-- Three turns of the sender of `b` are enough.
turn-again :
    (last a b : ℕ) (s : Senders)
    → last ≢ a
    → Losing last a b s
    → Lost last a b (turn a b false (turn a b false (turn a b false s)))
unfolding turn access
turn-again last a b s n (behind x y z u) = ground arith
turn-again last a b s n (again x y z u) = ground arith
turn-again last a b s n (relinked x y z u v) = ground arith
turn-again last a b s n (lost x y z u v) = ground arith

swapped-Losing :
    (m : Memory) (a b : ℕ)
    → m.next m.last_queued_slot ≡ b
    → Losing m.last_queued_slot a b (turn a b true (linked m))
unfolding turn access
swapped-Losing m a b e = behind (ground arith) refl (ground arith) (ground arith)

-- Both senders have linked their messages behind the last slot, the sender of `b` later, the last
-- slot is not `a`, and the sender of `a` is the first to swap. Whatever turns the two take then,
-- once the sender of `b` has had three more, both sends have returned and the message `a` is lost:
-- the slot that was last leads past it to `b`, which is the last slot now, and the slot `a` leads
-- to `b` too.
pub mpsc_send-overlapping :
    (m : Memory) (a b : ℕ) (ts : List Bool)
    → m.last_queued_slot ≢ a
    → m.next m.last_queued_slot ≡ b
    → Lost m.last_queued_slot a b
        (run a b (false ∷ false ∷ false ∷ []) (run a b ts (turn a b true (linked m))))
unfolding run
mpsc_send-overlapping m a b ts n e =
    turn-again m.last_queued_slot a b (run a b ts (turn a b true (linked m))) n
      (run-Losing m.last_queued_slot a b ts (turn a b true (linked m)) n (swapped-Losing m a b e))
