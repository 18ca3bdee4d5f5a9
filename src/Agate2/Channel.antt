-- ===== src/Agate2/Channel.antt =====
-- src/agate2/channels.cpp, LocalMpMcChannel::send, one atomic access at a time, for any number of
-- senders; LocalMpScChannel::send is the same but for the counter that it raises. A message is
-- named by its address and has one sender.
pub mod Chain
pub mod Sends
pub mod Early
pub mod Private
use jemsys.Base.{
  ℕ, suc, ◌+◌, ◌==◌, if◌then◌else◌, Bool, true, false, ◌&&◌, not, List, [], ◌∷◌, ◌++◌, update,
}

-- Where the send of a message stands; the number is what it holds in `lastQueued`.
pub data Phase : Type 0 where
  loading : Phase
  holding : ℕ → Phase
  swapping : ℕ → Phase
  linking : ℕ → Phase
  releasing : Phase
  sent : Phase

pub record Senders : Type 0 where
  pub next : ℕ → ℕ
  pub last_queued_slot : ℕ
  pub on_hold : ℕ → Bool
  pub queued_messages : ℕ
  pub phase : ℕ → Phase
  -- The messages in the order in which their senders swapped them in.
  pub swapped : List ℕ

-- The next access of the sender of `a`; a compare-exchange that is weak may fail for no reason.
unfoldable pub access : ℕ → Bool → Senders → Phase → Senders
access a fails s loading = record s { phase = update s.phase a (holding s.last_queued_slot) }
access a fails s (holding seen) = record s {
  on_hold = update s.on_hold a true;
  phase = update s.phase a (swapping seen);
}
access a fails s (swapping seen) =
    if not fails && (s.last_queued_slot == seen)
    then record s {
      last_queued_slot = a;
      phase = update s.phase a (linking seen);
      swapped = s.swapped ++ a ∷ [];
    }
    else record s { phase = update s.phase a (swapping s.last_queued_slot) }
access a fails s (linking seen) = record s {
  next = update s.next seen a;
  phase = update s.phase a releasing;
}
access a fails s releasing = record s {
  queued_messages = s.queued_messages + 1;
  phase = update s.phase a sent;
}
access a fails s sent = s

-- The senders' turns, in any order.
unfoldable pub run : List (ℕ × Bool) → Senders → Senders
run [] s = s
run ((a, fails) ∷ turns) s = run turns (access a fails s (s.phase a))

-- No one has begun to send; the queue ends with `last`.
unfoldable pub begin : (ℕ → ℕ) → ℕ → ℕ → Senders
begin next last queued = record {
  next = next;
  last_queued_slot = last;
  on_hold = λ _. false;
  queued_messages = queued;
  phase = λ _. loading;
  swapped = [];
}
