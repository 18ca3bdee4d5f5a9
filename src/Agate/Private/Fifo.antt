-- ===== src/Agate/Private/Fifo.antt =====
-- A private mailbox from its making on: its slots, and the order of its messages.
use jemsys.Base.{
  count_up, length-count_up, Distinct-count_up, Stack-count_up, Disjoint-count_up, ℕ, zero, suc,
  ◌-◌, ◌≡◌, refl, sym, ap, Option, some, none, List, [], ◌∷◌, ◌++◌, arith, length, All, Fresh,
  Distinct, Fresh-append,
}
use mathlib.Core.List.{append_assoc, append-nil}
use jemsys.Agate.Message.{SendFlags, Slot, Message, read_msg}
use jemsys.Agate.Private.{PrivateMailbox, make_private_mailbox, send, receive}
use jemsys.Agate.Private.Rep.{Rep, Outside, send-Rep}
use jemsys.Agate.Private.Receive.{receive-Rep}

-- A mailbox made with `n + 1` slots: the first `n` are free, the last is the initial predecessor.
pub make_private_mailbox-Rep :
    (n size : ℕ) → Rep (make_private_mailbox (suc n) size) (count_up 0 n) []
unfolding make_private_mailbox
make_private_mailbox-Rep n size = record {
  stack = Stack-count_up 0 n;
  available = omega (arith, length-count_up 0 n);
  links = refl;
  counted = omega arith;
  free_once = Distinct-count_up 0 n;
  queued_once = (tt, tt);
  apart = Disjoint-count_up 0 n (suc n - 1) (omega arith);
  flagged = λ x h. refl;
}

-- A sender that sends these slots one after another.
unfoldable pub send_all : PrivateMailbox → List Slot → SendFlags → PrivateMailbox
send_all m [] f = m
send_all m (s ∷ ss) f = send_all (send m s f).1 ss f

collect : Option Message → List ℕ → List ℕ
collect none rest = rest
collect (some msg) rest = msg.cookie ∷ rest

-- A receiver that calls `receive` so many times: the cookies of the messages that it is given.
unfoldable pub receive_n : ℕ → PrivateMailbox → List ℕ
unfolding collect
receive_n zero m = []
receive_n (suc n) m = let (status, msg, m') = receive m in collect msg (receive_n n m')

abbrev pub cookies : List Slot → List ℕ
cookies [] = []
cookies (s ∷ ss) = s.cookie ∷ cookies ss

Outside-send :
    (m : PrivateMailbox) (s : Slot) (f : SendFlags) (free pending : List ℕ) (ss : List Slot)
    → Fresh s.cookie (cookies ss)
    → All (Outside m free pending) (cookies ss)
    → All (Outside (send m s f).1 free (pending ++ s.cookie ∷ [])) (cookies ss)
unfolding send
Outside-send m s f free pending [] d o = tt
Outside-send m s f free pending (t ∷ ss) d o = (
  (o.0.0, o.0.1, Fresh-append t.cookie pending s.cookie o.0.2 (λ e. d.0 (sym e))),
  Outside-send m s f free pending ss d.1 o.1,
)

send_all-Rep :
    (m : PrivateMailbox) (ss : List Slot) (f : SendFlags) (free pending : List ℕ)
    → Rep m free pending
    → Distinct (cookies ss)
    → All (Outside m free pending) (cookies ss)
    → Rep (send_all m ss f) free (pending ++ cookies ss)
unfolding send_all
send_all-Rep m [] f free pending r d o = rw append-nil r
send_all-Rep m (s ∷ ss) f free pending r d o =
    rw (← append_assoc pending (s.cookie ∷ []) (cookies ss)) (
      send_all-Rep (send m s f).1 ss f free (pending ++ s.cookie ∷ [])
        (send-Rep m s f free pending r o.0) d.1 (Outside-send m s f free pending ss d.0 o.1))

receive_n-Rep :
    (m : PrivateMailbox) (free pending : List ℕ)
    → Rep m free pending
    → receive_n (length pending) m ≡ pending
unfolding receive_n read_msg
receive_n-Rep m free [] r = refl
receive_n-Rep m free (x ∷ pending) r =
    let (m', e, r', _) = receive-Rep m x free pending r in
    rw (e, receive_n) (ap (◌∷◌ x) (receive_n-Rep m' _ pending r'))

-- First in, first out: different slots in a sender's hands, sent one after another through an empty
-- mailbox, are received in the order in which they were sent, all of them.
pub receive_n-send_all :
    (m : PrivateMailbox) (ss : List Slot) (f : SendFlags) (free : List ℕ)
    → Rep m free []
    → Distinct (cookies ss)
    → All (Outside m free []) (cookies ss)
    → receive_n (length (cookies ss)) (send_all m ss f) ≡ cookies ss
receive_n-send_all m ss f free r d o =
    receive_n-Rep (send_all m ss f) free (cookies ss) (send_all-Rep m ss f free [] r d o)
