-- ===== src/Quartz/Request/Lifecycle.antt =====
-- src/quartz/internal.hpp, qtz_request: the mailbox thread and the client that sent a request act
-- on its flags in any order, one atomic access at a time.
use jemsys.Base.{◌≡◌, refl, Bool, true, false, List, [], ◌∷◌, ◌&&◌, arith}
use jemsys.Quartz.Request.{
  RequestFlags, fresh_flags, lock, discard, action_notify_sender, action_destroy, unlock,
}

pub data Event : Type 0 where
  locks notifies destroys unlocks discards : Event

-- One atomic access to the flags: afterwards they are as given, and the flag says whether this
-- access destroyed the request.
unfoldable pub access : RequestFlags → Event → RequestFlags × Bool
unfolding lock discard action_notify_sender action_destroy unlock
access f locks = (lock f, false)
access f notifies = action_notify_sender f
access f destroys = action_destroy f
access f unlocks = unlock f
access f discards = discard f

-- The accesses in their order: for each, whether it destroyed the request.
unfoldable pub run : RequestFlags → List Event → List Bool
unfolding access
run f [] = []
run f (e ∷ es) = let (f', d) = access f e in d ∷ run f' es

-- The interleavings of two threads.
pub data Interleaving : List Event → List Event → List Event → Type 0 where
  done : Interleaving [] [] []
  left :
      {e : Event} {xs ys zs : List Event}
      → Interleaving xs ys zs
      → Interleaving (e ∷ xs) ys (e ∷ zs)
  right :
      {e : Event} {xs ys zs : List Event}
      → Interleaving xs ys zs
      → Interleaving xs (e ∷ ys) (e ∷ zs)

-- The last access destroys the request and no earlier one does.
abbrev pub AtTheEnd : List Bool → Type 0
AtTheEnd [] = ⊥
AtTheEnd (d ∷ []) = d ≡ true
AtTheEnd (d ∷ e ∷ ds) = (d ≡ false) × AtTheEnd (e ∷ ds)

-- An access destroys the request exactly when it leaves all three flags set.
pub access-destroys :
    (f : RequestFlags) (e : Event)
    → let (f', d) = access f e in d ≡ (f'.is_ready && (f'.is_discarded && f'.not_preserved))
unfolding access lock discard action_notify_sender action_destroy unlock
access-destroys f locks = ground arith
access-destroys f notifies = ground arith
access-destroys f destroys = ground arith
access-destroys f unlocks = ground arith
access-destroys f discards = ground arith

-- The mailbox thread locks, answers and unlocks a request while its client discards it: whenever
-- the client does, the request is destroyed by the last access of the two threads, and by no other.
pub run-notifies :
    {es : List Event}
    → Interleaving (locks ∷ notifies ∷ unlocks ∷ []) (discards ∷ []) es
    → AtTheEnd (run fresh_flags es)
unfolding run
run-notifies (right (left (left (left done)))) = (refl, (refl, (refl, refl)))
run-notifies (left (right (left (left done)))) = (refl, (refl, (refl, refl)))
run-notifies (left (left (right (left done)))) = (refl, (refl, (refl, refl)))
run-notifies (left (left (left (right done)))) = (refl, (refl, (refl, refl)))
