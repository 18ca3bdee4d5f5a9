-- ===== src/Agate/Local.antt =====
-- src/agate/impl_macros.hpp, as the local mailboxes of src/agate use it. Each call is run alone:
-- what other threads do happens before it or behind it, so a wait ends with the deadline or never.
pub mod Chains
pub mod Stacks
pub mod Mpsc
pub mod Spsc
pub mod Spmc
pub mod Mpmc
pub mod Race
use jemsys.Base.{
  ℕ, suc, ◌+◌, ◌-◌, ◌≡◌, refl, ◌==◌, if◌then◌else◌, Option, none, some, [], ◌∷◌, arith,
}
use jemsys.Support.Wake.{expired, Outcome, acquired, refused, blocked}
use jemsys.Support.Semaphore.{
  Timeout, acquire_semaphore, release, acquire, try_acquire, try_acquire_until,
}
use jemsys.Agate.Message.{
  Status, success, error_too_many_senders, error_too_many_receivers, ConnectAction, attach_sender,
  detach_sender, attach_receiver, detach_receiver,
}

-- How a call ends: it returns, perhaps with a result, or it waits for another thread.
pub data Reply (M R : Type 0) : Type 0 where
  replied : Status → Option R → M → Reply M R
  waits : Reply M R

-- AGT_acquire_semaphore, and the rest of the call that runs with a permit.
unfoldable pub with_permit : {M R : Type 0} → ℕ → Timeout → Status → M → (ℕ → Reply M R) → Reply M R
unfolding acquire_semaphore
with_permit value timeout err m rest = elim (acquire_semaphore value timeout (expired ∷ [])) [
  | acquired value' _ ↦ rest value'
  | refused _ _ ↦ replied err none m
  | blocked ↦ waits
]

-- Without a permit: only the call without a deadline waits.
unfoldable pub denied : {M R : Type 0} → Timeout → Status → M → Reply M R
denied Timeout.wait err m = waits
denied Timeout.do_not_wait err m = replied err none m
denied Timeout.within err m = replied err none m

pub with_permit_eq :
    {M R : Type 0} (value : ℕ) (timeout : Timeout) (err : Status) (m : M) (rest : ℕ → Reply M R)
    → with_permit value timeout err m rest
      ≡ (if value == 0 then denied timeout err m else rest (value - 1))
unfolding with_permit acquire_semaphore acquire try_acquire try_acquire_until denied
with_permit_eq value Timeout.wait err m rest = ground arith
with_permit_eq value Timeout.do_not_wait err m rest = ground arith
with_permit_eq value Timeout.within err m rest = ground arith

-- The places for senders and receivers: `producerSemaphore` and `consumerSemaphore`.
pub record Places : Type 0 where
  pub producers : ℕ
  pub consumers : ℕ

-- binary_semaphore_t::release; its acquisitions on the values 0 and 1 are those of a semaphore_t.
unfoldable pub release_binary : ℕ → ℕ
release_binary value = 1

-- AGT_connect, with the release of each of the two semaphores.
unfoldable pub connect : (ℕ → ℕ) → (ℕ → ℕ) → Places → ConnectAction → Timeout → Reply Places Unit
unfolding with_permit
connect free_producer free_consumer p attach_sender timeout =
    with_permit p.producers timeout error_too_many_senders p
      (λ v. replied success none (record p { producers = v }))
connect free_producer free_consumer p detach_sender timeout =
    replied success none (record p { producers = free_producer p.producers })
connect free_producer free_consumer p attach_receiver timeout =
    with_permit p.consumers timeout error_too_many_receivers p
      (λ v. replied success none (record p { consumers = v }))
connect free_producer free_consumer p detach_receiver timeout =
    replied success none (record p { consumers = free_consumer p.consumers })
