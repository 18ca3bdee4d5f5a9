-- ===== src/Agate2/Channel/Private/Lifecycle.antt =====
-- How a message of a PrivateChannel of src/agate2/channels.cpp ends: its hold and its condemnation.
use mathlib.Core.Path.{fun_ext}
use jemsys.Base.{ℕ, ◌≡◌, refl, ap, ◌∙◌, true, false, if◌then◌else◌, arith, update}
use jemsys.Agate2.Channel.Private.{
  MessageState, PrivateChannel, reset_message, drop_async, finish_cleanup, cleanup_message,
  release_message, destroy_message, set_state, release_hold, condemn, default_state,
}

update_twice {ℓ} :
    {A : Type ℓ} (f : ℕ → A) (x : ℕ) (a b : A) → update (update f x a) x b ≡ update f x b
update_twice f x a b = fun_ext (λ q. ground arith)

reset_message-set_state :
    (x : ℕ) (s : MessageState) (c : PrivateChannel)
    → reset_message x (set_state x s c).messages ≡ reset_message x c.messages
unfolding reset_message set_state
reset_message-set_state x s c =
    ap (λ g. record (reset_message x c.messages) { state = g })
      (update_twice c.messages.state x s default_state)

-- What becomes of a message does not depend on the state that it has.
destroy_message-set_state :
    (x : ℕ) (s : MessageState) (c : PrivateChannel)
    → destroy_message x (set_state x s c) ≡ destroy_message x c
unfolding destroy_message cleanup_message set_state
destroy_message-set_state x s c =
    ap
      (λ m. release_message x (
        finish_cleanup x (record c {
          messages = m;
          asyncs = drop_async (c.messages.async_data x) (c.messages.async_data_key x) c.asyncs;
        })))
      (reset_message-set_state x s c)

state-set_state :
    (x : ℕ) (s : MessageState) (c : PrivateChannel) → (set_state x s c).messages.state x ≡ s
unfolding set_state
state-set_state x s c = ground arith

release_hold-condemned :
    (x : ℕ) (c : PrivateChannel)
    → (c.messages.state x).is_condemned ≡ true
    → release_hold x c ≡ destroy_message x c
unfolding release_hold
release_hold-condemned x c h =
    let c' = set_state x (record (c.messages.state x) { is_on_hold = false }) c in
    ap (λ b. if b then destroy_message x c' else c') h
    ∙ destroy_message-set_state x (record (c.messages.state x) { is_on_hold = false }) c

release_hold-kept :
    (x : ℕ) (c : PrivateChannel)
    → (c.messages.state x).is_condemned ≡ false
    → release_hold x c ≡ set_state x (record (c.messages.state x) { is_on_hold = false }) c
unfolding release_hold
release_hold-kept x c h = rw h refl

condemn-free :
    (x : ℕ) (c : PrivateChannel)
    → (c.messages.state x).is_on_hold ≡ false
    → condemn x c ≡ destroy_message x c
unfolding condemn
condemn-free x c h =
    let c' = set_state x (record (c.messages.state x) { is_condemned = true }) c in
    ap (λ b. if b then c' else destroy_message x c') h
    ∙ destroy_message-set_state x (record (c.messages.state x) { is_condemned = true }) c

condemn-held :
    (x : ℕ) (c : PrivateChannel)
    → (c.messages.state x).is_on_hold ≡ true
    → condemn x c ≡ set_state x (record (c.messages.state x) { is_condemned = true }) c
unfolding condemn
condemn-held x c h = rw h refl

-- A message on hold and not condemned: of its release and its condemnation, whichever comes first
-- only changes its state, and whichever comes second destroys it, with the same outcome.
pub release_hold-condemn :
    (x : ℕ) (c : PrivateChannel)
    → (c.messages.state x).is_on_hold ≡ true
    → (c.messages.state x).is_condemned ≡ false
    → (condemn x c ≡ set_state x (record (c.messages.state x) { is_condemned = true }) c)
      × (release_hold x c ≡ set_state x (record (c.messages.state x) { is_on_hold = false }) c)
      × (release_hold x (condemn x c) ≡ destroy_message x c)
      × (condemn x (release_hold x c) ≡ destroy_message x c)
release_hold-condemn x c held spared =
    let s = record (c.messages.state x) { is_condemned = true } in
    let t = record (c.messages.state x) { is_on_hold = false } in
    (
      condemn-held x c held,
      release_hold-kept x c spared,
      ap (release_hold x) (condemn-held x c held)
          ∙ release_hold-condemned x (set_state x s c)
              (ap (λ u. u.is_condemned) (state-set_state x s c))
          ∙ destroy_message-set_state x s c,
      ap (condemn x) (release_hold-kept x c spared)
          ∙ condemn-free x (set_state x t c) (ap (λ u. u.is_on_hold) (state-set_state x t c))
          ∙ destroy_message-set_state x t c,
    )
