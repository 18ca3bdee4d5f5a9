-- ===== src/Agate/Local/Stacks.antt =====
-- The free slots of an mpmc mailbox are a stack; its messages are a chain, as in the other
-- mailboxes.
use jemsys.Base.{
  ℕ, ◌≡◌, ◌≢◌, List, [], ◌∷◌, ◌++◌, Fresh, Distinct, Disjoint, Links, Stack, update,
  Distinct-append, Disjoint-append, Disjoint-tail, Disjoint-head, Links-update, Links-append,
  Links-Fresh, Stack-update, Stack-push,
}

pub record Stacks (next : ℕ → ℕ) (first : ℕ) (free : List ℕ) (held : ℕ) (pending : List ℕ)
    (last_queued : ℕ) : Type 0 where
  pub stack : Stack next first free
  pub links : Links next held pending last_queued
  pub free_once : Distinct free
  pub queued_once : Distinct (held ∷ pending)
  pub apart : Disjoint free (held ∷ pending)

-- A slot neither free nor queued.
abbrev pub Off : List ℕ → ℕ → List ℕ → ℕ → Type 0
Off free held pending x = Fresh x free × (x ≢ held) × Fresh x pending

module _ {next : ℕ → ℕ} {first held last_queued : ℕ} {free pending : List ℕ} where
  pub take-Stacks :
      (x : ℕ)
      → Stacks next first (x ∷ free) held pending last_queued
      → (first ≡ x) × Stacks next (next x) free held pending last_queued × Off free held pending x
  take-Stacks x c = (
    c.stack.0,
    record {
      stack = c.stack.1;
      links = c.links;
      free_once = c.free_once.1;
      queued_once = c.queued_once;
      apart = c.apart.1;
    },
    (c.free_once.0, c.apart.0.0, c.apart.0.1),
  )

  pub put-Stacks :
      (x : ℕ)
      → Stacks next first free held pending last_queued
      → Off free held pending x
      → Stacks (update next x first) x (x ∷ free) held pending last_queued
  put-Stacks x c o = record {
    stack = Stack-push next first free x o.0 c.stack;
    links = Links-update next held pending last_queued x first o.1 o.2 c.links;
    free_once = (o.0, c.free_once);
    queued_once = c.queued_once;
    apart = ((o.1, o.2), c.apart);
  }

  pub send-Stacks :
      (x : ℕ)
      → Stacks next first free held pending last_queued
      → Off free held pending x
      → Stacks (update next last_queued x) first free held (pending ++ x ∷ []) x
  send-Stacks x c o = record {
    stack =
        Stack-update next first free last_queued x
          (Links-Fresh next free held pending last_queued c.apart c.links) c.stack;
    links = Links-append next held pending last_queued x c.queued_once c.links;
    free_once = c.free_once;
    queued_once = Distinct-append (held ∷ pending) x c.queued_once (o.1, o.2);
    apart = Disjoint-append free (held ∷ pending) x c.apart o.0;
  }

  pub advance-Stacks :
      (x : ℕ)
      → Stacks next first free held (x ∷ pending) last_queued
      → (next held ≡ x) × Stacks next first free x pending last_queued × Off free x pending held
  advance-Stacks x c = (
    c.links.0,
    record {
      stack = c.stack;
      links = c.links.1;
      free_once = c.free_once;
      queued_once = c.queued_once.1;
      apart = Disjoint-tail free held (x ∷ pending) c.apart;
    },
    (Disjoint-head free held (x ∷ pending) c.apart, c.queued_once.0.0, c.queued_once.0.1),
  )
