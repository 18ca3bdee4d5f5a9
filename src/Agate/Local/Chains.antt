-- ===== src/Agate/Local/Chains.antt =====
-- The two chains of slots of a local mailbox: the free slots, taken at one end and returned at the
-- other, and the messages. Each has a slot that stays: the last free one, and the message received
-- last.
use jemsys.Base.{
  ℕ, ◌≡◌, ◌≢◌, sym, List, [], ◌∷◌, ◌++◌, Fresh, Distinct, Disjoint, Links, update, Distinct-append,
  Disjoint-append, Disjoint-tail, Disjoint-head, Links-update, Links-append, Links-Fresh, Links-ne,
}

pub record Chains (next : ℕ → ℕ) (first : ℕ) (free : List ℕ) (last_free : ℕ) (held : ℕ)
    (pending : List ℕ) (last_queued : ℕ) : Type 0 where
  pub free_links : Links next first free last_free
  pub links : Links next held pending last_queued
  pub free_once : Distinct (first ∷ free)
  pub queued_once : Distinct (held ∷ pending)
  pub apart : Disjoint (first ∷ free) (held ∷ pending)

-- A slot of neither chain.
abbrev pub Off : ℕ → List ℕ → ℕ → List ℕ → ℕ → Type 0
Off first free held pending x = ((x ≢ first) × Fresh x free) × (x ≢ held) × Fresh x pending

Links-last :
    (next : ℕ → ℕ) (a h : ℕ) (xs : List ℕ) (q : ℕ) → Fresh a (h ∷ xs) → Links next h xs q → a ≢ q
Links-last next a h xs q f l = Links-ne next a h xs q f.0 f.1 l

Disjoint-cons :
    (xs : List ℕ) (y : ℕ) (ys : List ℕ) → Fresh y xs → Disjoint xs ys → Disjoint xs (y ∷ ys)
Disjoint-cons [] y ys f d = tt
Disjoint-cons (x ∷ xs) y ys f d = (((λ e. f.0 (sym e)), d.0), Disjoint-cons xs y ys f.1 d.1)

Disjoint-sym : (xs ys : List ℕ) → Disjoint xs ys → Disjoint ys xs
Disjoint-sym [] [] d = tt
Disjoint-sym [] (y ∷ ys) d = (tt, Disjoint-sym [] ys tt)
Disjoint-sym (x ∷ xs) ys d = Disjoint-cons ys x xs d.0 (Disjoint-sym xs ys d.1)

module _ {next : ℕ → ℕ} {first last_free held last_queued : ℕ} {free pending : List ℕ} where
  -- The first free slot is taken, where another stands behind it.
  pub take-Chains :
      (x : ℕ)
      → Chains next first (x ∷ free) last_free held pending last_queued
      → (next first ≡ x)
        × Chains next x free last_free held pending last_queued
        × Off x free held pending first
  take-Chains x c = (
    c.free_links.0,
    record {
      free_links = c.free_links.1;
      links = c.links;
      free_once = c.free_once.1;
      queued_once = c.queued_once;
      apart = c.apart.1;
    },
    (c.free_once.0, c.apart.0.0, c.apart.0.1),
  )

  -- A slot is returned behind the last free one.
  pub put-Chains :
      (x : ℕ)
      → Chains next first free last_free held pending last_queued
      → Off first free held pending x
      → Chains (update next last_free x) first (free ++ x ∷ []) x held pending last_queued
  put-Chains x c o = record {
    free_links = Links-append next first free last_free x c.free_once c.free_links;
    links =
        Links-update next held pending last_queued last_free x apart_last.0 apart_last.1 c.links;
    free_once = Distinct-append (first ∷ free) x c.free_once o.0;
    queued_once = c.queued_once;
    apart = Disjoint-sym (held ∷ pending) (first ∷ free ++ x ∷ []) (
        Disjoint-append (held ∷ pending) (first ∷ free) x
          (Disjoint-sym (first ∷ free) (held ∷ pending) c.apart) (o.1, o.2));
  }
    where
      apart_last : Fresh last_free (held ∷ pending)
      apart_last =
          Links-Fresh next (held ∷ pending) first free last_free
            (Disjoint-sym (first ∷ free) (held ∷ pending) c.apart) c.free_links

  -- A message is linked behind the last one.
  pub send-Chains :
      (x : ℕ)
      → Chains next first free last_free held pending last_queued
      → Off first free held pending x
      → Chains (update next last_queued x) first free last_free held (pending ++ x ∷ []) x
  send-Chains x c o = record {
    free_links =
        Links-update next first free last_free last_queued x apart_last.0 apart_last.1 c.free_links;
    links = Links-append next held pending last_queued x c.queued_once c.links;
    free_once = c.free_once;
    queued_once = Distinct-append (held ∷ pending) x c.queued_once (o.1, o.2);
    apart = Disjoint-append (first ∷ free) (held ∷ pending) x c.apart o.0;
  }
    where
      apart_last : Fresh last_queued (first ∷ free)
      apart_last = Links-Fresh next (first ∷ free) held pending last_queued c.apart c.links

  -- The next message becomes the one that stays; the one before it is off the chains.
  pub advance-Chains :
      (x : ℕ)
      → Chains next first free last_free held (x ∷ pending) last_queued
      → (next held ≡ x)
        × Chains next first free last_free x pending last_queued
        × Off first free x pending held
  advance-Chains x c = (
    c.links.0,
    record {
      free_links = c.free_links;
      links = c.links.1;
      free_once = c.free_once;
      queued_once = c.queued_once.1;
      apart = Disjoint-tail (first ∷ free) held (x ∷ pending) c.apart;
    },
    (Disjoint-head (first ∷ free) held (x ∷ pending) c.apart, c.queued_once.0.0, c.queued_once.0.1),
  )
