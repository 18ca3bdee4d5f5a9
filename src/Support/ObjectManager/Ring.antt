-- ===== src/Support/ObjectManager/Ring.antt =====
-- Doubly linked rings through a head, which is 0, as the free list of pages of
-- src/support/object_manager.hpp is one: what writes to the links do to them.
use jemsys.Base.{ℕ, ◌≡◌, ◌≢◌, sym, ◌∙◌, subst, List, [], ◌∷◌, ◌++◌, arith, update, Fresh, Distinct}

-- Behind `a` stand `xs`, linked both ways, and then the head.
abbrev pub Ring : (ℕ → ℕ) → (ℕ → ℕ) → ℕ → List ℕ → Type 0
Ring next prev a [] = (next a ≡ 0) × (prev 0 ≡ a)
Ring next prev a (x ∷ xs) = (next a ≡ x) × (prev x ≡ a) × Ring next prev x xs

pub Fresh-drop :
    (a : ℕ) (xs : List ℕ) (p : ℕ) (ys : List ℕ)
    → Fresh a (xs ++ p ∷ ys)
    → Fresh a (xs ++ ys) × (a ≢ p)
Fresh-drop a [] p ys f = (f.1, f.0)
Fresh-drop a (x ∷ xs) p ys f = let rest = Fresh-drop a xs p ys f.1 in ((f.0, rest.0), rest.1)

pub Distinct-drop :
    (xs : List ℕ) (p : ℕ) (ys : List ℕ)
    → Distinct (xs ++ p ∷ ys)
    → Distinct (xs ++ ys) × Fresh p (xs ++ ys)
Distinct-drop [] p ys d = (d.1, d.0)
Distinct-drop (x ∷ xs) p ys d =
    let rest = Distinct-drop xs p ys d.1 in
    let fresh = Fresh-drop x xs p ys d.0 in ((fresh.0, rest.0), ((λ e. fresh.1 (sym e)), rest.1))

-- Writes outside the ring leave it.
pub Ring-next :
    (next prev : ℕ → ℕ) (a : ℕ) (xs : List ℕ) (p v : ℕ)
    → Fresh p (a ∷ xs)
    → Ring next prev a xs
    → Ring (update next p v) prev a xs
Ring-next next prev a [] p v f r = (ground arith, r.1)
Ring-next next prev a (x ∷ xs) p v f r = (ground arith, r.1, Ring-next next prev x xs p v f.1 r.2)

pub Ring-prev :
    (next prev : ℕ → ℕ) (a : ℕ) (xs : List ℕ) (p v : ℕ)
    → p ≢ 0
    → Fresh p xs
    → Ring next prev a xs
    → Ring next (update prev p v) a xs
Ring-prev next prev a [] p v n f r = (r.0, ground arith)
Ring-prev next prev a (x ∷ xs) p v n f r =
    (r.0, ground arith, Ring-prev next prev x xs p v n f.1 r.2)

pub push_front-Ring :
    (next prev : ℕ → ℕ) (xs : List ℕ) (p h : ℕ)
    → h ≡ next 0
    → Fresh p (0 ∷ xs)
    → Distinct (0 ∷ xs)
    → Ring next prev 0 xs
    → Ring (update (update next p h) 0 p) (update (update prev p 0) h p) 0 (p ∷ xs)
push_front-Ring next prev [] p h e f d r =
    (ground arith, ground arith, (ground arith, ground arith))
push_front-Ring next prev (x ∷ xs) p h e f d r =
    let hx : h ≡ x = e ∙ r.0 in
    (
      ground arith,
      ground arith,
      (
        ground arith,
        ground arith,
        Ring-prev (update (update next p h) 0 p) (update prev p 0) x xs h p
            (rw hx (λ z. d.0.0 (sym z))) (rw hx d.1.0)
            (Ring-prev _ prev x xs p 0 f.0 f.1.1
              (Ring-next _ prev x xs 0 p d.0 (Ring-next next prev x xs p h f.1 r.2))),
      ),
    )

-- The last page of the ring is none of those before it.
pub Ring-last :
    (next prev : ℕ → ℕ) (a : ℕ) (xs : List ℕ) (b : ℕ)
    → Fresh b (a ∷ xs)
    → Ring next prev a xs
    → b ≢ prev 0
Ring-last next prev a [] b f r = λ e. f.0 (e ∙ r.1)
Ring-last next prev a (x ∷ xs) b f r = Ring-last next prev x xs b f.1 r.2

pub push_back-Ring :
    (next prev : ℕ → ℕ) (a : ℕ) (xs : List ℕ) (p l : ℕ)
    → l ≡ prev 0
    → Fresh p (a ∷ xs)
    → p ≢ 0
    → Fresh 0 xs
    → Distinct (a ∷ xs)
    → Ring next prev a xs
    → Ring (update (update next p 0) l p) (update (update prev p l) 0 p) a (xs ++ p ∷ [])
push_back-Ring next prev a [] p l e f n z d r =
    (ground arith, ground arith, (ground arith, ground arith))
push_back-Ring next prev a (x ∷ xs) p l e f n z d r = (
  ground (arith, Ring-last next prev x xs a d.0 r.2),
  ground arith,
  push_back-Ring next prev x xs p l e f.1 n z.1 d.1 r.2,
)

-- Of a page of the ring, the one before it is the head or a page before it, the one behind it the
-- head or a page behind it.
pub Ring-before :
    (next prev : ℕ → ℕ) (a : ℕ) (xs : List ℕ) (p : ℕ) (ys : List ℕ) (b : ℕ)
    → Fresh b (a ∷ xs)
    → Ring next prev a (xs ++ p ∷ ys)
    → b ≢ prev p
Ring-before next prev a [] p ys b f r = λ e. f.0 (e ∙ r.1)
Ring-before next prev a (x ∷ xs) p ys b f r = Ring-before next prev x xs p ys b f.1 r.2

pub Ring-behind :
    (next prev : ℕ → ℕ) (a : ℕ) (xs : List ℕ) (p : ℕ) (ys : List ℕ) (b : ℕ)
    → Fresh b ys
    → b ≢ 0
    → Ring next prev a (xs ++ p ∷ ys)
    → b ≢ next p
Ring-behind next prev a [] p [] b f n r = λ e. n (e ∙ r.2.0)
Ring-behind next prev a [] p (y ∷ ys) b f n r = λ e. f.0 (e ∙ r.2.0)
Ring-behind next prev a (x ∷ xs) p ys b f n r = Ring-behind next prev x xs p ys b f n r.2

pub Fresh-split : (a : ℕ) (xs ys : List ℕ) → Fresh a (xs ++ ys) → Fresh a xs × Fresh a ys
Fresh-split a [] ys f = (tt, f)
Fresh-split a (x ∷ xs) ys f = let rest = Fresh-split a xs ys f.1 in ((f.0, rest.0), rest.1)

pub remove-Ring :
    (next prev : ℕ → ℕ) (a : ℕ) (xs : List ℕ) (p : ℕ) (ys : List ℕ) (n v : ℕ)
    → n ≡ next p
    → v ≡ prev p
    → Distinct (a ∷ xs ++ p ∷ ys)
    → Fresh 0 (xs ++ p ∷ ys)
    → Ring next prev a (xs ++ p ∷ ys)
    → Ring (update next v n) (update prev n v) a (xs ++ ys)
remove-Ring next prev a [] p [] n v en ev d z r = (ground arith, ground arith)
remove-Ring next prev a [] p (y ∷ ys) n v en ev d z r =
    let ny : n ≡ y = en ∙ r.2.0 in
    let va : v ≡ a = ev ∙ r.1 in
    (
      ground arith,
      ground arith,
      Ring-prev _ prev y ys n v (rw ny (λ e. z.1.0 (sym e))) (rw ny d.1.1.0)
          (Ring-next next prev y ys v n (subst (λ t. Fresh t (y ∷ ys)) (sym va) d.0.1) r.2.2),
    )
remove-Ring next prev a (x ∷ xs) p ys n v en ev d z r =
    let fx = Fresh-split x xs (p ∷ ys) d.1.0 in
    let fa = Fresh-split a (x ∷ xs) (p ∷ ys) d.0 in
    (
      ground (arith, Ring-before next prev x xs p ys a fa.0 r.2),
      ground (arith, Ring-behind next prev x xs p ys x fx.1.1 (λ e. z.0 (sym e)) r.2),
      remove-Ring next prev x xs p ys n v en ev d.1 z.1 r.2,
    )

pub Ring-end :
    (next prev : ℕ → ℕ) (a : ℕ) (xs : List ℕ) (p : ℕ) → Ring next prev a (xs ++ p ∷ []) → prev 0 ≡ p
Ring-end next prev a [] p r = r.2.1
Ring-end next prev a (x ∷ xs) p r = Ring-end next prev x xs p r.2

pub Ring-not_end :
    (next prev : ℕ → ℕ) (a : ℕ) (xs : List ℕ) (p y : ℕ) (ys : List ℕ)
    → Fresh p (y ∷ ys)
    → Ring next prev a (xs ++ p ∷ y ∷ ys)
    → p ≢ prev 0
Ring-not_end next prev a [] p y ys f r = Ring-last next prev y ys p f r.2.2
Ring-not_end next prev a (x ∷ xs) p y ys f r = Ring-not_end next prev x xs p y ys f r.2
