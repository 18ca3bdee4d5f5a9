-- ===== src/Support/ObjectManager/FreeList.antt =====
-- The free list of pages of src/support/object_manager.hpp against the list of its pages.
use mathlib.Core.List.{append-nil}
use jemsys.Base.{
  ℕ, ◌≡◌, refl, sym, subst, List, [], ◌∷◌, ◌++◌, arith, update, Fresh, Distinct, true, false, ◌==◌,
  Distinct-append,
}
use jemsys.Support.ObjectManager.{
  Manager, remove_from_list, push_front, push_back, move_to_front, move_to_back,
}
use jemsys.Support.ObjectManager.Ring.{
  Ring, Fresh-drop, Distinct-drop, push_front-Ring, push_back-Ring, Ring-behind, Fresh-split,
  remove-Ring, Ring-end, Ring-not_end,
}

-- The pages of the free list, front first.
abbrev pub FreeList : Manager → List ℕ → Type 0
FreeList m xs = Ring m.next m.prev 0 xs × Distinct (0 ∷ xs)

pub push_front-FreeList :
    (p : ℕ) (m : Manager) (xs : List ℕ)
    → FreeList m xs
    → Fresh p (0 ∷ xs)
    → FreeList (push_front p m) (p ∷ xs)
unfolding push_front
push_front-FreeList p m xs (r, d) f =
    let same : m.next 0 ≡ update m.next p (m.next 0) 0 = ground arith in
    let next' = update (update m.next p (m.next 0)) 0 p in
    (
      subst (λ h. Ring next' (update (update m.prev p 0) h p) 0 (p ∷ xs)) same
          (push_front-Ring m.next m.prev xs p (m.next 0) refl f d r),
      (((λ e. f.0 (sym e)), d.0), (f.1, d.1)),
    )

push_back-FreeList :
    (p : ℕ) (m : Manager) (xs : List ℕ)
    → FreeList m xs
    → Fresh p (0 ∷ xs)
    → FreeList (push_back p m) (xs ++ p ∷ [])
unfolding push_back
push_back-FreeList p m xs (r, d) f =
    let same : m.prev 0 ≡ update m.prev p (m.prev 0) 0 = ground arith in
    let prev' = update (update m.prev p (m.prev 0)) 0 p in
    (
      subst (λ l. Ring (update (update m.next p 0) l p) prev' 0 (xs ++ p ∷ [])) same
          (push_back-Ring m.next m.prev 0 xs p (m.prev 0) refl f f.0 d.0 d r),
      Distinct-append (0 ∷ xs) p d f,
    )

pub remove_from_list-FreeList :
    (m : Manager) (xs : List ℕ) (p : ℕ) (ys : List ℕ)
    → FreeList m (xs ++ p ∷ ys)
    → FreeList (remove_from_list p m) (xs ++ ys)
unfolding remove_from_list
remove_from_list-FreeList m xs p ys (r, d) =
    let apart = Fresh-split p xs ys (Distinct-drop xs p ys d.1).1 in
    let nonzero = (Fresh-drop 0 xs p ys d.0).1 in
    let same : m.prev p ≡ update m.prev (m.next p) (m.prev p) p =
      ground (arith, Ring-behind m.next m.prev 0 xs p ys p apart.1 (λ e. nonzero (sym e)) r) in
    let prev' = update m.prev (m.next p) (m.prev p) in
    (
      subst (λ v. Ring (update m.next v (m.next p)) prev' 0 (xs ++ ys)) same
          (remove-Ring m.next m.prev 0 xs p ys (m.next p) (m.prev p) refl refl d d.0 r),
      (Distinct-drop (0 ∷ xs) p ys d).0,
    )

-- What move_to_front does to the list of pages that the ring stands for, wherever the page stands
-- in it: the page goes to the front, the others keep their order.
pub move_to_front-FreeList :
    (m : Manager) (xs : List ℕ) (p : ℕ) (ys : List ℕ)
    → FreeList m (xs ++ p ∷ ys)
    → FreeList (move_to_front p m) (p ∷ xs ++ ys)
unfolding move_to_front
move_to_front-FreeList m [] p ys l =
    let first : (m.next 0 == p) ≡ true = ground (arith, l.0.0) in
    let same : move_to_front p m ≡ m = rw first in subst (λ n. FreeList n (p ∷ ys)) (sym same) l
move_to_front-FreeList m (x ∷ xs) p ys l =
    let other : (m.next 0 == p) ≡ false = ground (arith, l.0.0, (Fresh-drop x xs p ys l.1.1.0).1) in
    let apart = Distinct-drop (x ∷ xs) p ys l.1.1 in
    let nonzero = (Fresh-drop 0 (x ∷ xs) p ys l.1.0).1 in
    let same : move_to_front p m ≡ push_front p (remove_from_list p m) = rw other in
    subst (λ n. FreeList n (p ∷ x ∷ xs ++ ys)) (sym same)
      (push_front-FreeList p (remove_from_list p m) (x ∷ xs ++ ys)
        (remove_from_list-FreeList m (x ∷ xs) p ys l) ((λ e. nonzero (sym e)), apart.1))

-- Likewise move_to_back: the page goes to the end.
pub move_to_back-FreeList :
    (m : Manager) (xs : List ℕ) (p : ℕ) (ys : List ℕ)
    → FreeList m (xs ++ p ∷ ys)
    → FreeList (move_to_back p m) ((xs ++ ys) ++ p ∷ [])
unfolding move_to_back
move_to_back-FreeList m xs p [] l =
    let last : (m.prev 0 == p) ≡ true = ground (arith, Ring-end m.next m.prev 0 xs p l.0) in
    rw (last, append-nil xs) l
move_to_back-FreeList m xs p (y ∷ ys) l =
    let apart = Distinct-drop xs p (y ∷ ys) l.1.1 in
    let nonzero = (Fresh-drop 0 xs p (y ∷ ys) l.1.0).1 in
    let other : (m.prev 0 == p) ≡ false =
      ground
        (arith, Ring-not_end m.next m.prev 0 xs p y ys (Fresh-split p xs (y ∷ ys) apart.1).1 l.0) in
    rw other (
      push_back-FreeList p (remove_from_list p m) (xs ++ y ∷ ys)
        (remove_from_list-FreeList m xs p (y ∷ ys) l) ((λ e. nonzero (sym e)), apart.1))
