-- ===== src/Agate2/Context/PageList.antt =====
-- src/agate2/context.cpp, ListNodeBase and PageList: a doubly linked list of nodes. Node 0 is
-- `base`.
use jemsys.Base.{
  ℕ, ◌+◌, ◌-◌, ◌%◌, ◌^◌, ◌≡◌, ◌≢◌, refl, sym, ap, subst, ◌∙◌, Bool, ◌==◌, List, [], ◌∷◌, arith,
  update, Fresh, Distinct,
}
use jemsys.Support.ObjectManager.Ring.{Ring, remove-Ring, Ring-behind, Ring-last}

pub record PageList : Type 0 where
  pub next : ℕ → ℕ
  pub prev : ℕ → ℕ
  pub entry_count : ℕ

unfoldable pub insert_after : ℕ → ℕ → PageList → PageList
insert_after this node l =
    let prev' = update l.prev this node in
    let next' = update l.next this (l.next node) in
    record l { next = update next' (prev' node) this; prev = update prev' node this }

unfoldable pub insert_before : ℕ → ℕ → PageList → PageList
insert_before this node l =
    let prev' = update l.prev this (l.prev node) in
    let next' = update l.next this node in
    record l { prev = update prev' (next' node) this; next = update next' node this }

unfoldable pub remove : ℕ → PageList → PageList
remove this l =
    let prev' = update l.prev (l.next this) (l.prev this) in
    record l { prev = prev'; next = update l.next (prev' this) (l.next this) }

unfoldable pub push_front : ℕ → PageList → PageList
unfolding insert_after
push_front node l = record (insert_after node 0 l) { entry_count = (l.entry_count + 1) % 2 ^ 64 }

unfoldable pub push_back : ℕ → PageList → PageList
unfolding insert_before
push_back node l = record (insert_before node 0 l) { entry_count = (l.entry_count + 1) % 2 ^ 64 }

unfoldable pub pop_front : PageList → PageList × ℕ
unfolding remove
pop_front l = (
  record (remove (l.next 0) l) { entry_count = (l.entry_count + (2 ^ 64 - 1)) % 2 ^ 64 },
  l.next 0,
)

unfoldable pub pop_back : PageList → PageList × ℕ
unfolding remove
pop_back l = (
  record (remove (l.prev 0) l) { entry_count = (l.entry_count + (2 ^ 64 - 1)) % 2 ^ 64 },
  l.prev 0,
)

unfoldable pub move_to_front : ℕ → PageList → PageList
unfolding remove insert_after
move_to_front node l = insert_after node 0 (remove node l)

unfoldable pub move_to_back : ℕ → PageList → PageList
unfolding remove insert_before
move_to_back node l = insert_before node 0 (remove node l)

-- The list without entries.
unfoldable pub make_list : PageList
make_list = record { next = λ _. 0; prev = λ _. 0; entry_count = 0 }

unfoldable pub empty : PageList → Bool
empty l = l.entry_count == 0

-- The nodes of a list, front first, linked both ways.
abbrev pub Entries : PageList → List ℕ → Type 0
Entries l xs = Ring l.next l.prev 0 xs × Distinct (0 ∷ xs)

remove-first : (l : PageList) (x : ℕ) (xs : List ℕ) → Entries l (x ∷ xs) → Entries (remove x l) xs
unfolding remove
remove-first l x xs e =
    let nonzero : x ≢ 0 = λ z. e.1.0.0 (sym z) in
    let same : l.prev x ≡ update l.prev (l.next x) (l.prev x) x =
      ground (arith, Ring-behind l.next l.prev 0 [] x xs x e.1.1.0 nonzero e.0) in
    (
      subst (λ v. Ring (update l.next v (l.next x)) (update l.prev (l.next x) (l.prev x)) 0 xs) same
          (remove-Ring l.next l.prev 0 [] x xs (l.next x) (l.prev x) refl refl e.1 e.1.0 e.0),
      (e.1.0.1, e.1.1.1),
    )

-- Taking the front node of a list out leaves the others.
pub pop_front-Entries :
    (l : PageList) (x : ℕ) (xs : List ℕ)
    → Entries l (x ∷ xs)
    → Entries (pop_front l).0 xs × ((pop_front l).1 ≡ x)
unfolding pop_front
pop_front-Entries l x xs e =
    (subst (λ k. Entries (remove k l) xs) (sym e.0.0) (remove-first l x xs e), e.0.0)

-- A node pushed to either end of a list without entries is its one entry.
pub push-Entries :
    (l : PageList) (x : ℕ)
    → x ≢ 0
    → Entries l []
    → Entries (push_front x l) (x ∷ []) × Entries (push_back x l) (x ∷ [])
unfolding push_front push_back
push-Entries l x n e =
    let once : Distinct (0 ∷ x ∷ []) = (((λ z. n (sym z)), tt), (tt, tt)) in
    (
      ((ground arith, ground arith, (ground arith, ground arith)), once),
      ((ground arith, ground arith, (ground arith, ground arith)), once),
    )

-- The links of `base` and of a node pushed to the front of a list with entries.
push_front-links :
    (l : PageList) (p x : ℕ) (xs : List ℕ)
    → Fresh p (0 ∷ x ∷ xs)
    → Entries l (x ∷ xs)
    → let r = push_front p l in (r.next 0 ≡ x) × (r.next p ≡ x) × (r.prev 0 ≡ p)
unfolding push_front
push_front-links l p x xs f e =
    let behind : update l.prev p 0 0 ≡ l.prev 0 = ground arith in
    let last = Ring-last l.next l.prev x xs 0 e.1.0 e.0.2 in
    let other = Ring-last l.next l.prev x xs p f.1 e.0.2 in
    (rw behind (ground arith), rw behind (ground arith), ground arith)

-- A node pushed to the front of a list with entries is not reached from there, and pops from the
-- back return it again and again, whatever stands before it.
pub push_front-lost :
    (l : PageList) (p x : ℕ) (xs : List ℕ)
    → Fresh p (0 ∷ x ∷ xs)
    → Entries l (x ∷ xs)
    → let r = push_front p l in
      let s = pop_back r in (r.next 0 ≡ x) × (s.1 ≡ p) × ((pop_back s.0).1 ≡ p)
unfolding pop_back
push_front-lost l p x xs f e =
    let k = push_front-links l p x xs f e in
    let r = push_front p l in
    let onward : r.next (r.prev 0) ≡ x = ap r.next k.2 ∙ k.1 in
    let kept : update r.prev (r.next (r.prev 0)) (r.prev (r.prev 0)) 0 ≡ r.prev 0 =
      rw onward (ground arith) in
    (k.0, k.2, kept ∙ k.2)

-- The links of a node pushed to the back of a list with entries.
push_back-links :
    (l : PageList) (p x : ℕ) (xs : List ℕ)
    → Fresh p (0 ∷ x ∷ xs)
    → Entries l (x ∷ xs)
    → let r = push_back p l in
      (r.next 0 ≡ p) × (r.next p ≡ 0) × (r.prev p ≡ l.prev 0) × (l.prev 0 ≢ 0)
unfolding push_back
push_back-links l p x xs f e =
    let ahead : update l.next p 0 0 ≡ x = ground (arith, e.0.0) in
    let last = Ring-last l.next l.prev x xs 0 e.1.0 e.0.2 in
    (ground arith, ground arith, rw ahead (ground arith), (λ z. last (sym z)))

-- A node pushed to the back of a list with entries comes first, with none behind it, and pops from
-- the front return it again and again.
pub push_back-lost :
    (l : PageList) (p x : ℕ) (xs : List ℕ)
    → Fresh p (0 ∷ x ∷ xs)
    → Entries l (x ∷ xs)
    → let r = push_back p l in
      let s = pop_front r in (s.1 ≡ p) × (r.next p ≡ 0) × ((pop_front s.0).1 ≡ p)
unfolding pop_front
push_back-lost l p x xs f e =
    let k = push_back-links l p x xs f e in
    let r = push_back p l in
    let prev' = update r.prev (r.next (r.next 0)) (r.prev (r.next 0)) in
    let back : prev' (r.next 0) ≢ 0 = rw k.0 (rw k.1 (ground (arith, k.2, k.3, f.0))) in
    (k.0, k.1, ground (arith, k.0, back))
