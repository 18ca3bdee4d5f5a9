-- ===== src/Base/Store.antt =====
-- Slots linked by index: a store is a function from indices, a pointer is an index.
use Prim.Native.Nat.{ℕ, zero, suc, ◌+◌, ◌≤◌, ◌<◌}
use mathlib.Core.Path.{◌≡◌, refl, sym, ap, ◌∙◌, subst}
use mathlib.Core.Logic.{◌≢◌}
use mathlib.Core.Bool.{Bool, false, ◌||◌}
use mathlib.Core.List.{List, [], ◌∷◌, ◌++◌}
use native.Mathlib.Omega.{arith}
use jemsys.Base.Tests.{◌==◌, if◌then◌else◌}
use jemsys.Base.Lists.{All, length}

-- A write at one index.
abbrev pub update {ℓ} : {A : Type ℓ} → (ℕ → A) → ℕ → A → ℕ → A
update m p v q = if p == q then v else m q

-- `a` is not among `xs`.
abbrev pub Fresh : ℕ → List ℕ → Type 0
Fresh a [] = Unit
Fresh a (x ∷ xs) = (a ≢ x) × Fresh a xs

-- No index stands twice.
abbrev pub Distinct : List ℕ → Type 0
Distinct [] = Unit
Distinct (x ∷ xs) = Fresh x xs × Distinct xs

abbrev pub Disjoint : List ℕ → List ℕ → Type 0
Disjoint [] ys = Unit
Disjoint (x ∷ xs) ys = Fresh x ys × Disjoint xs ys

-- A stack threaded through `next` from `h`: what is popped from it, in order.
abbrev pub Stack : (ℕ → ℕ) → ℕ → List ℕ → Type 0
Stack next h [] = Unit
Stack next h (x ∷ xs) = (h ≡ x) × Stack next (next x) xs

-- A queue threaded through `next`: behind `p` stand `xs`, and the last of `p ∷ xs` is `q`.
abbrev pub Links : (ℕ → ℕ) → ℕ → List ℕ → ℕ → Type 0
Links next p [] q = p ≡ q
Links next p (x ∷ xs) q = (next p ≡ x) × Links next x xs q

abbrev pub member : ℕ → List ℕ → Bool
member a [] = false
member a (x ∷ xs) = (x == a) || member a xs

pub member-append :
    (a : ℕ) (xs : List ℕ) (b : ℕ) → member a (xs ++ b ∷ []) ≡ (member a xs || (b == a))
member-append a [] b = ground arith
member-append a (x ∷ xs) b = ground (arith, member-append a xs b)

pub member-Fresh : (a : ℕ) (xs : List ℕ) → Fresh a xs → member a xs ≡ false
member-Fresh a [] h = refl
member-Fresh a (x ∷ xs) h = ground (arith, member-Fresh a xs h.1)

pub Fresh-append : (a : ℕ) (xs : List ℕ) (b : ℕ) → Fresh a xs → a ≢ b → Fresh a (xs ++ b ∷ [])
Fresh-append a [] b h n = (n, tt)
Fresh-append a (x ∷ xs) b h n = (h.0, Fresh-append a xs b h.1 n)

pub Distinct-append : (xs : List ℕ) (b : ℕ) → Distinct xs → Fresh b xs → Distinct (xs ++ b ∷ [])
Distinct-append [] b d f = (tt, tt)
Distinct-append (x ∷ xs) b d f =
    (Fresh-append x xs b d.0 (λ e. f.0 (sym e)), Distinct-append xs b d.1 f.1)

pub Disjoint-append :
    (xs ys : List ℕ) (b : ℕ) → Disjoint xs ys → Fresh b xs → Disjoint xs (ys ++ b ∷ [])
Disjoint-append [] ys b d f = tt
Disjoint-append (x ∷ xs) ys b d f =
    (Fresh-append x ys b d.0 (λ e. f.0 (sym e)), Disjoint-append xs ys b d.1 f.1)

-- Without its head, the second list is still disjoint from the first.
pub Disjoint-tail : (xs : List ℕ) (y : ℕ) (ys : List ℕ) → Disjoint xs (y ∷ ys) → Disjoint xs ys
Disjoint-tail [] y ys d = tt
Disjoint-tail (x ∷ xs) y ys d = (d.0.1, Disjoint-tail xs y ys d.1)

pub Disjoint-head : (xs : List ℕ) (y : ℕ) (ys : List ℕ) → Disjoint xs (y ∷ ys) → Fresh y xs
Disjoint-head [] y ys d = tt
Disjoint-head (x ∷ xs) y ys d = ((λ e. d.0.0 (sym e)), Disjoint-head xs y ys d.1)

-- A stack and a queue depend on the links of their own slots alone.
pub Stack-of_agree :
    (next next' : ℕ → ℕ) (h : ℕ) (xs : List ℕ)
    → All (λ x. next' x ≡ next x) xs
    → Stack next h xs
    → Stack next' h xs
Stack-of_agree next next' h [] a s = tt
Stack-of_agree next next' h (x ∷ xs) a s =
    (s.0, rw a.0 (Stack-of_agree next next' (next x) xs a.1 s.1))

pub All-update :
    (next : ℕ → ℕ) (p v : ℕ) (xs : List ℕ) → Fresh p xs → All (λ x. update next p v x ≡ next x) xs
All-update next p v [] f = tt
All-update next p v (x ∷ xs) f = (ground arith, All-update next p v xs f.1)

-- A write outside the stack leaves it.
pub Stack-update :
    (next : ℕ → ℕ) (h : ℕ) (xs : List ℕ) (p v : ℕ)
    → Fresh p xs
    → Stack next h xs
    → Stack (update next p v) h xs
Stack-update next h xs p v f s = Stack-of_agree next _ h xs (All-update next p v xs f) s

-- A write outside the queue leaves it.
pub Links-update :
    (next : ℕ → ℕ) (h : ℕ) (xs : List ℕ) (q p v : ℕ)
    → p ≢ h
    → Fresh p xs
    → Links next h xs q
    → Links (update next p v) h xs q
Links-update next h [] q p v n f s = s
Links-update next h (x ∷ xs) q p v n f s = (ground arith, Links-update next x xs q p v f.0 f.1 s.1)

-- The last slot of a queue is one of its slots.
pub Links-ne :
    (next : ℕ → ℕ) (a h : ℕ) (xs : List ℕ) (q : ℕ) → a ≢ h → Fresh a xs → Links next h xs q → a ≢ q
Links-ne next a h [] q n f s = λ e. n (e ∙ sym s)
Links-ne next a h (x ∷ xs) q n f s = Links-ne next a x xs q f.0 f.1 s.1

-- A link from the last slot of the queue extends it.
pub Links-append :
    (next : ℕ → ℕ) (h : ℕ) (xs : List ℕ) (q b : ℕ)
    → Distinct (h ∷ xs)
    → Links next h xs q
    → Links (update next q b) h (xs ++ b ∷ []) b
Links-append next h [] q b d s = (ground arith, refl)
Links-append next h (x ∷ xs) q b d s =
    (ground (arith, Links-ne next h x xs q d.0.0 d.0.1 s.1), Links-append next x xs q b d.1 s.1)

pub Links-Fresh :
    (next : ℕ → ℕ) (xs : List ℕ) (h : ℕ) (ys : List ℕ) (q : ℕ)
    → Disjoint xs (h ∷ ys)
    → Links next h ys q
    → Fresh q xs
Links-Fresh next [] h ys q d l = tt
Links-Fresh next (x ∷ xs) h ys q d l =
    ((λ e. Links-ne next x h ys q d.0.0 d.0.1 l (sym e)), Links-Fresh next xs h ys q d.1 l)

-- A slot linked to the top of the stack becomes its top.
pub Stack-push :
    (next : ℕ → ℕ) (h : ℕ) (xs : List ℕ) (p : ℕ)
    → Fresh p xs
    → Stack next h xs
    → Stack (update next p h) p (p ∷ xs)
Stack-push next h xs p f s = (refl, rw self (Stack-update next h xs p h f s))
  where
    self : update next p h p ≡ h
    self = ground arith

-- `n` indices from `i` on.
abbrev pub count_up : ℕ → ℕ → List ℕ
count_up i zero = []
count_up i (suc n) = i ∷ count_up (suc i) n

pub length-count_up : (i n : ℕ) → length (count_up i n) ≡ n
length-count_up i zero = refl
length-count_up i (suc n) = ap suc (length-count_up (suc i) n)

Fresh-count_up : (a i n : ℕ) → (a < i) → Fresh a (count_up i n)
Fresh-count_up a i zero h = tt
Fresh-count_up a i (suc n) h = (omega arith, Fresh-count_up a (suc i) n (omega arith))

pub Distinct-count_up : (i n : ℕ) → Distinct (count_up i n)
Distinct-count_up i zero = tt
Distinct-count_up i (suc n) =
    (Fresh-count_up i (suc i) n (omega arith), Distinct-count_up (suc i) n)

pub Stack-count_up : (i n : ℕ) → Stack suc i (count_up i n)
Stack-count_up i zero = tt
Stack-count_up i (suc n) = (refl, Stack-count_up (suc i) n)

pub Disjoint-count_up : (i n k : ℕ) → i + n ≤ k → Disjoint (count_up i n) (k ∷ [])
Disjoint-count_up i zero k h = tt
Disjoint-count_up i (suc n) k h = ((omega arith, tt), Disjoint-count_up (suc i) n k (omega arith))

pub Links-count_up : (i n : ℕ) → Links suc i (count_up (suc i) n) (i + n)
Links-count_up i zero = omega arith
Links-count_up i (suc n) = (
  refl,
  subst (Links suc (suc i) (count_up (suc (suc i)) n)) (omega arith) (Links-count_up (suc i) n),
)
