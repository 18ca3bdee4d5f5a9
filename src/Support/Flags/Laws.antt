-- ===== src/Support/Flags/Laws.antt =====
-- What the operations on a word of flags do to the tests of them.
use jemsys.Base.{
  ℕ, zero, suc, ◌≡◌, refl, ap, ◌∙◌, Bool, true, false, some, List, [], ◌∷◌, ◌++◌, inl, inr,
  Bool-cases, length, arith,
}
use jemsys.Support.Flags.{
  bit_and, bit_or, bit_xor, bit_not, non_zero, equal, test_any, test_all, set, reset, flip,
  test_any_and_set, wait_until_test, wait_any,
}

and-or : (a f : List Bool) → length a ≡ length f → bit_and (bit_or a f) f ≡ f
unfolding bit_and bit_or
and-or [] [] e = refl
and-or [] (y ∷ f) e = absurd (omega (arith, e))
and-or (x ∷ a) [] e = absurd (omega (arith, e))
and-or (x ∷ a) (y ∷ f) e = ground (arith, and-or a f)

equal_self : (a : List Bool) → equal a a ≡ true
unfolding equal
equal_self [] = refl
equal_self (x ∷ a) = ground (arith, equal_self a)

-- After `set`, `reset` and two flips: the flags are all set, none of them is set, the word is as it
-- was.
pub set-reset-flip_lem :
    (bits flags : List Bool)
    → length bits ≡ length flags
    → (test_all (set bits flags) flags ≡ true)
      × (test_any (reset bits flags) flags ≡ false)
      × (flip (flip bits flags) flags ≡ bits)
unfolding test_all test_any set reset flip bit_and bit_or bit_xor bit_not non_zero equal
set-reset-flip_lem [] [] e = (refl, refl, refl)
set-reset-flip_lem [] (y ∷ f) e = absurd (omega (arith, e))
set-reset-flip_lem (x ∷ a) [] e = absurd (omega (arith, e))
set-reset-flip_lem (true ∷ a) (true ∷ f) e =
    let (s, r, t) = set-reset-flip_lem a f (omega (arith, e)) in (s, r, ap (◌∷◌ true) t)
set-reset-flip_lem (true ∷ a) (false ∷ f) e =
    let (s, r, t) = set-reset-flip_lem a f (omega (arith, e)) in (s, r, ap (◌∷◌ true) t)
set-reset-flip_lem (false ∷ a) (true ∷ f) e =
    let (s, r, t) = set-reset-flip_lem a f (omega (arith, e)) in (s, r, ap (◌∷◌ false) t)
set-reset-flip_lem (false ∷ a) (false ∷ f) e =
    let (s, r, t) = set-reset-flip_lem a f (omega (arith, e)) in (s, r, ap (◌∷◌ false) t)

length-set : (a f : List Bool) → length (set a f) ≡ length a
unfolding set bit_or
length-set [] f = refl
length-set (x ∷ a) [] = refl
length-set (x ∷ a) (y ∷ f) = ap suc (length-set a f)

test_any-set :
    (a f : List Bool) → length a ≡ length f → non_zero f ≡ true → test_any (set a f) f ≡ true
unfolding test_any set
test_any-set a f e n = ap non_zero (and-or a f e) ∙ n

-- What so many callers of `test_any_and_set` are told, one after another.
unfoldable pub claims : ℕ → List Bool → List Bool → List Bool
unfolding test_any_and_set
claims zero bits flags = []
claims (suc n) bits flags =
    let (found, bits') = test_any_and_set bits flags in found ∷ claims n bits' flags

abbrev pub trues : ℕ → List Bool
trues zero = []
trues (suc n) = true ∷ trues n

claims-set :
    (n : ℕ) (a f : List Bool)
    → length a ≡ length f
    → test_any a f ≡ true
    → non_zero f ≡ true
    → claims n a f ≡ trues n
unfolding claims test_any_and_set
claims-set zero a f e t n = refl
claims-set (suc k) a f e t n =
    rw t (ap (◌∷◌ true) (claims-set k (set a f) f (length-set a f ∙ e) (test_any-set a f e n) n))

-- If none of the flags is set, then of any number of callers of `test_any_and_set` the first, and
-- no other, is told so.
pub claims_lem :
    (n : ℕ) (bits flags : List Bool)
    → length bits ≡ length flags
    → test_any bits flags ≡ false
    → non_zero flags ≡ true
    → claims (suc n) bits flags ≡ false ∷ trues n
unfolding claims test_any_and_set
claims_lem n bits flags e t z = rw t (
    ap (◌∷◌ false) (
      claims-set n (set bits flags) flags (length-set bits flags ∙ e) (test_any-set bits flags e z)
        z))

wait_until_test-ready :
    (test : List Bool → Bool) (v : List Bool) (after : List (List Bool))
    → test v ≡ true
    → wait_until_test test v after ≡ some v
unfolding wait_until_test
wait_until_test-ready test v [] h = rw h refl
wait_until_test-ready test v (w ∷ ws) h = rw h refl

wait_until_test_lem :
    (test : List Bool → Bool) (bits : List Bool) (before : List (List Bool)) (v : List Bool)
    (after : List (List Bool))
    → test v ≡ true
    → (b : List Bool) × (wait_until_test test bits (before ++ v ∷ after) ≡ some b) × (test b ≡ true)
unfolding wait_until_test
wait_until_test_lem test bits [] v after h = elim (Bool-cases (test bits)) [
  | inl t ↦ (bits, rw t refl, t)
  | inr f ↦ (v, rw f (wait_until_test-ready test v after h), h)
]
wait_until_test_lem test bits (w ∷ before) v after h = elim (Bool-cases (test bits)) [
  | inl t ↦ (bits, rw t refl, t)
  | inr f ↦ let (b, e, t) = wait_until_test_lem test w before v after h in (b, rw f e, t)
]

-- A wait of which one load finds a word with one of the flags returns, and with such a word.
pub wait_any_lem :
    (bits flags : List Bool) (before : List (List Bool)) (v : List Bool) (after : List (List Bool))
    → test_any v flags ≡ true
    → (b : List Bool) × (wait_any bits flags (before ++ v ∷ after) ≡ some b)
      × (test_any b flags ≡ true)
unfolding wait_any
wait_any_lem bits flags before v after h =
    wait_until_test_lem (λ b. test_any b flags) bits before v after h
