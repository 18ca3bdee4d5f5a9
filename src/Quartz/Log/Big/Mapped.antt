-- ===== src/Quartz/Log/Big/Mapped.antt =====
-- Reads and writes of the memory that big_buffered_log of src/quartz/internal.hpp maps twice.
use jemsys.Base.{
  ℕ, zero, suc, ◌+◌, ◌≤◌, ◌<◌, ◌≡◌, ◌≢◌, refl, ◌∙◌, List, [], ◌∷◌, ◌++◌, arith, length, update,
}
use jemsys.Quartz.Log.Big.{place, store, load}

-- Less than a buffer apart, two offsets have different places.
place-ne : (size a b : ℕ) → a < b → b < a + size → b < size + size → place size a ≢ place size b
unfolding place
place-ne size a b h k l e = absurd (ground arith)

-- A write between the offset `j` and one buffer behind it leaves the byte at `j`.
store-before :
    (size : ℕ) (m : ℕ → ℕ) (k : ℕ) (bs : List ℕ) (j : ℕ)
    → j < k
    → k + length bs ≤ j + size
    → k + length bs ≤ size + size
    → store size m k bs (place size j) ≡ m (place size j)
unfolding store
store-before size m k [] j h l e = refl
store-before size m k (b ∷ bs) j h l e =
    let apart = place-ne size j k h (omega arith) (omega arith) in
    let kept : update m (place size k) b (place size j) ≡ m (place size j) = ground arith in
    store-before size (update m (place size k) b) (suc k) bs j (omega arith) (omega arith)
      (omega arith)
    ∙ kept

pub load-store_before :
    (size : ℕ) (m : ℕ → ℕ) (k : ℕ) (bs : List ℕ) (j n : ℕ)
    → j + n ≤ k
    → k + length bs ≤ j + size
    → k + length bs ≤ size + size
    → load size (store size m k bs) j n ≡ load size m j n
unfolding load
load-store_before size m k bs j zero h l e = refl
load-store_before size m k bs j (suc n) h l e =
    rw
      (
        store-before size m k bs j (omega arith) l e,
        load-store_before size m k bs (suc j) n (omega arith) (omega arith) e,
      )
      refl

-- What is written is read back.
pub load-store :
    (size : ℕ) (m : ℕ → ℕ) (k : ℕ) (bs : List ℕ)
    → length bs ≤ size
    → k + length bs ≤ size + size
    → load size (store size m k bs) k (length bs) ≡ bs
unfolding load store
load-store size m k [] h e = refl
load-store size m k (b ∷ bs) h e =
    let m' = update m (place size k) b in
    let stored : m' (place size k) ≡ b = ground arith in
    rw
      (
        store-before size m' (suc k) bs k (omega arith) (omega arith) (omega arith) ∙ stored,
        load-store size m' (suc k) bs (omega arith) (omega arith),
      )
      refl

pub load-add :
    (size : ℕ) (m : ℕ → ℕ) (k n l : ℕ)
    → load size m k (n + l) ≡ load size m k n ++ load size m (k + n) l
unfolding load
load-add size m k zero l =
    let here : k + 0 ≡ k = omega arith in let all : 0 + l ≡ l = omega arith in rw (here, all) refl
load-add size m k (suc n) l =
    let more : suc n + l ≡ suc (n + l) = omega arith in
    let on : k + suc n ≡ suc k + n = omega arith in rw (more, on, load-add size m (suc k) n l) refl

-- One buffer further on stand the same bytes.
pub load-again :
    (size : ℕ) (m : ℕ → ℕ) (k n : ℕ) → k + n ≤ size → load size m (k + size) n ≡ load size m k n
unfolding load place
load-again size m k zero h = refl
load-again size m k (suc n) h =
    let same : place size (k + size) ≡ place size k = ground arith in
    let on : suc (k + size) ≡ suc k + size = omega arith in
    rw (same, on, load-again size m (suc k) n (omega arith)) refl
