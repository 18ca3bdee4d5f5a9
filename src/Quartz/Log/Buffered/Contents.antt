-- ===== src/Quartz/Log/Buffered/Contents.antt =====
-- The bytes in the buffers of async_buffered_output_log of src/quartz/internal.hpp.
use jemsys.Base.{
  ℕ, zero, suc, ◌+◌, ◌≤◌, ◌≡◌, refl, sym, ap, ◌∙◌, List, [], ◌∷◌, ◌++◌, length, arith, update, All,
}
use mathlib.Core.List.{append_assoc, append-nil}
use jemsys.Quartz.Log.Buffered.{Log, bytes, copy}

-- A write behind the first `n` bytes leaves them.
bytes-update : (f : ℕ → ℕ) (n at c : ℕ) → n ≤ at → bytes (update f at c) n ≡ bytes f n
unfolding bytes
bytes-update f zero at c h = refl
bytes-update f (suc n) at c h =
    let other : update f at c n ≡ f n = ground arith in
    rw (bytes-update f n at c (omega arith), other) refl

bytes-store : (f : ℕ → ℕ) (n c : ℕ) → bytes (update f n c) (suc n) ≡ bytes f n ++ c ∷ []
unfolding bytes
bytes-store f n c =
    let stored : update f n c n ≡ c = ground arith in
    rw (bytes-update f n n c (omega arith), stored) refl

-- What is copied behind the first `n` bytes stands behind them.
pub bytes-copy :
    (f : ℕ → ℕ) (n : ℕ) (bs : List ℕ) → bytes (copy f n bs) (n + length bs) ≡ bytes f n ++ bs
unfolding copy
bytes-copy f n [] =
    let none_more : n + 0 ≡ n = omega arith in rw (none_more, append-nil (bytes f n)) refl
bytes-copy f n (b ∷ bs) =
    let more : n + suc (length bs) ≡ suc n + length bs = omega arith in
    rw more (
      bytes-copy (update f n b) (suc n) bs
      ∙ ap (λ front. front ++ bs) (bytes-store f n b)
      ∙ append_assoc (bytes f n) (b ∷ []) bs)

-- What the queued buffers hold, oldest first.
unfoldable pub queue_text : Log → List ℕ → List ℕ
unfolding bytes
queue_text s [] = []
queue_text s (x ∷ xs) = bytes (s.text x) (s.bytes_to_write x) ++ queue_text s xs

unfoldable pub current_text : Log → List ℕ
unfolding bytes
current_text s = bytes (s.text s.current_buffer) s.current_cursor

pub queue_text-append :
    (s : Log) (xs : List ℕ) (x : ℕ)
    → queue_text s (xs ++ x ∷ []) ≡ queue_text s xs ++ bytes (s.text x) (s.bytes_to_write x)
unfolding queue_text
queue_text-append s [] x = append-nil (bytes (s.text x) (s.bytes_to_write x))
queue_text-append s (y ∷ ys) x =
    ap (λ rest. bytes (s.text y) (s.bytes_to_write y) ++ rest) (queue_text-append s ys x)
    ∙ sym (append_assoc (bytes (s.text y) (s.bytes_to_write y)) (queue_text s ys) _)

-- Buffers that two states hold alike.
abbrev pub Alike : Log → Log → ℕ → Type 0
Alike s t x = (t.text x ≡ s.text x) × (t.bytes_to_write x ≡ s.bytes_to_write x)

pub queue_text-Alike :
    (s t : Log) (xs : List ℕ) → All (Alike s t) xs → queue_text t xs ≡ queue_text s xs
unfolding queue_text
queue_text-Alike s t [] a = refl
queue_text-Alike s t (x ∷ xs) a = rw (a.0.0, a.0.1, queue_text-Alike s t xs a.1) refl

pub queue_text-of_same :
    (s t : Log) (xs : List ℕ)
    → t.text ≡ s.text
    → t.bytes_to_write ≡ s.bytes_to_write
    → queue_text t xs ≡ queue_text s xs
queue_text-of_same s t xs e f = queue_text-Alike s t xs (all xs)
  where
    all : (ys : List ℕ) → All (Alike s t) ys
    all [] = tt
    all (y ∷ ys) = ((ap (λ g. g y) e, ap (λ g. g y) f), all ys)
