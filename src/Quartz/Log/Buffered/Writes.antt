-- ===== src/Quartz/Log/Buffered/Writes.antt =====
-- The writes to async_buffered_output_log of src/quartz/internal.hpp: each leaves the log well
-- formed and adds what it writes to the text that has not been printed.
use mathlib.Core.List.{append_assoc, append-nil}
use jemsys.Base.{
  ℕ, zero, suc, ◌+◌, ◌≡◌, refl, sym, ap, ◌∙◌, subst, ◌≢◌, Bool, true, false, ltb, leb, ◌/◌, ◌-◌,
  ◌==◌, if◌then◌else◌, List, [], ◌∷◌, ◌++◌, arith, length, update, All, Fresh, Bool-cases, inl, inr,
}
use jemsys.Quartz.Log.Buffered.{
  Log, Result, ok, waiting, overrun, ◌>>=◌, push_to_queue, enqueue, write_bytes, write_char,
  write_digits, write_number, newline, newline_code, bytes, copy,
}
use jemsys.Quartz.Log.Buffered.Contents.{
  Alike, queue_text, current_text, queue_text-append, queue_text-Alike, bytes-copy,
}
use jemsys.Quartz.Log.Buffered.Rep.{Rep, pushed, push_to_queue_eq, push_to_queue-Rep}

-- A call that ends is a first part that ends and a rest that does.
pub >>=-eq-ok :
    {S T : Type 0} {t : T} (r : Result S) (k : S → Result T)
    → r >>= k ≡ ok t
    → (s : S) × (r ≡ ok s) × (k s ≡ ok t)
>>=-eq-ok overrun k e = cc
>>=-eq-ok waiting k e = cc
>>=-eq-ok (ok s) k e = (s, refl, e)

-- What has been written and not yet printed.
abbrev pub unprinted : Log → List ℕ → List ℕ
unprinted s queue = queue_text s queue ++ current_text s

-- The log is well formed, and `text` has been written to it and not yet printed.
pub record Held (s : Log) (prev : ℕ) (written : List ℕ) : Type 0 where
  pub free : List ℕ
  pub queue : List ℕ
  pub rep : Rep s prev free queue
  pub content : unprinted s queue ≡ written

Alike-update :
    (s : Log) (p v : ℕ) (xs : List ℕ)
    → Fresh p xs
    → All (Alike s (record s { bytes_to_write = update s.bytes_to_write p v })) xs
Alike-update s p v [] f = tt
Alike-update s p v (x ∷ xs) f = ((refl, ground arith), Alike-update s p v xs f.1)

text-Alike :
    (s : Log) (p : ℕ) (v : ℕ → ℕ) (xs : List ℕ)
    → Fresh p xs
    → All (Alike s (record s { text = update s.text p v })) xs
text-Alike s p v [] f = tt
text-Alike s p v (x ∷ xs) f = ((ground arith, refl), text-Alike s p v xs f.1)

queue_and_nil : (t : Log) {q u : List ℕ} → q ≡ u → current_text t ≡ [] → q ++ current_text t ≡ u
queue_and_nil t {q} {u} e n = ap (λ c. q ++ c) n ∙ append-nil q ∙ e

pub pushed-unprinted :
    (s : Log) (queue : List ℕ)
    → Fresh s.current_buffer queue
    → unprinted (pushed s) (queue ++ s.current_buffer ∷ []) ≡ unprinted s queue
unfolding enqueue current_text bytes
pushed-unprinted s queue f =
    let t = pushed s in
    let cursor : t.bytes_to_write s.current_buffer ≡ s.current_cursor = ground arith in
    let empty : current_text t ≡ [] = refl in
    queue_and_nil t
      (queue_text-append t queue s.current_buffer
        ∙ ap (λ q. q ++ bytes (s.text s.current_buffer) (t.bytes_to_write s.current_buffer))
            (queue_text-Alike s t queue (Alike-update s s.current_buffer s.current_cursor queue f))
        ∙ ap (λ n. queue_text s queue ++ bytes (s.text s.current_buffer) n) cursor)
      empty

wrote_to : List ℕ → Log → Log
wrote_to bs s = record s {
  text = update s.text s.current_buffer (copy (s.text s.current_buffer) s.current_cursor bs);
  current_cursor = s.current_cursor + length bs;
}

wrote_to-unprinted :
    (bs : List ℕ) (s : Log) (queue : List ℕ)
    → Fresh s.current_buffer queue
    → unprinted (wrote_to bs s) queue ≡ unprinted s queue ++ bs
unfolding wrote_to current_text
wrote_to-unprinted bs s queue f =
    let t = wrote_to bs s in
    let now : t.text s.current_buffer ≡ copy (s.text s.current_buffer) s.current_cursor bs =
      ground arith in
    ap (λ q. q ++ current_text t)
      (queue_text-Alike s t queue (text-Alike s s.current_buffer _ queue f))
    ∙ ap (λ g. queue_text s queue ++ bytes g (s.current_cursor + length bs)) now
    ∙ ap (λ b. queue_text s queue ++ b) (bytes-copy (s.text s.current_buffer) s.current_cursor bs)
    ∙ sym (append_assoc (queue_text s queue) (current_text s) bs)

pub Result-inj : {A : Type 0} {a b : A} → ok a ≡ ok b → a ≡ b
Result-inj e = cc

push_to_queue-waits :
    (s : Log) (prev : ℕ) (queue : List ℕ) (t : Log) → Rep s prev [] queue → push_to_queue s ≢ ok t
unfolding push_to_queue
push_to_queue-waits s prev queue t r e =
    let none_left : (s.pool_tokens == 0) ≡ true = ground (arith, r.available) in
    ground (arith, none_left)

-- A push that succeeds finds a buffer in the pool.
pub push_to_queue-Held :
    (s t : Log) (prev : ℕ) (written : List ℕ)
    → Held s prev written
    → push_to_queue s ≡ ok t
    → Held t prev written
push_to_queue-Held s t prev written h e = push-Held h.free h.rep
  where
    push-Held : (free : List ℕ) → Rep s prev free h.queue → Held t prev written
    push-Held [] r = absurd (push_to_queue-waits s prev h.queue t r e)
    push-Held (x ∷ free) r =
        let same : pushed s ≡ t = Result-inj (sym (push_to_queue_eq s prev x free h.queue r) ∙ e) in
        subst (λ k. Held k prev written) same
          (record {
            free = free;
            queue = h.queue ++ s.current_buffer ∷ [];
            rep = push_to_queue-Rep s prev x free h.queue r;
            content = pushed-unprinted s h.queue r.outside.1.1 ∙ h.content;
          })

wrote_to-Rep :
    (bs : List ℕ) (s : Log) (prev : ℕ) (free queue : List ℕ)
    → Rep s prev free queue
    → Rep (wrote_to bs s) prev free queue
unfolding wrote_to
wrote_to-Rep bs s prev free queue r = record {
  stack = r.stack;
  available = r.available;
  links = r.links;
  counted = r.counted;
  whole = r.whole;
  few = r.few;
  enough = r.enough;
  free_once = r.free_once;
  queued_once = r.queued_once;
  apart = r.apart;
  outside = r.outside;
}

write_bytes_eq : (bs : List ℕ) (s t : Log) → write_bytes bs s ≡ ok t → wrote_to bs s ≡ t
unfolding write_bytes wrote_to
write_bytes_eq bs s t e = elim (Bool-cases (ltb s.buffer_size (s.current_cursor + length bs))) [
  | inl long ↦ absurd (let bad : overrun ≡ ok t = (rw long at e) in cc)
  | inr fits ↦ Result-inj (rw fits at e)
]

-- Bytes that fit into the current buffer stand behind what is there.
pub write_bytes-Held :
    (bs : List ℕ) (s t : Log) (prev : ℕ) (written : List ℕ)
    → Held s prev written
    → write_bytes bs s ≡ ok t
    → Held t prev (written ++ bs)
write_bytes-Held bs s t prev written h e =
    subst (λ k. Held k prev (written ++ bs)) (write_bytes_eq bs s t e)
      (record {
        free = h.free;
        queue = h.queue;
        rep = wrote_to-Rep bs s prev h.free h.queue h.rep;
        content = wrote_to-unprinted bs s h.queue h.rep.outside.1.1 ∙ ap (λ w. w ++ bs) h.content;
      })

-- What write_char adds: the end of a line is not written, it only queues the buffer.
abbrev pub char_bytes : ℕ → List ℕ
char_bytes c = if c == newline_code then [] else c ∷ []

room-Held :
    (full : Bool) (s t : Log) (prev : ℕ) (written : List ℕ)
    → Held s prev written
    → (if full then push_to_queue s else ok s) ≡ ok t
    → Held t prev written
room-Held true s t prev written h e = push_to_queue-Held s t prev written h e
room-Held false s t prev written h e = subst (λ k. Held k prev written) (Result-inj e) h

pub write_char-Held :
    (c : ℕ) (s t : Log) (prev : ℕ) (written : List ℕ)
    → Held s prev written
    → write_char c s ≡ ok t
    → Held t prev (written ++ char_bytes c)
unfolding write_char
write_char-Held c s t prev written h e = elim (Bool-cases (c == newline_code)) [
  | inl line ↦ rw (line, append-nil written) (push_to_queue-Held s t prev written h (rw line at e))
  | inr other ↦
      let (u, made, put) =
        >>=-eq-ok (if s.current_cursor == s.buffer_size then push_to_queue s else ok s)
          (write_bytes (c ∷ [])) (rw other at e) in
      rw other (
        write_bytes-Held (c ∷ []) u t prev written
          (room-Held (s.current_cursor == s.buffer_size) s u prev written h made) put)
]

pub newline-Held :
    (s t : Log) (prev : ℕ) (written : List ℕ)
    → Held s prev written
    → newline s ≡ ok t
    → Held t prev (written ++ newline_code ∷ [])
unfolding newline
newline-Held s t prev written h e =
    let (u, put, made) =
      >>=-eq-ok (write_bytes (newline_code ∷ []) s)
        (λ t.
          if leb (t.buffer_size / 4) (t.buffer_size - t.current_cursor)
          then push_to_queue t
          else ok t)
        e in
    room-Held (leb (u.buffer_size / 4) (u.buffer_size - u.current_cursor)) u t prev
      (written ++ newline_code ∷ []) (write_bytes-Held (newline_code ∷ []) s u prev written h put)
      made

write_digits-Held :
    (fuel : ℕ) (digits : List ℕ) (s t : Log) (prev : ℕ) (written : List ℕ)
    → Held s prev written
    → write_digits fuel digits s ≡ ok t
    → Held t prev (written ++ digits)
unfolding write_digits
write_digits-Held zero digits s t prev written h e = absurd (cc)
write_digits-Held (suc fuel) digits s t prev written h e =
    elim (Bool-cases (ltb s.buffer_size (s.current_cursor + length digits))) [
      | inl long ↦
          let (u, made, put) =
            >>=-eq-ok (push_to_queue s) (λ k. write_digits fuel digits k)
              (rw (long, write_digits) at e) in
          write_digits-Held fuel digits u t prev written
            (push_to_queue-Held s u prev written h made) put
      | inr fits ↦ write_bytes-Held digits s t prev written h (rw (fits, write_digits) at e)
    ]

pub write_number-Held :
    (digits : List ℕ) (s t : Log) (prev : ℕ) (written : List ℕ)
    → Held s prev written
    → write_number digits s ≡ ok t
    → Held t prev (written ++ digits)
unfolding write_number
write_number-Held digits s t prev written h e =
    write_digits-Held (suc (suc s.pool_tokens)) digits s t prev written h e
