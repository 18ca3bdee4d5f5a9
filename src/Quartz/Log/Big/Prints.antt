-- ===== src/Quartz/Log/Big/Prints.antt =====
-- What the thread of big_buffered_log of src/quartz/internal.hpp prints, where the text that is
-- flushed does not begin before the end of the buffer and end behind it without a flush between.
use jemsys.Base.{
  ℕ, ◌+◌, ◌-◌, ◌≤◌, ◌<◌, ◌≡◌, refl, sym, subst, ap, ◌∙◌, ◌⊎◌, inl, inr, true, false, ltb, leb, ◌==◌,
  ◌||◌, none, if◌then◌else◌, Bool-cases, some, List, [], ◌∷◌, ◌++◌, arith, length, length-append,
}
use jemsys.Quartz.Log.Big.{
  Log, store, load, raw_write_string, flush, wrap, normalize, write, newline_code, raw_write_char,
  print_from, print_upto, print_round,
}
use jemsys.Quartz.Log.Big.Mapped.{load-store_before, load-store, load-add}

-- The thread has printed all but `text`, which stands at the offset `b`; its own cursor is there,
-- or one buffer further on if the log's cursor has gone back since.
pub record Pending (s : Log) (b local : ℕ) (text : List ℕ) : Type 0 where
  pub ends : b + length text ≡ s.cursor
  pub at : (local ≡ b) ⊎ (local ≡ b + s.buffer_size)
  pub read : load s.buffer_size s.memory b (length text) ≡ text
  pub inside : s.cursor < s.buffer_size
  pub counted : s.chars_written ≡ length text

load-append :
    (size : ℕ) (m : ℕ → ℕ) (b k : ℕ) (text bs : List ℕ)
    → b + length text ≡ k
    → length text + length bs ≤ size
    → k + length bs ≤ size + size
    → load size m b (length text) ≡ text
    → load size (store size m k bs) b (length (text ++ bs)) ≡ text ++ bs
load-append size m b k text bs e h l r =
    let m' = store size m k bs in
    ap (load size m' b) (length-append text bs)
    ∙ load-add size m' b (length text) (length bs)
    ∙ ap (λ u. u ++ load size m' (b + length text) (length bs))
        (load-store_before size m k bs b (length text) (omega arith) (omega arith) l ∙ r)
    ∙ ap (λ p. text ++ load size m' p (length bs)) e
    ∙ ap (λ u. text ++ u) (load-store size m k bs (omega arith) l)

-- The log with `bs` behind its cursor.
unfoldable pub wrote : List ℕ → Log → Log
wrote bs s = record s {
  memory = store s.buffer_size s.memory s.cursor bs;
  chars_written = s.chars_written + length bs;
  cursor = s.cursor + length bs;
}

pub raw_write_string_eq :
    (bs : List ℕ) (s : Log)
    → s.cursor + length bs ≤ s.buffer_size + s.buffer_size
    → raw_write_string bs s ≡ some (wrote bs s)
unfolding raw_write_string wrote
raw_write_string_eq bs s h =
    let fits : ltb (s.buffer_size + s.buffer_size) (s.cursor + length bs) ≡ false = ground arith in
    rw fits refl

unfoldable pub flushed : Log → Log
flushed s = record (wrote (newline_code ∷ []) s) {
  chars_written = 0;
  print_buffer_end = some (s.cursor + 1);
}

pub flush_eq : (s : Log) → s.cursor + 1 ≤ s.buffer_size + s.buffer_size → flush s ≡ some (flushed s)
unfolding flush raw_write_char flushed wrote
flush_eq s h = rw (raw_write_string_eq (newline_code ∷ []) s h, flush) refl

print_from_eq :
    (file : ℕ → ℕ) (s : Log) (b end : ℕ) (text : List ℕ)
    → file (length text) ≡ length text
    → end ≡ b + length text + 1
    → load s.buffer_size s.memory b (length text) ≡ text
    → print_from file b end s ≡ (text, end, record s { print_cursor = end })
unfolding print_from
print_from_eq file s b end text all e r =
    let some_left : (end == b) ≡ false = ground arith in
    let count : end - b - 1 ≡ length text = omega arith in
    let whole : (length text == length text) ≡ true = ground arith in
    rw (some_left, count, all, whole, r)
      (ap (λ (k : ℕ). (text, k, record s { print_cursor = k })) (sym e))

print_round_eq :
    (file : ℕ → ℕ) (s : Log) (local end : ℕ)
    → s.print_buffer_end ≡ some end
    → print_round file local s ≡ (
        if leb local end
        then some (print_from file local end s)
        else if ltb local s.buffer_size || ltb end (local - s.buffer_size)
        then none
        else some (print_from file (local - s.buffer_size) end s))
unfolding print_round
print_round_eq file s local end p = ap (λ o. print_upto file o local s) p

-- A round prints the bytes up to the end of a line that was flushed, without that end.
print-at :
    (file : ℕ → ℕ) (s : Log) (b local end : ℕ) (text : List ℕ)
    → s.print_buffer_end ≡ some end
    → end ≡ b + length text + 1
    → length text + 1 < s.buffer_size
    → (local ≡ b) ⊎ (local ≡ b + s.buffer_size)
    → load s.buffer_size s.memory b (length text) ≡ text
    → file (length text) ≡ length text
    → print_round file local s ≡ some (text, end, record s { print_cursor = end })
print-at file s b local end text p e h (inl at) r all =
    let ahead : leb local end ≡ true = ground arith in
    let from : print_from file local end s ≡ print_from file b end s =
      ap (λ k. print_from file k end s) at in
    print_round_eq file s local end p
    ∙ rw (ahead, from ∙ print_from_eq file s b end text all e r) refl
print-at file s b local end text p e h (inr at) r all =
    let behind : leb local end ≡ false = ground arith in
    let back : local - s.buffer_size ≡ b = omega arith in
    let inside : (ltb local s.buffer_size || ltb end (local - s.buffer_size)) ≡ false =
      ground arith in
    let from : print_from file (local - s.buffer_size) end s ≡ print_from file b end s =
      ap (λ k. print_from file k end s) back in
    print_round_eq file s local end p
    ∙ rw (behind, inside, from ∙ print_from_eq file s b end text all e r) refl

-- All is printed, and the cursor may have gone back.
printed-Pending :
    (s : Log) (b local : ℕ)
    → s.cursor ≡ b
    → (local ≡ b) ⊎ (local ≡ b + s.buffer_size)
    → b < s.buffer_size
    → s.chars_written ≡ 0
    → Pending s b local []
unfolding load
printed-Pending s b local e at h c = record {
  ends = omega arith;
  at = at;
  read = refl;
  inside = omega arith;
  counted = c;
}

wrap-Pending :
    (s : Log) (end : ℕ)
    → s.cursor ≡ end
    → end < s.buffer_size + s.buffer_size
    → s.chars_written ≡ 0
    → Pending (record (wrap s) { print_cursor = end }) (wrap s).cursor end []
unfolding wrap
wrap-Pending s end e h c = elim (Bool-cases (leb s.buffer_size s.cursor)) [
  | inl over ↦ rw over (
      printed-Pending (record s { cursor = s.cursor - s.buffer_size; print_cursor = end })
        (s.cursor - s.buffer_size) end refl (inr (ground arith)) (omega arith) c)
  | inr within ↦ rw within (
      printed-Pending (record s { print_cursor = end }) s.cursor end refl (inl (sym e))
        (ground arith) c)
]

wrap-kept :
    (s : Log)
    → ((wrap s).memory ≡ s.memory)
      × ((wrap s).buffer_size ≡ s.buffer_size)
      × ((wrap s).print_buffer_end ≡ s.print_buffer_end)
unfolding wrap
wrap-kept s = (ground arith, ground arith, ground arith)

normalize-flush :
    (s : Log)
    → s.flush_limit ≤ s.chars_written
    → s.cursor + 1 ≤ s.buffer_size + s.buffer_size
    → normalize s ≡ some (wrap (flushed s))
unfolding normalize
normalize-flush s h fits =
    let long : leb s.flush_limit s.chars_written ≡ true = ground arith in
    rw (long, flush_eq s fits) refl

write-flush :
    (bs : List ℕ) (s : Log)
    → 0 < length bs
    → s.flush_limit ≤ s.chars_written + length bs
    → s.cursor + length bs + 1 ≤ s.buffer_size + s.buffer_size
    → write bs s ≡ some (wrap (flushed (wrote bs s)))
unfolding write wrote
write-flush [] s n h fits = absurd (omega arith)
write-flush (b ∷ bs) s n h fits =
    rw (raw_write_string_eq (b ∷ bs) s (omega arith), write)
      (normalize-flush (wrote (b ∷ bs) s) h fits)

-- The text with `bs` behind it, once the end of a line is written behind both.
flushed-read :
    (s : Log) (b local : ℕ) (text bs : List ℕ)
    → Pending s b local text
    → length text + length bs + 1 < s.buffer_size
    → load s.buffer_size (flushed (wrote bs s)).memory b (length (text ++ bs)) ≡ text ++ bs
unfolding flushed wrote
flushed-read s b local text bs p l =
    load-store_before s.buffer_size (store s.buffer_size s.memory s.cursor bs)
      (s.cursor + length bs) (newline_code ∷ []) b (length (text ++ bs))
      (omega (arith, length-append text bs, p.ends)) (omega (arith, p.ends))
      (omega (arith, p.inside))
    ∙ load-append s.buffer_size s.memory b s.cursor text bs p.ends (omega arith)
        (omega (arith, p.inside)) p.read

-- Bytes that make the text long enough to be flushed, and do not fill the buffer: by a round in
-- which WriteFile writes all that it is given they are printed behind what was pending, and
-- nothing is pending then.
pub write-prints :
    (file : ℕ → ℕ) (s : Log) (b local : ℕ) (text bs : List ℕ)
    → Pending s b local text
    → 0 < length bs
    → s.flush_limit ≤ length text + length bs
    → length text + length bs + 1 < s.buffer_size
    → file (length text + length bs) ≡ length text + length bs
    → (t : Log) × (u : Log) × (k : ℕ) × (write bs s ≡ some t)
      × (print_round file local t ≡ some (text ++ bs, k, u))
      × Pending u u.cursor k []
unfolding wrote flushed
write-prints file s b local text bs p n h l all =
    let w = wrote bs s in
    let f = flushed w in
    let t = wrap f in
    let end = w.cursor + 1 in
    let kept = wrap-kept f in
    let whole = length-append text bs in
    (
      t,
      record t { print_cursor = end },
      end,
      write-flush bs s n (omega (arith, p.counted)) (omega (arith, p.inside)),
      print-at file t b local end (text ++ bs) kept.2 (omega (arith, p.ends, whole))
          (omega (arith, kept.1, whole))
          (subst (λ z. (local ≡ b) ⊎ (local ≡ b + z)) (sym kept.1) p.at)
          (ap (λ z. load z t.memory b (length (text ++ bs))) kept.1
            ∙ ap (λ m. load s.buffer_size m b (length (text ++ bs))) kept.0
            ∙ flushed-read s b local text bs p l)
          (ap file whole ∙ all ∙ sym whole),
      wrap-Pending f end refl (omega (arith, p.inside)) refl,
    )
