-- ===== src/Agate2/Context/ObjectId.antt =====
-- src/agate2/context.cpp, class Id: an id is a word of 64 bits, with its fields from the lowest bit
-- on: 1 for isShared, 2 for kind, 14 and 15 for the cell's page and offset, 10 and 22 for the epoch
-- and the process, or the segment of a shared object.
use jemsys.Base.{
  ℕ, ◌+◌, ◌*◌, ◌/◌, ◌%◌, ◌^◌, ◌≡◌, ◌≢◌, sym, ap, ◌∙◌, Bool, true, false, not, ◌==◌, arith,
}

-- The word with these fields, each cut to its width.
unfoldable pub pack : ℕ → ℕ → ℕ → ℕ → ℕ → ℕ → ℕ
pack shared kind page offset epoch process =
    shared % 2
    + kind % 2 ^ 2 * 2
    + page % 2 ^ 14 * 2 ^ 3
    + offset % 2 ^ 15 * 2 ^ 17
    + epoch % 2 ^ 10 * 2 ^ 32
    + process % 2 ^ 22 * 2 ^ 42

unfoldable pub get_kind : ℕ → ℕ
get_kind bits = bits / 2 % 2 ^ 2

unfoldable pub get_page_id : ℕ → ℕ
get_page_id bits = bits / 2 ^ 3 % 2 ^ 14

unfoldable pub get_page_offset : ℕ → ℕ
get_page_offset bits = bits / 2 ^ 17 % 2 ^ 15

unfoldable pub get_epoch : ℕ → ℕ
get_epoch bits = bits / 2 ^ 32 % 2 ^ 10

unfoldable pub get_process_id : ℕ → ℕ
get_process_id bits = bits / 2 ^ 42 % 2 ^ 22

unfoldable pub get_segment_id : ℕ → ℕ
get_segment_id bits = bits / 2 ^ 42 % 2 ^ 22

unfoldable pub is_shared : ℕ → Bool
is_shared bits = not (bits % 2 == 0)

-- The field `kind` is not written: it has what the stack had there.
unfoldable pub make_local : ℕ → ℕ → ℕ → ℕ → ℕ → ℕ
unfolding pack
make_local stale epoch process page offset = pack 0 stale page offset epoch process

unfoldable pub make_shared : ℕ → ℕ → ℕ → ℕ → ℕ → ℕ
unfolding pack
make_shared stale epoch segment page offset = pack 1 stale page offset epoch segment

-- An id gives back what it was made of, as far as that fits its fields, whatever `kind` had before,
-- and tells whether its object is shared.
pub make_local-fields :
    (stale epoch process page offset : ℕ)
    → let id = make_local stale epoch process page offset in
      (get_epoch id ≡ epoch % 2 ^ 10)
      × (get_process_id id ≡ process % 2 ^ 22)
      × (get_page_id id ≡ page % 2 ^ 14)
      × (get_page_offset id ≡ offset % 2 ^ 15)
      × (is_shared id ≡ false)
      × (get_kind id ≡ stale % 2 ^ 2)
unfolding get_epoch get_process_id get_page_id get_page_offset is_shared get_kind make_local
make_local-fields stale epoch process page offset =
    (omega arith, omega arith, omega arith, omega arith, ground arith, omega arith)

pub make_shared-fields :
    (stale epoch segment page offset : ℕ)
    → let id = make_shared stale epoch segment page offset in
      (get_epoch id ≡ epoch % 2 ^ 10)
      × (get_segment_id id ≡ segment % 2 ^ 22)
      × (get_page_id id ≡ page % 2 ^ 14)
      × (get_page_offset id ≡ offset % 2 ^ 15)
      × (is_shared id ≡ true)
      × (get_kind id ≡ stale % 2 ^ 2)
unfolding get_epoch get_segment_id get_page_id get_page_offset is_shared get_kind make_shared
make_shared-fields stale epoch segment page offset =
    (omega arith, omega arith, omega arith, omega arith, ground arith, omega arith)

-- The id of one object made twice, with different rests in the field `kind`: the ids differ.
pub make_local-stale :
    (stale other epoch process page offset : ℕ)
    → stale % 2 ^ 2 ≢ other % 2 ^ 2
    → make_local stale epoch process page offset ≢ make_local other epoch process page offset
make_local-stale stale other epoch process page offset h e = h (
    sym (make_local-fields stale epoch process page offset).5
    ∙ ap get_kind e
    ∙ (make_local-fields other epoch process page offset).5)
