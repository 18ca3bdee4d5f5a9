-- ===== src/Ipc/OffsetPtr/Laws.antt =====
-- What pointers of src/ipc/offset_ptr.hpp lead to after they are assigned, copied, exchanged, moved
-- along an array, and mapped elsewhere.
use Prim.Native.Nat.{bit_and, bit_or}
use jemsys.Base.{ℕ, ◌+◌, ◌*◌, ◌%◌, ◌<◌, ◌≡◌, ◌≢◌, Bool, true, false, ◌==◌, if◌then◌else◌, arith}
use jemsys.Base.Bits.{bit_and-ones_self, bit_and-zero, bit_or-zero, zero-bit_or}
use jemsys.Ipc.OffsetPtr.{
  word, sub64, as_integer, copy_from, swap_with, is_null, get, assign, add_assign, sub_assign,
}

-- The mask of a test is all ones or zero.
select : (b : Bool) (x : ℕ) → x < word → bit_and x (sub64 (as_integer b) 1) ≡ (if b then 0 else x)
select true x h = bit_and-zero x
select false x h = bit_and-ones_self 64 x h

select_or :
    (b : Bool) (x : ℕ)
    → x < word
    → bit_or (bit_and x (sub64 (as_integer b) 1)) (as_integer b) ≡ (if b then 1 else x)
select_or true x h = rw (bit_and-zero x) (zero-bit_or 1)
select_or false x h = rw (bit_and-ones_self 64 x h) (bit_or-zero x)

get_eq : (this offset : ℕ) → get this offset ≡ (if offset == 1 then 0 else (this + offset) % word)
unfolding get
get_eq this offset = select (offset == 1) ((this + offset) % word) (omega arith)

assign_eq :
    (this address : ℕ) → assign this address ≡ (if address == 0 then 1 else sub64 address this)
unfolding assign
assign_eq this address = select_or (address == 0) (sub64 address this) (omega arith)

copy_from_eq :
    (this other offset : ℕ)
    → copy_from this other offset
      ≡ (if offset == 1 then 1 else sub64 ((offset + other) % word) this)
unfolding copy_from
copy_from_eq this other offset =
    select_or (offset == 1) (sub64 ((offset + other) % word) this) (omega arith)

-- What a pointer at `this` that is meant to lead to `target` does lead to: the byte right behind
-- the pointer's own address cannot be told from null.
abbrev pub reach : ℕ → ℕ → ℕ
reach this target = if target == (this + 1) % word then 0 else target

-- A pointer at any address leads to the address that was assigned to it, null included, unless that
-- is one behind its own, in which case it is null.
pub get-assign :
    (this address : ℕ)
    → this < word
    → address < word
    → get this (assign this address) ≡ reach this address
get-assign this address h g = rw (get_eq, assign_eq) (ground arith)

-- A copy at any address leads to where the pointer led that it was copied from, unless that is one
-- behind the copy's own address.
pub get-copy_from :
    (this other offset : ℕ)
    → this < word
    → other < word
    → offset < word
    → get this (copy_from this other offset) ≡ reach this (get other offset)
get-copy_from this other offset h g o = rw (get_eq, get_eq, copy_from_eq) (ground arith)

-- swap_with exchanges what the two pointers lead to, unless a target lies one behind its new
-- pointer's own address.
pub get-swap_with :
    (this offset other other_offset : ℕ)
    → this < word
    → offset < word
    → other < word
    → other_offset < word
    → (get this (swap_with this offset other other_offset).0 ≡ reach this (get other other_offset))
      × (get other (swap_with this offset other other_offset).1 ≡ reach other (get this offset))
unfolding swap_with copy_from
get-swap_with this offset other other_offset ht ho hother hoo = (
  get-copy_from this other other_offset ht hother hoo,
  get-copy_from other this offset hother ht ho,
)

-- operator+= moves a pointer that is not null by `index` elements, and operator-= moves it back,
-- unless it comes to lie one behind its own address.
pub get-add_assign :
    (size this offset index : ℕ)
    → this < word
    → offset < word
    → offset ≢ 1
    → (get this (add_assign size offset index)
        ≡ reach this ((get this offset + index * size) % word))
      × (sub_assign size (add_assign size offset index) index ≡ offset)
unfolding add_assign sub_assign
get-add_assign size this offset index h o n =
    let live : (offset == 1) ≡ false = ground arith in
    (rw (get_eq, get_eq, live) (ground arith), omega arith)

-- Where a pointer and what it leads to are mapped `d` bytes further on, the pointer leads to the
-- new place with its word unchanged; a null pointer stays null.
pub get-mapped :
    (this offset d : ℕ)
    → get ((this + d) % word) offset ≡ (if is_null offset then 0 else (get this offset + d) % word)
unfolding is_null
get-mapped this offset d = rw (get_eq, get_eq) (ground arith)

-- Moving a null pointer leaves null: operator+= on it gives a pointer to behind its own address,
-- unless it moves by a multiple of 2^64 bytes.
pub add_assign-null :
    (size this index : ℕ)
    → this < word
    → index * size % word ≢ 0
    → get this (add_assign size 1 index) ≡ (this + 1 + index * size) % word
unfolding add_assign
add_assign-null size this index h n = rw get_eq (ground arith)
