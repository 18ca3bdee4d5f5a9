-- ===== src/Ipc/OffsetPtr.antt =====
-- src/ipc/offset_ptr.hpp: pointers that are kept as the distance from their own address, so that
-- memory may be mapped at several places. An address is a 64-bit word; the state of a pointer is
-- its word `offset_`, and its own address is passed as `this`.
pub mod Laws
use Prim.Native.Nat.{bit_and, bit_or}
use jemsys.Base.{ℕ, ◌+◌, ◌-◌, ◌*◌, ◌%◌, ◌^◌, Bool, ◌==◌, if◌then◌else◌}

abbrev pub word : ℕ
word = 2 ^ 64

-- x - y on 64 bits.
abbrev pub sub64 : ℕ → ℕ → ℕ
sub64 x y = (x + (word - y)) % word

-- A test as an integer.
abbrev pub as_integer : Bool → ℕ
as_integer b = if b then 1 else 0

unfoldable pub cast_to_offset : ℕ → ℕ → ℕ
cast_to_offset this address =
    let is_null = as_integer (address == 0) in
    bit_or (bit_and (sub64 address this) (sub64 is_null 1)) is_null

unfoldable pub cast_to_pointer : ℕ → ℕ → ℕ
cast_to_pointer this offset = bit_and ((this + offset) % word) (sub64 (as_integer (offset == 1)) 1)

unfoldable pub translate_offset : ℕ → ℕ → ℕ → ℕ
translate_offset to from offset =
    let other_is_null = as_integer (offset == 1) in
    bit_or (bit_and (sub64 ((offset + from) % word) to) (sub64 other_is_null 1)) other_is_null

unfoldable pub copy_from : ℕ → ℕ → ℕ → ℕ
unfolding translate_offset
copy_from this other offset = translate_offset this other offset

-- The offsets of the two pointers, exchanged.
unfoldable pub swap_with : ℕ → ℕ → ℕ → ℕ → ℕ × ℕ
unfolding translate_offset
swap_with this offset other other_offset =
    let tmp = translate_offset other this offset in (translate_offset this other other_offset, tmp)

unfoldable pub is_null : ℕ → Bool
is_null offset = offset == 1

unfoldable pub get : ℕ → ℕ → ℕ
unfolding cast_to_pointer
get this offset = cast_to_pointer this offset

-- operator=(pointer), and the null pointer of operator=(nullptr).
unfoldable pub assign : ℕ → ℕ → ℕ
unfolding cast_to_offset
assign this address = cast_to_offset this address

abbrev pub null_offset : ℕ
null_offset = 1

-- operator+= and operator-= by `index` elements of `size` bytes; with index 1 they are operator++
-- and operator--. A negative index is its word.
unfoldable pub add_assign : ℕ → ℕ → ℕ → ℕ
add_assign size offset index = (offset + index * size % word) % word

unfoldable pub sub_assign : ℕ → ℕ → ℕ → ℕ
sub_assign size offset index = sub64 offset (index * size % word)
