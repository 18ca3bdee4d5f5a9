-- ===== src/Support/ObjectId.antt =====
-- src/support/object_manager.hpp: the global ids of objects, and the fields read back from them.
pub mod Laws
use Prim.Native.Nat.{bit_and, bit_or}
use jemsys.Base.{ℕ, ◌+◌, ◌-◌, ◌*◌, ◌/◌, ◌%◌, ◌^◌, Bool, not, ◌==◌, if◌then◌else◌}

pub data Privacy : Type 0 where
  private shared : Privacy

-- `0x1 << 31` is an int, the least of all; as a jem_u64_t it has all the upper bits.
unfoldable pub privacy_bit : Privacy → ℕ
privacy_bit Privacy.private = 0
privacy_bit Privacy.shared = 0xffff_ffff_8000_0000

-- The macro JEM_make_global_id: the epoch in 10 bits from 54 on, the process in 22 from 32 on.
unfoldable pub make_global_id : ℕ → ℕ → ℕ → Privacy → ℕ
unfolding privacy_bit
make_global_id epoch process_id local_id privacy =
    bit_or
      (bit_or
        (bit_or (epoch % 2 ^ 16 * 0x40_0000_0000_0000 % 2 ^ 64)
          (process_id % 2 ^ 32 * 0x1_0000_0000 % 2 ^ 64))
        (local_id % 2 ^ 32))
      (privacy_bit privacy)

unfoldable pub epoch : ℕ → ℕ
epoch id = bit_and id 0xffc0_0000_0000_0000 / 0x40_0000_0000_0000 % 2 ^ 16

-- The field has 22 bits; the function casts it to 16.
unfoldable pub process_id : ℕ → ℕ
process_id id = bit_and id 0x3f_ffff_0000_0000 / 0x1_0000_0000 % 2 ^ 16

unfoldable pub is_shared : ℕ → Bool
is_shared id = not (bit_and id 0x8000_0000 == 0)

unfoldable pub index : ℕ → ℕ
index id = bit_and id 0x7fff_ffff % 2 ^ 32

-- object_manager::advance_epoch, on a 16-bit counter.
unfoldable pub advance_epoch : ℕ → ℕ
advance_epoch e = bit_and ((e + 1) % 2 ^ 16) 0x3ff
