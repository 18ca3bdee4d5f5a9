-- ===== src/Support/ObjectId/Laws.antt =====
-- The fields of the global ids of src/support/object_manager.hpp.
use Prim.Native.Nat.{bit_and, bit_or}
use jemsys.Base.{ℕ, ◌+◌, ◌*◌, ◌%◌, ◌^◌, ◌<◌, ◌≡◌, sym, ◌∙◌, true, false, ◌==◌, arith}
use jemsys.Base.Bits.{
  bit_or-disjoint, bit_or-zero, bit_and-ones, bit_and-ones_self, bit_and-shift, bit_or-shift,
  bit_or-ones,
}
use jemsys.Support.ObjectId.{
  Privacy, privacy_bit, make_global_id, epoch, process_id, is_shared, index,
}

-- What the accessors read from a word with the fields e, p, s and l.
word : ℕ → ℕ → ℕ → ℕ → ℕ
word e p s l = ((e * 0x40_0000 + p) * 2 + s) * 0x8000_0000 + l

module _ (e p l : ℕ) (he : e < 2 ^ 10) (hp : p < 2 ^ 22) (hl : l < 2 ^ 31) where
  make_private_lem : make_global_id e p l Privacy.private ≡ word e p 0 l
  unfolding make_global_id privacy_bit word
  make_private_lem =
      let fe : e % 2 ^ 16 * 0x40_0000_0000_0000 % 2 ^ 64 ≡ e * 0x40_0000_0000_0000 = omega arith in
      let fp : p % 2 ^ 32 * 0x1_0000_0000 % 2 ^ 64 ≡ p * 0x1_0000_0000 = omega arith in
      let fl : l % 2 ^ 32 ≡ l = omega arith in
      let two : bit_or (e * 0x40_0000_0000_0000) (p * 0x1_0000_0000)
          ≡ (e * 0x40_0000 + p) * 0x1_0000_0000 =
        bit_or-disjoint 54 e (p * 0x1_0000_0000) (omega arith) ∙ omega arith in
      let three : bit_or ((e * 0x40_0000 + p) * 0x1_0000_0000) l
          ≡ (e * 0x40_0000 + p) * 0x1_0000_0000 + l =
        bit_or-disjoint 32 (e * 0x40_0000 + p) l (omega arith) in
      rw (fe, fp, fl, two, three, bit_or-zero) (omega arith)

  make_shared_lem : make_global_id e p l Privacy.shared ≡ word 0x3ff 0x3f_ffff 1 l
  unfolding make_global_id privacy_bit word
  make_shared_lem =
      let plain : bit_or
            (bit_or
              (bit_or (e % 2 ^ 16 * 0x40_0000_0000_0000 % 2 ^ 64)
                (p % 2 ^ 32 * 0x1_0000_0000 % 2 ^ 64))
              (l % 2 ^ 32))
            0
          ≡ ((e * 0x40_0000 + p) * 2 + 0) * 0x8000_0000 + l =
        make_private_lem in
      let sum = sym (bit_or-zero _) ∙ plain in
      let above = (e * 0x40_0000 + p) * 2 + 0 in
      let high : bit_or (above * 0x8000_0000 + l) 0xffff_ffff_8000_0000
          ≡ bit_or above 0x1_ffff_ffff * 0x8000_0000 + l =
        bit_or-shift 31 above l 0x1_ffff_ffff hl in
      let filled : bit_or above 0x1_ffff_ffff ≡ 0x1_ffff_ffff =
        bit_or-ones 33 above (omega arith) in
      rw (sum, high, filled) (omega arith)

module _ (e p s l : ℕ) (he : e < 2 ^ 10) (hp : p < 2 ^ 22) (hs : s < 2) (hl : l < 2 ^ 31) where
  low : ℕ
  low = (p * 2 + s) * 0x8000_0000 + l

  epoch-word : epoch (word e p s l) ≡ e
  unfolding epoch word low
  epoch-word =
      let id : ((e * 0x40_0000 + p) * 2 + s) * 0x8000_0000 + l ≡ e * 0x40_0000_0000_0000 + low =
        omega arith in
      let shifted : bit_and (e * 0x40_0000_0000_0000 + low) 0xffc0_0000_0000_0000
          ≡ bit_and e 0x3ff * 0x40_0000_0000_0000 =
        bit_and-shift 54 e low 0x3ff (omega arith) in
      let field : bit_and e 0x3ff ≡ e = bit_and-ones_self 10 e he in
      rw (id, shifted, field) (omega arith)

  process_id-word : process_id (word e p s l) ≡ p % 2 ^ 16
  unfolding process_id word
  process_id-word =
      let id : ((e * 0x40_0000 + p) * 2 + s) * 0x8000_0000 + l
          ≡ (e * 0x40_0000 + p) * 0x1_0000_0000 + (s * 0x8000_0000 + l) =
        omega arith in
      let shifted : bit_and ((e * 0x40_0000 + p) * 0x1_0000_0000 + (s * 0x8000_0000 + l))
            0x3f_ffff_0000_0000
          ≡ bit_and (e * 0x40_0000 + p) 0x3f_ffff * 0x1_0000_0000 =
        bit_and-shift 32 (e * 0x40_0000 + p) (s * 0x8000_0000 + l) 0x3f_ffff (omega arith) in
      let field : bit_and (e * 0x40_0000 + p) 0x3f_ffff ≡ p = bit_and-ones 22 e p hp in
      rw (id, shifted, field) (omega arith)

  index-word : index (word e p s l) ≡ l
  unfolding index word
  index-word =
      let field : bit_and (((e * 0x40_0000 + p) * 2 + s) * 0x8000_0000 + l) 0x7fff_ffff ≡ l =
        bit_and-ones 31 ((e * 0x40_0000 + p) * 2 + s) l hl in
      rw field (omega arith)

  is_shared-word : is_shared (word e p s l) ≡ (s == 1)
  unfolding is_shared word
  is_shared-word =
      let shifted : bit_and (((e * 0x40_0000 + p) * 2 + s) * 0x8000_0000 + l) 0x8000_0000
          ≡ bit_and ((e * 0x40_0000 + p) * 2 + s) 1 * 0x8000_0000 =
        bit_and-shift 31 ((e * 0x40_0000 + p) * 2 + s) l 1 hl in
      let field : bit_and ((e * 0x40_0000 + p) * 2 + s) 1 ≡ s =
        bit_and-ones 1 (e * 0x40_0000 + p) s hs in
      rw (shifted, field) (ground arith)

-- The id of a private object in a process below 2^16 gives back what it was made of: the fields do
-- not overlap when the epoch is below 2^10 and the local id below 2^31.
pub make_global_id-fields :
    (e p l : ℕ)
    → e < 2 ^ 10
    → p < 2 ^ 16
    → l < 2 ^ 31
    → (epoch (make_global_id e p l Privacy.private) ≡ e)
      × (process_id (make_global_id e p l Privacy.private) ≡ p)
      × (index (make_global_id e p l Privacy.private) ≡ l)
      × (is_shared (make_global_id e p l Privacy.private) ≡ false)
make_global_id-fields e p l he hp hl =
    let hp' : p < 2 ^ 22 = omega arith in
    let hs : 0 < 2 = omega arith in
    rw (make_private_lem e p l he hp' hl) (
      epoch-word e p 0 l he hp' hs hl,
      process_id-word e p 0 l he hp' hs hl ∙ omega arith,
      index-word e p 0 l he hp' hs hl,
      is_shared-word e p 0 l he hp' hs hl,
    )

-- The id of any shared object has the epoch 0x3ff and the process 0xffff: the sign extension of the
-- privacy bit sets all bits above the local id, which alone survives.
pub make_global_id-shared :
    (e p l : ℕ)
    → e < 2 ^ 10
    → p < 2 ^ 22
    → l < 2 ^ 31
    → (epoch (make_global_id e p l Privacy.shared) ≡ 0x3ff)
      × (process_id (make_global_id e p l Privacy.shared) ≡ 0xffff)
      × (index (make_global_id e p l Privacy.shared) ≡ l)
      × (is_shared (make_global_id e p l Privacy.shared) ≡ true)
make_global_id-shared e p l he hp hl =
    let full : 0x3ff < 2 ^ 10 = omega arith in
    let field : 0x3f_ffff < 2 ^ 22 = omega arith in
    let hs : 1 < 2 = omega arith in
    rw (make_shared_lem e p l he hp hl) (
      epoch-word 0x3ff 0x3f_ffff 1 l full field hs hl,
      process_id-word 0x3ff 0x3f_ffff 1 l full field hs hl,
      index-word 0x3ff 0x3f_ffff 1 l full field hs hl,
      is_shared-word 0x3ff 0x3f_ffff 1 l full field hs hl,
    )
