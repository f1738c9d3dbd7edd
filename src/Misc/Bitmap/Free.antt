-- ===== src/Misc/Bitmap/Free.antt =====
-- `free_bit` clears a bit of the right byte, by the low two bits of the bit's number.
use Prim.Native.Nat.{bit_and}
use mosix_3d.Prelude.{
  ℕ, ◌+◌, ◌-◌, ◌*◌, ◌/◌, ◌%◌, ◌^◌, ◌<◌, ◌≤◌, ◌≡◌, refl, ◌≢◌, true, false, List, ◌==◌, if◌then◌else◌,
  get_or, set, length, get_or-set_self, get_or-set_ne, inl, inr, arith, Bool-cases, ==→eq, ==→ne,
}
use mosix_3d.Misc.Bitmap.{Bitmap, free_bit}
use mosix_3d.Misc.Bitmap.Byte.{bit_of-bit_and}
use mosix_3d.Misc.Bitmap.Alloc.{bit, Bytes, IsValid, get_or-Bytes}

bit-clear :
    (bytes : List ℕ) (a j i : ℕ)
    → Bytes bytes
    → a < length bytes
    → j < 8
    → bit (set bytes a (bit_and (get_or bytes a 0) (0xff - 2 ^ j))) i
      ≡ (if i == a * 8 + j then 0 else bit bytes i)
bit-clear bytes a j i b h hj = elim (Bool-cases (a == i / 8)) [
  | inl e ↦
      let same : a ≡ i / 8 = ==→eq a (i / 8) e in
      let inside : i / 8 < length bytes = omega arith in
      let bits =
        bit_of-bit_and (get_or bytes (i / 8) 0) j (i % 8) (get_or-Bytes bytes (i / 8) b) hj
          (omega arith) in
      let test : (i % 8 == j) ≡ (i == (i / 8) * 8 + j) = ground arith in
      rw
        (
          same,
          get_or-set_self bytes (i / 8) (bit_and (get_or bytes (i / 8) 0) (0xff - 2 ^ j)) 0 inside,
          ← test,
        )
        bits
  | inr e ↦
      let other : a ≢ i / 8 = ==→ne a (i / 8) e in
      let test : (i == a * 8 + j) ≡ false = ground arith in
      rw
        (
          get_or-set_ne bytes {i = a} {j = i / 8} (bit_and (get_or bytes a 0) (0xff - 2 ^ j)) 0
              other,
          test,
        )
        refl
]

-- `free_bit` of bit `k` clears the bit that has the number `k % 4` in byte `k / 8`, and no other.
pub bit-free_bit :
    (map : Bitmap) (k i : ℕ)
    → IsValid map
    → k < map.max
    → bit (free_bit map k).bytes i ≡ (if i == k / 8 * 8 + k % 4 then 0 else bit map.bytes i)
unfolding free_bit
bit-free_bit map k i v h =
    bit-clear map.bytes (k / 8) (k % 4) i v.bytes (omega (arith, v.covers)) (omega arith)

-- Freeing a set bit from the upper half of its byte leaves it set, and clears the bit four below.
pub free_bit_upper_half :
    (map : Bitmap) (k : ℕ)
    → IsValid map
    → k < map.max
    → 4 ≤ k % 8
    → bit map.bytes k ≡ 1
    → (bit (free_bit map k).bytes k ≡ 1) × (bit (free_bit map k).bytes (k - 4) ≡ 0)
free_bit_upper_half map k v h up one =
    let here : (k == k / 8 * 8 + k % 4) ≡ false = ground arith in
    let below : (k - 4 == k / 8 * 8 + k % 4) ≡ true = ground arith in
    (rw (bit-free_bit map k k v h, here) one, rw (bit-free_bit map k (k - 4) v h, below) refl)
