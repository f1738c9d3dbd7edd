-- ===== src/Misc/Bitmap/Alloc.antt =====
-- `alloc_bit` takes the first clear bit.
use Prim.Native.Nat.{bit_or}
use mosix_3d.Prelude.{
  ℕ, zero, suc, ◌+◌, ◌*◌, ◌/◌, ◌%◌, ◌^◌, ◌<◌, ◌≤◌, ◌≡◌, refl, ◌≢◌, ◌⊎◌, inl, inr, true, false, List,
  [], ◌∷◌, Option, none, some, ◌==◌, if◌then◌else◌, get_or, set, length, get_or-set_self,
  get_or-set_ne, u32, arith, Bool-cases, Option-cases, ==→eq, ==→ne,
}
use mosix_3d.Misc.Bitmap.{Bitmap, bit_of, clear_bit, first_clear, take_bit, alloc_bit}
use mosix_3d.Misc.Bitmap.Byte.{bit_of-bit_or}

-- Bit `k` of the array.
abbrev pub bit : List ℕ → ℕ → ℕ
bit bytes k = bit_of (get_or bytes (k / 8) 0) (k % 8)

-- The first `k` bits are set.
abbrev pub AllSet : List ℕ → ℕ → Type 0
AllSet bytes zero = Unit {0}
AllSet bytes (suc k) = (bit bytes k ≡ 1) × AllSet bytes k

abbrev pub Bytes : List ℕ → Type 0
Bytes [] = Unit {0}
Bytes (c ∷ cs) = (c < 256) × Bytes cs

-- The array covers `max` bits, in whole bytes.
pub record IsValid (map : Bitmap) : Type 0 where
  pub whole : map.max % 8 ≡ 0
  pub word : map.max + 7 < 2 ^ 32
  pub covers : map.max ≤ 8 * length map.bytes
  pub bytes : Bytes map.bytes

AllSet-eq : (bytes : List ℕ) (a b : ℕ) → a ≡ b → AllSet bytes a → AllSet bytes b
AllSet-eq bytes a b e h = rw (← e) h

pub get_or-Bytes : (bytes : List ℕ) (i : ℕ) → Bytes bytes → get_or bytes i 0 < 256
get_or-Bytes [] i h = omega arith
get_or-Bytes (c ∷ cs) zero h = h.0
get_or-Bytes (c ∷ cs) (suc i) h = get_or-Bytes cs i h.1

one_of : (n : ℕ) → (n % 2 == 0) ≡ false → n % 2 ≡ 1
one_of n h = ground arith

AllSet-suc :
    (bytes : List ℕ) (i j : ℕ)
    → j < 8
    → bit_of (get_or bytes i 0) j ≡ 1
    → AllSet bytes (i * 8 + j)
    → AllSet bytes (i * 8 + suc j)
AllSet-suc bytes i j h e a =
    let at : (i * 8 + j) / 8 ≡ i = omega arith in
    let rem : (i * 8 + j) % 8 ≡ j = omega arith in
    AllSet-eq bytes (suc (i * 8 + j)) (i * 8 + suc j) (omega arith) (rw (at, rem) e, a)

-- What the inner loop finds in byte `i`.
abbrev InByte : List ℕ → ℕ → Option ℕ → Type 0
InByte bytes i none = AllSet bytes (i * 8 + 8)
InByte bytes i (some j) = AllSet bytes (i * 8 + j) × (bit_of (get_or bytes i 0) j ≡ 0) × (j < 8)

clear_bit-InByte :
    (bytes : List ℕ) (i j n : ℕ)
    → j + n ≡ 8
    → AllSet bytes (i * 8 + j)
    → InByte bytes i (clear_bit (get_or bytes i 0) j n)
unfolding clear_bit
clear_bit-InByte bytes i j zero e a = AllSet-eq bytes (i * 8 + j) (i * 8 + 8) (omega arith) a
clear_bit-InByte bytes i j (suc n) e a = elim (Bool-cases (bit_of (get_or bytes i 0) j == 0)) [
  | inl clear ↦ rw clear (a, ==→eq _ 0 clear, omega arith)
  | inr set' ↦ rw set' (
      clear_bit-InByte bytes i (suc j) n (omega arith)
        (AllSet-suc bytes i j (omega arith) (one_of _ set') a))
]

-- What the outer loop finds in the bytes below `m`.
abbrev InBytes : List ℕ → ℕ → Option (ℕ × ℕ) → Type 0
InBytes bytes m none = AllSet bytes (m * 8)
InBytes bytes m (some (i, j)) =
    AllSet bytes (i * 8 + j) × (bit_of (get_or bytes i 0) j ≡ 0) × (j < 8) × (i < m)

full_byte : (c : ℕ) → (c == 0xff) ≡ true → clear_bit c 0 8 ≡ none
unfolding clear_bit
full_byte c e = rw (==→eq c 0xff e) refl

first_clear-InBytes :
    (bytes : List ℕ) (i n m : ℕ)
    → i + n ≡ m
    → AllSet bytes (i * 8)
    → InBytes bytes m (first_clear bytes i n)
unfolding first_clear
first_clear-InBytes bytes i zero m e a = AllSet-eq bytes (i * 8) (m * 8) (omega arith) a
first_clear-InBytes bytes i (suc n) m e a =
    let start = AllSet-eq bytes (i * 8) (i * 8 + 0) (omega arith) a in
    let inner = clear_bit-InByte bytes i 0 8 (omega arith) start in
    let next = λ (full : AllSet bytes (i * 8 + 8)).
      first_clear-InBytes bytes (suc i) n m (omega arith)
        (AllSet-eq bytes (i * 8 + 8) (suc i * 8) (omega arith) full) in
    elim (Option-cases (clear_bit (get_or bytes i 0) 0 8)) [
      | inl full ↦ elim (Bool-cases (get_or bytes i 0 == 0xff)) [
        | inl ff ↦ rw ff (next (rw full at inner))
        | inr ff ↦ rw (ff, full) (next (rw full at inner))
      ]
      | inr (j, at) ↦ elim (Bool-cases (get_or bytes i 0 == 0xff)) [
        | inl ff ↦ cc (full_byte (get_or bytes i 0) ff, at)
        | inr ff ↦
            let found = rw at at inner in rw (ff, at) (found.0, found.1, found.2, omega arith)
      ]
    ]

bit-split :
    (bytes : List ℕ) (i j : ℕ) {b : ℕ}
    → j < 8
    → bit_of (get_or bytes i 0) j ≡ b
    → bit bytes (i * 8 + j) ≡ b
bit-split bytes i j h e =
    let at : (i * 8 + j) / 8 ≡ i = omega arith in
    let rem : (i * 8 + j) % 8 ≡ j = omega arith in rw (at, rem) e

pub bit-set :
    (bytes : List ℕ) (a j i : ℕ)
    → Bytes bytes
    → a < length bytes
    → j < 8
    → bit (set bytes a (bit_or (get_or bytes a 0) (2 ^ j))) i
      ≡ (if i == a * 8 + j then 1 else bit bytes i)
bit-set bytes a j i b h hj = elim (Bool-cases (a == i / 8)) [
  | inl e ↦
      let same : a ≡ i / 8 = ==→eq a (i / 8) e in
      let inside : i / 8 < length bytes = omega arith in
      let bits =
        bit_of-bit_or (get_or bytes (i / 8) 0) j (i % 8) (get_or-Bytes bytes (i / 8) b) hj
          (omega arith) in
      let test : (i % 8 == j) ≡ (i == (i / 8) * 8 + j) = ground arith in
      rw
        (
          same,
          get_or-set_self bytes (i / 8) (bit_or (get_or bytes (i / 8) 0) (2 ^ j)) 0 inside,
          ← test,
        )
        bits
  | inr e ↦
      let other : a ≢ i / 8 = ==→ne a (i / 8) e in
      let test : (i == a * 8 + j) ≡ false = ground arith in
      rw (get_or-set_ne bytes {i = a} {j = i / 8} (bit_or (get_or bytes a 0) (2 ^ j)) 0 other, test)
        refl
]

take_bit-least :
    (map : Bitmap) (o : Option (ℕ × ℕ)) (m : ℕ)
    → m * 8 ≡ map.max
    → InBytes map.bytes m o
    → let (k, _) = take_bit map o in
      (k ≤ map.max) × AllSet map.bytes k × ((k ≡ map.max) ⊎ (bit map.bytes k ≡ 0))
unfolding take_bit
take_bit-least map none m all found =
    (omega arith, AllSet-eq map.bytes (m * 8) map.max all found, inl refl)
take_bit-least map (some (i, j)) m all found =
    (omega arith, found.0, inr (bit-split map.bytes i j found.2 found.1))

bit-take_bit :
    (map : Bitmap) (o : Option (ℕ × ℕ)) (m i : ℕ)
    → m * 8 ≡ map.max
    → InBytes map.bytes m o
    → IsValid map
    → i < map.max
    → let (k, map') = take_bit map o in bit map'.bytes i ≡ (if i == k then 1 else bit map.bytes i)
unfolding take_bit
bit-take_bit map none m i all found v h = ground arith
bit-take_bit map (some (a, j)) m i all found v h =
    bit-set map.bytes a j i v.bytes (omega (arith, v.covers)) found.2

-- `alloc_bit` returns the first clear bit, or `max` where none is clear.
pub alloc_bit-least :
    (map : Bitmap)
    → IsValid map
    → let (k, _) = alloc_bit map in
      (k ≤ map.max) × AllSet map.bytes k × ((k ≡ map.max) ⊎ (bit map.bytes k ≡ 0))
unfolding alloc_bit
alloc_bit-least map v =
    let nb = u32 (map.max + 7) / 8 in
    take_bit-least map (first_clear map.bytes 0 nb) nb (omega (arith, v.whole, v.word))
      (first_clear-InBytes map.bytes 0 nb nb (omega arith) tt)

-- `alloc_bit` sets the bit that it returns, and changes no other.
pub bit-alloc_bit :
    (map : Bitmap) (i : ℕ)
    → IsValid map
    → i < map.max
    → let (k, map') = alloc_bit map in bit map'.bytes i ≡ (if i == k then 1 else bit map.bytes i)
unfolding alloc_bit
bit-alloc_bit map i v h =
    let nb = u32 (map.max + 7) / 8 in
    bit-take_bit map (first_clear map.bytes 0 nb) nb i (omega (arith, v.whole, v.word))
      (first_clear-InBytes map.bytes 0 nb nb (omega arith) tt) v h
