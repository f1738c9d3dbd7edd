-- ===== src/Archive/Keyboard/Modifiers.antt =====
-- The state of the modifier keys: bits 4 to 9 of `keystat` are the six keys, bits 0 to 2 tell whether a
-- ctrl, alt or shift key is down, and bit 3 is caps lock.
use Prim.Native.Nat.{bit_xor}
use mosix_3d.Prelude.{
  ℕ, ◌+◌, ◌-◌, ◌^◌, ◌≤◌, ◌<◌, ◌⊎◌, ◌≡◌, refl, ap, ◌∙◌, sym, Bool, true, false, not, ◌&&◌, ◌||◌, ltb,
  leb, ◌==◌, if◌then◌else◌, arith, passes, passes_at, Bool-cases, inl, inr,
}
use mosix_3d.Archive.Keyboard.{Keyboard, has, modify, decoded, dkbd_decode, getkbdchar}

abbrev pub same : Bool → Bool → Bool
same true b = b
same false b = not b

-- The three summary bits agree with the keys.
abbrev pub consistent : ℕ → Bool
consistent ks =
    same (has ks 1) (has ks 0xc0)
    && (same (has ks 2) (has ks 0x300) && same (has ks 4) (has ks 0x30))

-- What the summary bits and the bit of caps lock must tell.
pub record IsConsistent (k : Keyboard) : Type 0 where
  pub range : k.keystat < 1024
  pub summary : consistent k.keystat ≡ true
  pub caps : has k.keystat 8 ≡ k.capslk

-- The key of a code from 0x81 to 0x8c, and whether the code is a press.
abbrev pub key_bit : ℕ → ℕ
key_bit code =
    if (code == 0x81) || (code == 0x87)
    then 0x40
    else if (code == 0x82) || (code == 0x88)
    then 0x80
    else if (code == 0x83) || (code == 0x89)
    then 0x10
    else if (code == 0x84) || (code == 0x8a)
    then 0x20
    else if (code == 0x85) || (code == 0x8b)
    then 0x100
    else 0x200

abbrev pub pressed : ℕ → Bool
pressed code = ltb code 0x87

-- The bit `b` is right behind a code.
abbrev key_test : ℕ → ℕ → ℕ → Bool
key_test code ks b =
    same (has (modify ks code) b) (if b == key_bit code then pressed code else has ks b)

-- The test of one state under one code.
abbrev modify_test : ℕ → ℕ → Bool
modify_test code ks =
    if consistent ks
    then consistent (modify ks code)
      && (ltb (modify ks code) 1024 && same (has (modify ks code) 8) (has ks 8))
    else true

abbrev keys_test : ℕ → ℕ → Bool
keys_test code ks = passes (λ j. key_test code ks (2 ^ (j + 4))) 6

modify_table : passes (λ c. passes (λ ks. modify_test (c + 0x81) ks) 1024) 12 ≡ true
unfolding passes modify
modify_table = refl

keys_table : passes (λ c. passes (λ ks. keys_test (c + 0x81) ks) 1024) 12 ≡ true
unfolding passes modify
keys_table = refl

same→eq : (a b : Bool) → same a b ≡ true → a ≡ b
same→eq a b h = ground arith

-- A table over the codes 0x81 to 0x8c and the states below 1024, at one code and state.
table_at :
    (test : ℕ → ℕ → Bool) (code ks : ℕ)
    → passes (λ c. passes (λ s. test (c + 0x81) s) 1024) 12 ≡ true
    → 0x81 ≤ code
    → code ≤ 0x8c
    → ks < 1024
    → test code ks ≡ true
table_at test code ks h lo hi b =
    let at_code =
      passes_at (λ c. passes (λ s. test (c + 0x81) s) 1024) 12 (code - 0x81) (omega arith) h in
    let q : code - 0x81 + 0x81 ≡ code = omega arith in
    ap (λ c. test c ks) (sym q) ∙ passes_at (λ s. test (code - 0x81 + 0x81) s) 1024 ks b at_code

modify_elsewhere : (ks code : ℕ) → (code < 0x81) ⊎ (0x8c < code) → modify ks code ≡ ks
unfolding modify
modify_elsewhere ks code h = ground arith

record Kept (ks ks' : ℕ) : Type 0 where
  range : ks' < 1024
  summary : consistent ks' ≡ true
  caps : has ks' 8 ≡ has ks 8

modify-Kept : (ks code : ℕ) → ks < 1024 → consistent ks ≡ true → Kept ks (modify ks code)
modify-Kept ks code b s = elim (Bool-cases (leb 0x81 code && leb code 0x8c)) [
  | inl e ↦
      let t = table_at modify_test code ks modify_table (ground arith) (ground arith) b in
      record { range = ground arith; summary = ground arith; caps = ground arith }
  | inr e ↦
      rw (modify_elsewhere ks code (ground arith)) (record { range = b; summary = s; caps = refl })
]

abbrev caps_test : ℕ → Bool
caps_test ks =
    if consistent ks
    then consistent (bit_xor ks 8)
      && (ltb (bit_xor ks 8) 1024 && same (has (bit_xor ks 8) 8) (not (has ks 8)))
    else true

caps_table : passes caps_test 1024 ≡ true
unfolding passes
caps_table = refl

record Swapped (ks ks' : ℕ) : Type 0 where
  range : ks' < 1024
  summary : consistent ks' ≡ true
  caps : has ks' 8 ≡ not (has ks 8)

decoded-IsConsistent : (k : Keyboard) (code : ℕ) → IsConsistent k → IsConsistent (decoded k code).0
unfolding decoded
decoded-IsConsistent k code v =
    let m = modify-Kept k.keystat code v.range v.summary in
    let t = passes_at caps_test 1024 k.keystat v.range caps_table in
    let c : Swapped k.keystat (bit_xor k.keystat 8) = record {
      range = ground arith;
      summary = ground arith;
      caps = ground arith;
    } in
    ground arith

-- Whatever the scan codes are, `dkbd_decode` keeps the summary bits in step with the keys, and the bit
-- of caps lock with `capslk`.
pub dkbd_decode-IsConsistent :
    (beyond : ℕ → ℕ) (k : Keyboard) → IsConsistent k → IsConsistent (dkbd_decode beyond k).0
unfolding dkbd_decode
dkbd_decode-IsConsistent beyond k v =
    let r = getkbdchar beyond k in
    decoded-IsConsistent (record k { kbdp = r.1 }) r.0
      (record { range = v.range; summary = v.summary; caps = v.caps })

-- A code of a modifier key sets the key's own bit where it is a press, clears it where it is a release,
-- and leaves the bits of the five other keys.
pub modify_keys :
    (ks code j : ℕ)
    → ks < 1024
    → 0x81 ≤ code
    → code ≤ 0x8c
    → j < 6
    → let b = 2 ^ (j + 4) in
      has (modify ks code) b ≡ (if b == key_bit code then pressed code else has ks b)
modify_keys ks code j b lo hi h = same→eq _ _ (
    passes_at (λ j. key_test code ks (2 ^ (j + 4))) 6 j h
      (table_at keys_test code ks keys_table lo hi b))
