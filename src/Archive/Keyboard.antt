-- ===== src/Archive/Keyboard.antt =====
-- The keyboard driver, archive/ps2kbd.c with the codes of archive/ps2kbd.h: scan codes come in through
-- `kbdp` and characters with the state of the modifier keys go out.
--
-- `setled` does nothing. The interrupt's port is an argument. `beyond` is the memory behind the two
-- maps of 89 entries.
pub mod Modifiers
pub mod Letters
pub mod Drained
mod Tests
use Prim.Native.Nat.{bit_and, bit_or, bit_xor}
use mosix_3d.Prelude.{
  ℕ, zero, suc, ◌+◌, ◌-◌, ◌*◌, ◌/◌, ◌%◌, ◌^◌, Bool, true, false, not, ◌&&◌, ◌||◌, List, [], ◌∷◌,
  ◌++◌, Option, none, some, ltb, leb, ◌==◌, if◌then◌else◌, get_or, u8, u32,
}
use mosix_3d.Ipc.Wait.{Waited, null_signal, sleeps, ends, wait_write_buffer32}
use mosix_3d.Ipc.Buffer.{FifoBuffer, read_buffer, write_buffer}

unfoldable pub key_map : List ℕ
key_map =
    0 ∷ 0x80 ∷ b'1' ∷ b'2' ∷ b'3' ∷ b'4' ∷ b'5' ∷ b'6' ∷ b'7' ∷ b'8' ∷ b'9' ∷ b'0' ∷ b'-' ∷ b'=' ∷ 8
    ∷ 9 ∷ b'q' ∷ b'w' ∷ b'e' ∷ b'r' ∷ b't' ∷ b'y' ∷ b'u' ∷ b'i' ∷ b'o' ∷ b'p' ∷ b'[' ∷ b']' ∷ 10
    ∷ 0x81 ∷ b'a' ∷ b's' ∷ b'd' ∷ b'f' ∷ b'g' ∷ b'h' ∷ b'j' ∷ b'k' ∷ b'l' ∷ b';' ∷ 0x27 ∷ b'`'
    ∷ 0x83 ∷ 0x5c ∷ b'z' ∷ b'x' ∷ b'c' ∷ b'v' ∷ b'b' ∷ b'n' ∷ b'm' ∷ b',' ∷ b'.' ∷ b'/' ∷ 0x84
    ∷ b'*' ∷ 0x85 ∷ b' ' ∷ 0x8d ∷ 0x8e ∷ 0x8f ∷ 0x90 ∷ 0x91 ∷ 0x92 ∷ 0x93 ∷ 0x94 ∷ 0x95 ∷ 0x96
    ∷ 0x97 ∷ 0x9a ∷ 0x9b ∷ b'7' ∷ b'8' ∷ b'9' ∷ b'-' ∷ b'4' ∷ b'5' ∷ b'6' ∷ b'+' ∷ b'1' ∷ b'2'
    ∷ b'3' ∷ b'0' ∷ b'1' ∷ 0 ∷ 0 ∷ 0 ∷ 0x98 ∷ 0x99 ∷ []

unfoldable pub key_map_s : List ℕ
key_map_s =
    0 ∷ 0x80 ∷ b'!' ∷ b'@' ∷ b'#' ∷ b'$' ∷ b'%' ∷ b'^' ∷ b'&' ∷ b'*' ∷ b'(' ∷ b')' ∷ b'_' ∷ b'+' ∷ 8
    ∷ 9 ∷ b'Q' ∷ b'W' ∷ b'E' ∷ b'R' ∷ b'T' ∷ b'Y' ∷ b'U' ∷ b'I' ∷ b'O' ∷ b'P' ∷ b'{' ∷ b'}' ∷ 10
    ∷ 0x81 ∷ b'A' ∷ b'S' ∷ b'D' ∷ b'F' ∷ b'G' ∷ b'H' ∷ b'J' ∷ b'K' ∷ b'L' ∷ b':' ∷ 0x22 ∷ b'~'
    ∷ 0x83 ∷ b'|' ∷ b'Z' ∷ b'X' ∷ b'C' ∷ b'V' ∷ b'B' ∷ b'N' ∷ b'M' ∷ b'<' ∷ b'>' ∷ b'?' ∷ 0x84
    ∷ b'*' ∷ 0x85 ∷ b' ' ∷ 0x8d ∷ 0x8e ∷ 0x8f ∷ 0x90 ∷ 0x91 ∷ 0x92 ∷ 0x93 ∷ 0x94 ∷ 0x95 ∷ 0x96
    ∷ 0x97 ∷ 0x9a ∷ 0x9b ∷ 0x9c ∷ 0xa0 ∷ 0x9e ∷ b'-' ∷ 0xa2 ∷ 0 ∷ 0xa3 ∷ b'+' ∷ 0x9d ∷ 0xa1 ∷ 0x9f
    ∷ 0xa5 ∷ 0xa4 ∷ 0 ∷ 0 ∷ 0 ∷ 0x98 ∷ 0x99 ∷ []

-- The codes of the keys that change the state; a trailing `d` is a release.
abbrev pub k_ctrl_l : ℕ
k_ctrl_l = 0x81

abbrev pub k_ctrl_r : ℕ
k_ctrl_r = 0x82

abbrev pub k_shift_l : ℕ
k_shift_l = 0x83

abbrev pub k_shift_r : ℕ
k_shift_r = 0x84

abbrev pub k_alt_l : ℕ
k_alt_l = 0x85

abbrev pub k_alt_r : ℕ
k_alt_r = 0x86

abbrev pub k_ctrl_ld : ℕ
k_ctrl_ld = 0x87

abbrev pub k_ctrl_rd : ℕ
k_ctrl_rd = 0x88

abbrev pub k_shift_ld : ℕ
k_shift_ld = 0x89

abbrev pub k_shift_rd : ℕ
k_shift_rd = 0x8a

abbrev pub k_alt_ld : ℕ
k_alt_ld = 0x8b

abbrev pub k_alt_rd : ℕ
k_alt_rd = 0x8c

abbrev pub k_caps : ℕ
k_caps = 0x8d

abbrev pub k_nums : ℕ
k_nums = 0x9a

abbrev pub k_scr : ℕ
k_scr = 0x9b

abbrev pub k_prtsc : ℕ
k_prtsc = 0xa6

abbrev pub k_pause : ℕ
k_pause = 0xa7

pub record Keyboard : Type 0 where
  pub keystat : ℕ
  pub nmlk : Bool
  pub capslk : Bool
  pub scrlk : Bool
  pub kbdp : FifoBuffer

-- `keystat & m`, as a test.
abbrev pub has : ℕ → ℕ → Bool
has keystat m = not (bit_and keystat m == 0)

-- An empty buffer reads as 0xff.
unfoldable pub read_kbdp : FifoBuffer → ℕ × FifoBuffer
read_kbdp b = let (r, b', _) = read_buffer b in (u8 r, b')

-- The case of a letter is swapped.
unfoldable pub swap_case : ℕ → ℕ
swap_case ret =
    if leb b'a' ret && leb ret b'z'
    then ret - 0x20
    else if leb b'A' ret && leb ret b'Z'
    then ret + 0x20
    else ret

-- The branch of a key that goes down, with no prefix.
unfoldable pub basic_make : (ℕ → ℕ) → ℕ → Bool → ℕ → ℕ
basic_make beyond keystat nmlk code =
    let ret =
      if has keystat 4 || (leb 0x47 code && (leb code 0x53 && not nmlk))
      then get_or key_map_s code (beyond code)
      else get_or key_map code (beyond code) in
    if has keystat 8 then swap_case ret else ret

-- Behind the prefix 0xe0.
unfoldable pub extended : (ℕ → ℕ) → ℕ → FifoBuffer → ℕ × FifoBuffer
extended beyond code b =
    let b2 = (read_kbdp (read_kbdp b).1).1 in
    if ltb code 0x80
    then (if code == 0x1c
        then (10, b)
        else if code == 0x1d
        then (k_ctrl_r, b)
        else if code == 0x35
        then (b'/', b)
        else if code == 0x38
        then (k_alt_r, b)
        else if code == 0x2a
        then (k_prtsc, b2)
        else (get_or key_map_s code (beyond code), b))
    else if code == 0x9d
    then (k_ctrl_rd, b)
    else if code == 0xb8
    then (k_alt_rd, b)
    else if code == 0xb7
    then (0, b2)
    else (0, b)

-- A key that goes up, with no prefix.
unfoldable pub basic_break : ℕ → ℕ
basic_break code =
    if code == 0xaa
    then k_shift_ld
    else if code == 0xb6
    then k_shift_rd
    else if code == 0x9d
    then k_ctrl_ld
    else if code == 0xb8
    then k_alt_ld
    else 0

unfoldable pub getkbdchar : (ℕ → ℕ) → Keyboard → ℕ × FifoBuffer
getkbdchar beyond k =
    let (code, b) = read_kbdp k.kbdp in
    let (code2, b2) = read_kbdp b in
    if ltb code 0x80
    then (basic_make beyond k.keystat k.nmlk code, b)
    else if code == 0xe0
    then extended beyond code2 b2
    else if code == 0xe1
    then ((if ltb code2 0x80 then k_pause else 0), (read_kbdp b2).1)
    else (basic_break code, b)

-- `keystat &= -(m + 1)`.
abbrev clear : ℕ → ℕ → ℕ
clear keystat m = bit_and keystat (2 ^ 32 - 1 - m)

-- The bit `any` tells whether a bit of `keys` is set.
abbrev summarise : ℕ → ℕ → ℕ → ℕ
summarise keys any keystat = if has keystat keys then bit_or keystat any else clear keystat any

abbrev ctrl : ℕ → ℕ
ctrl = summarise 0xc0 1

abbrev alt : ℕ → ℕ
alt = summarise 0x300 2

abbrev shift : ℕ → ℕ
shift = summarise 0x30 4

-- From the label `sctrl` on.
unfoldable pub modify : ℕ → ℕ → ℕ
modify ks code =
    if code == k_ctrl_l
    then ctrl (bit_or ks 0x40)
    else if code == k_ctrl_r
    then ctrl (bit_or ks 0x80)
    else if code == k_ctrl_ld
    then ctrl (clear ks 0x40)
    else if code == k_ctrl_rd
    then ctrl (clear ks 0x80)
    else if code == k_alt_l
    then alt (bit_or ks 0x100)
    else if code == k_alt_r
    then alt (bit_or ks 0x200)
    else if code == k_alt_ld
    then alt (clear ks 0x100)
    else if code == k_alt_rd
    then alt (clear ks 0x200)
    else if code == k_shift_l
    then shift (bit_or ks 0x10)
    else if code == k_shift_r
    then shift (bit_or ks 0x20)
    else if code == k_shift_ld
    then shift (clear ks 0x10)
    else if code == k_shift_rd
    then shift (clear ks 0x20)
    else ks

-- The state behind the code, and the word that `commit_char` is called with.
unfoldable pub decoded : Keyboard → ℕ → Keyboard × Option ℕ
decoded k code =
    if code == 0
    then (k, none)
    else if ltb code 0x80
    then (k, some (bit_or code (u32 (k.keystat * 2 ^ 8))))
    else if code == k_caps
    then (record k { keystat = bit_xor k.keystat 8; capslk = not k.capslk }, none)
    else if code == k_nums
    then (record k { nmlk = not k.nmlk }, none)
    else if code == k_scr
    then (record k { scrlk = not k.scrlk }, none)
    else (record k { keystat = modify k.keystat code }, none)

unfoldable pub dkbd_decode : (ℕ → ℕ) → Keyboard → Keyboard × Option ℕ
unfolding decoded
dkbd_decode beyond k = let (code, b) = getkbdchar beyond k in decoded (record k { kbdp = b }) code

-- `commit_char`, called by process `self`.
unfoldable pub commit_char : ℕ → FifoBuffer → ℕ → Waited
unfolding wait_write_buffer32
commit_char self ascp cont = wait_write_buffer32 self ascp cont

-- Where the loop of `dkbd_entry` stands: `kbdp` is empty or the turns are used up; or a word is not committed,
-- for the driver suspends in `commit_char`, or `ascp` has no signal for it.
pub data Driver : Type 0 where
  drained : Keyboard → FifoBuffer → Driver
  suspends : Keyboard → FifoBuffer → ℕ → Driver
  faults : FifoBuffer → Driver

-- The loop of `dkbd_entry`, for at most `n` turns. The processes that a word in `ascp` readies are left out.
unfoldable pub drain : ℕ → (ℕ → ℕ) → ℕ → Keyboard → FifoBuffer → Driver
unfolding commit_char
drain self beyond zero k ascp = drained k ascp
drain self beyond (suc n) k ascp =
    let (k', word) = dkbd_decode beyond k in
    let rest = drain self beyond n k' in
    if k.kbdp.read == k.kbdp.write then drained k ascp else elim word [
      | none ↦ rest ascp
      | some w ↦ elim (commit_char self ascp w) [
        | null_signal ↦ faults ascp
        | sleeps ascp' ↦ suspends k' ascp' w
        | ends (_, ascp', _) ↦ rest ascp'
      ]
    ]

-- The interrupt, without the wake-up of the decoder.
unfoldable pub irq1 : Keyboard → ℕ → Keyboard
irq1 k x = record k { kbdp = (write_buffer k.kbdp x).1 }
