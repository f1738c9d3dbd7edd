-- ===== src/Misc/Digits/Tests.antt =====
-- Runs on numbers, and the theorems at them.
use mosix_3d.Prelude.{◌≡◌, refl}
use mosix_3d.Misc.Memory.{Memory}
use mosix_3d.Misc.Digits.{hex2bcd, hex2str, hex2str8, digit_count, write_digits}

converts : hex2bcd 1234 ≡ 0x1234
unfolding hex2bcd
converts = refl

prints_byte : hex2str8 0x3c ≡ 0x6333
unfolding hex2str8
prints_byte = refl

abbrev filled : Memory
filled a = 0xee

prints_digits : hex2str filled 0x2f 8 8 ≡ b'2'
unfolding hex2str digit_count write_digits
prints_digits = refl

clears_in_front : hex2str filled 0x2f 8 7 ≡ 0
unfolding hex2str digit_count write_digits
clears_in_front = refl

leaves_no_terminator : hex2str filled 0x2f 8 10 ≡ 0xee
unfolding hex2str digit_count write_digits
leaves_no_terminator = refl
