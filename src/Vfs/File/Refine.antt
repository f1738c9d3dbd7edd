-- ===== src/Vfs/File/Refine.antt =====
-- A file of the archive as a position in a sequence of bytes: what reads and seeks do to it.
use mosix_3d.Prelude.{
  ℕ, ◌+◌, ◌-◌, ◌^◌, ◌≤◌, ◌<◌, ◌≡◌, refl, ap, ◌∙◌, List, [], ◌∷◌, Option, none, some, ltb, leb, ◌==◌,
  if◌then◌else◌, min, arith, u32, u64, sub64,
}
use mosix_3d.Vfs.File.{
  File, Memory, bytes_at, read, lseek, seek, initfs_read, initfs_operations, negative, err_bad_seek,
}

-- The position that a seek asks for, if it is in the file. An offset from the position is signed.
abbrev pub target : ℕ → ℕ → ℕ → ℕ → Option ℕ
target size pos off origin =
    if origin == 0
    then (if leb off size then some off else none)
    else if origin == 1
    then (if ltb off (2 ^ 63)
        then (if leb (pos + off) size then some (pos + off) else none)
        else if leb (2 ^ 64 - off) pos
        then some (pos - (2 ^ 64 - off))
        else none)
    else if origin == 2
    then (if leb off size then some (size - off) else none)
    else none

abbrev pub sought : File → Option ℕ → ℕ × File
sought f none = (negative err_bad_seek, f)
sought f (some p) = (u32 p, record f { off = p })

abbrev Within : ℕ → Option ℕ → Type 0
Within size none = Unit {0}
Within size (some p) = p ≤ size

seek-sought :
    (f : File) (off origin : ℕ)
    → f.off ≤ f.size
    → f.size < 2 ^ 63
    → off < 2 ^ 64
    → seek f off origin ≡ sought f (target f.size f.off off origin)
unfolding seek
seek-sought f off origin h s o = ground arith

target-Within :
    (size pos off origin : ℕ) → pos ≤ size → off < 2 ^ 64 → Within size (target size pos off origin)
target-Within size pos off origin h o = ground arith

pub data Call : Type 0 where
  reading : ℕ → Call
  seeking : ℕ → ℕ → Call

-- The call of a `read` or an `lseek`: its result, the bytes it copies, and the file behind it.
abbrev pub call : Memory → File → Call → ℕ × List ℕ × File
call mem f (reading n) = read initfs_operations mem f n
call mem f (seeking off origin) = let (r, f') = lseek initfs_operations f off origin in (r, [], f')

-- The results and the bytes of a sequence of calls.
pub calls : Memory → File → List Call → List (ℕ × List ℕ)
calls mem f [] = []
calls mem f (c ∷ cs) = let (r, bytes, f') = call mem f c in (r, bytes) ∷ calls mem f' cs

-- The same calls on a position `pos` in the `size` bytes at `base`.
abbrev sought_at : ℕ → Option ℕ → ℕ × ℕ
sought_at pos none = (negative err_bad_seek, pos)
sought_at pos (some p) = (u32 p, p)

abbrev pub call_at : Memory → ℕ → ℕ → ℕ → Call → ℕ × List ℕ × ℕ
call_at mem base size pos (reading n) =
    let m = min n (size - pos) in (m, bytes_at mem (base + pos) m, pos + m)
call_at mem base size pos (seeking off origin) =
    let (r, p) = sought_at pos (target size pos off origin) in (r, [], p)

pub calls_at : Memory → ℕ → ℕ → ℕ → List Call → List (ℕ × List ℕ)
calls_at mem base size pos [] = []
calls_at mem base size pos (c ∷ cs) =
    let (r, bytes, p) = call_at mem base size pos c in (r, bytes) ∷ calls_at mem base size p cs

-- The arguments of a call: a count below 2^63, or an offset of 64 bits.
abbrev pub InRange : Call → Type 0
InRange (reading n) = n < 2 ^ 63
InRange (seeking off origin) = off < 2 ^ 64

abbrev pub AllInRange : List Call → Type 0
AllInRange [] = Unit {0}
AllInRange (c ∷ cs) = InRange c × AllInRange cs

abbrev at : File → ℕ → File
at f pos = record f { off = pos }

read-call_at :
    (mem : Memory) (f : File) (n : ℕ)
    → f.off ≤ f.size
    → f.size < 2 ^ 32
    → n < 2 ^ 63
    → let (r, bytes, p) = call_at mem f.data' f.size f.off (reading n) in
      (call mem f (reading n) ≡ (r, bytes, at f p)) × (p ≤ f.size)
unfolding initfs_operations read initfs_read
read-call_at mem f n h s o =
    let t : (if ltb f.size (u64 (f.off + n)) then sub64 f.size f.off else n)
        ≡ min n (f.size - f.off) =
      ground arith in
    let u : u32 (min n (f.size - f.off)) ≡ min n (f.size - f.off) = omega arith in
    let v : u64 (f.off + min n (f.size - f.off)) ≡ f.off + min n (f.size - f.off) = omega arith in
    let outcome : ℕ → ℕ × List ℕ × File =
      λ m. (u32 m, bytes_at mem (f.data' + f.off) (u32 m), at f (u64 (f.off + m))) in
    (ap outcome t ∙ (λ i. (u i, bytes_at mem (f.data' + f.off) (u i), at f (v i))), omega arith)

sought-sought_at :
    (f : File) (o : Option ℕ)
    → f.off ≤ f.size
    → Within f.size o
    → let (r, p) = sought_at f.off o in (sought f o ≡ (r, at f p)) × (p ≤ f.size)
sought-sought_at f none h w = (refl, h)
sought-sought_at f (some p) h w = (refl, w)

lseek-call_at :
    (mem : Memory) (f : File) (off origin : ℕ)
    → f.off ≤ f.size
    → f.size < 2 ^ 32
    → off < 2 ^ 64
    → let (r, bytes, p) = call_at mem f.data' f.size f.off (seeking off origin) in
      (call mem f (seeking off origin) ≡ (r, bytes, at f p)) × (p ≤ f.size)
unfolding initfs_operations lseek
lseek-call_at mem f off origin h s o =
    let t = target f.size f.off off origin in
    let a = sought-sought_at f t h (target-Within f.size f.off off origin h o) in
    let e = seek-sought f off origin h (omega arith) o ∙ a.0 in (ap (λ x. (x.0, [], x.1)) e, a.1)

call-call_at :
    (mem : Memory) (f : File) (c : Call)
    → f.off ≤ f.size
    → f.size < 2 ^ 32
    → InRange c
    → let (r, bytes, p) = call_at mem f.data' f.size f.off c in
      (call mem f c ≡ (r, bytes, at f p)) × (p ≤ f.size)
call-call_at mem f (reading n) h s o = read-call_at mem f n h s o
call-call_at mem f (seeking off origin) h s o = lseek-call_at mem f off origin h s o

-- Any sequence of reads and seeks on a file of the archive whose offset is within its size gives what
-- it gives on a position in the file's bytes: a read copies the bytes from the position on, up to
-- the file's end, and a seek with a signed offset fails exactly where it would leave the file. The
-- file has less than 2^32 bytes, a read asks for less than 2^63.
pub calls_refine :
    (mem : Memory) (f : File) (cs : List Call)
    → f.off ≤ f.size
    → f.size < 2 ^ 32
    → AllInRange cs
    → calls mem f cs ≡ calls_at mem f.data' f.size f.off cs
unfolding calls calls_at
calls_refine mem f [] h s r = refl
calls_refine mem f (c ∷ cs) h s (o, r) =
    let (q, l) = call-call_at mem f c h s o in
    let x = call_at mem f.data' f.size f.off c in
    ap (λ y. (y.0, y.1) ∷ calls mem y.2 cs) q
    ∙ ap (λ t. (x.0, x.1) ∷ t) (calls_refine mem (at f x.2) cs l s r)
