-- ===== src/Exec/Run/Errors.antt =====
-- When `ExecuteFileSuspend` starts a process, and when it leaves its result unset.
use mosix_3d.Prelude.{
  ℕ, ap, ltb, arith, ℕ, ◌≡◌, refl, Bool, true, false, not, ◌&&◌, Option, [], none, some, ◌==◌,
  if◌then◌else◌, Bool-cases, inl, inr,
}
use mosix_3d.Exec.Image.{seek_set, read_end, ImageFile, seek_lfanew, nt_headers, word, dword}
use mosix_3d.Exec.Run.{
  Machine, Started, started, null, uninitialised, run_pe64, run_elf64, run_headers,
  execute_file_suspend, enoexec,
}

abbrev pub is_started : Started → Bool
is_started (started p m) = true
is_started (null e) = false
is_started uninitialised = false

abbrev pub is_unset : Started → Bool
is_unset (started p m) = false
is_unset (null e) = false
is_unset uninitialised = true

-- The number that is left in `errno` with a null pointer.
abbrev pub error : Started → Option ℕ
error (started p m) = none
error (null e) = some e
error uninitialised = none

-- The three formats that a file is tested for.
abbrev pub is_dos : ImageFile → Bool
is_dos file = word file.bytes 0 == 0x5a4d

-- The signature stands at `e_lfanew`, or behind the first header where that is behind the end of the file.
abbrev pub pe_offset : ImageFile → ℕ
pe_offset file =
    if ltb file.size (dword file.bytes 60)
    then (if ltb file.size 64 then file.size else 64)
    else dword file.bytes 60

abbrev pub is_pe : ImageFile → Bool
is_pe file = dword file.bytes (pe_offset file) == 0x4550

abbrev pub is_elf : ImageFile → Bool
is_elf file = dword file.bytes 0 == 0x464c457f

dos_started :
    (file : ImageFile) (m : Machine) (o : ℕ) (q : Bool)
    → (dword file.bytes o == 0x4550) ≡ q
    → (is_started (run_headers file o m (nt_headers file.bytes o)) ≡ q)
      × (is_unset (run_headers file o m (nt_headers file.bytes o)) ≡ false)
      × (error (run_headers file o m (nt_headers file.bytes o))
          ≡ (if q then none else some enoexec))
unfolding nt_headers
dos_started file m o true e = rw e (refl, refl, refl)
dos_started file m o false e = rw e (refl, refl, refl)

offset_lem :
    (file : ImageFile) → seek_set file (read_end file 0 64) (dword file.bytes 60) ≡ pe_offset file
offset_lem file = ground arith

-- A file is started exactly where it has the magic "MZ" and the PE signature, which is read at `e_lfanew`, or
-- right behind the first header where `e_lfanew` lies behind the end of the file. The result is unset
-- exactly where the file starts with neither magic. A null pointer comes with `ENOEXEC` where the
-- signature is missing, and without a number for an ELF file.
pub execute_file_suspend_errors :
    (file : ImageFile) (m : Machine)
    → let r = execute_file_suspend (some file) m in
      (is_started r ≡ (is_dos file && is_pe file))
      × (is_unset r ≡ (not (is_dos file) && not (is_elf file)))
      × (error r ≡ (
          if is_dos file
          then (if is_pe file then none else some enoexec)
          else (if is_elf file then some 0 else none)))
unfolding execute_file_suspend run_pe64 run_elf64 seek_lfanew
execute_file_suspend_errors file m = elim (Bool-cases (is_dos file)) [
  | inl d ↦ rw d (
      dos_started file (record m { areas = [] })
        (seek_set file (read_end file 0 64) (dword file.bytes 60)) (is_pe file)
        (ap (λ o. dword file.bytes o == 0x4550) (offset_lem file)))
  | inr d ↦ elim (Bool-cases (is_elf file)) [
    | inl e ↦ rw (d, e) (refl, refl, refl)
    | inr e ↦ rw (d, e) (refl, refl, refl)
  ]
]
