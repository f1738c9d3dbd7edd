-- ===== src/Exec/Image.antt =====
-- The headers of an image: `ePeSeekLfanew`, and the fields of the structs of kernel/include/pe.h that the
-- loader reads.
--
-- An image is read as `lseek` and `read` give it for the files of the archive: a seek behind the end is
-- refused, and a read is cut at the end. The loader looks at neither result. Behind the end `bytes` has what
-- the buffers of the headers held.
use mosix_3d.Prelude.{ℕ, ◌+◌, ◌-◌, ◌*◌, ◌^◌, Option, none, some, ltb, ◌==◌, if◌then◌else◌}

abbrev pub Bytes : Type 0
Bytes = ℕ → ℕ

-- Little-endian numbers.
abbrev pub word : Bytes → ℕ → ℕ
word b o = b o + b (o + 1) * 2 ^ 8

abbrev pub dword : Bytes → ℕ → ℕ
dword b o = word b o + word b (o + 2) * 2 ^ 16

abbrev pub qword : Bytes → ℕ → ℕ
qword b o = dword b o + dword b (o + 4) * 2 ^ 32

pub record ImageFile : Type 0 where
  pub bytes : Bytes
  pub size : ℕ

-- `lseek` to `o` from the offset `off`.
abbrev pub seek_set : ImageFile → ℕ → ℕ → ℕ
seek_set file off o = if ltb file.size o then off else o

-- How many of `n` bytes are read at `off`, and the offset behind them.
abbrev pub read_count : ImageFile → ℕ → ℕ → ℕ
read_count file off n = if ltb file.size (off + n) then file.size - off else n

abbrev pub read_end : ImageFile → ℕ → ℕ → ℕ
read_end file off n = off + read_count file off n

-- The offset that the NT headers are read from, behind the magic "MZ": `e_lfanew`, or that behind the header
-- of 64 bytes.
unfoldable pub seek_lfanew : ImageFile → Option ℕ
seek_lfanew file =
    if word file.bytes 0 == 0x5a4d
    then some (seek_set file (read_end file 0 64) (dword file.bytes 60))
    else none

pub record NtHeaders : Type 0 where
  pub sections : ℕ
  pub entry : ℕ
  pub image_base : ℕ
  pub size_of_image : ℕ
  pub subsystem : ℕ
  pub stack_reserve : ℕ
  pub stack_commit : ℕ
  pub export_table : ℕ
  pub import_table : ℕ
  pub import_size : ℕ
  pub reloc_table : ℕ
  pub reloc_size : ℕ

-- The headers at `o`, of 264 bytes, where the signature is that of a PE file.
unfoldable pub nt_headers : Bytes → ℕ → Option NtHeaders
nt_headers file o =
    if dword file o == 0x4550
    then some (record {
      sections = word file (o + 6);
      entry = dword file (o + 40);
      image_base = qword file (o + 48);
      size_of_image = dword file (o + 80);
      subsystem = word file (o + 92);
      stack_reserve = qword file (o + 96);
      stack_commit = qword file (o + 104);
      export_table = dword file (o + 136);
      import_table = dword file (o + 144);
      import_size = dword file (o + 148);
      reloc_table = dword file (o + 176);
      reloc_size = dword file (o + 180);
    })
    else none

pub record SectionHeader : Type 0 where
  pub virtual_size : ℕ
  pub virtual_address : ℕ
  pub raw_size : ℕ
  pub raw_pointer : ℕ
  pub characteristics : ℕ

-- The section header at `o`, of 40 bytes.
unfoldable pub section_header : Bytes → ℕ → SectionHeader
section_header file o = record {
  virtual_size = dword file (o + 8);
  virtual_address = dword file (o + 12);
  raw_size = dword file (o + 16);
  raw_pointer = dword file (o + 20);
  characteristics = dword file (o + 36);
}
