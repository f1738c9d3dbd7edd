-- ===== src/Exec/Export.antt =====
-- The functions that a library exports: `GetProcAddrByOrd` and `GetProcAddrByName`.
--
-- The image lies in memory from `base` on, and `text` reads the string at an address.
pub mod Named
use mosix_3d.Prelude.{
  ℕ, zero, suc, ◌+◌, ◌-◌, ◌*◌, ◌%◌, ◌^◌, Bool, true, false, List, ltb, ◌==◌, if◌then◌else◌, u64,
}
use mosix_3d.Misc.Text.{Text, strcmp}
use mosix_3d.Exec.Image.{Bytes, word, dword}

-- `ImageExportDirectory`: the fields that are read.
pub record ExportDirectory : Type 0 where
  pub functions : ℕ
  pub names : ℕ
  pub function_table : ℕ
  pub name_table : ℕ
  pub ordinal_table : ℕ

unfoldable pub export_directory : Bytes → ℕ → ExportDirectory
export_directory mem o = record {
  functions = dword mem (o + 20);
  names = dword mem (o + 24);
  function_table = dword mem (o + 28);
  name_table = dword mem (o + 32);
  ordinal_table = dword mem (o + 36);
}

-- 0 is no function.
unfoldable pub proc_by_ord : Bytes → ℕ → ℕ → ℕ → ℕ
unfolding export_directory
proc_by_ord mem base edata ord =
    let ied = export_directory mem (base + edata) in
    if ltb ied.functions ord
    then 0
    else u64 (dword mem (ied.function_table + base + ord * 4) + base)

-- The loop from name `i` on, over the `n` names that are left.
unfoldable pub search_name : Bytes → (ℕ → Text) → ℕ → ℕ → Text → ℕ → ℕ → ℕ
unfolding proc_by_ord
search_name mem text base edata name zero i = 0
search_name mem text base edata name (suc n) i =
    let ied = export_directory mem (base + edata) in
    let rest = search_name mem text base edata name n (i + 1) in
    if strcmp name (text (dword mem (ied.name_table + base + i * 4) + base)) == 0
    then proc_by_ord mem base edata (word mem (ied.ordinal_table + base + i * 2))
    else rest

unfoldable pub proc_by_name : Bytes → (ℕ → Text) → ℕ → ℕ → Text → ℕ
unfolding search_name
proc_by_name mem text base edata name =
    search_name mem text base edata name (export_directory mem (base + edata)).names 0
