-- ===== src/Vfs/Archive/Tests.antt =====
-- Runs on an archive of two files, and the theorems at it.
use mosix_3d.Prelude.{◌<◌, ◌≡◌, refl, true, false, ◌==◌, if◌then◌else◌, some, arith, [], ◌∷◌}
use mosix_3d.Misc.Text.{strcmp}
use mosix_3d.Vfs.Archive.{
  Archive, with_size, cache_size, oct2bin_from, oct2bin, initfs_lookup, archive_names,
  initfs_iterate,
}
use mosix_3d.Vfs.Archive.Octal.{octal_limit}
use mosix_3d.Vfs.Archive.Lookup.{IsArchive, find_stored, found, initfs_lookup_lem}

-- `a` has 513 bytes, octal 1001, in two sectors behind sector 8; `b` has 3.
abbrev two_files : Archive
two_files x =
    if x == 8
    then record {
      name = b'a' ∷ [];
      octal = b'1' ∷ b'0' ∷ b'0' ∷ b'1' ∷ b' ' ∷ [];
      ustar = true;
      isize = 0;
    }
    else if x == 11
    then record { name = b'b' ∷ []; octal = b'3' ∷ []; ustar = true; isize = 0 }
    else record { name = []; octal = []; ustar = false; isize = 0 }

lookup_test :
    found (initfs_lookup 3 two_files 8 (b'b' ∷ []))
    ≡ some (some (record { name = b'b' ∷ []; size = 3; data' = 12 }))
unfolding initfs_lookup cache_size with_size oct2bin oct2bin_from strcmp
lookup_test = refl

iterate_test :
    (initfs_iterate two_files 8 0 4).0
    ≡ (b'.' ∷ []) ∷ (b'.' ∷ b'.' ∷ []) ∷ (b'a' ∷ []) ∷ (b'b' ∷ []) ∷ []
unfolding initfs_iterate archive_names cache_size with_size oct2bin oct2bin_from
iterate_test = refl

-- A listing goes on where the last one ended.
resumed_test :
    (initfs_iterate two_files 8 (initfs_iterate two_files 8 0 3).1 4).0 ≡ (b'b' ∷ []) ∷ []
unfolding initfs_iterate archive_names cache_size with_size oct2bin oct2bin_from
resumed_test = refl

two_files-IsArchive :
    IsArchive two_files 8
      (record { name = b'a' ∷ []; size = 513 } ∷ record { name = b'b' ∷ []; size = 3 } ∷ [])
unfolding IsArchive with_size oct2bin oct2bin_from
two_files-IsArchive = (refl, refl, refl, (refl, refl, refl, refl))

initfs_lookup_lem_example :
    found (initfs_lookup 3 two_files 8 (b'b' ∷ []))
    ≡ some (
        find_stored 8
          (record { name = b'a' ∷ []; size = 513 } ∷ record { name = b'b' ∷ []; size = 3 } ∷ [])
          (b'b' ∷ []))
initfs_lookup_lem_example =
    initfs_lookup_lem 3 two_files 8
      (record { name = b'a' ∷ []; size = 513 } ∷ record { name = b'b' ∷ []; size = 3 } ∷ [])
      (b'b' ∷ []) two_files-IsArchive (omega arith)

small_octal : 513 < octal_limit 4
unfolding octal_limit
small_octal = omega arith
