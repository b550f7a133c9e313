-- ===== src/Cmdline/Modes.antt =====
-- The partition tables of the command line keep the flash modes known.
use ofgwrite.Base.{ℕ, ◌+◌, Bool, true, List, [], ◌∷◌, ◌++◌, ◌≡◌, ◌≢◌, ◌⊎◌, arith, Bool-cases}
use ofgwrite.Base.{inl, inr, refl, Option, none, some, ◌&&◌}
use ofgwrite.Base.Text.{Bytes, lit, contains, cut, split, strstr}
use ofgwrite.State.{Options, Devices, Boot, FlashMode}
use ofgwrite.Partitions.{
  Names, choose_names, scan, scan_entry, scan_behind, scan_table, set_sub_dir,
}
use ofgwrite.Partitions.{check_entry, check_entries, check_behind, keep_sub_dir, search_device}
use ofgwrite.Partitions.{
  search_devices, search_via_part_names, search_current_used_partitions, Search,
}
use ofgwrite.Partitions.{unless_stopped, parse_cmdline_partition_table}
use ofgwrite.Cmdline.{read_table, read_proc_cmdline}
use ofgwrite.Partitions.Tables.{flashes_current}

abbrev pub IsKernelMode : FlashMode → Type 0
IsKernelMode m = (m ≡ FlashMode.mtd) ⊎ (m ≡ FlashMode.tarbz2)

pub record HasModes (d : Devices) : Type 0 where
  pub kernel : d.found_kernel_device ≡ true → IsKernelMode d.kernel_flash_mode
  pub rootfs : d.found_rootfs_device ≡ true → d.rootfs_flash_mode ≢ FlashMode.flash_mode_unknown

-- With a kernel that was found in /proc/mtd its mode is known for good.
pub record HasModesFrom (mtd_kernel_found : Bool) (d : Devices) : Type 0 where
  pub modes : HasModes d
  pub kernel_from : mtd_kernel_found ≡ true → IsKernelMode d.kernel_flash_mode

-- The partition tables of the command line give only `tarbz2`.
module _ (found : Bool) where
  scan-HasModesFrom :
      (names : Names) (device : Bytes) (n : ℕ) (entries : List Bytes) (d : Devices)
      → HasModesFrom found d
      → HasModesFrom found (scan names device n entries d)
  unfolding scan scan_entry
  scan-HasModesFrom names device n [] d h = h
  scan-HasModesFrom names device n (entry ∷ entries) d h =
      scan-HasModesFrom names device (n + 1) entries _ (ground arith)

  check_entries-HasModesFrom :
      (b : Boot) (name : Bytes) (n : ℕ) (entries : List Bytes) (d : Devices)
      → HasModesFrom found d
      → HasModesFrom found (check_entries b name n entries d)
  unfolding check_entries check_entry
  check_entries-HasModesFrom b name n [] d h = h
  check_entries-HasModesFrom b name n (entry ∷ entries) d h =
      check_entries-HasModesFrom b name (n + 1) entries _ (ground arith)

  scan_behind-HasModesFrom :
      (names : Names) (front : Bytes) (after : Option Bytes) (d : Devices)
      → HasModesFrom found d
      → HasModesFrom found (scan_behind names (front, after) d).0
  unfolding scan_behind
  scan_behind-HasModesFrom names front none d h = h
  scan_behind-HasModesFrom names front (some rest) d h =
      scan-HasModesFrom names front 1 (split b',' rest) d h

  set_sub_dir-HasModesFrom :
      (dir : Option Bytes) (d : Devices)
      → HasModesFrom found d
      → HasModesFrom found (set_sub_dir dir d)
  set_sub_dir-HasModesFrom none d h = h
  set_sub_dir-HasModesFrom (some x) d h = ground arith

  keep_sub_dir-HasModesFrom :
      (b : Boot) (d : Devices) → HasModesFrom found d → HasModesFrom found (keep_sub_dir b d).0
  keep_sub_dir-HasModesFrom b d h = ground arith

  check_behind-HasModesFrom :
      (b : Boot) (front : Bytes) (after : Option Bytes) (d : Devices)
      → HasModesFrom found d
      → HasModesFrom found (check_behind b (front, after) d).0
  unfolding check_behind
  check_behind-HasModesFrom b front none d h = h
  check_behind-HasModesFrom b front (some rest) d h =
      let name = lit "/dev/" ++ (front ++ lit "p") in
      elim (Bool-cases
        (contains b.current_rootfs_device name && contains b.current_kernel_device name)) [
          | inl same ↦ rw same (
              keep_sub_dir-HasModesFrom b _
                (check_entries-HasModesFrom b name 1 (split b',' rest) d h))
          | inr other ↦ rw other h
        ]

  via_names-HasModesFrom :
      (chosen : Option Names) (flag_present : Bool) (o : Options) (b : Boot) (table : Bytes)
      (d : Devices)
      → choose_names flag_present o b table ≡ chosen
      → HasModesFrom found d
      → HasModesFrom found (search_via_part_names flag_present o b table d).0
  unfolding search_via_part_names scan_table
  via_names-HasModesFrom none flag_present o b table d e h = rw (e, search_via_part_names) h
  via_names-HasModesFrom (some names) flag_present o b table d e h =
      rw (e, search_via_part_names)
        (scan_behind-HasModesFrom names (cut b':' table).0 (cut b':' table).1 _
          (set_sub_dir-HasModesFrom names.sub_dir d h))

  search_device-HasModesFrom :
      (flag_present : Bool) (o : Options) (b : Boot) (table : Bytes) (d : Devices)
      → HasModesFrom found d
      → HasModesFrom found (search_device flag_present o b table d).0
  unfolding search_device search_current_used_partitions
  search_device-HasModesFrom flag_present o b table d h = elim (Bool-cases (flashes_current o b)) [
    | inl current ↦
        rw current (check_behind-HasModesFrom b (cut b':' table).0 (cut b':' table).1 d h)
    | inr other ↦ rw other (via_names-HasModesFrom _ flag_present o b table d refl h)
  ]

  unless_stopped-HasModesFrom :
      (ret : Search) (d rest : Devices)
      → HasModesFrom found d
      → HasModesFrom found rest
      → HasModesFrom found (unless_stopped ret d rest)
  unless_stopped-HasModesFrom Search.not_here d rest h k = k
  unless_stopped-HasModesFrom Search.found d rest h k = h
  unless_stopped-HasModesFrom Search.failed d rest h k = h

  search_devices-HasModesFrom :
      (flag_present : Bool) (o : Options) (b : Boot) (tables : List Bytes) (d : Devices)
      → HasModesFrom found d
      → HasModesFrom found (search_devices flag_present o b tables d)
  unfolding search_devices
  search_devices-HasModesFrom flag_present o b [] d h = h
  search_devices-HasModesFrom flag_present o b (table ∷ tables) d h =
      let step = search_device-HasModesFrom flag_present o b table d h in
      unless_stopped-HasModesFrom (search_device flag_present o b table d).1 _ _ step
        (search_devices-HasModesFrom flag_present o b tables _ step)

  read_table-HasModesFrom :
      (place : Option Bytes) (flag_present : Bool) (o : Options) (b : Boot) (line : Bytes)
      (d : Devices)
      → strstr line (lit "blkdevparts=") ≡ place
      → HasModesFrom found d
      → HasModesFrom found (read_table flag_present o b line d)
  unfolding read_table parse_cmdline_partition_table
  read_table-HasModesFrom none flag_present o b line d e h = rw (e, read_table) h
  read_table-HasModesFrom (some place) flag_present o b line d e h =
      rw (e, read_table) (search_devices-HasModesFrom flag_present o b _ d h)

pub read_proc_cmdline-HasModesFrom :
    (found flag_present : Bool) (boxname : Bytes) (line : Option Bytes) (o : Options) (d : Devices)
    → HasModesFrom found d
    → HasModesFrom found (read_proc_cmdline flag_present boxname line o d).2
unfolding read_proc_cmdline
read_proc_cmdline-HasModesFrom found flag_present boxname none o d h = h
read_proc_cmdline-HasModesFrom found flag_present boxname (some line) o d h =
    read_table-HasModesFrom found (strstr line (lit "blkdevparts=")) flag_present _ _ line d refl h
