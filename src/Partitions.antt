-- ===== src/Partitions.antt =====
-- cmdline_parser.c: the partition table that the kernel is given as `blkdevparts=`.
-- `my_printf` is left out. Whether /dev/block/by-name/flag exists is the argument `flag_present`.
pub mod Scan
pub mod Current
pub mod Tables
use ofgwrite.Base.{ℕ, ◌+◌, Bool, true, false, ◌&&◌, not, Option, none, some, List, [], ◌∷◌, ◌++◌}
use ofgwrite.Base.{if◌then◌else◌}
use ofgwrite.Base.Int.{int_eq, minus_one}
use ofgwrite.Base.Text.{Bytes, lit, contains, cut, split, is_empty, decimal, int_decimal}
use ofgwrite.State.{Options, Devices, Boot, FlashMode}

-- The return values 1, 0 and -1.
pub data Search : Type 0 where
  found not_here failed : Search

-- `cmp_kernel_name`, `cmp_rootfs_name`, and the directory that is written to `rootfs_sub_dir`.
pub record Names : Type 0 where
  pub kernel_name : Bytes
  pub rootfs_name : Bytes
  pub sub_dir : Option Bytes

abbrev pub plain_names : Bytes → Bytes → Option Names
plain_names k r = some (record { kernel_name = k; rootfs_name = r; sub_dir = none })

abbrev pub both_in : Bytes → Bytes → Bytes → Bool
both_in table k r = contains table k && contains table r

-- The names with a number, of a box with the rootSubDir feature.
unfoldable pub numbered_names : Options → Bytes → Option Names
numbered_names o r = some (record {
  kernel_name = lit "(linuxkernel" ++ (int_decimal o.multiboot_partition ++ lit ")");
  rootfs_name = r;
  sub_dir = some (lit "linuxrootfs" ++ int_decimal o.multiboot_partition);
})

-- The ladder of `search_via_part_names` that chooses the names. Both must be in the table.
unfoldable pub choose_names : Bool → Options → Boot → Bytes → Option Names
unfolding numbered_names
choose_names flag_present o b table =
    if both_in table (lit "(kernel)") (lit "(dreambox-rootfs)")
    then plain_names (lit "(kernel)") (lit "(dreambox-rootfs)")
    else if both_in table (lit "(kernel)") (lit "(rootfs)")
    then plain_names (lit "(kernel)") (lit "(rootfs)")
    else if both_in table (lit "(ekernel)") (lit "(rootfs)")
    then plain_names (lit "(ekernel)") (lit "(rootfs)")
    else if both_in table (lit "(exkernel)") (lit "(exrootfs)")
    then plain_names (lit "(exkernel)") (lit "(exrootfs)")
    else if both_in table (lit "(boot)") (lit "(root)")
    then plain_names (lit "(boot)") (lit "(root)")
    else if both_in table (lit "(linuxkernel)") (lit "(linuxrootfs)")
    then plain_names (lit "(linuxkernel)") (lit "(linuxrootfs)")
    else if flag_present && not (is_empty b.current_rootfs_sub_dir)
    then numbered_names o (lit "(rootfs)")
    else if not (is_empty b.current_rootfs_sub_dir)
    then numbered_names o (lit "(userdata)")
    else none

-- sprintf("/dev/%sp%d", device_name, partition_number)
unfoldable pub partition_path : Bytes → ℕ → Bytes
partition_path device n = lit "/dev/" ++ (device ++ (lit "p" ++ decimal n))

-- One round of the loop of `search_via_part_names`.
unfoldable pub scan_entry : Names → Bytes → ℕ → Bytes → Devices → Devices
scan_entry names device n entry d =
    if contains entry names.kernel_name
    then record d {
      found_kernel_device = true;
      kernel_flash_mode = FlashMode.tarbz2;
      kernel_device = partition_path device n;
    }
    else if contains entry names.rootfs_name
    then record d {
      found_rootfs_device = true;
      rootfs_flash_mode = FlashMode.tarbz2;
      rootfs_device = partition_path device n;
    }
    else d

-- The loop over the entries of the table, the first of which has the number `n`.
unfoldable pub scan : Names → Bytes → ℕ → List Bytes → Devices → Devices
scan names device n [] d = d
scan names device n (entry ∷ entries) d =
    scan names device (n + 1) entries (scan_entry names device n entry d)

abbrev pub both_found : Devices → Search
both_found d =
    if d.found_kernel_device && d.found_rootfs_device then Search.found else Search.failed

abbrev pub set_sub_dir : Option Bytes → Devices → Devices
set_sub_dir none d = d
set_sub_dir (some dir) d = record d { rootfs_sub_dir = dir }

-- `search_via_part_names` from `// read device name` on, for a table that is cut at its colon.
unfoldable pub scan_behind : Names → Bytes × Option Bytes → Devices → Devices × Search
unfolding scan scan_entry
scan_behind names (device, none) d = (d, Search.failed)
scan_behind names (device, some rest) d =
    let d' = scan names device 1 (split b',' rest) d in (d', both_found d')

unfoldable pub scan_table : Names → Bytes → Devices → Devices × Search
unfolding scan_behind
scan_table names table d = scan_behind names (cut b':' table) d

unfoldable pub search_via_part_names : Bool → Options → Boot → Bytes → Devices → Devices × Search
unfolding choose_names scan_table
search_via_part_names flag_present o b table d = elim (choose_names flag_present o b table) [
  | none ↦ (d, Search.not_here)
  | some names ↦ scan_table names table (set_sub_dir names.sub_dir d)
]

-- One round of the loop of `search_current_used_partitions`. `name` is `device_name`.
unfoldable pub check_entry : Boot → Bytes → ℕ → Bytes → Devices → Devices
check_entry b name n entry d =
    let part_name = name ++ decimal n in
    if contains part_name b.current_kernel_device
      && (contains entry (lit "(linuxkernel") && not (is_empty b.current_kernel_device))
    then record d {
      found_kernel_device = true;
      kernel_flash_mode = FlashMode.tarbz2;
      kernel_device = b.current_kernel_device;
    }
    else if contains part_name b.current_rootfs_device
        && (contains entry (lit "(userdata)") && not (is_empty b.current_rootfs_device))
    then record d {
      found_rootfs_device = true;
      rootfs_flash_mode = FlashMode.tarbz2;
      rootfs_device = b.current_rootfs_device;
    }
    else d

unfoldable pub check_entries : Boot → Bytes → ℕ → List Bytes → Devices → Devices
check_entries b name n [] d = d
check_entries b name n (entry ∷ entries) d =
    check_entries b name (n + 1) entries (check_entry b name n entry d)

-- The end of `search_current_used_partitions`.
abbrev pub keep_sub_dir : Boot → Devices → Devices × Search
keep_sub_dir b d =
    if d.found_kernel_device && d.found_rootfs_device
    then (record d { rootfs_sub_dir = b.current_rootfs_sub_dir }, Search.found)
    else (d, Search.failed)

unfoldable pub check_behind : Boot → Bytes × Option Bytes → Devices → Devices × Search
unfolding check_entries check_entry
check_behind b (device, none) d = (d, Search.failed)
check_behind b (device, some rest) d =
    let name = lit "/dev/" ++ (device ++ lit "p") in
    if contains b.current_rootfs_device name && contains b.current_kernel_device name
    then keep_sub_dir b (check_entries b name 1 (split b',' rest) d)
    else (d, Search.failed)

unfoldable pub search_current_used_partitions : Boot → Bytes → Devices → Devices × Search
unfolding check_behind
search_current_used_partitions b table d = check_behind b (cut b':' table) d

-- The body of the loop of `parse_cmdline_partition_table`.
unfoldable pub search_device : Bool → Options → Boot → Bytes → Devices → Devices × Search
unfolding search_current_used_partitions search_via_part_names
search_device flag_present o b table d =
    if not (is_empty b.current_rootfs_sub_dir) && int_eq o.multiboot_partition minus_one
    then search_current_used_partitions b table d
    else search_via_part_names flag_present o b table d

-- `if (ret != 0) break;`
abbrev pub unless_stopped : Search → Devices → Devices → Devices
unless_stopped Search.not_here d rest = rest
unless_stopped Search.found d rest = d
unless_stopped Search.failed d rest = d

-- The loop over the devices. It goes on only while a search returns 0.
unfoldable pub search_devices : Bool → Options → Boot → List Bytes → Devices → Devices
search_devices flag_present o b [] d = d
search_devices flag_present o b (table ∷ tables) d =
    let (d', ret) = search_device flag_present o b table d in
    let rest = search_devices flag_present o b tables d' in unless_stopped ret d' rest

unfoldable pub parse_cmdline_partition_table : Bool → Options → Boot → Bytes → Devices → Devices
unfolding search_devices search_device
parse_cmdline_partition_table flag_present o b cmdline d =
    search_devices flag_present o b (split b';' (cut b' ' cmdline).0) d
