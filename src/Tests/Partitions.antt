-- ===== src/Tests/Partitions.antt =====
-- cmdline_parser.c at concrete tables.
use ofgwrite.Base.{true, false, some, none, [], ◌∷◌, ◌++◌, ◌≡◌, refl}
use ofgwrite.Base.Text.{Bytes, lit, join, contains, cut, split, decimal}
use ofgwrite.State.{Devices, FlashMode}
use ofgwrite.Partitions.{Names, Search, scan_table, partition_path}
use ofgwrite.Partitions.{search_via_part_names, parse_cmdline_partition_table}
use ofgwrite.Partitions.{search_current_used_partitions}
use ofgwrite.Partitions.Scan.{place, scan_table-join, last_match}
use ofgwrite.Partitions.Current.{search_current_found}
use ofgwrite.Partitions.Tables.{parse_cmdline_current_second}
use ofgwrite.Tests.Samples.{options, devices, boot, sub_dir_boot}

abbrev table : Bytes
table = lit "mmcblk0:1M(boot),2M(kernel),3M(rootfs),-(userdata)"

abbrev found : Devices
found = record devices {
  kernel_device = lit "/dev/mmcblk0p2";
  rootfs_device = lit "/dev/mmcblk0p3";
  found_kernel_device = true;
  found_rootfs_device = true;
  kernel_flash_mode = FlashMode.tarbz2;
  rootfs_flash_mode = FlashMode.tarbz2;
}

via_part_names : search_via_part_names false options boot table devices ≡ (found, Search.found)
unfolding search_via_part_names lit contains cut split decimal partition_path
via_part_names = refl

abbrev names : Names
names = record { kernel_name = lit "(kernel)"; rootfs_name = lit "(rootfs)"; sub_dir = none }

scan_table-join_example :
    (scan_table names
      (lit "mmcblk0" ++ b':' ∷ join b',' (lit "2M(kernel)") (lit "3M(rootfs)" ∷ []))
      devices).0
    ≡ place (lit "mmcblk0") (some 1) (some 2) devices
unfolding lit last_match contains
scan_table-join_example =
    scan_table-join names (lit "mmcblk0") (lit "2M(kernel)") (lit "3M(rootfs)" ∷ []) devices refl
      refl (refl, tt)

abbrev current_table : Bytes
current_table = lit "mmcblk1:1M(a),1M(b),8M(linuxkernel1),-(userdata)"

search_current_found_example :
    let d' = (search_current_used_partitions sub_dir_boot current_table devices).0 in
    (d'.kernel_device ≡ lit "/dev/mmcblk1p3")
    × (d'.rootfs_device ≡ lit "/dev/mmcblk1p4")
    × (d'.kernel_flash_mode ≡ FlashMode.tarbz2)
    × (d'.rootfs_flash_mode ≡ FlashMode.tarbz2)
    × (d'.rootfs_sub_dir ≡ lit "linuxrootfs1")
search_current_found_example =
    search_current_found sub_dir_boot current_table devices refl refl
      (unfold search_current_used_partitions lit cut contains split decimal in refl)

parse_cmdline_current_second_example :
    parse_cmdline_partition_table false options sub_dir_boot
      (join b';' (lit "mmcblk0" ++ b':' ∷ lit "4M(boot)") (current_table ∷ []))
      devices
    ≡ devices
unfolding lit contains
parse_cmdline_current_second_example =
    parse_cmdline_current_second false options sub_dir_boot (lit "mmcblk0") (lit "4M(boot)")
      (current_table ∷ []) devices refl refl refl (refl, (refl, tt)) refl
