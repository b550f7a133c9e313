-- ===== src/Partitions/Tables.antt =====
-- `parse_cmdline_partition_table` over the devices of the command line.
use ofgwrite.Base.{Bool, true, false, not, List, [], ◌∷◌, ◌++◌, ◌≡◌, arith, ◌&&◌, any, All}
use ofgwrite.Base.{◌==◌, Option, none, some, ap, ◌∙◌}
use ofgwrite.Base.Int.{int_eq, minus_one}
use ofgwrite.Base.Text.{Bytes, lit, contains, cut, cut_append, cut-none, split, split-join, join}
use ofgwrite.Base.Text.{is_empty}
use ofgwrite.State.{Devices, Options, Boot}
use ofgwrite.Partitions.{Search, Names, choose_names, scan_table, scan_behind, set_sub_dir}
use ofgwrite.Partitions.{search_via_part_names, search_current_used_partitions, search_device}
use ofgwrite.Partitions.{check_behind, search_devices, parse_cmdline_partition_table}

-- The running image is to be flashed on a box with the rootSubDir feature.
abbrev pub flashes_current : Options → Boot → Bool
flashes_current o b =
    not (is_empty b.current_rootfs_sub_dir) && int_eq o.multiboot_partition minus_one

scan_behind-ne-not_here :
    (names : Names) (front : Bytes) (after : Option Bytes) (d : Devices)
    → (scan_behind names (front, after) d).1 ≡ Search.not_here
    → ⊥
unfolding scan_behind
scan_behind-ne-not_here names front none d h = cc
scan_behind-ne-not_here names front (some rest) d h = ground arith

module _ (flag_present : Bool) (o : Options) (b : Boot)
    (part_names : flashes_current o b ≡ false) where
  search_device_skip :
      (table : Bytes) (d : Devices)
      → choose_names flag_present o b table ≡ none
      → search_device flag_present o b table d ≡ (d, Search.not_here)
  unfolding search_device search_via_part_names
  search_device_skip table d h = ground arith

  search_device_take :
      (table : Bytes) (d : Devices) (names : Names)
      → choose_names flag_present o b table ≡ some names
      → search_device flag_present o b table d
        ≡ scan_table names table (set_sub_dir names.sub_dir d)
  unfolding search_device search_via_part_names
  search_device_take table d names h = ground arith

  search_devices_first :
      (before after : List Bytes) (table : Bytes) (d : Devices) (names : Names)
      → All (λ t. choose_names flag_present o b t ≡ none) before
      → choose_names flag_present o b table ≡ some names
      → search_devices flag_present o b (before ++ table ∷ after) d
        ≡ (scan_table names table (set_sub_dir names.sub_dir d)).0
  unfolding search_devices scan_table
  search_devices_first [] after table d names hb h = ground (
    arith,
    search_device_take table d names h,
    scan_behind-ne-not_here names (cut b':' table).0 (cut b':' table).1
        (set_sub_dir names.sub_dir d),
  )
  search_devices_first (t ∷ before) after table d names hb h =
      ground
        (arith, search_device_skip t d hb.0, search_devices_first before after table d names hb.1 h)

-- In a command line that goes on behind the partition tables, the devices in front of the first
-- one that has both names of some pair are passed over, that one alone is scanned, and those behind
-- it are not read; where the tables hold no semicolon and no space, and the running image is not what
-- is flashed.
pub parse_cmdline_first :
    (flag_present : Bool) (o : Options) (b : Boot)
    → flashes_current o b ≡ false
    → (w : Bytes) (ws before after : List Bytes) (table line_rest : Bytes) (names : Names)
      (d : Devices)
    → w ∷ ws ≡ before ++ table ∷ after
    → All (λ t. any (λ c. c == b';') t ≡ false) (w ∷ ws)
    → any (λ c. c == b' ') (join b';' w ws) ≡ false
    → All (λ t. choose_names flag_present o b t ≡ none) before
    → choose_names flag_present o b table ≡ some names
    → parse_cmdline_partition_table flag_present o b (join b';' w ws ++ b' ' ∷ line_rest) d
      ≡ (scan_table names table (set_sub_dir names.sub_dir d)).0
unfolding parse_cmdline_partition_table
parse_cmdline_first flag_present o b part w ws before after table line_rest names d e hs hb skip h =
    ap (λ p. search_devices flag_present o b (split b';' p.0) d)
      (cut_append b' ' (join b';' w ws) line_rest hb)
    ∙ ap (λ l. search_devices flag_present o b l d) (split-join b';' w ws hs.0 hs.1 ∙ e)
    ∙ search_devices_first flag_present o b part before after table d names skip h

check_behind_other_device :
    (b : Boot) (device table_rest : Bytes) (d : Devices)
    → contains b.current_rootfs_device (lit "/dev/" ++ (device ++ lit "p")) ≡ false
    → check_behind b (device, some table_rest) d ≡ (d, Search.failed)
unfolding check_behind
check_behind_other_device b device table_rest d h = ground arith

search_current_other_device :
    (b : Boot) (device table_rest : Bytes) (d : Devices)
    → any (λ c. c == b':') device ≡ false
    → contains b.current_rootfs_device (lit "/dev/" ++ (device ++ lit "p")) ≡ false
    → search_current_used_partitions b (device ++ b':' ∷ table_rest) d ≡ (d, Search.failed)
unfolding search_current_used_partitions
search_current_other_device b device table_rest d hd h =
    ap (λ p. check_behind b p d) (cut_append b':' device table_rest hd)
    ∙ check_behind_other_device b device table_rest d h

search_device_current :
    (flag_present : Bool) (o : Options) (b : Boot) (table : Bytes) (d : Devices)
    → flashes_current o b ≡ true
    → search_device flag_present o b table d ≡ search_current_used_partitions b table d
unfolding search_device
search_device_current flag_present o b table d h = ground arith

search_devices_stop :
    (flag_present : Bool) (o : Options) (b : Boot) (table : Bytes) (tables : List Bytes)
    (d : Devices)
    → search_device flag_present o b table d ≡ (d, Search.failed)
    → search_devices flag_present o b (table ∷ tables) d ≡ d
unfolding search_devices
search_devices_stop flag_present o b table tables d h = ground arith

-- When the running image is to be flashed and its rootfs is on another device than the first one of a
-- command line that ends with the tables, which hold no semicolon and no space, then the tables of all
-- further devices go unread, and nothing is found.
pub parse_cmdline_current_second :
    (flag_present : Bool) (o : Options) (b : Boot) (device table_rest : Bytes) (tables : List Bytes)
    (d : Devices)
    → flashes_current o b ≡ true
    → any (λ c. c == b':') device ≡ false
    → contains b.current_rootfs_device (lit "/dev/" ++ (device ++ lit "p")) ≡ false
    → All (λ t. any (λ c. c == b';') t ≡ false) ((device ++ b':' ∷ table_rest) ∷ tables)
    → any (λ c. c == b' ') (join b';' (device ++ b':' ∷ table_rest) tables) ≡ false
    → parse_cmdline_partition_table flag_present o b
        (join b';' (device ++ b':' ∷ table_rest) tables)
        d
      ≡ d
unfolding parse_cmdline_partition_table
parse_cmdline_current_second flag_present o b device table_rest tables d current hd other hs hb =
    let table = device ++ b':' ∷ table_rest in
    ap (λ p. search_devices flag_present o b (split b';' p.0) d)
      (cut-none b' ' (join b';' table tables) hb)
    ∙ ap (λ l. search_devices flag_present o b l d) (split-join b';' table tables hs.0 hs.1)
    ∙ search_devices_stop flag_present o b table tables d (
        search_device_current flag_present o b table d current
        ∙ search_current_other_device b device table_rest d hd other)
