-- ===== src/Cmdline.antt =====
-- ofgwrite.c: `find_store_substring` and `readProcCmdline`, which reads /proc/cmdline.
-- The line that `fgets` returns is `line`, `none` where it or `fopen` fails; the box name that
-- `ReadProcEntry` reads from /proc/stb/info/model is `boxname`. `my_printf` is left out.
pub mod Store
pub mod Modes
use ofgwrite.Base.{
  ℕ, Bool, true, false, ◌&&◌, ◌||◌, not, Option, none, some, ◌++◌, any, [], ◌∷◌, List,
}
use ofgwrite.Base.{if◌then◌else◌, length, drop}
use ofgwrite.Base.Int.{ℤ, int_eq, minus_one}
use ofgwrite.Base.Text.{Bytes, lit, strstr, contains, cut, int_decimal, is_some}
use ofgwrite.State.{Options, Devices, Boot}
use ofgwrite.Partitions.{parse_cmdline_partition_table}

abbrev pub newline : ℕ
newline = 10

-- The text behind `cmp` in `pos`, up to the first space, or up to the first newline where there is
-- no space.
unfoldable pub value_at : Bytes → Bytes → Bytes
value_at cmp place =
    if contains place (lit " ")
    then drop (length cmp) (cut b' ' place).0
    else if contains place (newline ∷ [])
    then drop (length cmp) (cut newline place).0
    else drop (length cmp) place

-- Returns the new text of `dest`.
unfoldable pub find_store_substring : Bytes → Bytes → Bytes → Bytes
unfolding value_at
find_store_substring src cmp dest = elim (strstr src cmp) [
  | none ↦ dest
  | some place ↦ value_at cmp place
]

-- sprintf("%s%d", slotname, slot)
unfoldable pub slot_dir : Bytes → ℤ → Bytes
slot_dir slotname slot = slotname ++ int_decimal slot

abbrev pub box_models : List Bytes
box_models = lit "dm820" ∷ lit "dm7080" ∷ lit "dm900" ∷ lit "dm920" ∷ []

-- The test for the chkroot mode.
unfoldable pub is_chkroot : Bytes → Bytes → Options → Bool
is_chkroot line boxname o =
    (contains line (lit "others")
      || (contains line (lit "other2")
          || (any (λ model. contains boxname model) box_models || o.user_currentslotcode)))
    && not (int_eq o.multiboot_partition minus_one)

-- `force_e2_stop` in the chkroot mode.
unfoldable pub must_stop : Options → Bool
must_stop o =
    if not o.user_currentslotcode then true else int_eq o.currentslotcode o.multiboot_partition

unfoldable pub read_boot : Bytes → Boot
unfolding find_store_substring
read_boot line = record {
  kexec_mode = find_store_substring line (lit "kexec=") [];
  current_rootfs_device = find_store_substring line (lit "root=") [];
  current_kernel_device = find_store_substring line (lit "kernel=") [];
  current_rootfs_sub_dir = find_store_substring line (lit "rootsubdir=") [];
  chkroot_mode = false;
}

unfoldable pub set_chkroot : Bytes → Bytes → Options → Boot → Options × Boot
unfolding is_chkroot must_stop
set_chkroot line boxname o b =
    if is_chkroot line boxname o
    then (
      record o { force_e2_stop = must_stop o },
      record b {
        current_rootfs_sub_dir = slot_dir o.slotname o.currentslotcode;
        chkroot_mode = true;
      },
    )
    else (o, b)

abbrev pub no_boot : Boot
no_boot = record {
  kexec_mode = [];
  current_rootfs_device = [];
  current_kernel_device = [];
  current_rootfs_sub_dir = [];
  chkroot_mode = false;
}

-- The table behind "blkdevparts=", if there is one.
unfoldable pub read_table : Bool → Options → Boot → Bytes → Devices → Devices
read_table flag_present o b line d = elim (strstr line (lit "blkdevparts=")) [
  | none ↦ d
  | some place ↦ parse_cmdline_partition_table flag_present o b (drop 12 place) d
]

unfoldable pub read_proc_cmdline :
    Bool → Bytes → Option Bytes → Options → Devices → Options × Boot × Devices
unfolding read_boot set_chkroot read_table
read_proc_cmdline flag_present boxname none o d = (o, no_boot, d)
read_proc_cmdline flag_present boxname (some line) o d =
    let (o', b) = set_chkroot line boxname o (read_boot line) in
    (o', b, read_table flag_present o' b line d)
