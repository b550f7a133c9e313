-- ===== src/Args.antt =====
-- ofgwrite.c: `read_args`. getopt_long is not modelled: `opts` is the list of the options that it
-- returns with their arguments, and `operands` what is left of argv behind them. The globals hold
-- their initial values when the function is called.
pub mod Flags
use ofgwrite.Base.{ℕ, Bool, true, false, ◌&&◌, ◌||◌, not, List, [], ◌∷◌, any, Option, none, some}
use ofgwrite.Base.{if◌then◌else◌}
use ofgwrite.Base.Int.{ℤ, pos, negsuc, minus_one}
use ofgwrite.Base.Text.{Bytes, lit, starts_with}
use ofgwrite.State.{Options, Images}
use ofgwrite.ImageFiles.{find_image_files}

-- `opt` and `optarg`. The number of `-c` is `atoi(optarg)`, that of `-m` is `strtol`'s, `none` where
-- strtol reports an error or reads no digit. `-?` stands for an option that is unknown or lacks its
-- argument. The numbers are in the range of an int.
pub data Opt : Type 0 where
  android : Opt
  current_slot : Option ℤ → Opt
  kernel : Option Bytes → Opt
  rootfs : Option Bytes → Opt
  no_write : Opt
  slot_name : Bytes → Opt
  multi : Option ℤ → Opt
  force : Opt
  quiet : Opt
  help : Opt
  unknown : Opt

unfoldable pub is_kernel_arg : Bytes → Bool
is_kernel_arg arg =
    starts_with arg (lit "mtd")
    || (starts_with arg (lit "mmcblk")
        || (starts_with arg (lit "sd") || starts_with arg (lit "boot")))

unfoldable pub is_rootfs_arg : Bytes → Bool
is_rootfs_arg arg =
    starts_with arg (lit "mtd")
    || (starts_with arg (lit "mmcblk")
        || (starts_with arg (lit "sd") || starts_with arg (lit "dreambox-rootfs")))

abbrev pub set_kernel : Option Bytes → Options → Options
set_kernel none o = record o { flash_kernel = true }
set_kernel (some arg) o =
    if is_kernel_arg arg
    then record o { flash_kernel = true; kernel_device_arg = arg; user_kernel = true }
    else record o { flash_kernel = true }

abbrev pub set_rootfs : Option Bytes → Options → Options
set_rootfs none o = record o { flash_rootfs = true }
set_rootfs (some arg) o =
    if is_rootfs_arg arg
    then record o { flash_rootfs = true; rootfs_device_arg = arg; user_rootfs = true }
    else record o { flash_rootfs = true }

-- A negative number changes nothing.
abbrev pub set_multi : ℤ → Options → Options
set_multi (pos ℕ.zero) o = record o { rootsubdir_check = true }
set_multi (pos n) o = record o { multiboot_partition = pos n }
set_multi (negsuc n) o = o

abbrev pub ask_help : Options → Options
ask_help o = record o { show_help = true }

-- The switch. There is no case for `help`. False if the function returns 0.
unfoldable pub read_opt : Opt → Options → Options × Bool
read_opt Opt.android o = (record o { android = true }, true)
read_opt (Opt.current_slot none) o = (o, true)
read_opt (Opt.current_slot (some n)) o =
    (record o { currentslotcode = n; user_currentslotcode = true }, true)
read_opt (Opt.kernel arg) o = (set_kernel arg o, true)
read_opt (Opt.rootfs arg) o = (set_rootfs arg o, true)
read_opt Opt.no_write o = (record o { no_write = true }, true)
read_opt (Opt.slot_name name) o = (record o { slotname = name; user_slotname = true }, true)
read_opt (Opt.multi none) o = (ask_help o, false)
read_opt (Opt.multi (some n)) o = (set_multi n o, true)
read_opt Opt.force o = (record o { force_e2_stop = true }, true)
read_opt Opt.quiet o = (record o { quiet = true }, true)
read_opt Opt.help o = (o, true)
read_opt Opt.unknown o = (ask_help o, false)

abbrev pub initial : Options
initial = record {
  kernel_device_arg = [];
  rootfs_device_arg = [];
  slotname = lit "linuxrootfs";
  user_kernel = false;
  user_rootfs = false;
  user_slotname = false;
  user_currentslotcode = false;
  currentslotcode = pos 1;
  multiboot_partition = minus_one;
  rootsubdir_check = false;
  android = false;
  flash_kernel = false;
  flash_rootfs = false;
  no_write = false;
  force_e2_stop = false;
  quiet = false;
  show_help = false;
}

-- The loop over the options; an error ends it.
unfoldable pub read_opts : List Opt → Options → Options × Bool
unfolding read_opt
read_opts [] o = (o, true)
read_opts (opt ∷ opts) o =
    let (o', go_on) = read_opt opt o in
    let rest = read_opts opts o' in if go_on then rest else (o', false)

abbrev pub set_defaults : Options → Options
set_defaults o =
    if not o.flash_kernel && not o.flash_rootfs
    then record o { flash_kernel = true; flash_rootfs = true }
    else o

-- The end of the function. `find` is `find_image_files` on the directory's name.
unfoldable pub read_operands :
    (Bytes → Images → Images × Bool) → List Bytes → Options → Images → Options × Images × Bool
read_operands find [] o i = (ask_help o, i, false)
read_operands find (directory ∷ []) o i =
    let (i', found) = find directory i in
    if found then (set_defaults o, i', true) else (o, i', false)
read_operands find (directory ∷ extra ∷ operands) o i = (ask_help o, i, false)

-- `argc == 1` is the case of no option and no operand: the result is that of a missing directory.
unfoldable pub read_args :
    (Bytes → Images → Images × Bool) → List Opt → List Bytes → Images → Options × Images × Bool
unfolding read_opts read_operands
read_args find opts operands i =
    let (o, good) = read_opts opts initial in
    if good then read_operands find operands o i else (o, i, false)
