-- ===== src/ProcMtd.antt =====
-- ofgwrite.c: `read_mtd_file`, which looks for the kernel's and the rootfs's device in /proc/mtd.
-- The lines are those that `fgets` returns. `my_printf` is left out.
pub mod Fits
use ofgwrite.Base.{ℕ, Bool, true, false, ◌&&◌, ◌||◌, not, Option, none, some, List, [], ◌∷◌, ◌++◌}
use ofgwrite.Base.{leb, ◌==◌, if◌then◌else◌}
use ofgwrite.Base.Int.{pos, minus_one, int_eq}
use ofgwrite.Base.Text.{Bytes, lit, str_eq, skip_space, word, strtoul16, is_empty}
use ofgwrite.State.{Options, Images, Devices, FlashMode}
use ofgwrite.Cmdline.{slot_dir}

-- The buffers that `sscanf(line, "%s%s%s%s", dev, size, esize, name)` fills.
pub record Fields : Type 0 where
  pub dev : Bytes
  pub size : Bytes
  pub esize : Bytes
  pub name : Bytes

-- A word and what follows it; no word is stored where the line has ended.
abbrev pub next_word : Bytes → Bytes × Bytes
next_word s = word (skip_space s)

unfoldable pub scan_fields : Fields → Bytes → Fields
scan_fields old line =
    let (dev, after_dev) = next_word line in
    let (size, after_size) = next_word after_dev in
    let (esize, after_esize) = next_word after_size in
    let (name, _) = next_word after_esize in
    record {
      dev = if is_empty dev then old.dev else dev;
      size = if is_empty size then old.size else size;
      esize = if is_empty esize then old.esize else esize;
      name = if is_empty name then old.name else name;
    }

-- `if (dev[strlen(dev)-1] == ':') dev[strlen(dev)-1] = '\0';`
unfoldable pub cut_colon : Bytes → Bytes
cut_colon [] = []
cut_colon (c ∷ []) = if c == b':' then [] else c ∷ []
cut_colon (c ∷ d ∷ s) = c ∷ cut_colon (d ∷ s)

unfoldable pub line_fields : Fields → Bytes → Fields
unfolding scan_fields cut_colon
line_fields old line = let f = scan_fields old line in record f { dev = cut_colon f.dev }

-- The fields of each line behind the header. A short line keeps fields of the line before.
unfoldable pub all_fields : Fields → List Bytes → List Fields
unfolding line_fields
all_fields old [] = []
all_fields old (line ∷ lines) = line_fields old line ∷ all_fields (line_fields old line) lines

unfoldable pub is_header : Fields → Bool
is_header f =
    str_eq f.dev (lit "dev:")
    && (str_eq f.size (lit "size")
        && (str_eq f.esize (lit "erasesize") && str_eq f.name (lit "name")))

unfoldable pub is_user_kernel_name : Bytes → Bool
is_user_kernel_name name =
    str_eq name (lit "\"kernel\"")
    || (str_eq name (lit "\"nkernel\"")
        || (str_eq name (lit "\"kernel2\"") || str_eq name (lit "\"boot\"")))

unfoldable pub is_user_rootfs_name : Bytes → Bool
is_user_rootfs_name name =
    str_eq name (lit "\"rootfs\"")
    || (str_eq name (lit "\"rootfs2\"") || str_eq name (lit "\"dreambox-rootfs\""))

unfoldable pub is_auto_kernel_name : Options → Bytes → Bool
is_auto_kernel_name o name =
    str_eq name (lit "\"kernel\"")
    || (str_eq name (lit "\"nkernel\"")
        || (str_eq name (lit "\"boot\"") && int_eq o.multiboot_partition minus_one
            || (str_eq name (lit "\"linuxkernel1\"") && int_eq o.multiboot_partition (pos 1)
                || str_eq name (lit "\"linuxkernel2\"") && int_eq o.multiboot_partition (pos 2))))

unfoldable pub is_userdata : Bytes → Bool
is_userdata name = str_eq name (lit "\"userdata\"")

unfoldable pub is_auto_rootfs_name : Options → Bytes → Bool
unfolding is_userdata
is_auto_rootfs_name o name =
    str_eq name (lit "\"rootfs\"")
    || (str_eq name (lit "\"dreambox-rootfs\"")
        || (str_eq name (lit "\"root\"")
            || is_userdata name && not (int_eq o.multiboot_partition minus_one)))

-- `devsize`, strtoul(size, 0, 16)
abbrev pub kernel_fits : Images → Fields → Bool
kernel_fits i f = leb i.kernel_file_size (strtoul16 f.size)

unfoldable pub is_bad_erasesize : Fields → Bool
is_bad_erasesize f = str_eq f.esize (lit "0001f000")

abbrev pub rootfs_fits : Images → Fields → Bool
rootfs_fits i f = leb i.rootfs_file_size (strtoul16 f.size) && not (is_bad_erasesize f)

abbrev pub dev_path : Bytes → Bytes
dev_path dev = lit "/dev/" ++ dev

-- The devices, and `wrong_user_mtd`.
abbrev pub MtdState : Type 0
MtdState = Devices × Bool

unfoldable pub user_kernel_line : Options → Images → Fields → MtdState → MtdState
user_kernel_line o i f (d, wrong) =
    let d' = record d { kernel_device = dev_path o.kernel_device_arg } in
    if kernel_fits i f && is_user_kernel_name f.name
    then (record d' { found_kernel_device = true; kernel_flash_mode = FlashMode.mtd }, wrong)
    else (d', true)

unfoldable pub user_rootfs_line : Options → Images → Fields → MtdState → MtdState
user_rootfs_line o i f (d, wrong) =
    let d' = record d { rootfs_device = dev_path o.rootfs_device_arg } in
    if rootfs_fits i f && is_user_rootfs_name f.name
    then (record d' { found_rootfs_device = true; rootfs_flash_mode = FlashMode.mtd }, wrong)
    else (d', true)

unfoldable pub auto_kernel_line : Images → Fields → Devices → Devices
auto_kernel_line i f d =
    let d' = record d { kernel_device = dev_path f.dev } in
    if d.found_kernel_device
    then d
    else if kernel_fits i f
    then record d' { found_kernel_device = true; kernel_flash_mode = FlashMode.mtd }
    else d'

-- A box with the subdirectory feature in an MTD partition has its rootfs in "userdata".
unfoldable pub auto_rootfs_line : Options → Images → Fields → Devices → Devices
auto_rootfs_line o i f d =
    let d' = record d { rootfs_device = dev_path f.dev } in
    if d.found_rootfs_device
    then d
    else if rootfs_fits i f
    then if is_userdata f.name
      then record d' {
        found_rootfs_device = true;
        rootfs_flash_mode = FlashMode.tarbz2_mtd;
        rootfs_sub_dir = slot_dir o.slotname o.multiboot_partition;
      }
      else record d' { found_rootfs_device = true; rootfs_flash_mode = FlashMode.mtd }
    else d'

-- The body of the loop, for a line that is not the header.
unfoldable pub mtd_line : Options → Images → Fields → MtdState → MtdState
mtd_line o i f (d, wrong) =
    if o.user_kernel && str_eq f.dev o.kernel_device_arg
    then user_kernel_line o i f (d, wrong)
    else if o.user_rootfs && str_eq f.dev o.rootfs_device_arg
    then user_rootfs_line o i f (d, wrong)
    else if not o.user_kernel && is_auto_kernel_name o f.name
    then (auto_kernel_line i f d, wrong)
    else if not o.user_rootfs && is_auto_rootfs_name o f.name
    then (auto_rootfs_line o i f d, wrong)
    else (d, wrong)

unfoldable pub mtd_lines : Options → Images → List Fields → MtdState → MtdState
mtd_lines o i [] s = s
mtd_lines o i (f ∷ fs) s = mtd_lines o i fs (mtd_line o i f s)

-- The devices, and the return value. `garbage` is what the buffers hold at first.
unfoldable pub read_mtd_file :
    Fields → Option (List Bytes) → Options → Images → Devices → Devices × Bool
read_mtd_file garbage none o i d = (d, false)
read_mtd_file garbage (some []) o i d = (d, true)
read_mtd_file garbage (some (header ∷ lines)) o i d =
    let f = scan_fields garbage header in
    if is_header f
    then (let (d', wrong) = mtd_lines o i (all_fields f lines) (d, false) in (d', not wrong))
    else (d, false)
