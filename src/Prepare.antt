-- ===== src/Prepare.antt =====
-- ofgwrite.c: the part of `main` from `read_args` to the checks in front of the flashing. It has no
-- effect on the system: it is the pure function `prepare` of what is read. The messages and the log
-- are left out.
pub mod Checked
use ofgwrite.Base.{ℕ, Bool, true, false, ◌&&◌, ◌||◌, not, Option, none, some, List, []}
use ofgwrite.Base.{if◌then◌else◌}
use ofgwrite.Base.Text.{Bytes, is_empty}
use ofgwrite.State.{Options, Images, Devices, Boot, FlashMode, RootfsType, ImageType}
use ofgwrite.Args.{Opt, read_args}
use ofgwrite.Mounts.{Mount, Mounts, read_proc_mounts}
use ofgwrite.ProcMtd.{Fields, read_mtd_file}
use ofgwrite.Select.{Probe, find_kernel_rootfs_device}
use ofgwrite.Sizes.{check_device_size}

-- What the program is given and reads before it flashes. `find` is `find_image_files`.
pub record Inputs : Type 0 where
  pub find : Bytes → Images → Images × Bool
  pub opts : List Opt
  pub operands : List Bytes
  pub mounts : Images → Option (List Mount)
  pub garbage : Fields
  pub proc_mtd : Option (List Bytes)
  pub probe : Probe
  pub size_of : Bytes → Option ℕ

-- The globals when the flashing starts.
pub record Setup : Type 0 where
  pub options : Options
  pub images : Images
  pub mounts : Mounts
  pub boot : Boot
  pub devices : Devices
  pub stop_e2_needed : Bool

abbrev pub no_images : Images
no_images = record {
  kernel_filename = [];
  rootfs_filename = [];
  nfi_filename = [];
  nfi_path = [];
  kernel_file_size = 0;
  rootfs_file_size = 0;
  image_type = ImageType.image_unknown;
}

abbrev pub no_devices : Devices
no_devices = record {
  kernel_device = [];
  rootfs_device = [];
  rootfs_sub_dir = [];
  found_kernel_device = false;
  found_rootfs_device = false;
  kernel_flash_mode = FlashMode.flash_mode_unknown;
  rootfs_flash_mode = FlashMode.flash_mode_unknown;
}

abbrev pub no_mounts : Mounts
no_mounts = record {
  rootfs_type = RootfsType.unknown;
  rootfs_fs_type = [];
  ubi_fs_name = [];
  newroot_mounted = false;
  rootfs_mount_point = [];
  mountlist = [];
}

abbrev pub is_unknown : RootfsType → Bool
is_unknown RootfsType.unknown = true
is_unknown _ = false

abbrev pub lacks_kernel : Setup → Bool
lacks_kernel s =
    s.options.flash_kernel
    && (not s.devices.found_kernel_device || is_empty s.images.kernel_filename)

abbrev pub lacks_rootfs : Setup → Bool
lacks_rootfs s =
    s.options.flash_rootfs
    && (not s.devices.found_rootfs_device
        || (is_empty s.images.rootfs_filename && is_empty s.images.nfi_filename
            || is_unknown s.mounts.rootfs_type))

-- The checks in front of the flashing.
unfoldable pub check_setup : (Bytes → Option ℕ) → Setup → Option Setup
check_setup size_of s =
    if lacks_kernel s
    then none
    else if lacks_rootfs s
    then none
    else if check_device_size size_of s.images s.boot s.devices
    then some s
    else none

-- From `read_mtd_file` on.
unfoldable pub find_setup : Inputs → Options → Images → Mounts → Option Setup
unfolding check_setup
find_setup inp o i m =
    let (d, _) = read_mtd_file inp.garbage inp.proc_mtd o i no_devices in
    let (o', b, (d', stop)) = find_kernel_rootfs_device inp.probe i.image_type o d in
    check_setup inp.size_of (record {
      options = o';
      images = i;
      mounts = m;
      boot = b;
      devices = d';
      stop_e2_needed = stop;
    })

-- `none` where `main` returns EXIT_FAILURE before it flashes.
unfoldable pub prepare : Inputs → Option Setup
unfolding find_setup
prepare inp =
    let (o, i, good) = read_args inp.find inp.opts inp.operands no_images in
    let (m, read) = read_proc_mounts i (inp.mounts i) no_mounts in
    if not good || o.show_help then none else if read then find_setup inp o i m else none
