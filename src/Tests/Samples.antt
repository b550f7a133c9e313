-- ===== src/Tests/Samples.antt =====
-- Data that the tests share.
use ofgwrite.Base.{true, false, [], ◌∷◌, some, if◌then◌else◌}
use ofgwrite.Base.Int.{ℤ, pos, minus_one}
use ofgwrite.Base.Text.{lit, contains}
use ofgwrite.Base.Calls.{Env, Call, Trace}
use ofgwrite.State.{Options, Devices, Boot, FlashMode, Images, ImageType}

abbrev pub options : Options
options = record {
  kernel_device_arg = [];
  rootfs_device_arg = [];
  slotname = lit "linuxrootfs";
  user_kernel = false;
  user_rootfs = false;
  user_slotname = false;
  user_currentslotcode = false;
  currentslotcode = pos 1;
  multiboot_partition = minus_one;
  rootsubdir_check = false;
  android = false;
  flash_kernel = true;
  flash_rootfs = true;
  no_write = false;
  force_e2_stop = false;
  quiet = false;
  show_help = false;
}

abbrev pub devices : Devices
devices = record {
  kernel_device = [];
  rootfs_device = [];
  rootfs_sub_dir = [];
  found_kernel_device = false;
  found_rootfs_device = false;
  kernel_flash_mode = FlashMode.flash_mode_unknown;
  rootfs_flash_mode = FlashMode.flash_mode_unknown;
}

abbrev pub boot : Boot
boot = record {
  kexec_mode = [];
  current_rootfs_device = [];
  current_kernel_device = [];
  current_rootfs_sub_dir = [];
  chkroot_mode = false;
}

-- A running image in a subdirectory of the second device.
abbrev pub sub_dir_boot : Boot
sub_dir_boot = record boot {
  current_rootfs_device = lit "/dev/mmcblk1p4";
  current_kernel_device = lit "/dev/mmcblk1p3";
  current_rootfs_sub_dir = lit "linuxrootfs1";
}

abbrev pub images : Images
images = record {
  kernel_filename = lit "/tmp/image/kernel.bin";
  rootfs_filename = lit "/tmp/image/rootfs.bin";
  nfi_filename = [];
  nfi_path = [];
  kernel_file_size = 4096;
  rootfs_file_size = 65536;
  image_type = ImageType.ubi;
}

-- A system where every call succeeds, with NAND flash and one loop device.
abbrev pub succeed : Trace → Call → ℤ
succeed _ (Call.open_to_write _) = pos 1
succeed _ (Call.write_block _ _) = pos 1
succeed _ (Call.flash_type _) = pos 4
succeed _ _ = pos 0

abbrev pub env : Env
env = record {
  answer = succeed;
  content =
      λ _ path. if contains path (lit "size") then some (lit "2048") else some (lit "UBI#1234UBI!");
  entries = λ _ _. some (lit "." ∷ lit ".." ∷ lit "bin" ∷ lit "etc" ∷ []);
  loop_device = λ _. lit "/dev/loop0";
  mtd_devices = λ _. some ((3, some (lit "block2mtd: /dev/loop0")) ∷ []);
  errno = λ _. 0;
  first_line = λ _ _. [];
  garbage = 0;
}
