-- ===== src/State.antt =====
-- The enumerations of ofgwrite.h and the globals of ofgwrite.c, grouped by who writes them. An
-- `int` that is only a flag is a Bool, `multiboot_partition` and `currentslotcode` are ℤ.
use ofgwrite.Base.{ℕ, Bool}
use ofgwrite.Base.Int.{ℤ}
use ofgwrite.Base.Text.{Bytes}

pub data RootfsType : Type 0 where
  unknown ubifs jffs2 ext4 ext3 : RootfsType

pub data FlashMode : Type 0 where
  flash_mode_unknown mtd tarbz2 tarbz2_mtd ubi_loop_subdir tarxz_ubi : FlashMode

pub data ImageType : Type 0 where
  image_unknown ubi tar_based tar_ubi : ImageType

-- Written by `read_args`.
pub record Options : Type 0 where
  pub kernel_device_arg : Bytes
  pub rootfs_device_arg : Bytes
  pub slotname : Bytes
  pub user_kernel : Bool
  pub user_rootfs : Bool
  pub user_slotname : Bool
  pub user_currentslotcode : Bool
  pub currentslotcode : ℤ
  pub multiboot_partition : ℤ
  pub rootsubdir_check : Bool
  pub android : Bool
  pub flash_kernel : Bool
  pub flash_rootfs : Bool
  pub no_write : Bool
  pub force_e2_stop : Bool
  pub quiet : Bool
  pub show_help : Bool

-- Written by `find_image_files`. The sizes and device numbers are those of `kernel_file_stat` and
-- `rootfs_file_stat`.
pub record Images : Type 0 where
  pub kernel_filename : Bytes
  pub rootfs_filename : Bytes
  pub nfi_filename : Bytes
  pub nfi_path : Bytes
  pub kernel_file_size : ℕ
  pub rootfs_file_size : ℕ
  pub image_type : ImageType

-- Where to flash, and how.
pub record Devices : Type 0 where
  pub kernel_device : Bytes
  pub rootfs_device : Bytes
  pub rootfs_sub_dir : Bytes
  pub found_kernel_device : Bool
  pub found_rootfs_device : Bool
  pub kernel_flash_mode : FlashMode
  pub rootfs_flash_mode : FlashMode

-- What `readProcCmdline` learns of the running image.
pub record Boot : Type 0 where
  pub kexec_mode : Bytes
  pub current_rootfs_device : Bytes
  pub current_kernel_device : Bytes
  pub current_rootfs_sub_dir : Bytes
  pub chkroot_mode : Bool
