-- ===== src/Protocol/Flash.antt =====
-- The flashing functions leave the framebuffer open.
use ofgwrite.Base.{ℕ, Bool, true, false, Option, none, some, if◌then◌else◌, length, ltb, ◌+◌}
use ofgwrite.Base.Calls.{Env}
use ofgwrite.Base.Text.{Bytes, lit}
use ofgwrite.State.{Options, Images, Devices, Boot, RootfsType}
use ofgwrite.Flash.Mtd.{
  flash_ubi_jffs2_kernel, flash_nand_kernel, flash_ubi_jffs2_rootfs, flash_jffs2_nand,
}
use ofgwrite.Flash.Tools.{
  flash_erase, flash_write, flashcp, ubi_write, flash_erase_jffs2, rm_rootfs, untar_rootfs,
}
use ofgwrite.Flash.Ext4.{
  Stream, end_of_file, read_error, block, copy_kernel, flash_ext4_kernel, show_progress, percent,
  write_unless, flash_unpack_rootfs,
}
use ofgwrite.Protocol.{is_quiet, Keeps, keeps}
use ofgwrite.Flash.Dispatch.{kernel_flash, rootfs_flash, rootfs_flash_by}
use ofgwrite.State.{FlashMode}
use ofgwrite.Protocol.Loop.{flash_ubi_loop_subdir-Keeps}

module _ (env : Env) where
  flash_ubi_jffs2_kernel-Keeps :
      (device file : Bytes) (no_write : Bool)
      → Keeps (flash_ubi_jffs2_kernel env device file no_write)
  unfolding flash_ubi_jffs2_kernel flash_nand_kernel flash_erase flash_write flashcp is_quiet lit
  flash_ubi_jffs2_kernel-Keeps device file no_write = search keeps depth 12

  flash_ubi_jffs2_rootfs-Keeps :
      (device file : Bytes) (type : RootfsType) (no_write : Bool)
      → Keeps (flash_ubi_jffs2_rootfs env device file type no_write)
  unfolding flash_ubi_jffs2_rootfs flash_jffs2_nand flash_erase_jffs2 ubi_write flash_write flashcp
      is_quiet lit
  flash_ubi_jffs2_rootfs-Keeps device file type no_write = search keeps depth 12

  show_progress-Keeps : (current new : ℕ) → Keeps (show_progress current new)
  unfolding is_quiet
  show_progress-Keeps current new = search keeps

  write_unless-Keeps :
      (device : Bytes) (size : ℕ) (no_write : Bool) (bytes : Bytes)
      → Keeps (write_unless env device size no_write bytes)
  unfolding is_quiet
  write_unless-Keeps device size true bytes = search keeps
  write_unless-Keeps device size false bytes = search keeps

  copy_kernel-Keeps :
      (device : Bytes) (size read_bytes current : ℕ) (no_write : Bool) (s : Stream)
      → Keeps (copy_kernel env device size no_write read_bytes current s)
  unfolding copy_kernel
  copy_kernel-Keeps device size read_bytes current no_write end_of_file = search keeps
  copy_kernel-Keeps device size read_bytes current no_write read_error = search keeps
  copy_kernel-Keeps device size read_bytes current no_write (block bytes rest) =
      let total = read_bytes + length bytes in
      let new = percent env device size total in
      let next =
        copy_kernel-Keeps device size total (if ltb current new then new else current) no_write
          rest in
      search (keeps, next, show_progress-Keeps, write_unless-Keeps)

  flash_ext4_kernel-Keeps :
      (device : Bytes) (file : Option Stream) (size : ℕ) (no_write : Bool)
      → Keeps (flash_ext4_kernel env device file size no_write)
  unfolding flash_ext4_kernel is_quiet lit
  flash_ext4_kernel-Keeps device none size no_write = search keeps
  flash_ext4_kernel-Keeps device (some s) size no_write = search (keeps, copy_kernel-Keeps)

  flash_unpack_rootfs-Keeps :
      (o : Options) (b : Boot) (d : Devices) (file : Bytes)
      → Keeps (flash_unpack_rootfs env o b d file)
  unfolding flash_unpack_rootfs rm_rootfs untar_rootfs is_quiet lit
  flash_unpack_rootfs-Keeps o b d file = search keeps depth 16

  pub kernel_flash-Keeps :
      (mode : FlashMode) (device filename : Bytes) (file : Option Stream) (size : ℕ)
      (no_write : Bool)
      → Keeps (kernel_flash env mode device filename file size no_write)
  unfolding kernel_flash
  kernel_flash-Keeps FlashMode.tarbz2 device filename file size no_write =
      search (keeps, flash_ext4_kernel-Keeps)
  kernel_flash-Keeps FlashMode.mtd device filename file size no_write =
      search (keeps, flash_ubi_jffs2_kernel-Keeps)
  kernel_flash-Keeps _ device filename file size no_write = search keeps

  rootfs_flash_by-Keeps :
      (mode : FlashMode) (o : Options) (b : Boot) (d : Devices) (i : Images) (type : RootfsType)
      → Keeps (rootfs_flash_by env mode o b d i type)
  unfolding rootfs_flash_by
  rootfs_flash_by-Keeps FlashMode.tarbz2 o b d i type = search (keeps, flash_unpack_rootfs-Keeps)
  rootfs_flash_by-Keeps FlashMode.tarbz2_mtd o b d i type =
      search (keeps, flash_unpack_rootfs-Keeps)
  rootfs_flash_by-Keeps FlashMode.tarxz_ubi o b d i type = search (keeps, flash_unpack_rootfs-Keeps)
  rootfs_flash_by-Keeps FlashMode.mtd o b d i type = search (keeps, flash_ubi_jffs2_rootfs-Keeps)
  rootfs_flash_by-Keeps FlashMode.ubi_loop_subdir o b d i type =
      search (keeps, flash_ubi_loop_subdir-Keeps env)
  rootfs_flash_by-Keeps FlashMode.flash_mode_unknown o b d i type = search keeps

  pub rootfs_flash-Keeps :
      (o : Options) (b : Boot) (d : Devices) (i : Images) (type : RootfsType)
      → Keeps (rootfs_flash env o b d i type)
  unfolding rootfs_flash
  rootfs_flash-Keeps o b d i type = search (keeps, rootfs_flash_by-Keeps)
