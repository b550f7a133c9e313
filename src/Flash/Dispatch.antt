-- ===== src/Flash/Dispatch.antt =====
-- ofgwrite.c: `kernel_flash` and `rootfs_flash`, which choose the function for a flash mode. `none`
-- is the end of a function without a return statement.
pub mod Dry
use ofgwrite.Base.{ℕ, Bool, true, false, Option, none, some}
use ofgwrite.Base.Calls.{M, Env, pure, ◌>>=◌}
use ofgwrite.Base.Text.{Bytes}
use ofgwrite.State.{Options, Images, Devices, Boot, FlashMode, RootfsType}
use ofgwrite.Flash.Mtd.{flash_ubi_jffs2_kernel, flash_ubi_jffs2_rootfs}
use ofgwrite.Flash.Ext4.{Stream, flash_ext4_kernel, flash_unpack_rootfs}
use ofgwrite.Flash.Loop.{flash_ubi_loop_subdir}

abbrev pub returns : M Bool → M (Option Bool)
returns m = do result ← m; pure (some result)

-- A rootfs in MTD that runs from ext4 is expected to be UBIFS.
abbrev pub mtd_rootfs_type : RootfsType → RootfsType
mtd_rootfs_type RootfsType.ext4 = RootfsType.ubifs
mtd_rootfs_type type = type

module _ (env : Env) where
  -- `kernel_file` is the content of the kernel file as it can be read.
  unfoldable pub kernel_flash :
      FlashMode → Bytes → Bytes → Option Stream → ℕ → Bool → M (Option Bool)
  kernel_flash FlashMode.tarbz2 device filename kernel_file size no_write =
      returns (flash_ext4_kernel env device kernel_file size no_write)
  kernel_flash FlashMode.mtd device filename kernel_file size no_write =
      returns (flash_ubi_jffs2_kernel env device filename no_write)
  kernel_flash _ device filename kernel_file size no_write = pure none

  -- The switch of `rootfs_flash` on the mode.
  unfoldable pub rootfs_flash_by :
      FlashMode → Options → Boot → Devices → Images → RootfsType → M (Option Bool)
  rootfs_flash_by FlashMode.tarbz2 o b d i rootfs_type =
      returns (flash_unpack_rootfs env o b d i.rootfs_filename)
  rootfs_flash_by FlashMode.tarbz2_mtd o b d i rootfs_type =
      returns (flash_unpack_rootfs env o b d i.rootfs_filename)
  rootfs_flash_by FlashMode.tarxz_ubi o b d i rootfs_type =
      returns (flash_unpack_rootfs env o b d i.rootfs_filename)
  rootfs_flash_by FlashMode.mtd o b d i rootfs_type = returns (
      flash_ubi_jffs2_rootfs env d.rootfs_device i.rootfs_filename (mtd_rootfs_type rootfs_type)
        o.no_write)
  rootfs_flash_by FlashMode.ubi_loop_subdir o b d i rootfs_type =
      returns (flash_ubi_loop_subdir env d i i.rootfs_filename o.no_write)
  rootfs_flash_by FlashMode.flash_mode_unknown o b d i rootfs_type = pure none

  unfoldable pub rootfs_flash : Options → Boot → Devices → Images → RootfsType → M (Option Bool)
  rootfs_flash o b d i rootfs_type = rootfs_flash_by d.rootfs_flash_mode o b d i rootfs_type
