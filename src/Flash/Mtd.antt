-- ===== src/Flash/Mtd.antt =====
-- flash_ubi_jffs2.c: `flash_ubi_jffs2_kernel` and `flash_ubi_jffs2_rootfs`. `getFlashType` only asks
-- libmtd and is the call `flash_type`, which answers -1 on an error.
pub mod Plan
use ofgwrite.Base.{Bool, true, false, ◌&&◌, ◌||◌, not, if◌then◌else◌}
use ofgwrite.Base.Calls.{M, Env, Call, call, tell, pure, ◌>>=◌, ◌>>◌}
use ofgwrite.Base.Int.{ℤ, pos, minus_one, int_eq}
use ofgwrite.Base.Text.{Bytes, lit}
use ofgwrite.State.{RootfsType}
use ofgwrite.Flash.Tools.{flash_erase, flash_erase_jffs2, flash_write, ubi_write, flashcp}

-- The flash types of mtd/mtd-abi.h.
abbrev pub mtd_norflash : ℤ
mtd_norflash = pos 3

abbrev pub mtd_nandflash : ℤ
mtd_nandflash = pos 4

abbrev pub mtd_mlcnandflash : ℤ
mtd_mlcnandflash = pos 8

abbrev pub is_nand : ℤ → Bool
is_nand type = int_eq type mtd_nandflash || int_eq type mtd_mlcnandflash

abbrev pub is_nor : ℤ → Bool
is_nor type = int_eq type mtd_norflash

abbrev pub is_ubifs : RootfsType → Bool
is_ubifs RootfsType.ubifs = true
is_ubifs _ = false

abbrev pub is_jffs2 : RootfsType → Bool
is_jffs2 RootfsType.jffs2 = true
is_jffs2 _ = false

module _ (env : Env) where
  unfoldable pub flash_nand_kernel : Bytes → Bytes → Bool → M Bool
  unfolding flash_erase flash_write
  flash_nand_kernel device filename no_write = do
    tell (Call.set_step (lit "Erasing kernel"))
    erased ← flash_erase env device no_write
    if not erased then pure false else do
      tell (Call.set_step (lit "Writing kernel"))
      flash_write env device filename no_write

  unfoldable pub flash_ubi_jffs2_kernel : Bytes → Bytes → Bool → M Bool
  flash_ubi_jffs2_kernel device filename no_write = do
    type ← call env (Call.flash_type device)
    if int_eq type minus_one
        then pure false
        else if is_nand type
        then flash_nand_kernel device filename no_write
        else if is_nor type
        then flashcp env device filename false no_write
        else pure false

  unfoldable pub flash_jffs2_nand : Bytes → Bytes → Bool → M Bool
  unfolding flash_erase_jffs2 flash_write
  flash_jffs2_nand device filename no_write = do
    erased ← flash_erase_jffs2 env device no_write
    if not erased then pure false else flash_write env device filename no_write

  unfoldable pub flash_ubi_jffs2_rootfs : Bytes → Bytes → RootfsType → Bool → M Bool
  unfolding flash_jffs2_nand
  flash_ubi_jffs2_rootfs device filename rootfs_type no_write = do
    type ← call env (Call.flash_type device)
    if int_eq type minus_one
        then pure false
        else if is_nand type && is_ubifs rootfs_type
        then ubi_write env device filename no_write
        else if is_nand type && is_jffs2 rootfs_type
        then flash_jffs2_nand device filename no_write
        else if is_nor type && is_jffs2 rootfs_type
        then flashcp env device filename true no_write
        else pure false
