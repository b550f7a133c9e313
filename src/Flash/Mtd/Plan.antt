-- ===== src/Flash/Mtd/Plan.antt =====
-- The MTD functions carry out a plan: the tools to run, in order, until one of them fails.
use ofgwrite.Base.{Bool, true, false, List, [], ◌∷◌, ◌≡◌, Option, none, some, arith}
use ofgwrite.Base.{if◌then◌else◌, inl, inr, Bool-cases}
use ofgwrite.Base.Calls.{M, Env, Call, Tool, call, pure, ◌>>=◌, tell, ◌>>◌, Trace}
use ofgwrite.Base.Int.{ℤ, is_nonzero, int_eq_cases, minus_one}
use ofgwrite.Base.Text.{Bytes, lit}
use ofgwrite.State.{RootfsType}
use ofgwrite.Flash.Mtd.{is_nand, is_nor, flash_nand_kernel, flash_ubi_jffs2_kernel}
use ofgwrite.Flash.Mtd.{flash_ubi_jffs2_rootfs}
use ofgwrite.Flash.Tools.{flashcp, ubi_write}

pub data Chip : Type 0 where
  nand nor other : Chip

abbrev pub chip : ℤ → Chip
chip type = if is_nand type then Chip.nand else if is_nor type then Chip.nor else Chip.other

pub data Item : Type 0 where
  show_step : Bytes → Item
  must_run : Tool → List Bytes → Item

-- Which tools write a rootfs of which type on which chip.
abbrev pub rootfs_plan : Chip → RootfsType → Bytes → Bytes → Option (List Item)
rootfs_plan Chip.nand RootfsType.ubifs device file =
    some (Item.must_run Tool.ubiformat (device ∷ lit "-f" ∷ file ∷ lit "-D" ∷ []) ∷ [])
rootfs_plan Chip.nand RootfsType.jffs2 device file = some (
    Item.must_run Tool.flash_erase (lit "-j" ∷ device ∷ lit "0" ∷ lit "0" ∷ [])
    ∷ Item.must_run Tool.nandwrite (lit "-pm" ∷ device ∷ file ∷ [])
    ∷ [])
rootfs_plan Chip.nor RootfsType.jffs2 device file =
    some (Item.must_run Tool.flashcp (lit "-vr" ∷ file ∷ device ∷ []) ∷ [])
rootfs_plan _ _ device file = none

abbrev pub kernel_plan : Chip → Bytes → Bytes → Option (List Item)
kernel_plan Chip.nand device file = some (
    Item.show_step (lit "Erasing kernel")
    ∷ Item.must_run Tool.flash_erase (device ∷ lit "0" ∷ lit "0" ∷ [])
    ∷ Item.show_step (lit "Writing kernel")
    ∷ Item.must_run Tool.nandwrite (lit "-pm" ∷ device ∷ file ∷ [])
    ∷ [])
kernel_plan Chip.nor device file =
    some (Item.must_run Tool.flashcp (lit "-v" ∷ file ∷ device ∷ []) ∷ [])
kernel_plan Chip.other device file = none

module _ (env : Env) where
  -- True if every tool of the plan ran and returned 0; nothing runs behind a tool that did not.
  abbrev pub carry_out : List Item → M Bool
  carry_out [] = pure true
  carry_out (Item.show_step text ∷ items) = do tell (Call.set_step text); carry_out items
  carry_out (Item.must_run tool argv ∷ items) = do
    ret ← call env (Call.run tool argv)
    if is_nonzero ret then pure false else carry_out items

  abbrev pub carry_out_if : Option (List Item) → M Bool
  carry_out_if none = pure false
  carry_out_if (some items) = carry_out items

  flash_nand_kernel-carry_out :
      (device file : Bytes) (t : Trace)
      → flash_nand_kernel env device file false t
        ≡ carry_out_if (kernel_plan Chip.nand device file) t
  unfolding flash_nand_kernel
  flash_nand_kernel-carry_out device file t = ground arith

  flashcp-carry_out :
      (device file : Bytes) (t : Trace)
      → flashcp env device file false false t ≡ carry_out_if (kernel_plan Chip.nor device file) t
  unfolding flashcp
  flashcp-carry_out device file t = ground arith

  -- Without `no_write` the kernel is written to an MTD device by the plan for its chip, if libmtd
  -- knows the device; there is a plan for NAND and for NOR flash, and else nothing is written.
  pub flash_ubi_jffs2_kernel-carry_out :
      (device file : Bytes) (t : Trace)
      → flash_ubi_jffs2_kernel env device file false t
        ≡ carry_out_if
            (kernel_plan (chip (env.answer t (Call.flash_type device))) device file)
            (Call.flash_type device ∷ t)
  unfolding flash_ubi_jffs2_kernel
  flash_ubi_jffs2_kernel-carry_out device file t =
      let type = env.answer t (Call.flash_type device) in
      let t' = Call.flash_type device ∷ t in
      elim (int_eq_cases type minus_one) [
        | inl failed ↦ rw failed
        | inr known ↦ elim (Bool-cases (is_nand type)) [
          | inl on_nand ↦ rw (known, on_nand) (flash_nand_kernel-carry_out device file t')
          | inr off_nand ↦ elim (Bool-cases (is_nor type)) [
            | inl on_nor ↦ rw (known, off_nand, on_nor) (flashcp-carry_out device file t')
            | inr off_nor ↦ rw (known, off_nand, off_nor)
          ]
        ]
      ]

  -- Without `no_write` the rootfs is written to an MTD device by the plan for its chip and the type of
  -- the rootfs, if libmtd knows the device: there is a plan for UBIFS on NAND, JFFS2 on NAND and
  -- JFFS2 on NOR flash, and else nothing is written.
  pub flash_ubi_jffs2_rootfs-carry_out :
      (device file : Bytes) (rootfs_type : RootfsType) (t : Trace)
      → flash_ubi_jffs2_rootfs env device file rootfs_type false t
        ≡ carry_out_if
            (rootfs_plan (chip (env.answer t (Call.flash_type device))) rootfs_type device file)
            (Call.flash_type device ∷ t)
  unfolding flash_ubi_jffs2_rootfs ubi_write flashcp
  flash_ubi_jffs2_rootfs-carry_out device file rootfs_type t = ground arith
