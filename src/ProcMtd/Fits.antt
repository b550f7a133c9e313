-- ===== src/ProcMtd/Fits.antt =====
-- The devices that `read_mtd_file` finds are large enough for the images.
use ofgwrite.Base.{Bool, true, false, ◌&&◌, List, [], ◌∷◌, ◌≡◌, refl, arith, any, ap, ◌∙◌}
use ofgwrite.Base.Text.{Bytes, str_eq}
use ofgwrite.State.{Options, Images, Devices}
use ofgwrite.ProcMtd.{Fields, kernel_fits, rootfs_fits, dev_path, mtd_line, mtd_lines}
use ofgwrite.ProcMtd.{auto_kernel_line, auto_rootfs_line}

-- Some line names the device and gives it a size that fits.
abbrev pub has_kernel_line : Images → List Fields → Bytes → Bool
has_kernel_line i fs path = any (λ f. str_eq path (dev_path f.dev) && kernel_fits i f) fs

abbrev pub has_rootfs_line : Images → List Fields → Bytes → Bool
has_rootfs_line i fs path = any (λ f. str_eq path (dev_path f.dev) && rootfs_fits i f) fs

-- `k` and `r` hold of the devices that are found.
record Good (o : Options) (k r : Bytes → Bool) (d : Devices) : Type 0 where
  kernel : d.found_kernel_device ≡ true → k d.kernel_device ≡ true
  rootfs : d.found_rootfs_device ≡ true → r d.rootfs_device ≡ true
  user_kernel :
      d.found_kernel_device ≡ true
      → o.user_kernel ≡ true
      → d.kernel_device ≡ dev_path o.kernel_device_arg
  user_rootfs :
      d.found_rootfs_device ≡ true
      → o.user_rootfs ≡ true
      → d.rootfs_device ≡ dev_path o.rootfs_device_arg

abbrev IsSource : Images → (Bytes → Bool) → (Bytes → Bool) → Fields → Type 0
IsSource i k r f =
    (kernel_fits i f ≡ true → k (dev_path f.dev) ≡ true)
    × (rootfs_fits i f ≡ true → r (dev_path f.dev) ≡ true)

mtd_line_found :
    (o : Options) (i : Images) (f : Fields) (d : Devices) (wrong : Bool)
    → o.user_kernel ≡ false
    → o.user_rootfs ≡ false
    → d.found_kernel_device ≡ true
    → d.found_rootfs_device ≡ true
    → mtd_line o i f (d, wrong) ≡ (d, wrong)
unfolding mtd_line auto_kernel_line auto_rootfs_line
mtd_line_found o i f d wrong uk ur k r = ground arith

-- The first line that qualifies is taken: with no device named by the user, once both devices are
-- found no further line changes anything.
pub mtd_lines_first :
    (o : Options) (i : Images) (fs : List Fields) (d : Devices) (wrong : Bool)
    → o.user_kernel ≡ false
    → o.user_rootfs ≡ false
    → d.found_kernel_device ≡ true
    → d.found_rootfs_device ≡ true
    → mtd_lines o i fs (d, wrong) ≡ (d, wrong)
unfolding mtd_lines
mtd_lines_first o i [] d wrong uk ur k r = refl
mtd_lines_first o i (f ∷ fs) d wrong uk ur k r =
    ap (mtd_lines o i fs) (mtd_line_found o i f d wrong uk ur k r)
    ∙ mtd_lines_first o i fs d wrong uk ur k r
