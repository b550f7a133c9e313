-- ===== src/Tests/Input.antt =====
-- The command line, the arguments, the directory of the images and /proc/mtd at concrete inputs.
use ofgwrite.Base.{Bool, true, false, some, List, [], ◌∷◌, ◌≡◌, refl, length}
use ofgwrite.Base.Text.{Bytes, lit, contains, str_eq, skip_space, word}
use ofgwrite.State.{Options, Devices, Images}
use ofgwrite.Args.{Opt, read_args}
use ofgwrite.Args.Flags.{read_args-flags}
use ofgwrite.ImageFiles.{
  find_image_files, is_kernel_name, is_rootfs_name, is_nfi_name, is_tar_xz_name,
}
use ofgwrite.ImageFiles.Last.{find_image_files-last_path, last_path}
use ofgwrite.Base.Text.{str_eq, skip_space, word}
use ofgwrite.ProcMtd.{Fields}
use ofgwrite.Tests.Samples.{options, devices, images}

abbrev accept : Bytes → Images → Images × Bool
accept directory i = (i, true)

read_args-flags_example :
    let o =
      (read_args accept
        (Opt.no_write ∷ Opt.kernel (some (lit "mtd1")) ∷ [])
        (lit "/tmp/image" ∷ [])
        images).0 in
    (o.no_write ≡ true) × (o.flash_kernel ≡ true) × (o.flash_rootfs ≡ false) × (o.show_help ≡ false)
read_args-flags_example =
    read_args-flags accept (Opt.no_write ∷ Opt.kernel (some (lit "mtd1")) ∷ [])
      (lit "/tmp/image" ∷ []) images (unfold read_args in refl)

abbrev two_kernels : List Bytes
two_kernels = lit "." ∷ lit "kernel.bin" ∷ lit "my.tar.xz" ∷ lit "kernel2.bin" ∷ []

find_image_files-last_path_example :
    let j = (find_image_files length (some (lit "/tmp/")) (some two_kernels) images).0 in
    (j.kernel_filename ≡ lit "/tmp/kernel2.bin")
    × (j.rootfs_filename ≡ lit "/tmp/my.tar.xz")
    × (j.nfi_filename ≡ [])
unfolding last_path lit is_kernel_name is_rootfs_name is_tar_xz_name is_nfi_name contains str_eq
find_image_files-last_path_example =
    find_image_files-last_path length (lit "/tmp/") two_kernels images

abbrev garbage : Fields
garbage = record { dev = []; size = []; esize = []; name = [] }

abbrev header : Bytes
header = lit "dev:    size   erasesize  name"

abbrev mtd_table : List Bytes
mtd_table =
    lit "mtd0: 00800000 00020000 \"boot\""
    ∷ lit "mtd1: 00400000 00020000 \"kernel\""
    ∷ lit "mtd2: 3b800000 00020000 \"rootfs\""
    ∷ []

-- The user names the kernel's device.
abbrev named : Options
named = record options { user_kernel = true; kernel_device_arg = lit "mtd1" }

abbrev found_devices : Devices
found_devices = record devices { found_kernel_device = true; found_rootfs_device = true }
