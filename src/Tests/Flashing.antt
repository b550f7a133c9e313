-- ===== src/Tests/Flashing.antt =====
-- The flashing functions and the wait for Enigma2 at concrete inputs.
use ofgwrite.Base.{List, ℕ}
use ofgwrite.Base.{true, false, some, [], ◌∷◌, ◌++◌, ◌≡◌, ◌⊎◌, refl, arith, length, ◌*◌, ◌+◌, ◌≤◌}
use ofgwrite.Base.Calls.{Call}
use ofgwrite.Base.Text.{Bytes, lit}
use ofgwrite.State.{RootfsType}
use ofgwrite.Flash.Written.{written}
use ofgwrite.Flash.Ext4.{copy_kernel}
use ofgwrite.Flash.Ext4.{Stream, end_of_file, block, flash_ext4_kernel}
use ofgwrite.Flash.Ext4.Copy.{content, is_whole, flash_ext4_kernel-written, flash_ext4_kernel_dry}
use ofgwrite.Flash.Nfi.{copy_rootfs}
use ofgwrite.Flash.Nfi.Pages.{Page, raw, stripped, copy_rootfs-written}
use ofgwrite.Flash.Mtd.{flash_ubi_jffs2_kernel, flash_ubi_jffs2_rootfs}
use ofgwrite.Flash.Mtd.Plan.{Chip, carry_out_if, kernel_plan, rootfs_plan}
use ofgwrite.Flash.Mtd.Plan.{flash_ubi_jffs2_kernel-carry_out, flash_ubi_jffs2_rootfs-carry_out}
use ofgwrite.Flash.Vid.{find_vid_in, find_vid-misses, Miss, vid_magic, before_vid}
use ofgwrite.Flash.Loop.{mount_ubi_image, flash_ubi_loop_subdir}
use ofgwrite.Flash.Loop.Resources.{Works, held, nothing_held}
use ofgwrite.Flash.Loop.Setup.{Settled}
use ofgwrite.Flash.Loop.Clean.{mount_ubi_image-Settled, held-flash_ubi_loop_subdir}
use ofgwrite.EnigmaStop.{check_e2_stopped, check_e2_stopped-slept, slept, IsGone, IsRunning}
use ofgwrite.Tests.Samples.{devices, images, env}

abbrev kernel : Stream
kernel = block (1 ∷ 2 ∷ []) (block (3 ∷ []) end_of_file)

flash_ext4_kernel-written_example :
    (is_whole kernel ≡ true)
    × (written
          (lit "/dev/sda1")
          (flash_ext4_kernel env (lit "/dev/sda1") (some kernel) 3 false []).1
        ≡ 1 ∷ 2 ∷ 3 ∷ [])
unfolding written content
flash_ext4_kernel-written_example =
    flash_ext4_kernel-written env (lit "/dev/sda1") 3 kernel []
      (unfold flash_ext4_kernel copy_kernel in refl)

flash_ext4_kernel_dry_example :
    written (lit "/dev/sda1") (flash_ext4_kernel env (lit "/dev/sda1") (some kernel) 3 true []).1
    ≡ written (lit "/dev/sda1") []
flash_ext4_kernel_dry_example = flash_ext4_kernel_dry env (lit "/dev/sda1") 3 kernel []

flash_ubi_jffs2_kernel-carry_out_example :
    flash_ubi_jffs2_kernel env (lit "/dev/mtd1") (lit "kernel.bin") false []
    ≡ carry_out_if env
        (kernel_plan Chip.nand (lit "/dev/mtd1") (lit "kernel.bin"))
        (Call.flash_type (lit "/dev/mtd1") ∷ [])
flash_ubi_jffs2_kernel-carry_out_example =
    flash_ubi_jffs2_kernel-carry_out env (lit "/dev/mtd1") (lit "kernel.bin") []

flash_ubi_jffs2_rootfs-carry_out_example :
    flash_ubi_jffs2_rootfs env (lit "/dev/mtd2") (lit "rootfs.bin") RootfsType.ubifs false []
    ≡ carry_out_if env
        (rootfs_plan Chip.nand RootfsType.ubifs (lit "/dev/mtd2") (lit "rootfs.bin"))
        (Call.flash_type (lit "/dev/mtd2") ∷ [])
flash_ubi_jffs2_rootfs-carry_out_example =
    flash_ubi_jffs2_rootfs-carry_out env (lit "/dev/mtd2") (lit "rootfs.bin") RootfsType.ubifs []

-- 32 bytes and one spare byte.
abbrev data32 : Bytes
data32 =
    1 ∷ 2 ∷ 3 ∷ 4 ∷ 5 ∷ 6 ∷ 7 ∷ 8 ∷ 9 ∷ 10 ∷ 11 ∷ 12 ∷ 13 ∷ 14 ∷ 15 ∷ 16 ∷ 17 ∷ 18 ∷ 19 ∷ 20 ∷ 21
    ∷ 22 ∷ 23 ∷ 24 ∷ 25 ∷ 26 ∷ 27 ∷ 28 ∷ 29 ∷ 30 ∷ 31 ∷ 32 ∷ []

abbrev pages : List Page
pages = (data32, 255 ∷ []) ∷ (data32, 254 ∷ []) ∷ []

abbrev nfi_out : Bytes
nfi_out = lit "/tmp/ofg_nfi_rootfs.bin"

copy_rootfs-written_example :
    ((copy_rootfs env nfi_out 32 48 (length (raw pages)) (raw pages ++ (0 ∷ [])) []).0 ≡ true)
    × (written nfi_out
          (copy_rootfs env nfi_out 32 48 (length (raw pages)) (raw pages ++ (0 ∷ [])) []).1
        ≡ written nfi_out [] ++ stripped pages)
copy_rootfs-written_example =
    copy_rootfs-written env nfi_out 32 48 pages (0 ∷ []) [] (λ _ _. refl) refl (ground arith)
      ((refl, refl), ((refl, refl), tt)) (ground arith)

-- The erase counter header's "UBI#" and two bytes.
abbrev ec_header : Miss
ec_header = record { gap = []; x = b'B'; y = b'I'; z = b'#' }

-- The header stands at 10, and 7 is returned.
find_vid-misses_example :
    (offset : ℕ) × (find_vid_in
        (some (before_vid (ec_header ∷ ec_header ∷ []) (0 ∷ 1 ∷ [] ++ (vid_magic ++ []))))
      ≡ some offset)
    × (offset + 3 * 2 ≡ 8 + 2 + 3)
find_vid-misses_example =
    find_vid-misses (ec_header ∷ ec_header ∷ []) (0 ∷ 1 ∷ []) [] ((refl, refl), ((refl, refl), tt))
      refl

env-Works : Works env
env-Works = record { opens = λ _. refl; remembers = λ _ _ _. refl }

mount_ubi_image-Settled_example :
    Settled env
      (lit "/ubi_mount/")
      (mount_ubi_image env images (lit "/tmp/rootfs.ubi") (lit "/ubi_mount/") [])
mount_ubi_image-Settled_example =
    mount_ubi_image-Settled env env-Works images (lit "/tmp/rootfs.ubi") (lit "/ubi_mount/") []
      (unfold held in refl)

held-flash_ubi_loop_subdir_example :
    held env (flash_ubi_loop_subdir env devices images (lit "/tmp/rootfs.ubi") false []).1
    ≡ nothing_held
held-flash_ubi_loop_subdir_example =
    held-flash_ubi_loop_subdir env env-Works devices images (lit "/tmp/rootfs.ubi") []
      (unfold held in refl)

check_e2_stopped-slept_example :
    let r = check_e2_stopped env [] in
    (r.0 ≡ true) × IsGone env r.1 × (slept r.1 ≤ slept [] + 68)
    ⊎ (r.0 ≡ false) × IsRunning env r.1 × (slept r.1 ≡ slept [] + 70)
check_e2_stopped-slept_example = check_e2_stopped-slept env []
