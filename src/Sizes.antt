-- ===== src/Sizes.antt =====
-- ofgwrite.c: `check_device_size`. `size_of` is what `open` and the BLKGETSIZE64 request give for a
-- device, `none` where either fails.
use ofgwrite.Base.{
  ℕ, Bool, true, false, ◌&&◌, not, Option, none, some, [], ◌≡◌, ◌≢◌, ◌≤◌, arith, leb,
}
use ofgwrite.Base.{if◌then◌else◌, refl}
use ofgwrite.Base.Text.{Bytes, lit, is_empty, str_eq, str_eq_iff}
use ofgwrite.State.{Images, Devices, Boot, FlashMode}

abbrev pub is_tarbz2 : FlashMode → Bool
is_tarbz2 FlashMode.tarbz2 = true
is_tarbz2 _ = false

-- The file is not bigger than the device.
abbrev pub fits : Option ℕ → ℕ → Bool
fits none file_size = false
fits (some devsize) file_size = leb file_size devsize

abbrev pub wants_kernel_size : Images → Boot → Devices → Bool
wants_kernel_size i b d =
    d.found_kernel_device
    && (not (is_empty i.kernel_filename)
        && (is_tarbz2 d.kernel_flash_mode && not (str_eq b.kexec_mode (lit "1"))))

abbrev pub wants_rootfs_size : Images → Devices → Bool
wants_rootfs_size i d =
    d.found_rootfs_device && (not (is_empty i.rootfs_filename) && is_tarbz2 d.rootfs_flash_mode)

unfoldable pub check_device_size : (Bytes → Option ℕ) → Images → Boot → Devices → Bool
check_device_size size_of i b d =
    if wants_kernel_size i b d && not (fits (size_of d.kernel_device) i.kernel_file_size)
    then false
    else if wants_rootfs_size i d && not (fits (size_of d.rootfs_device) i.rootfs_file_size)
    then false
    else true

fits-size : (size : Option ℕ) (n : ℕ) → fits size n ≡ true → (m : ℕ) × (size ≡ some m) × (n ≤ m)
fits-size none n h = let e : ◌≡◌ {A = Bool} false true = h in absurd (ground arith)
fits-size (some m) n h = (m, refl, ground arith)

module _ (size_of : Bytes → Option ℕ) (i : Images) (b : Boot) (d : Devices) where
  -- If the check succeeds, a kernel device was found, a kernel file is named, the flash mode is
  -- `TARBZ2` and the kexec mode is not "1", then the kernel file is at most as big as the device, whose
  -- size is known.
  pub check_device_size-kernel :
      check_device_size size_of i b d ≡ true
      → d.found_kernel_device ≡ true
      → i.kernel_filename ≢ []
      → d.kernel_flash_mode ≡ FlashMode.tarbz2
      → b.kexec_mode ≢ lit "1"
      → (size : ℕ) × (size_of d.kernel_device ≡ some size) × (i.kernel_file_size ≤ size)
  unfolding check_device_size
  check_device_size-kernel h found file mode kexec =
      fits-size (size_of d.kernel_device) i.kernel_file_size
        (ground (arith, str_eq_iff b.kexec_mode (lit "1")))

  -- If the check succeeds, a rootfs device was found, a rootfs file is named and the flash mode is
  -- `TARBZ2`, then the rootfs file is at most as big as the device, whose size is known.
  pub check_device_size-rootfs :
      check_device_size size_of i b d ≡ true
      → d.found_rootfs_device ≡ true
      → i.rootfs_filename ≢ []
      → d.rootfs_flash_mode ≡ FlashMode.tarbz2
      → (size : ℕ) × (size_of d.rootfs_device ≡ some size) × (i.rootfs_file_size ≤ size)
  unfolding check_device_size
  check_device_size-rootfs h found file mode =
      fits-size (size_of d.rootfs_device) i.rootfs_file_size (ground arith)
