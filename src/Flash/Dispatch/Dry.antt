-- ===== src/Flash/Dispatch/Dry.antt =====
-- Under `no_write` nothing is flashed, and a selected device is always flashed by some function.
use ofgwrite.Base.{ℕ, Bool, true, false, Option, none, some, ◌≡◌, ◌≢◌, refl, arith, All}
use ofgwrite.Base.{Bool-cases, inl, inr, if◌then◌else◌, ltb, ◌+◌, length}
use ofgwrite.Base.Calls.{Env, Call, Trace, Emits}
use ofgwrite.Base.Int.{is_nonzero}
use ofgwrite.Base.Text.{Bytes, str_eq, str_eq_same}
use ofgwrite.State.{Options, Images, Devices, Boot, FlashMode, RootfsType, ImageType}
use ofgwrite.Flash.Mtd.{flash_ubi_jffs2_kernel, flash_ubi_jffs2_rootfs, flash_nand_kernel}
use ofgwrite.Flash.Mtd.{flash_jffs2_nand}
use ofgwrite.Flash.Tools.{flash_erase, flash_write, ubi_write, flashcp, rm_rootfs}
use ofgwrite.Flash.Tools.{untar_rootfs}
use ofgwrite.Flash.Ext4.{Stream, end_of_file, read_error, block, copy_kernel, flash_ext4_kernel}
use ofgwrite.Flash.Ext4.{flash_unpack_rootfs, show_progress, percent}
use ofgwrite.Flash.Loop.{flash_ubi_loop_subdir}
use ofgwrite.Flash.Dispatch.{kernel_flash, rootfs_flash, rootfs_flash_by, mtd_rootfs_type}
use ofgwrite.Select.{Probe, find_kernel_rootfs_device}
use ofgwrite.Select.Modes.{has_modes, find_kernel_rootfs_device-has_modes, is_kernel_mode}

-- The calls that ask, show, synchronise or wait, and the opening of one device, if there is one.
unfoldable pub is_dry : Option Bytes → Call → Bool
is_dry opened (Call.flash_type _) = true
is_dry opened (Call.set_step _) = true
is_dry opened (Call.set_step_progress _) = true
is_dry none (Call.open_to_write path) = false
is_dry (some device) (Call.open_to_write path) = str_eq path device
is_dry opened Call.sync = true
is_dry opened (Call.sleep _) = true
is_dry opened (Call.chdir _) = true
is_dry opened (Call.open_framebuffer _) = true
is_dry opened Call.close_framebuffer = true
is_dry opened (Call.show_main_window _) = true
is_dry opened (Call.set_overall_text _) = true
is_dry opened (Call.set_error_text1 _) = true
is_dry opened (Call.set_error_text2 _) = true
is_dry opened _ = false

abbrev pub IsDry : Option Bytes → Call → Type 0
IsDry opened c = is_dry opened c ≡ true

module _ (env : Env) (opened : Option Bytes) where
  flash_ubi_jffs2_kernel-IsDry :
      (device file : Bytes) → Emits (IsDry opened) (flash_ubi_jffs2_kernel env device file true)
  unfolding flash_ubi_jffs2_kernel flash_nand_kernel flash_erase flash_write flashcp is_dry
  flash_ubi_jffs2_kernel-IsDry device file t h = ground arith

  flash_ubi_jffs2_rootfs-IsDry :
      (device file : Bytes) (type : RootfsType)
      → Emits (IsDry opened) (flash_ubi_jffs2_rootfs env device file type true)
  unfolding flash_ubi_jffs2_rootfs flash_jffs2_nand ubi_write flashcp is_dry
  flash_ubi_jffs2_rootfs-IsDry device file type t h = ground arith

  copy_kernel-IsDry :
      (device : Bytes) (size read_bytes current : ℕ) (s : Stream)
      → Emits (IsDry opened) (copy_kernel env device size true read_bytes current s)
  unfolding copy_kernel is_dry
  copy_kernel-IsDry device size read_bytes current end_of_file t h = h
  copy_kernel-IsDry device size read_bytes current read_error t h = h
  copy_kernel-IsDry device size read_bytes current (block bytes rest) t h =
      let total = read_bytes + length bytes in
      let new = percent env device size total in
      copy_kernel-IsDry device size total (if ltb current new then new else current) rest
        (show_progress current new t).1 (ground arith)

  flash_unpack_rootfs-IsDry :
      (o : Options) (b : Boot) (d : Devices) (file : Bytes)
      → o.no_write ≡ true
      → Emits (IsDry opened) (flash_unpack_rootfs env o b d file)
  unfolding flash_unpack_rootfs rm_rootfs untar_rootfs is_dry
  flash_unpack_rootfs-IsDry o b d file dry t h = ground arith

  flash_ubi_loop_subdir-IsDry :
      (d : Devices) (i : Images) (file : Bytes)
      → Emits (IsDry opened) (flash_ubi_loop_subdir env d i file true)
  unfolding flash_ubi_loop_subdir is_dry
  flash_ubi_loop_subdir-IsDry d i file t h = (refl, (refl, (refl, h)))

  rootfs_flash_by-IsDry :
      (mode : FlashMode) (o : Options) (b : Boot) (d : Devices) (i : Images) (type : RootfsType)
      (t : Trace)
      → o.no_write ≡ true
      → All (IsDry opened) t
      → All (IsDry opened) (rootfs_flash_by env mode o b d i type t).1
  unfolding rootfs_flash_by
  rootfs_flash_by-IsDry FlashMode.tarbz2 o b d i type t dry h =
      flash_unpack_rootfs-IsDry o b d i.rootfs_filename dry t h
  rootfs_flash_by-IsDry FlashMode.tarbz2_mtd o b d i type t dry h =
      flash_unpack_rootfs-IsDry o b d i.rootfs_filename dry t h
  rootfs_flash_by-IsDry FlashMode.tarxz_ubi o b d i type t dry h =
      flash_unpack_rootfs-IsDry o b d i.rootfs_filename dry t h
  rootfs_flash_by-IsDry FlashMode.mtd o b d i type t dry h =
      rw dry
        (flash_ubi_jffs2_rootfs-IsDry d.rootfs_device i.rootfs_filename (mtd_rootfs_type type) t h)
  rootfs_flash_by-IsDry FlashMode.ubi_loop_subdir o b d i type t dry h =
      rw dry (flash_ubi_loop_subdir-IsDry d i i.rootfs_filename t h)
  rootfs_flash_by-IsDry FlashMode.flash_mode_unknown o b d i type t dry h = h

  pub rootfs_flash-opened-IsDry :
      (o : Options) (b : Boot) (d : Devices) (i : Images) (type : RootfsType) (t : Trace)
      → o.no_write ≡ true
      → All (IsDry opened) t
      → All (IsDry opened) (rootfs_flash env o b d i type t).1
  unfolding rootfs_flash
  rootfs_flash-opened-IsDry o b d i type t dry h =
      rootfs_flash_by-IsDry d.rootfs_flash_mode o b d i type t dry h

module _ (env : Env) where
  flash_ext4_kernel-Emits :
      (device : Bytes) (file : Option Stream) (size : ℕ)
      → Emits (IsDry (some device)) (flash_ext4_kernel env device file size true)
  unfolding flash_ext4_kernel is_dry
  flash_ext4_kernel-Emits device none size t h = h
  flash_ext4_kernel-Emits device (some s) size t h =
      elim (Bool-cases (is_nonzero (env.answer t (Call.open_to_write device)))) [
        | inl good ↦ rw good (
            copy_kernel-IsDry env (some device) device size 0 0 s _ (refl, (str_eq_same device, h)))
        | inr bad ↦ rw bad (str_eq_same device, h)
      ]

  pub some_of_mode :
      (mode : FlashMode) (device filename : Bytes) (file : Option Stream) (size : ℕ)
      (no_write : Bool) (t : Trace)
      → is_kernel_mode mode ≡ true
      → (kernel_flash env mode device filename file size no_write t).0 ≢ none
  unfolding kernel_flash
  some_of_mode FlashMode.tarbz2 device filename file size no_write t h e = cc
  some_of_mode FlashMode.mtd device filename file size no_write t h e = cc
  some_of_mode _ device filename file size no_write t h e = cc

  -- Under `-n`, and behind only such calls, flashing the kernel, whatever its flash mode, runs no
  -- tool, writes no block and mounts and removes nothing: it asks for the flash type, shows progress,
  -- and may open the device.
  pub kernel_flash-IsDry :
      (mode : FlashMode) (device filename : Bytes) (file : Option Stream) (size : ℕ) (t : Trace)
      → All (IsDry (some device)) t
      → All (IsDry (some device)) (kernel_flash env mode device filename file size true t).1
  unfolding kernel_flash
  kernel_flash-IsDry FlashMode.tarbz2 device filename file size t h =
      flash_ext4_kernel-Emits device file size t h
  kernel_flash-IsDry FlashMode.mtd device filename file size t h =
      flash_ubi_jffs2_kernel-IsDry env (some device) device filename t h
  kernel_flash-IsDry _ device filename file size t h = h

  -- Under `-n`, and behind only such calls, flashing the rootfs, whatever its flash mode, runs no
  -- tool, opens no file to write it, and mounts, creates and removes nothing: it asks for the flash
  -- type, shows steps and progress, changes the directory, synchronises and waits.
  pub rootfs_flash-IsDry :
      (o : Options) (b : Boot) (d : Devices) (i : Images) (type : RootfsType) (t : Trace)
      → o.no_write ≡ true
      → All (IsDry none) t
      → All (IsDry none) (rootfs_flash env o b d i type t).1
  rootfs_flash-IsDry = rootfs_flash-opened-IsDry env none

  -- A kernel that the search for devices finds, from devices with known modes, is flashed by one of
  -- the functions: `kernel_flash` does not end without a value.
  pub kernel_flash-ne-none :
      (p : Probe) (image : ImageType) (o : Options) (d : Devices) (filename : Bytes)
      (file : Option Stream) (size : ℕ) (t : Trace)
      → has_modes d ≡ true
      → let d' = (find_kernel_rootfs_device p image o d).2.0 in
        d'.found_kernel_device ≡ true
        → (kernel_flash env d'.kernel_flash_mode d'.kernel_device filename file size o.no_write t).0
          ≢ none
  kernel_flash-ne-none p image o d filename file size t h found =
      let d' = (find_kernel_rootfs_device p image o d).2.0 in
      some_of_mode d'.kernel_flash_mode d'.kernel_device filename file size o.no_write t
        (ground (arith, find_kernel_rootfs_device-has_modes p image o d h))
