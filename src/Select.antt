-- ===== src/Select.antt =====
-- ofgwrite.c: `find_kernel_rootfs_device`, and what fdisk tells through `ext4_kernel_dev_found` and
-- `ext4_rootfs_dev_found`. busybox's fdisk is not modelled: its calls of the two functions are the
-- list `fdisk`, and `fdisk_ok` says that `fdisk_main` returned 0.
pub mod Modes
pub mod Running
use ofgwrite.Base.{
  ℕ, Option, Bool, true, false, ◌&&◌, ◌||◌, not, List, [], ◌∷◌, ◌++◌, if◌then◌else◌,
}
use ofgwrite.Base.Int.{int_eq, minus_one}
use ofgwrite.Base.Text.{Bytes, lit, str_eq, decimal, is_empty}
use ofgwrite.State.{Options, Devices, Boot, FlashMode, ImageType}
use ofgwrite.Cmdline.{slot_dir, read_proc_cmdline}

pub data FdiskEvent : Type 0 where
  kernel_at : Bytes → ℕ → FdiskEvent
  rootfs_at : Bytes → ℕ → FdiskEvent

abbrev pub fdisk_path : Bytes → ℕ → Bytes
fdisk_path dev n = dev ++ (lit "p" ++ decimal n)

unfoldable pub ext4_kernel_dev_found : Bytes → ℕ → Devices → Devices
ext4_kernel_dev_found dev n d = record d {
  found_kernel_device = true;
  kernel_flash_mode = FlashMode.tarbz2;
  kernel_device = fdisk_path dev n;
}

unfoldable pub ext4_rootfs_dev_found : Bytes → ℕ → Devices → Devices
ext4_rootfs_dev_found dev n d = record d {
  found_rootfs_device = true;
  rootfs_flash_mode = FlashMode.tarbz2;
  rootfs_device = fdisk_path dev n;
}

unfoldable pub run_fdisk : List FdiskEvent → Devices → Devices
unfolding ext4_kernel_dev_found ext4_rootfs_dev_found
run_fdisk [] d = d
run_fdisk (FdiskEvent.kernel_at dev n ∷ events) d = run_fdisk events (ext4_kernel_dev_found dev n d)
run_fdisk (FdiskEvent.rootfs_at dev n ∷ events) d = run_fdisk events (ext4_rootfs_dev_found dev n d)

abbrev pub is_mtd : FlashMode → Bool
is_mtd FlashMode.mtd = true
is_mtd _ = false

abbrev pub is_tarbz2_mtd : FlashMode → Bool
is_tarbz2_mtd FlashMode.tarbz2_mtd = true
is_tarbz2_mtd _ = false

unfoldable pub is_kexec : Boot → Bool
is_kexec b = str_eq b.kexec_mode (lit "1")

-- Found devices are ignored unless both are found.
abbrev pub needs_fdisk : Boot → Devices → Bool
needs_fdisk b d = not (d.found_kernel_device && d.found_rootfs_device) && not (is_kexec b)

abbrev pub forget_found : Devices → Devices
forget_found d = record d { found_kernel_device = false; found_rootfs_device = false }

abbrev pub has_sub_dir : Boot → Bool
has_sub_dir b = not (is_empty b.current_rootfs_sub_dir)

abbrev pub new_sub_dir : Options → Bytes
new_sub_dir o = slot_dir o.slotname o.multiboot_partition

abbrev pub forces_user_rootfs : Options → Devices → Bool
forces_user_rootfs o d =
    o.user_rootfs && (not (is_tarbz2_mtd d.rootfs_flash_mode) && not (is_mtd d.rootfs_flash_mode))

-- With the rootSubDir feature a user defined rootfs wants -m.
abbrev pub lacks_multi : Options → Boot → Bool
lacks_multi o b =
    has_sub_dir b && (int_eq o.multiboot_partition minus_one && not o.rootsubdir_check)

unfoldable pub force_user_rootfs : Options → Boot → Devices → Devices
force_user_rootfs o b d =
    if forces_user_rootfs o d
    then record d {
      found_rootfs_device = true;
      rootfs_flash_mode = FlashMode.tarbz2;
      rootfs_device = lit "/dev/" ++ o.rootfs_device_arg;
      rootfs_sub_dir =
          if has_sub_dir b && not o.rootsubdir_check then new_sub_dir o else d.rootfs_sub_dir;
    }
    else d

unfoldable pub force_user_kernel : Options → Boot → Devices → Devices
force_user_kernel o b d =
    if o.user_kernel && not (is_mtd d.kernel_flash_mode)
    then record d {
      found_kernel_device = true;
      kernel_flash_mode = FlashMode.tarbz2;
      kernel_device =
          if is_kexec b
          then lit "/oldroot_remount/" ++ (new_sub_dir o ++ (lit "/" ++ o.kernel_device_arg))
          else lit "/dev/" ++ o.kernel_device_arg;
    }
    else d

abbrev pub chkroot_flash_mode : ImageType → FlashMode
chkroot_flash_mode ImageType.tar_based = FlashMode.tarbz2
chkroot_flash_mode ImageType.tar_ubi = FlashMode.tarxz_ubi
chkroot_flash_mode _ = FlashMode.ubi_loop_subdir

unfoldable pub use_chkroot : ImageType → Options → Boot → Devices → Devices
use_chkroot image o b d =
    if b.chkroot_mode
    then record d { rootfs_flash_mode = chkroot_flash_mode image; rootfs_sub_dir = new_sub_dir o }
    else d

unfoldable pub use_kexec_kernel : Options → Boot → Devices → Devices
use_kexec_kernel o b d =
    if not d.found_kernel_device && is_kexec b
    then record d {
      found_kernel_device = true;
      kernel_flash_mode = FlashMode.tarbz2;
      kernel_device = lit "/oldroot_remount/" ++ (new_sub_dir o ++ lit "/zImage");
    }
    else d

unfoldable pub use_kexec_rootfs : Options → Boot → Devices → Devices
use_kexec_rootfs o b d =
    if not d.found_rootfs_device && is_kexec b
    then record d {
      found_rootfs_device = true;
      rootfs_flash_mode = FlashMode.tarbz2;
      rootfs_device = b.current_rootfs_device;
      rootfs_sub_dir =
          if has_sub_dir b && not o.rootsubdir_check then new_sub_dir o else d.rootfs_sub_dir;
    }
    else d

-- The test that clears `stop_e2_needed`: what is flashed is not what runs.
unfoldable pub flashes_other : Options → Boot → Devices → Bool
flashes_other o b d =
    (not (has_sub_dir b)
        && (not (str_eq d.rootfs_device b.current_rootfs_device)
            && not (is_mtd d.rootfs_flash_mode))
      || has_sub_dir b && not (str_eq b.current_rootfs_sub_dir d.rootfs_sub_dir))
    && not o.force_e2_stop

-- The devices, and `stop_e2_needed`, which is 1 before.
abbrev pub Selection : Type 0
Selection = Devices × Bool

unfoldable pub choose_devices : ImageType → Options → Boot → Devices → Devices
unfolding force_user_rootfs force_user_kernel use_chkroot use_kexec_kernel use_kexec_rootfs is_kexec
choose_devices image o b d =
    use_kexec_rootfs o b (
      use_kexec_kernel o b
        (use_chkroot image o b (force_user_kernel o b (force_user_rootfs o b d))))

-- From `// force user kernel/rootfs` to the end.
unfoldable pub force_and_finish : ImageType → Options → Boot → Devices → Selection
force_and_finish image o b d =
    if forces_user_rootfs o d && lacks_multi o b
    then (record d { found_rootfs_device = false }, true)
    else let d' = choose_devices image o b d in (d', not (flashes_other o b d'))

abbrev pub keep_mtd_kernel : Bool → Devices → Devices
keep_mtd_kernel mtd_kernel_found d = record d {
  found_kernel_device = d.found_kernel_device || mtd_kernel_found;
}

-- `find_kernel_rootfs_device` behind its call of `readProcCmdline`. `mtd_kernel_found` is
-- `found_kernel_device` as it was before that call.
unfoldable pub select_devices :
    List FdiskEvent → Bool → ImageType → Bool → Options → Boot → Devices → Selection
select_devices fdisk fdisk_ok image mtd_kernel_found o b d =
    if needs_fdisk b d
    then if fdisk_ok
      then force_and_finish image o b
          (keep_mtd_kernel mtd_kernel_found (run_fdisk fdisk (forget_found d)))
      else (run_fdisk fdisk (forget_found d), true)
    else force_and_finish image o b (keep_mtd_kernel mtd_kernel_found d)

-- What the environment answers.
pub record Probe : Type 0 where
  pub flag_present : Bool
  pub boxname : Bytes
  pub line : Option Bytes
  pub fdisk : List FdiskEvent
  pub fdisk_ok : Bool

unfoldable pub find_kernel_rootfs_device :
    Probe → ImageType → Options → Devices → Options × Boot × Selection
find_kernel_rootfs_device p image o d =
    let (o', b, d') = read_proc_cmdline p.flag_present p.boxname p.line o d in
    (o', b, select_devices p.fdisk p.fdisk_ok image d.found_kernel_device o' b d')
