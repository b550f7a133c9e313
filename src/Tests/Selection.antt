-- ===== src/Tests/Selection.antt =====
-- The selection of the devices and the dispatch on their modes at concrete inputs.
use ofgwrite.Base.{All}
use ofgwrite.Base.{true, false, some, [], ◌∷◌, ◌≡◌, ◌≢◌, refl}
use ofgwrite.Base.Text.{lit, contains, str_eq, strstr, cut, decimal}
use ofgwrite.State.{Options, Devices, FlashMode, ImageType, RootfsType}
use ofgwrite.Select.{Probe, FdiskEvent, find_kernel_rootfs_device, force_and_finish}
use ofgwrite.Select.{select_devices, run_fdisk, flashes_other, choose_devices}
use ofgwrite.Cmdline.{read_proc_cmdline}
use ofgwrite.Select.{is_kexec, select_devices, run_fdisk, flashes_other, choose_devices}
use ofgwrite.Select.Modes.{has_modes, find_kernel_rootfs_device-has_modes}
use ofgwrite.Select.Running.{find_kernel_rootfs_device-ne}
use ofgwrite.Flash.Dispatch.{rootfs_flash}
use ofgwrite.Base.{none}
use ofgwrite.Flash.Dispatch.Dry.{IsDry, rootfs_flash-IsDry}
use ofgwrite.Tests.Samples.{options, devices, images, boot, env}

-- The table is not known, and fdisk finds both partitions.
abbrev pub probe : Probe
probe = record {
  flag_present = false;
  boxname = lit "vusolo4k";
  line = some (lit "root=/dev/mmcblk0p4 rw");
  fdisk =
      FdiskEvent.kernel_at (lit "/dev/mmcblk0") 1
      ∷ FdiskEvent.rootfs_at (lit "/dev/mmcblk0") 7
      ∷ [];
  fdisk_ok = true;
}

find_kernel_rootfs_device-has_modes_example :
    has_modes (find_kernel_rootfs_device probe ImageType.tar_based options devices).2.0 ≡ true
find_kernel_rootfs_device-has_modes_example =
    find_kernel_rootfs_device-has_modes probe ImageType.tar_based options devices refl

find_kernel_rootfs_device-ne_example :
    let r = find_kernel_rootfs_device probe ImageType.tar_based options devices in
    (r.2.0.rootfs_device ≢ lit "/dev/mmcblk0p4")
    × (r.2.0.rootfs_flash_mode ≢ FlashMode.mtd)
    × (r.0.force_e2_stop ≡ false)
unfolding find_kernel_rootfs_device select_devices read_proc_cmdline strstr lit is_kexec str_eq
    contains force_and_finish flashes_other choose_devices run_fdisk cut decimal
find_kernel_rootfs_device-ne_example =
    find_kernel_rootfs_device-ne [] (lit "/dev/mmcblk0p4") (lit "rw") probe ImageType.tar_based
      options devices refl tt refl refl refl refl

abbrev named : Options
named = record options { user_rootfs = true; rootfs_device_arg = lit "sda1" }

abbrev dry_options : Options
dry_options = record options { no_write = true }

abbrev ubi_devices : Devices
ubi_devices = record devices { rootfs_flash_mode = FlashMode.ubi_loop_subdir }

rootfs_flash-IsDry_example :
    All (IsDry none) (rootfs_flash env dry_options boot ubi_devices images RootfsType.ubifs []).1
rootfs_flash-IsDry_example =
    rootfs_flash-IsDry env dry_options boot ubi_devices images RootfsType.ubifs [] refl tt
