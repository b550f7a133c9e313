-- ===== src/Tests/Mounted.antt =====
-- The mounts and the sizes of the devices at concrete inputs.
use ofgwrite.Base.{true, false, Option, some, List, [], ◌∷◌, ℕ, All}
use ofgwrite.Base.Text.{Bytes, lit}
use ofgwrite.State.{Devices, FlashMode, RootfsType}
use ofgwrite.Mounts.{Mount, Mounts, read_proc_mounts}
use ofgwrite.Mounts.{read_proc_mounts-IsReleased, IsReleased}
use ofgwrite.Tests.Samples.{devices, images}

abbrev mounts : List Mount
mounts =
    record {
      fsname = lit "ubi0:rootfs";
      dir = lit "/";
      kind = lit "ubifs";
      has_image_device = false;
    }
    ∷ record { fsname = lit "proc"; dir = lit "/proc"; kind = lit "proc"; has_image_device = false }
    ∷ record {
      fsname = lit "/dev/sda1";
      dir = lit "/media/hdd";
      kind = lit "ext4";
      has_image_device = false;
    }
    ∷ record {
      fsname = lit "/dev/sdb1";
      dir = lit "/media/usb";
      kind = lit "vfat";
      has_image_device = true;
    }
    ∷ []

abbrev before : Mounts
before = record {
  rootfs_type = RootfsType.unknown;
  rootfs_fs_type = [];
  ubi_fs_name = [];
  newroot_mounted = false;
  rootfs_mount_point = [];
  mountlist = [];
}

read_proc_mounts-IsReleased_example :
    All IsReleased (read_proc_mounts images (some mounts) before).0.mountlist
read_proc_mounts-IsReleased_example = read_proc_mounts-IsReleased images (some mounts) before

abbrev found_devices : Devices
found_devices = record devices {
  kernel_device = lit "/dev/mmcblk0p1";
  rootfs_device = lit "/dev/mmcblk0p2";
  found_kernel_device = true;
  found_rootfs_device = true;
  kernel_flash_mode = FlashMode.tarbz2;
  rootfs_flash_mode = FlashMode.tarbz2;
}

abbrev size_of : Bytes → Option ℕ
size_of _ = some 100000
