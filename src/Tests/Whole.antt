-- ===== src/Tests/Whole.antt =====
-- The whole program at concrete inputs.
use ofgwrite.Takeover.{
  stop_e2, pivot, umount_rootfs, daemonize, reopen_framebuffer, copy_binaries, make_newroot,
  umount_oldroot, switch_runmode, move_mounts, copy_libcrypt, release_oldroot, copy_automount,
}
use ofgwrite.EnigmaStop.{check_e2_stopped}
use ofgwrite.Takeover.Apart.{pivoted}
use ofgwrite.Main.Secured.{IsReady, main-IsReady}
use ofgwrite.Main.Flashed.{before_flash, rootfs_start, behind_rootfs}
use ofgwrite.Main.{android_step, finish}
use ofgwrite.Flash.Ext4.{flash_ext4_kernel, copy_kernel, flash_unpack_rootfs}
use ofgwrite.Main.{
  flash_kernel_step, mount_other, check_env, flash_image, take_over, make_sub_dir, flash_setup,
  flash_rootfs_step, kill_processes,
}
use ofgwrite.Flash.Dispatch.{rootfs_flash, kernel_flash, rootfs_flash_by}
use ofgwrite.Takeover.{remount}
use ofgwrite.Base.Calls.{run_steps}
use ofgwrite.Mounts.{is_newroot}
use ofgwrite.Sizes.{check_device_size}
use ofgwrite.Base.Text.{cut, decimal}
use ofgwrite.Select.{flashes_other}
use ofgwrite.Select.{
  run_fdisk, select_devices, find_kernel_rootfs_device, force_and_finish, choose_devices, is_kexec,
}
use ofgwrite.Mounts.{is_ubifs_root, is_jffs2_root, take_mounts, read_proc_mounts, take_mount}
use ofgwrite.Args.{read_args}
use ofgwrite.Base.Text.{str_eq, contains}
use ofgwrite.Cmdline.{read_proc_cmdline}
use ofgwrite.ProcMtd.{read_mtd_file}
use ofgwrite.Base.{true, false, Option, some, none, [], ◌∷◌, ◌≡◌}
use ofgwrite.Base.Text.{Bytes, lit}
use ofgwrite.Args.{Opt}
use ofgwrite.Prepare.{Inputs, Setup, prepare}
use ofgwrite.Main.{main}
use ofgwrite.Flash.Ext4.{Stream, end_of_file, block}
use ofgwrite.Base.{All, Pass, ℕ, ◌≤◌, ◌≢◌, refl}
use ofgwrite.State.{RootfsType, FlashMode}
use ofgwrite.Prepare.{no_mounts}
use ofgwrite.Prepare.Checked.{prepare-kernel_size, prepare-rootfs_size}
use ofgwrite.Main.{run_kernel_flash}
use ofgwrite.Main.Returned.{main-ne-undefined}
use ofgwrite.Main.Flashed.{flashed_rootfs, kernel_start, main-rootfs_flash, main-kernel_flash}
use ofgwrite.Main.Dry.{is_harmless, main-IsHarmless}
use ofgwrite.Tests.Samples.{env, images, options, boot}
use ofgwrite.Main.Android.{Exit}
use ofgwrite.Base.{List, ◌⊎◌}
use ofgwrite.State.{ImageType}
use ofgwrite.Prepare.{no_images}
use ofgwrite.Main.Stops.{is_stopped}
use ofgwrite.ImageFiles.{
  find_image_files, is_kernel_name, is_rootfs_name, is_nfi_name, is_tar_xz_name, is_tar_name,
  ends_with, take_entries, take_entry,
}
use ofgwrite.Tests.Selection.{probe}
use ofgwrite.Protocol.{Status}
use ofgwrite.Protocol.Starts.{IsOrderly}
use ofgwrite.Protocol.Runs.{main-IsOrderly}
use ofgwrite.Protocol.Acts.{IsIn}
use ofgwrite.Protocol.Replay.{replay, main-shows}
use ofgwrite.Screen.Device.Triples.{Returns}
use ofgwrite.Tests.Screens.{hd_driver, first_display, hd_driver-IsWorking}

abbrev no_digest : Bytes → Option Bytes
no_digest s = none

abbrev kernel_file : Option Stream
kernel_file = some (block (1 ∷ 2 ∷ []) end_of_file)

-- An image that is not running is flashed on a box with two of them.
abbrev inputs : Inputs
inputs = record {
  find = λ _ _. (images, true);
  opts = [];
  operands = lit "/tmp/image" ∷ [];
  mounts = λ _. some (
      record {
        fsname = lit "/dev/root";
        dir = lit "/";
        kind = lit "ext4";
        has_image_device = false;
      }
      ∷ record {
        fsname = lit "tmpfs";
        dir = lit "/newroot";
        kind = lit "tmpfs";
        has_image_device = false;
      }
      ∷ []);
  garbage = record { dev = []; size = []; esize = []; name = [] };
  proc_mtd = none;
  probe = probe;
  size_of = λ _. some 100000;
}

abbrev dry_inputs : Inputs
dry_inputs = record inputs { opts = Opt.no_write ∷ [] }

-- What the checks in front of the flashing give for these.
abbrev setup : Setup
setup = record {
  options = options;
  images = images;
  mounts = record no_mounts {
    rootfs_type = RootfsType.ext4;
    rootfs_fs_type = lit "ext4";
    newroot_mounted = true;
  };
  boot = record boot { current_rootfs_device = lit "/dev/mmcblk0p4" };
  devices = record {
    kernel_device = lit "/dev/mmcblk0p1";
    rootfs_device = lit "/dev/mmcblk0p7";
    rootfs_sub_dir = [];
    found_kernel_device = true;
    found_rootfs_device = true;
    kernel_flash_mode = FlashMode.tarbz2;
    rootfs_flash_mode = FlashMode.tarbz2;
  };
  stop_e2_needed = false;
}

abbrev dry_setup : Setup
dry_setup = record setup { options = record options { no_write = true } }

prepared : prepare inputs ≡ some setup
unfolding prepare read_args read_proc_mounts take_mounts take_mount is_ubifs_root is_jffs2_root
    is_newroot read_mtd_file find_kernel_rootfs_device read_proc_cmdline select_devices run_fdisk
    is_kexec flashes_other force_and_finish choose_devices check_device_size str_eq lit contains cut
    decimal
prepared = refl

prepared_dry : prepare dry_inputs ≡ some dry_setup
unfolding prepare read_args read_proc_mounts take_mounts take_mount is_ubifs_root is_jffs2_root
    is_newroot read_mtd_file find_kernel_rootfs_device read_proc_cmdline select_devices run_fdisk
    is_kexec flashes_other force_and_finish choose_devices check_device_size str_eq lit contains cut
    decimal
prepared_dry = refl

succeeds : (main env no_digest kernel_file inputs []).0 ≡ Exit.success
unfolding main flash_ext4_kernel flash_kernel_step mount_other copy_kernel check_env flash_image
    flash_unpack_rootfs rootfs_flash kernel_flash take_over remount make_sub_dir rootfs_flash_by
    flash_setup run_steps flash_rootfs_step kill_processes android_step finish
succeeds = rw prepared refl

kexec_ne : setup.boot.kexec_mode ≢ lit "1"
unfolding lit
kexec_ne e = cc

prepare-kernel_size_example :
    (size : ℕ) × (inputs.size_of setup.devices.kernel_device ≡ some size)
    × (setup.images.kernel_file_size ≤ size)
prepare-kernel_size_example = prepare-kernel_size inputs setup prepared refl refl kexec_ne

-- The images are found in a directory.
abbrev names : List Bytes
names = lit "kernel.bin" ∷ lit "rootfs.tar.bz2" ∷ []

abbrev stat_size : Bytes → ℕ
stat_size path = 1000

abbrev found_inputs : Inputs
found_inputs = record inputs {
  find = λ _ i. find_image_files stat_size (some (lit "/tmp/image/")) (some names) i;
}

abbrev found_setup : Setup
found_setup = record setup {
  images = record no_images {
    kernel_filename = lit "/tmp/image/kernel.bin";
    rootfs_filename = lit "/tmp/image/rootfs.tar.bz2";
    kernel_file_size = 1000;
    rootfs_file_size = 1000;
    image_type = ImageType.tar_based;
  };
}

prepared_found : prepare found_inputs ≡ some found_setup
unfolding prepare read_args read_proc_mounts take_mounts take_mount is_ubifs_root is_jffs2_root
    is_newroot read_mtd_file find_kernel_rootfs_device read_proc_cmdline select_devices run_fdisk
    is_kexec flashes_other force_and_finish choose_devices check_device_size str_eq lit contains cut
    decimal find_image_files is_kernel_name is_rootfs_name is_nfi_name is_tar_xz_name is_tar_name
    ends_with take_entries take_entry
prepared_found = refl

archive_ne : found_setup.images.rootfs_filename ≢ []
unfolding lit
archive_ne e = cc

prepare-rootfs_size_example :
    (size : ℕ) × (found_inputs.size_of found_setup.devices.rootfs_device ≡ some size)
    × (stat_size found_setup.images.rootfs_filename ≤ size)
prepare-rootfs_size_example =
    prepare-rootfs_size found_inputs found_setup stat_size (λ _. some (lit "/tmp/image/"))
      (λ _. some names) (λ _ _. refl) prepared_found refl refl archive_ne refl

main-ne-undefined_example : (main env no_digest kernel_file inputs []).0 ≢ Exit.undefined
main-ne-undefined_example =
    main-ne-undefined env no_digest kernel_file inputs setup [] prepared refl

main-rootfs_flash_example : (flashed_rootfs env setup []).0 ≡ some true
main-rootfs_flash_example =
    main-rootfs_flash env no_digest kernel_file inputs setup [] prepared refl succeeds

main-kernel_flash_example :
    (run_kernel_flash env setup kernel_file (kernel_start env setup [])).0 ≡ some true
main-kernel_flash_example =
    main-kernel_flash env no_digest kernel_file inputs setup [] prepared refl succeeds

main-IsHarmless_example :
    let r = main env no_digest kernel_file dry_inputs [] in
    All (Pass (is_harmless dry_setup.devices.kernel_device r.0)) r.1
main-IsHarmless_example =
    main-IsHarmless env no_digest kernel_file dry_inputs dry_setup [] prepared_dry refl refl tt

-- The image that runs is flashed.
abbrev running_inputs : Inputs
running_inputs = record inputs {
  probe = record probe { line = some (lit "root=/dev/mmcblk0p7 rw") };
}

abbrev running : Setup
running = record setup {
  boot = record boot { current_rootfs_device = lit "/dev/mmcblk0p7" };
  stop_e2_needed = true;
}

prepared_running : prepare running_inputs ≡ some running
unfolding prepare read_args read_proc_mounts take_mounts take_mount is_ubifs_root is_jffs2_root
    is_newroot read_mtd_file find_kernel_rootfs_device read_proc_cmdline select_devices run_fdisk
    is_kexec flashes_other force_and_finish choose_devices check_device_size str_eq lit contains cut
    decimal
prepared_running = refl

reaches : (run_steps (before_flash env running) Exit.success []).0 ≡ Exit.success
unfolding run_steps stop_e2 check_env check_e2_stopped pivot umount_rootfs daemonize
    reopen_framebuffer kill_processes copy_binaries make_newroot umount_oldroot take_over
    switch_runmode move_mounts copy_libcrypt release_oldroot copy_automount make_sub_dir mount_other
    remount
reaches = refl

not_pivoted : pivoted env [] ≡ false
unfolding pivoted
not_pivoted = refl

main-IsReady_example :
    let r = main env no_digest kernel_file running_inputs [] in
    (is_stopped r.0 ≡ true) × (r.1 ≡ rootfs_start env running [])
    ⊎ IsReady env running (rootfs_start env running [])
      × (r
          ≡ run_steps
              (flash_rootfs_step env running
                ∷ behind_rootfs env running no_digest running_inputs.probe.boxname kernel_file)
              Exit.success
              (rootfs_start env running []))
main-IsReady_example =
    main-IsReady env no_digest kernel_file running_inputs running [] prepared_running
      (refl, refl, refl) not_pivoted

main-IsOrderly_example : IsOrderly (main env no_digest kernel_file inputs []).1
main-IsOrderly_example = main-IsOrderly env no_digest kernel_file inputs

main-shows_example :
    Returns
      (λ _ d'. (s : Status) × IsIn s d')
      (replay hd_driver (main env no_digest kernel_file inputs []).1 first_display)
main-shows_example =
    main-shows hd_driver env no_digest kernel_file inputs first_display hd_driver-IsWorking
      (record { is_closed = refl; memory = refl; columns = refl; lines = refl })
