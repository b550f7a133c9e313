-- ===== src/Main.antt =====
-- ofgwrite.c: `main` behind the checks (`Prepare`), with `check_env`, as steps that each go on or end the
-- program. The messages, the log and `fflush` are left out.
pub mod Shown
pub mod Android
pub mod Stops
pub mod Flashed
pub mod Dry
pub mod Returned
pub mod Secured
use ofgwrite.Main.Shown.{
  start_calls, finish_calls, rootfs_failed, kernel_failed, kernel_calls, kernel_only_failed,
}
use ofgwrite.Base.{ℕ, ◌+◌, Bool, true, false, ◌&&◌, not, Option, none, some, List, [], ◌∷◌, ◌++◌}
use ofgwrite.Base.{if◌then◌else◌, ◌==◌}
use ofgwrite.Base.Calls.{M, Env, Call, call, tell, tell_all, ask, pure, ◌>>=◌, ◌>>◌, run_steps}
use ofgwrite.Base.Calls.{unless}
use ofgwrite.Base.Int.{ℤ, is_nonzero}
use ofgwrite.Base.Text.{Bytes, lit}
use ofgwrite.State.{FlashMode}
use ofgwrite.Mounts.{Mount}
use ofgwrite.Flash.Ext4.{Stream}
use ofgwrite.Flash.Dispatch.{kernel_flash, rootfs_flash}
use ofgwrite.Sizes.{is_tarbz2}
use ofgwrite.Prepare.{Inputs, Setup, prepare}
use ofgwrite.Takeover.Files.{sys}
use ofgwrite.Takeover.{Daemon, daemonize, umount_rootfs, remount, is_remounted}
use ofgwrite.Main.Android.{create_kernel_img, Exit}

-- A function that ends without a return statement gives no value to go by.
abbrev pub by_result : Option Bool → M (Option Exit) → M (Option Exit) → M (Option Exit)
by_result none good bad = pure (some Exit.undefined)
by_result (some true) good bad = good
by_result (some false) good bad = bad

abbrev pub go_on : M (Option Exit)
go_on = pure none

abbrev pub end_with : List Call → Exit → M (Option Exit)
end_with calls exit = do tell_all calls; pure (some exit)

abbrev pub is_tar_partition : FlashMode → Bool
is_tar_partition FlashMode.tarbz2 = true
is_tar_partition FlashMode.tarbz2_mtd = true
is_tar_partition _ = false

-- The steps of the overall progress bar.
abbrev pub count_steps : Setup → ℕ
count_steps s =
    if s.options.flash_kernel
    then if is_tar_partition s.devices.rootfs_flash_mode then 7 else 8
    else 6

abbrev pub einval : ℕ
einval = 22

module _ (env : Env) (s : Setup) where
  abbrev pub takes_over : Bool
  takes_over = not s.options.no_write && s.stop_e2_needed

  -- `check_env`
  unfoldable pub check_env : M (Option Exit)
  check_env = if s.mounts.newroot_mounted then go_on else pure (some Exit.failure)

  unfoldable pub kill_processes : M (Option Exit)
  kill_processes = do tell_all (start_calls (count_steps s) takes_over); go_on

  abbrev pub after_daemonize : Daemon → M (Option Exit)
  after_daemonize Daemon.is_parent = pure (some Exit.parent)
  after_daemonize Daemon.no_daemon = end_with (Call.close_framebuffer ∷ []) Exit.failure
  after_daemonize Daemon.is_daemon = do
    done ← umount_rootfs env s.options.android s.options.no_write s.devices s.mounts (count_steps s)
    if done then go_on else end_with (Call.close_framebuffer ∷ []) Exit.failure

  unfoldable pub take_over : M (Option Exit)
  take_over = if takes_over then (do daemon ← daemonize env; after_daemonize daemon) else go_on

  -- A TARBZ2 rootfs that cannot be mounted is formatted and mounted again.
  unfoldable pub mount_or_format : M ℤ
  mount_or_format = do
    ret ← call env (remount s.devices.rootfs_flash_mode s.devices s.mounts)
    errno ← ask env.errno
    if is_nonzero ret && (errno == einval && is_tarbz2 s.devices.rootfs_flash_mode)
        then (do
          formatted ← call env (sys (lit "mkfs.ext4 -F " ++ s.devices.rootfs_device))
          if is_nonzero formatted
              then pure formatted
              else call env
                  (Call.mount s.devices.rootfs_device (lit "/oldroot_remount/") (lit "ext4")))
        else pure ret

  abbrev pub after_mount : ℤ → M (Option Exit)
  after_mount ret =
      if is_nonzero ret
      then end_with
          (Call.set_error_text1 (lit "Error mounting root! Abort flashing.")
            ∷ Call.sleep 3
            ∷ Call.close_framebuffer
            ∷ [])
          Exit.failure
      else go_on

  -- The rootfs that does not run is mounted.
  unfoldable pub mount_other : M (Option Exit)
  unfolding mount_or_format
  mount_other =
      if not s.options.no_write
        && (not s.stop_e2_needed && is_remounted s.devices.rootfs_flash_mode)
      then (do
        tell (Call.set_step (lit "Mount rootfs"))
        tell (Call.mkdir (lit "/oldroot_remount"))
        ret ← mount_or_format
        after_mount ret)
      else go_on

  unfoldable pub make_sub_dir : M (Option Exit)
  make_sub_dir = do
    unless s.options.no_write
        (Call.make_directories (lit "/oldroot_remount/" ++ s.devices.rootfs_sub_dir))
    go_on

  unfoldable pub flash_rootfs_step : M (Option Exit)
  flash_rootfs_step = do
    flashed ← rootfs_flash env s.options s.boot s.devices s.images s.mounts.rootfs_type
    by_result flashed go_on (end_with (rootfs_failed s.stop_e2_needed) Exit.failure)

  -- `kernel_file` is the content of the kernel file as it can be read.
  unfoldable pub run_kernel_flash : Option Stream → M (Option Bool)
  run_kernel_flash kernel_file =
      kernel_flash env s.devices.kernel_flash_mode s.devices.kernel_device s.images.kernel_filename
        kernel_file s.images.kernel_file_size s.options.no_write

  unfoldable pub flash_kernel_step : Option Stream → M (Option Exit)
  unfolding run_kernel_flash
  flash_kernel_step kernel_file =
      if s.options.flash_kernel
      then (do
        flashed ← run_kernel_flash kernel_file
        by_result flashed (do tell Call.sync; go_on)
            (end_with (kernel_failed s.stop_e2_needed) Exit.failure))
      else go_on

  unfoldable pub android_step : (Bytes → Option Bytes) → Bytes → M (Option Exit)
  android_step digest boxname =
      if s.options.android
      then create_kernel_img env digest boxname s.devices.rootfs_device
      else go_on

  unfoldable pub finish : M (Option Exit)
  finish = do tell_all (finish_calls takes_over s.stop_e2_needed); go_on

  abbrev pub flash_image_steps :
      (Bytes → Option Bytes) → Bytes → Option Stream → List (M (Option Exit))
  flash_image_steps digest boxname kernel_file =
      check_env
      ∷ kill_processes
      ∷ take_over
      ∷ mount_other
      ∷ make_sub_dir
      ∷ flash_rootfs_step
      ∷ flash_kernel_step kernel_file
      ∷ android_step digest boxname
      ∷ finish
      ∷ []

  -- With `flash_rootfs`.
  unfoldable pub flash_image : (Bytes → Option Bytes) → Bytes → Option Stream → M Exit
  flash_image digest boxname kernel_file =
      run_steps (flash_image_steps digest boxname kernel_file) Exit.success

  abbrev pub end_kernel : Option Bool → M Exit
  end_kernel none = pure Exit.undefined
  end_kernel (some true) = do
    tell_all (
        if s.options.quiet
        then []
        else Call.set_step (lit "Successfully flashed kernel!") ∷ Call.sleep 5 ∷ [])
    tell Call.close_framebuffer
    pure Exit.success
  end_kernel (some false) = do tell_all kernel_only_failed; pure Exit.failure

  -- What busybox calls instead of ending the process when it fails.
  unfoldable pub handle_busybox_fatal_error : M Exit
  handle_busybox_fatal_error = do
    tell_all (
        Call.set_error_text1 (lit "Error untar rootfs. System won't boot!")
          ∷ Call.set_error_text2 (lit "Please flash backup! Rebooting in 60 sec")
          ∷ (if s.stop_e2_needed then Call.sleep 60 ∷ Call.reboot ∷ [] else [])
        ++ (Call.sleep 30 ∷ Call.close_framebuffer ∷ []))
    pure Exit.failure

  -- With `flash_kernel` only.
  unfoldable pub flash_only_kernel : Option Stream → M Exit
  unfolding run_kernel_flash
  flash_only_kernel kernel_file = do
    tell_all kernel_calls
    flashed ← run_kernel_flash kernel_file
    end_kernel flashed

  unfoldable pub flash_setup : (Bytes → Option Bytes) → Bytes → Option Stream → M Exit
  flash_setup digest boxname kernel_file =
      if s.options.flash_rootfs
      then flash_image digest boxname kernel_file
      else if s.options.flash_kernel
      then flash_only_kernel kernel_file
      else do tell Call.close_framebuffer; pure Exit.success

abbrev pub flash_prepared :
    Env → (Bytes → Option Bytes) → Bytes → Option Stream → Option Setup → M Exit
flash_prepared env digest boxname kernel_file none = pure Exit.failure
flash_prepared env digest boxname kernel_file (some s) =
    flash_setup env s digest boxname kernel_file

unfoldable pub main : Env → (Bytes → Option Bytes) → Option Stream → Inputs → M Exit
main env digest kernel_file inp =
    flash_prepared env digest inp.probe.boxname kernel_file (prepare inp)
