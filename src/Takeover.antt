-- ===== src/Takeover.antt =====
-- ofgwrite.c: `exec_fuser_kill`, `daemonize` and `umount_rootfs`, which ends the running system and
-- puts its rootfs out of use. Return values that the code overwrites before it looks at them are not
-- recorded. `umask` leaves no call; `free` and the messages are left out.
pub mod Files
pub mod Apart
pub mod Pivot
use ofgwrite.Takeover.Files.{sys, cp_arf, on, new_directories, lib_pair, binaries, automount_files}
use ofgwrite.Base.{
  ℕ, Bool, true, false, ◌&&◌, ◌||◌, not, Option, none, some, List, [], ◌∷◌, ◌++◌, map,
}
use ofgwrite.Base.{if◌then◌else◌}
use ofgwrite.Base.Calls.{M, Env, Call, Tool, call, call_all, tell, tell_all, ask, pure, ◌>>=◌, ◌>>◌}
use ofgwrite.Base.Calls.{run_steps, run_unless}
use ofgwrite.Base.Int.{ℤ, is_nonzero, is_negative, pos}
use ofgwrite.Base.Text.{Bytes, lit, starts_with, is_some}
use ofgwrite.State.{Devices, FlashMode}
use ofgwrite.Mounts.{Mounts}
use ofgwrite.EnigmaStop.{check_e2_stopped}

pub data Daemon : Type 0 where
  is_parent no_daemon is_daemon : Daemon

abbrev pub is_positive : ℤ → Bool
is_positive (ℤ.pos n) = is_nonzero (pos n)
is_positive _ = false

abbrev pub move_image_mount : Bytes → ℤ → Bool
move_image_mount rootfs_mount_point ret =
    starts_with rootfs_mount_point (lit "/media/") && is_nonzero ret
    || not (starts_with rootfs_mount_point (lit "/var/volatile/"))

abbrev pub release : Bytes → Call
release dir = Call.umount_detach (lit "/oldroot" ++ dir)

-- The modes whose rootfs is mounted on /oldroot_remount/.
abbrev pub is_remounted : FlashMode → Bool
is_remounted FlashMode.tarbz2 = true
is_remounted FlashMode.tarbz2_mtd = true
is_remounted FlashMode.ubi_loop_subdir = true
is_remounted FlashMode.tarxz_ubi = true
is_remounted _ = false

-- A null `rootfs_fs_type` is the empty text.
unfoldable pub remount : FlashMode → Devices → Mounts → Call
remount FlashMode.tarbz2 d m = Call.mount d.rootfs_device (lit "/oldroot_remount/") m.rootfs_fs_type
remount FlashMode.ubi_loop_subdir d m =
    Call.mount d.rootfs_device (lit "/oldroot_remount/") (lit "ext4")
remount FlashMode.tarxz_ubi d m = Call.mount d.rootfs_device (lit "/oldroot_remount/") (lit "ext4")
remount _ d m = Call.mount m.ubi_fs_name (lit "/oldroot_remount/") (lit "ubifs")

-- The links for autofs, and what restarts autofs and init.
abbrev pub restart_calls : List Call
restart_calls =
    Call.symlink (lit "/bin/busybox") (lit "/bin/mount")
    ∷ Call.symlink (lit "/bin/busybox") (lit "/bin/umount")
    ∷ sys (lit "/bin/automount")
    ∷ sys (lit "exec init u")
    ∷ Call.sleep 3
    ∷ []

abbrev pub move_calls : List Call
move_calls =
    Call.mount_move (lit "/oldroot/dev/") (lit "dev/")
    ∷ Call.mount_move (lit "/oldroot/proc/") (lit "proc/")
    ∷ Call.mount_move (lit "/oldroot/sys/") (lit "sys/")
    ∷ Call.mount_move (lit "/oldroot/var/volatile") (lit "var/volatile/")
    ∷ Call.symlink (lit "/var/volatile/tmp") (lit "/tmp")
    ∷ []

module _ (env : Env) where
  unfoldable pub exec_fuser_kill : Bool → M Bool
  exec_fuser_kill no_write =
      run_unless env no_write Tool.fuser (lit "-k" ∷ lit "-m" ∷ lit "/oldroot/" ∷ [])

  -- One fork: the parent exits.
  unfoldable pub fork_away : M Daemon → M Daemon
  fork_away next = do
    pid ← call env Call.fork
    if is_negative pid
        then pure Daemon.no_daemon
        else if is_positive pid
        then pure Daemon.is_parent
        else next

  unfoldable pub daemonize : M Daemon
  unfolding fork_away
  daemonize = fork_away do
    sid ← call env Call.setsid
    if is_negative sid then pure Daemon.no_daemon else fork_away (pure Daemon.is_daemon)

  -- `if (ret != 0) return 0;`
  abbrev pub fail_if : ℤ → Option Bool
  fail_if ret = if is_nonzero ret then some false else none

  -- `if (ret != 0) { ...; return 0; }`
  abbrev pub fail_with : ℤ → List Call → M (Option Bool)
  fail_with ret calls = if is_nonzero ret then (do tell_all calls; pure (some false)) else pure none

  unfoldable pub copy_libcrypt : Bool → M (Option Bool)
  copy_libcrypt multilib = do
    ret ← call env (cp_arf (lib_pair multilib [] (lit "/libcrypt*") []))
    if is_nonzero ret
        then (do
          ret ← call env (cp_arf (lib_pair multilib (lit "/usr") (lit "/libcrypt*") []))
          pure (fail_if ret))
        else pure none

  -- The directories and files of the new root.
  unfoldable pub make_newroot : Bool → Bool → Bytes → M (Option Bool)
  make_newroot multilib android rootfs_mount_point = do
    ret ← call_all env (new_directories multilib android rootfs_mount_point)
    pure (fail_if ret)

  unfoldable pub copy_binaries : Bool → Bool → M (Option Bool)
  copy_binaries multilib android = do
    ret ← call_all env (binaries multilib android)
    pure (fail_if ret)

  unfoldable pub copy_automount : Bool → M (Option Bool)
  copy_automount multilib = do tell_all (automount_files multilib); pure none

  unfoldable pub switch_runmode : M (Option Bool)
  switch_runmode = do
    ret ← call env (sys (lit "init 2"))
    fail_with ret
        (Call.set_error_text (lit "Error switching runmode! Abort flashing.") ∷ Call.sleep 5 ∷ [])

  unfoldable pub stop_e2 : M (Option Bool)
  stop_e2 = do
    tell (Call.set_step (lit "Wait until E2 is stopped"))
    stopped ← check_e2_stopped env
    if stopped then pure none else do
      tell (Call.set_error_text (lit "Error E2 can't be stopped! Abort flashing."))
      tell (sys (lit "init 3"))
      pure (some false)

  abbrev pub reopen_calls : ℕ → List Call
  reopen_calls steps =
      Call.close_framebuffer
      ∷ Call.open_framebuffer steps
      ∷ Call.show_main_window true
      ∷ Call.set_overall_text (lit "Flashing image")
      ∷ Call.set_step_without_incr (lit "Wait until E2 is stopped")
      ∷ Call.sleep 2
      ∷ []

  unfoldable pub reopen_framebuffer : ℕ → M (Option Bool)
  reopen_framebuffer steps = do tell_all (reopen_calls steps); pure none

  unfoldable pub pivot : M (Option Bool)
  pivot = do
    ret ← call env (Call.pivot_root (lit "/newroot/") (lit "oldroot"))
    fail_with ret (
        Call.set_error_text (lit "Error pivot_root! Abort flashing.")
        ∷ Call.sleep 5
        ∷ sys (lit "init 3")
        ∷ [])

  -- The end of the error paths behind `pivot_root`.
  abbrev pub give_up : Bytes → Bytes → List Call
  give_up text1 text2 =
      Call.set_error_text1 text1 ∷ Call.set_error_text2 text2 ∷ Call.sleep 30 ∷ Call.reboot ∷ []

  unfoldable pub move_mounts : M (Option Bool)
  move_mounts = do
    tell (Call.chdir (lit "/"))
    ret ← call_all env move_calls
    fail_with ret (
        give_up (lit "Error move mounts to newroot. Abort flashing!")
          (lit "Rebooting in 30 seconds!"))

  -- From the move of /media to the second wait for the killed processes.
  unfoldable pub release_oldroot : Bool → Mounts → M (Option Bool)
  unfolding exec_fuser_kill
  release_oldroot no_write m = do
    ret ← call env (Call.mount_move (lit "/oldroot/media/") (lit "media/"))
    tell_all (
        on (move_image_mount m.rootfs_mount_point ret)
          (Call.mount_move (lit "/oldroot" ++ m.rootfs_mount_point) m.rootfs_mount_point ∷ []))
    tell_all (map release m.mountlist)
    tell_all restart_calls
    exec_fuser_kill no_write
    tell (Call.sleep 3)
    pure none

  -- From `umount("/oldroot/newroot")` on.
  unfoldable pub umount_oldroot : Devices → Mounts → M (Option Bool)
  umount_oldroot d m = do
    tell (Call.umount (lit "/oldroot/newroot"))
    unmounted ← call env (Call.umount (lit "/oldroot/"))
    if is_remounted d.rootfs_flash_mode
        then (do
          ret ← call env (remount d.rootfs_flash_mode d m)
          fail_with ret (
              give_up (lit "Error remounting root! Abort flashing.")
                (lit "Rebooting in 30 seconds")))
        else if is_nonzero unmounted
        then (do
          ret ← call env (Call.remount_read_only (lit "/oldroot/"))
          fail_with ret (
              give_up (lit "Error remounting root ro! Abort flashing.")
                (lit "Rebooting in 30 seconds")))
        else pure none

  abbrev pub umount_rootfs_steps :
      Bool → Bool → Bool → Devices → Mounts → ℕ → List (M (Option Bool))
  umount_rootfs_steps multilib android no_write d m steps =
      make_newroot multilib android m.rootfs_mount_point
      ∷ copy_binaries multilib android
      ∷ copy_libcrypt multilib
      ∷ copy_automount multilib
      ∷ switch_runmode
      ∷ stop_e2
      ∷ reopen_framebuffer steps
      ∷ pivot
      ∷ move_mounts
      ∷ release_oldroot no_write m
      ∷ umount_oldroot d m
      ∷ []

  unfoldable pub umount_rootfs : Bool → Bool → Devices → Mounts → ℕ → M Bool
  umount_rootfs android no_write d m steps = do
    lib64 ← ask (λ t. env.entries t (lit "/lib64"))
    run_steps (umount_rootfs_steps (is_some lib64) android no_write d m steps) true
