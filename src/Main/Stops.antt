-- ===== src/Main/Stops.antt =====
-- The steps of `main` around the flashing either go on or end the program without success.
use ofgwrite.Base.{Bool, true, false, ◌&&◌, not, Option, ◌≡◌}
use ofgwrite.Base.{refl, Bool-cases, inl, inr}
use ofgwrite.Base.Int.{ℤ, is_nonzero}
use ofgwrite.Base.Calls.{M, Env, Trace}
use ofgwrite.Base.Steps.{Step}
use ofgwrite.Takeover.{Daemon, daemonize, umount_rootfs, is_remounted}
use ofgwrite.Prepare.{Setup}
use ofgwrite.Main.{check_env, kill_processes, take_over, after_daemonize, takes_over}
use ofgwrite.Main.{mount_other, make_sub_dir, finish, count_steps, after_mount}
use ofgwrite.Main.Android.{Exit}

-- A failure, or the process that is left behind.
abbrev pub is_stopped : Exit → Bool
is_stopped Exit.failure = true
is_stopped Exit.parent = true
is_stopped _ = false

abbrev pub Nothing : Trace → Type 0
Nothing t = Unit

abbrev pub Stopped : Exit → Trace → Type 0
Stopped exit t = is_stopped exit ≡ true

module _ (env : Env) (s : Setup) where
  abbrev pub Stops : M (Option Exit) → Type 0
  Stops m = Step Nothing Nothing Stopped m

  pub check_env-Stops : Stops (check_env env s)
  unfolding check_env
  check_env-Stops t h = elim (Bool-cases s.mounts.newroot_mounted) [
    | inl good ↦ rw good tt
    | inr bad ↦ rw bad refl
  ]

  pub kill_processes-Stops : Stops (kill_processes env s)
  unfolding kill_processes
  kill_processes-Stops t h = tt

  after_daemonize-Stops : (d : Daemon) → Stops (after_daemonize env s d)
  after_daemonize-Stops Daemon.is_parent t h = refl
  after_daemonize-Stops Daemon.no_daemon t h = refl
  after_daemonize-Stops Daemon.is_daemon t h =
      elim (Bool-cases
        (umount_rootfs env s.options.android s.options.no_write s.devices s.mounts (count_steps s)
          t).0) [ inl good ↦ rw good tt | inr bad ↦ rw bad refl ]

  pub take_over-Stops : Stops (take_over env s)
  unfolding take_over
  take_over-Stops t h = elim (Bool-cases (takes_over env s)) [
    | inl good ↦ rw good (after_daemonize-Stops (daemonize env t).0 (daemonize env t).1 h)
    | inr bad ↦ rw bad tt
  ]

  after_mount-Stops : (ret : ℤ) → Stops (after_mount env s ret)
  after_mount-Stops ret t h = elim (Bool-cases (is_nonzero ret)) [
    | inl bad ↦ rw bad refl
    | inr good ↦ rw good tt
  ]

  pub mount_other-Stops : Stops (mount_other env s)
  unfolding mount_other
  mount_other-Stops t h =
      elim (Bool-cases (
        not s.options.no_write
        && (not s.stop_e2_needed && is_remounted s.devices.rootfs_flash_mode))) [
          | inl good ↦ rw good (after_mount-Stops _ _ h)
          | inr bad ↦ rw bad tt
        ]

  pub make_sub_dir-Stops : Stops (make_sub_dir env s)
  unfolding make_sub_dir
  make_sub_dir-Stops t h = tt

  pub finish-Stops : Stops (finish env s)
  unfolding finish
  finish-Stops t h = tt
