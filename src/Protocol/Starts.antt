-- ===== src/Protocol/Starts.antt =====
-- The steps of `main` in front of the flashing: the framebuffer is opened, and stays open.
use ofgwrite.Base.{
  ℕ, Bool, true, false, not, ◌&&◌, Option, none, some, [], ◌∷◌, ◌≡◌, ◌==◌, refl, arith,
  if◌then◌else◌, ◌∙◌,
}
use ofgwrite.Base.Calls.{Env, Call, M, Trace, tell_all, pure, tell, ◌>>=◌, ◌>>◌}
use ofgwrite.Base.Steps.{Step, After}
use ofgwrite.Base.Int.{ℤ, is_nonzero}
use ofgwrite.Base.Text.{lit}
use ofgwrite.Takeover.{Daemon, daemonize, umount_rootfs, is_remounted}
use ofgwrite.Main.Android.{Exit}
use ofgwrite.Main.Shown.{start_calls}
use ofgwrite.Main.{
  check_env, kill_processes, take_over, after_daemonize, mount_other, mount_or_format, count_steps,
  takes_over, after_mount, end_with,
}
use ofgwrite.Prepare.{Setup}
use ofgwrite.Protocol.{is_quiet, Keeps, keeps, status, Status}
use ofgwrite.Protocol.Takeover.{
  IsOpen, Keeps-Step, daemonize-Keeps, umount_rootfs-IsOpen, remount-quiet,
}

-- No call was out of order, and no text was too long.
abbrev pub IsOrderly : Trace → Type 0
IsOrderly t = (s : Status) × (status t ≡ some s)

abbrev pub IsFresh : Trace → Type 0
IsFresh t = status t ≡ some Status.fresh

abbrev pub IsHidden : Trace → Type 0
IsHidden t = status t ≡ some Status.hidden

abbrev pub Ended : Exit → Trace → Type 0
Ended _ t = IsOrderly t

module _ (env : Env) (s : Setup) where
  pub kept : (m : M (Option Exit)) → Keeps m → Step IsOpen IsOpen Ended m
  kept m h = Keeps-Step m Ended h (λ _ _ o. (Status.shown, o))

  pub check_env-Step : Step IsFresh IsFresh Ended (check_env env s)
  unfolding check_env
  check_env-Step t h = go s.mounts.newroot_mounted
    where
      go : (b : Bool) → After IsFresh Ended ((if b then pure none else pure (some Exit.failure)) t)
      go true = h
      go false = (Status.fresh, h)

  count_steps-some : (count_steps s == 0) ≡ false
  count_steps-some = ground arith

  start-IsOpen :
      (n : ℕ) (b : Bool) (t : Trace)
      → (n == 0) ≡ false
      → IsFresh t
      → IsOpen (tell_all (start_calls n b) t).1
  unfolding status lit
  start-IsOpen n true t some_steps h = rw (h, some_steps) refl
  start-IsOpen n false t some_steps h = rw (h, some_steps) refl

  pub kill_processes-Step : Step IsFresh IsOpen Ended (kill_processes env s)
  unfolding kill_processes
  kill_processes-Step t h = start-IsOpen (count_steps s) (takes_over env s) t count_steps-some h

  closed-Step :
      (t : Trace)
      → IsOpen t
      → After IsOpen Ended (end_with (Call.close_framebuffer ∷ []) Exit.failure t)
  unfolding status
  closed-Step t h = (Status.hidden, rw h refl)

  after_daemonize-Step : (d : Daemon) → Step IsOpen IsOpen Ended (after_daemonize env s d)
  unfolding status
  after_daemonize-Step Daemon.is_parent t h = (Status.shown, h)
  after_daemonize-Step Daemon.no_daemon t h = closed-Step t h
  after_daemonize-Step Daemon.is_daemon t h =
      go
        (umount_rootfs env s.options.android s.options.no_write s.devices s.mounts (count_steps s)
          t)
        (umount_rootfs-IsOpen env (count_steps s) count_steps-some s.options.android
          s.options.no_write s.devices s.mounts t h)
    where
      go :
          (r : Bool × Trace)
          → IsOpen r.1
          → After IsOpen Ended
              ((if r.0 then pure none else end_with (Call.close_framebuffer ∷ []) Exit.failure) r.1)
      go (true, t') o = o
      go (false, t') o = closed-Step t' o

  pub take_over-Step : Step IsOpen IsOpen Ended (take_over env s)
  unfolding take_over Keeps
  take_over-Step t h = go (takes_over env s)
    where
      go :
          (b : Bool)
          → After IsOpen Ended
              ((if b then daemonize env >>= after_daemonize env s else pure none) t)
      go true =
          after_daemonize-Step (daemonize env t).0 (daemonize env t).1 (daemonize-Keeps env t ∙ h)
      go false = h

  mount_or_format-Keeps : Keeps (mount_or_format env s)
  unfolding mount_or_format is_quiet
  mount_or_format-Keeps = search (keeps, remount-quiet env) depth 14

  after_mount-Step : (ret : ℤ) → Step IsOpen IsOpen Ended (after_mount env s ret)
  unfolding status lit
  after_mount-Step ret t h = go (is_nonzero ret)
    where
      go :
          (b : Bool)
          → After IsOpen Ended (
              (if b
                  then end_with
                      (Call.set_error_text1 (lit "Error mounting root! Abort flashing.")
                        ∷ Call.sleep 3
                        ∷ Call.close_framebuffer
                        ∷ [])
                      Exit.failure
                  else pure none)
                t)
      go true = (Status.hidden, rw h refl)
      go false = h

  abbrev mount_calls : Trace → Trace
  mount_calls t = Call.mkdir (lit "/oldroot_remount") ∷ Call.set_step (lit "Mount rootfs") ∷ t

  mount_calls-IsOpen : (t : Trace) → IsOpen t → IsOpen (mount_calls t)
  unfolding status lit
  mount_calls-IsOpen t h = h

  pub mount_other-Step : Step IsOpen IsOpen Ended (mount_other env s)
  unfolding mount_other Keeps
  mount_other-Step t h =
      go (
        not s.options.no_write
        && (not s.stop_e2_needed && is_remounted s.devices.rootfs_flash_mode))
    where
      go :
          (b : Bool)
          → After IsOpen Ended (
              (if b
                  then (do
                    tell (Call.set_step (lit "Mount rootfs"))
                    tell (Call.mkdir (lit "/oldroot_remount"))
                    ret ← mount_or_format env s
                    after_mount env s ret)
                  else pure none)
                t)
      go true =
          after_mount-Step (mount_or_format env s (mount_calls t)).0
            (mount_or_format env s (mount_calls t)).1
            (mount_or_format-Keeps (mount_calls t) ∙ mount_calls-IsOpen t h)
      go false = h
