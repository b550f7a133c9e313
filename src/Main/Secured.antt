-- ===== src/Main/Secured.antt =====
-- The running image is overwritten only behind a whole takeover.
use ofgwrite.Base.{true, false, [], ◌∷◌, ◌++◌, ◌≡◌, ◌⊎◌, Option, some, ap}
use ofgwrite.Flash.Ext4.{Stream}
use ofgwrite.Main.{main, flash_setup, flash_image, flash_rootfs_step}
use ofgwrite.Main.Stops.{is_stopped}
use ofgwrite.Base.{refl, arith, Bool-cases, inl, inr}
use ofgwrite.Base.Calls.{Env, Call, Trace, run_steps}
use ofgwrite.Base.Steps.{Step, Ends, run_steps-cons}
use ofgwrite.Base.Text.{Bytes, lit}
use ofgwrite.Prepare.{Inputs, Setup, prepare}
use ofgwrite.Takeover.{Daemon, daemonize, fork_away, umount_rootfs}
use ofgwrite.Takeover.Apart.{pivoted, pivoted-tell_all}
use ofgwrite.Takeover.Pivot.{secured, rootfs_of, umount_rootfs-secured}
use ofgwrite.Main.{check_env, kill_processes, take_over, mount_other, make_sub_dir, takes_over}
use ofgwrite.Main.Shown.{start_calls}
use ofgwrite.Main.{after_daemonize, count_steps}
use ofgwrite.Main.Android.{Exit}
use ofgwrite.Main.Flashed.{
  before_flash, rootfs_start, behind_rootfs, stopped_or_past, before_flash-Stops,
}

module _ (env : Env) (s : Setup) where
  -- The system runs from /newroot, and the old rootfs is put to use or out of use.
  abbrev pub IsTaken : Trace → Type 0
  IsTaken t =
      (pivoted env t ≡ true)
      × (secured env (rootfs_of s.devices.rootfs_flash_mode s.devices s.mounts) t ≡ true)

  -- The only call behind it makes the rootfs's directory.
  abbrev pub IsReady : Trace → Type 0
  IsReady t =
      (t' : Trace) × (t
        ≡ Call.make_directories (lit "/oldroot_remount/" ++ s.devices.rootfs_sub_dir) ∷ t')
      × IsTaken t'

  abbrev Free : Trace → Type 0
  Free t = pivoted env t ≡ false

  abbrev Reached : Exit → Trace → Type 0
  Reached exit t = exit ≡ Exit.success → IsReady t

  check_env-Free : Step Free Free Reached (check_env env s)
  unfolding check_env
  check_env-Free t h = elim (Bool-cases s.mounts.newroot_mounted) [
    | inl good ↦ rw good h
    | inr bad ↦ rw bad (λ e. cc)
  ]

  daemonize-Free : (t : Trace) → Free t → Free (daemonize env t).1
  unfolding daemonize fork_away pivoted
  daemonize-Free t h = ground (arith, h)

  module _ (over : takes_over env s ≡ true) where
    kill_processes-Free : Step Free Free Reached (kill_processes env s)
    unfolding kill_processes
    kill_processes-Free t h =
        simp over (simp (pivoted-tell_all env (start_calls (count_steps s) true) t refl) h)

    after_daemonize-Taken : (d : Daemon) → Step Free IsTaken Reached (after_daemonize env s d)
    after_daemonize-Taken Daemon.is_parent t h = λ e. cc
    after_daemonize-Taken Daemon.no_daemon t h = λ e. cc
    after_daemonize-Taken Daemon.is_daemon t h =
        let r =
          umount_rootfs env s.options.android s.options.no_write s.devices s.mounts (count_steps s)
            t in
        elim (Bool-cases r.0) [
          | inl good ↦ rw good (
              umount_rootfs-secured env s.options.android s.options.no_write s.devices s.mounts
                (count_steps s) t h good)
          | inr bad ↦ rw bad (λ e. cc)
        ]

    take_over-Taken : Step Free IsTaken Reached (take_over env s)
    unfolding take_over
    take_over-Taken t h =
        rw over (after_daemonize-Taken (daemonize env t).0 (daemonize env t).1 (daemonize-Free t h))

    mount_other-Taken : s.stop_e2_needed ≡ true → Step IsTaken IsTaken Reached (mount_other env s)
    unfolding mount_other
    mount_other-Taken stop t h = elim (Bool-cases s.options.no_write) [
      | inl dry ↦ simp (dry, stop) h
      | inr wet ↦ simp (wet, stop) h
    ]

    make_sub_dir-Ready :
        s.options.no_write ≡ false → Step IsTaken IsReady Reached (make_sub_dir env s)
    unfolding make_sub_dir
    make_sub_dir-Ready wet t h = simp wet (t, refl, h)

last_step :
    (env : Env) (s : Setup) → Ends (IsReady env s) (Reached env s) (run_steps [] Exit.success)
unfolding run_steps
last_step env s t h = λ e. h

-- Behind all the steps in front of the flashing; where no `pivot_root` had succeeded before.
rootfs_start-IsReady :
    (env : Env) (s : Setup) (t : Trace)
    → s.options.no_write ≡ false
    → s.stop_e2_needed ≡ true
    → pivoted env t ≡ false
    → (run_steps (before_flash env s) Exit.success t).0 ≡ Exit.success
    → IsReady env s (rootfs_start env s t)
rootfs_start-IsReady env s t wet stop free reached =
    let over : takes_over env s ≡ true = simp (wet, stop) refl in
    let F = Free env s in
    let T = IsTaken env s in
    let Q = Reached env s in
    run_steps-cons F F Q (check_env env s) _ Exit.success (check_env-Free env s)
      (run_steps-cons F F Q (kill_processes env s) _ Exit.success (kill_processes-Free env s over) (
        run_steps-cons F T Q (take_over env s) _ Exit.success (take_over-Taken env s over) (
          run_steps-cons T T Q (mount_other env s) _ Exit.success
            (mount_other-Taken env s over stop)
            (run_steps-cons T (IsReady env s) Q (make_sub_dir env s) [] Exit.success
              (make_sub_dir-Ready env s over wet) (last_step env s)))))
      t free reached

-- Under these conditions the rootfs that runs is to be overwritten.
abbrev pub IsOverwriting : Setup → Type 0
IsOverwriting s =
    (s.options.flash_rootfs ≡ true) × (s.options.no_write ≡ false) × (s.stop_e2_needed ≡ true)

main-flash_image :
    (env : Env) (digest : Bytes → Option Bytes) (kernel_file : Option Stream) (inp : Inputs)
    (s : Setup) (t : Trace)
    → prepare inp ≡ some s
    → s.options.flash_rootfs ≡ true
    → main env digest kernel_file inp t ≡ flash_image env s digest inp.probe.boxname kernel_file t
unfolding main flash_setup
main-flash_image env digest kernel_file inp s t h flash = rw h (simp flash refl)

-- Where the rootfs is to be flashed and Enigma2 has to be stopped for it, and not under `-n`, `main`
-- either ends without success behind one of the five steps in front of the flashing (the check for
-- /newroot, the end of other processes, the takeover, the mount and the directory), and has done nothing
-- else; or it goes on from these steps with the flashing, and then `pivot_root` has succeeded, the last
-- call but one has mounted the rootfs on /oldroot_remount/ or put the old rootfs out of use, and the last
-- one has made the rootfs's directory. No `pivot_root` had succeeded before.
pub main-IsReady :
    (env : Env) (digest : Bytes → Option Bytes) (kernel_file : Option Stream) (inp : Inputs)
    (s : Setup) (t : Trace)
    → prepare inp ≡ some s
    → IsOverwriting s
    → pivoted env t ≡ false
    → let r = main env digest kernel_file inp t in
      (is_stopped r.0 ≡ true) × (r.1 ≡ rootfs_start env s t)
      ⊎ IsReady env s (rootfs_start env s t)
        × (r
            ≡ run_steps
                (flash_rootfs_step env s ∷ behind_rootfs env s digest inp.probe.boxname kernel_file)
                Exit.success
                (rootfs_start env s t))
unfolding flash_image
main-IsReady env digest kernel_file inp s t h (flash, wet, stop) free =
    rw (main-flash_image env digest kernel_file inp s t h flash) (
      go (
        stopped_or_past env s (before_flash env s)
          (flash_rootfs_step env s ∷ behind_rootfs env s digest inp.probe.boxname kernel_file) t
          (before_flash-Stops env s)))
  where
    go :
        {r : Exit × Trace}
        → let before = run_steps (before_flash env s) Exit.success t in
          let after =
            run_steps
              (flash_rootfs_step env s ∷ behind_rootfs env s digest inp.probe.boxname kernel_file)
              Exit.success
              before.1 in
          (is_stopped r.0 ≡ true) × (r ≡ before) ⊎ (before.0 ≡ Exit.success) × (r ≡ after)
          → (is_stopped r.0 ≡ true) × (r.1 ≡ before.1) ⊎ IsReady env s before.1 × (r ≡ after)
    go (inl (stopped, e)) = inl (stopped, ap (λ x. x.1) e)
    go (inr (reached, e)) = inr (rootfs_start-IsReady env s t wet stop free reached, e)
