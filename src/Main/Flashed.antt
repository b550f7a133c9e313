-- ===== src/Main/Flashed.antt =====
-- What `main` has flashed when it ends with EXIT_SUCCESS.
use ofgwrite.Base.{Bool, true, false, Option, none, some, List, [], ◌∷◌, ◌++◌, ◌≡◌, All}
use ofgwrite.Base.{◌⊎◌, refl, Bool-cases, inl, inr, if◌then◌else◌}
use ofgwrite.Base.Calls.{M, Env, Call, Trace, run_steps, resume, pure, tell, tell_all, ◌>>◌}
use ofgwrite.Base.Steps.{After}
use ofgwrite.Base.Text.{Bytes}
use ofgwrite.Flash.Ext4.{Stream}
use ofgwrite.Flash.Dispatch.{rootfs_flash}
use ofgwrite.Main.{check_env, kill_processes, take_over, mount_other, make_sub_dir, finish}
use ofgwrite.Main.{
  flash_rootfs_step, flash_kernel_step, android_step, run_kernel_flash, flash_image,
}
use ofgwrite.Main.{flash_only_kernel, flash_setup, by_result, end_kernel, go_on, end_with}
use ofgwrite.Prepare.{Inputs, Setup, prepare}
use ofgwrite.Main.{main}
use ofgwrite.Main.Shown.{kernel_calls, rootfs_failed, kernel_failed}
use ofgwrite.Main.Android.{Exit}
use ofgwrite.Main.Stops.{Nothing, Stopped, Stops, is_stopped, check_env-Stops, kill_processes-Stops}
use ofgwrite.Main.Stops.{take_over-Stops, mount_other-Stops, make_sub_dir-Stops}

module _ (env : Env) (s : Setup) where
  abbrev pub before_flash : List (M (Option Exit))
  before_flash =
      check_env env s
      ∷ kill_processes env s
      ∷ take_over env s
      ∷ mount_other env s
      ∷ make_sub_dir env s
      ∷ []

  -- The trace when the flashing of the rootfs starts.
  abbrev pub rootfs_start : Trace → Trace
  rootfs_start t = (run_steps before_flash Exit.success t).1

  abbrev pub flashed_rootfs : Trace → Option Bool × Trace
  flashed_rootfs t =
      rootfs_flash env s.options s.boot s.devices s.images s.mounts.rootfs_type (rootfs_start t)

  abbrev pub opened : Trace → Trace
  opened t = (tell_all kernel_calls t).1

  -- The trace when the flashing of the kernel starts.
  abbrev pub kernel_start : Trace → Trace
  kernel_start t = if s.options.flash_rootfs then (flashed_rootfs t).1 else opened t

  -- Steps that never end with success have not ended the program when it succeeds.
  past_steps :
      (steps others : List (M (Option Exit))) (t : Trace)
      → All (Stops env s) steps
      → (run_steps (steps ++ others) Exit.success t).0 ≡ Exit.success
      → (run_steps others Exit.success (run_steps steps Exit.success t).1).0 ≡ Exit.success
  unfolding run_steps
  past_steps [] others t stops h = h
  past_steps (step ∷ steps) others t stops h =
      go (step t) (stops.0 t tt) h (λ t'. past_steps steps others t' stops.1)
    where
      go :
          (r : Option Exit × Trace)
          → After Nothing Stopped r
          → (resume pure (run_steps (steps ++ others) Exit.success) r.0 r.1).0 ≡ Exit.success
          → ((t' : Trace)
              → (run_steps (steps ++ others) Exit.success t').0 ≡ Exit.success
              → (run_steps others Exit.success (run_steps steps Exit.success t').1).0
                ≡ Exit.success)
          → (run_steps others Exit.success (resume pure (run_steps steps Exit.success) r.0 r.1).1).0
            ≡ Exit.success
      go (none, t') after h rest = rest t' h
      go (some Exit.success, t') after h rest = cc
      go (some Exit.undefined, t') after h rest = cc
      go (some Exit.failure, t') after h rest = cc
      go (some Exit.parent, t') after h rest = cc

  -- Such steps have either ended the program, or the others follow.
  pub stopped_or_past :
      (steps others : List (M (Option Exit))) (t : Trace)
      → All (Stops env s) steps
      → let r = run_steps (steps ++ others) Exit.success t in
        let before = run_steps steps Exit.success t in
        (is_stopped r.0 ≡ true) × (r ≡ before)
        ⊎ (before.0 ≡ Exit.success) × (r ≡ run_steps others Exit.success before.1)
  unfolding run_steps
  stopped_or_past [] others t stops = inr (refl, refl)
  stopped_or_past (step ∷ steps) others t stops =
      go (step t) (stops.0 t tt) (λ t'. stopped_or_past steps others t' stops.1)
    where
      go :
          (r : Option Exit × Trace)
          → After Nothing Stopped r
          → ((t' : Trace)
              → let r' = run_steps (steps ++ others) Exit.success t' in
                let before = run_steps steps Exit.success t' in
                (is_stopped r'.0 ≡ true) × (r' ≡ before)
                ⊎ (before.0 ≡ Exit.success) × (r' ≡ run_steps others Exit.success before.1))
          → let r' = resume pure (run_steps (steps ++ others) Exit.success) r.0 r.1 in
            let before = resume pure (run_steps steps Exit.success) r.0 r.1 in
            (is_stopped r'.0 ≡ true) × (r' ≡ before)
            ⊎ (before.0 ≡ Exit.success) × (r' ≡ run_steps others Exit.success before.1)
      go (none, t') after rest = rest t'
      go (some exit, t') after rest = inl (after, refl)

  pub before_flash-Stops : All (Stops env s) before_flash
  before_flash-Stops = (
    check_env-Stops env s,
    (
      kill_processes-Stops env s,
      (take_over-Stops env s, (mount_other-Stops env s, (make_sub_dir-Stops env s, tt))),
    ),
  )

  abbrev pub behind_rootfs : (Bytes → Option Bytes) → Bytes → Option Stream → List (M (Option Exit))
  behind_rootfs digest boxname kernel_file =
      flash_kernel_step env s kernel_file ∷ android_step env s digest boxname ∷ finish env s ∷ []

  past_rootfs :
      (others : List (M (Option Exit))) (t : Trace)
      → (run_steps (flash_rootfs_step env s ∷ others) Exit.success t).0 ≡ Exit.success
      → let r = rootfs_flash env s.options s.boot s.devices s.images s.mounts.rootfs_type t in
        (r.0 ≡ some true) × ((run_steps others Exit.success r.1).0 ≡ Exit.success)
  unfolding run_steps flash_rootfs_step
  past_rootfs others t h =
      go (rootfs_failed s.stop_e2_needed)
        (rootfs_flash env s.options s.boot s.devices s.images s.mounts.rootfs_type t) h
    where
      go :
          (bad : List Call) (r : Option Bool × Trace)
          → (resume pure
              (run_steps others Exit.success)
              (by_result r.0 go_on (end_with bad Exit.failure) r.1).0
              (by_result r.0 go_on (end_with bad Exit.failure) r.1).1).0
            ≡ Exit.success
          → (r.0 ≡ some true) × ((run_steps others Exit.success r.1).0 ≡ Exit.success)
      go bad (none, t') h = cc
      go bad (some true, t') h = (refl, h)
      go bad (some false, t') h = cc

  past_kernel :
      (kernel_file : Option Stream) (others : List (M (Option Exit))) (t : Trace)
      → s.options.flash_kernel ≡ true
      → (run_steps (flash_kernel_step env s kernel_file ∷ others) Exit.success t).0 ≡ Exit.success
      → (run_kernel_flash env s kernel_file t).0 ≡ some true
  unfolding run_steps flash_kernel_step
  past_kernel kernel_file others t flash h =
      go (kernel_failed s.stop_e2_needed) (run_kernel_flash env s kernel_file t) (simp flash at h)
    where
      go :
          (bad : List Call) (r : Option Bool × Trace)
          → (resume pure
              (run_steps others Exit.success)
              (by_result r.0 (do tell Call.sync; go_on) (end_with bad Exit.failure) r.1).0
              (by_result r.0 (do tell Call.sync; go_on) (end_with bad Exit.failure) r.1).1).0
            ≡ Exit.success
          → r.0 ≡ some true
      go bad (none, t') h = cc
      go bad (some true, t') h = refl
      go bad (some false, t') h = cc

  end_kernel-success :
      (r : Option Bool × Trace) → (end_kernel env s r.0 r.1).0 ≡ Exit.success → r.0 ≡ some true
  end_kernel-success (none, t) h = cc
  end_kernel-success (some true, t) h = refl
  end_kernel-success (some false, t) h = cc

  module _ (digest : Bytes → Option Bytes) (boxname : Bytes) (kernel_file : Option Stream) where
    flash_setup-rootfs :
        (t : Trace)
        → s.options.flash_rootfs ≡ true
        → (flash_setup env s digest boxname kernel_file t).0 ≡ Exit.success
        → ((flashed_rootfs t).0 ≡ some true)
          × ((run_steps
                (behind_rootfs digest boxname kernel_file)
                Exit.success
                (flashed_rootfs t).1).0
              ≡ Exit.success)
    unfolding flash_setup flash_image
    flash_setup-rootfs t flash h =
        past_rootfs (behind_rootfs digest boxname kernel_file) (rootfs_start t) (
          past_steps before_flash
            (flash_rootfs_step env s ∷ behind_rootfs digest boxname kernel_file) t
            before_flash-Stops (simp flash at h))

    flash_setup-kernel :
        (t : Trace)
        → s.options.flash_kernel ≡ true
        → (flash_setup env s digest boxname kernel_file t).0 ≡ Exit.success
        → (run_kernel_flash env s kernel_file (kernel_start t)).0 ≡ some true
    unfolding flash_setup flash_only_kernel
    flash_setup-kernel t flash h = elim (Bool-cases s.options.flash_rootfs) [
      | inl rootfs ↦ simp rootfs (
          past_kernel kernel_file (android_step env s digest boxname ∷ finish env s ∷ [])
            (flashed_rootfs t).1 flash (flash_setup-rootfs t rootfs h).1)
      | inr no_rootfs ↦ simp no_rootfs (
          end_kernel-success (run_kernel_flash env s kernel_file (opened t))
            (simp (no_rootfs, flash) at h))
    ]

-- If `main` ends with EXIT_SUCCESS and the rootfs is to be flashed, then `rootfs_flash` has returned 1
-- when it was called behind the steps in front of it.
pub main-rootfs_flash :
    (env : Env) (digest : Bytes → Option Bytes) (kernel_file : Option Stream) (inp : Inputs)
    (s : Setup) (t : Trace)
    → prepare inp ≡ some s
    → s.options.flash_rootfs ≡ true
    → (main env digest kernel_file inp t).0 ≡ Exit.success
    → (flashed_rootfs env s t).0 ≡ some true
unfolding main
main-rootfs_flash env digest kernel_file inp s t h flash success =
    (flash_setup-rootfs env s digest inp.probe.boxname kernel_file t flash (rw h at success)).0

-- If `main` ends with EXIT_SUCCESS and the kernel is to be flashed, then `kernel_flash` has returned 1
-- when it was called: where the rootfs is flashed as well, straight behind `rootfs_flash`.
pub main-kernel_flash :
    (env : Env) (digest : Bytes → Option Bytes) (kernel_file : Option Stream) (inp : Inputs)
    (s : Setup) (t : Trace)
    → prepare inp ≡ some s
    → s.options.flash_kernel ≡ true
    → (main env digest kernel_file inp t).0 ≡ Exit.success
    → (run_kernel_flash env s kernel_file (kernel_start env s t)).0 ≡ some true
unfolding main
main-kernel_flash env digest kernel_file inp s t h flash success =
    flash_setup-kernel env s digest inp.probe.boxname kernel_file t flash (rw h at success)
