-- ===== src/Protocol/Runs.antt =====
-- `main` calls the functions of fb.c in the right order.
use ofgwrite.Base.{Bool, true, false, Option, none, some, [], ◌∷◌, ◌++◌, refl, if◌then◌else◌, ◌∙◌}
use ofgwrite.Base.Calls.{Env, Call, M, Trace, run_steps, tell_all, pure, tell, ◌>>=◌, ◌>>◌}
use ofgwrite.Base.Steps.{Step, Ends, After, run_steps-cons, run_steps-append}
use ofgwrite.Base.Text.{Bytes, lit}
use ofgwrite.Flash.Dispatch.{rootfs_flash}
use ofgwrite.Flash.Ext4.{Stream}
use ofgwrite.Main.Android.{Exit}
use ofgwrite.Main.Shown.{finish_calls, rootfs_failed, kernel_failed, kernel_calls}
use ofgwrite.Main.{
  check_env, kill_processes, take_over, mount_other, make_sub_dir, flash_rootfs_step,
  flash_kernel_step, run_kernel_flash, android_step, finish, flash_image, flash_only_kernel,
  flash_setup, by_result, end_kernel, takes_over, main, flash_prepared, end_with,
}
use ofgwrite.Prepare.{Inputs, Setup, prepare}
use ofgwrite.Protocol.{is_quiet, Keeps, keeps, status, Status}
use ofgwrite.Protocol.Flash.{kernel_flash-Keeps, rootfs_flash-Keeps}
use ofgwrite.Protocol.Takeover.{IsOpen}
use ofgwrite.Protocol.Android.{create_kernel_img-Keeps}
use ofgwrite.Protocol.Starts.{
  IsOrderly, IsFresh, IsHidden, Ended, kept, check_env-Step, kill_processes-Step, take_over-Step,
  mount_other-Step,
}

module _ (env : Env) (s : Setup) where
  -- An error that closes the framebuffer.
  rootfs_failed-IsHidden :
      (b : Bool) (t : Trace) → IsOpen t → IsHidden (tell_all (rootfs_failed b) t).1
  unfolding status lit
  rootfs_failed-IsHidden true t h = rw h refl
  rootfs_failed-IsHidden false t h = rw h refl

  kernel_failed-IsHidden :
      (b : Bool) (t : Trace) → IsOpen t → IsHidden (tell_all (kernel_failed b) t).1
  unfolding status lit
  kernel_failed-IsHidden true t h = rw h refl
  kernel_failed-IsHidden false t h = rw h refl

  make_sub_dir-Keeps : Keeps (make_sub_dir env s)
  unfolding make_sub_dir is_quiet
  make_sub_dir-Keeps = search keeps

  by_result-Step :
      (flashed : Option Bool) (good bad : M (Option Exit))
      → Step IsOpen IsOpen Ended good
      → Step IsOpen IsOpen Ended bad
      → Step IsOpen IsOpen Ended (by_result flashed good bad)
  by_result-Step none good bad hg hb t h = (Status.shown, h)
  by_result-Step (some true) good bad hg hb t h = hg t h
  by_result-Step (some false) good bad hg hb t h = hb t h

  flash_rootfs-Step : Step IsOpen IsOpen Ended (flash_rootfs_step env s)
  unfolding flash_rootfs_step Keeps
  flash_rootfs-Step t h =
      let r = rootfs_flash env s.options s.boot s.devices s.images s.mounts.rootfs_type t in
      by_result-Step r.0 (pure none) (end_with (rootfs_failed s.stop_e2_needed) Exit.failure)
        (λ t' o. o) (λ t' o. (Status.hidden, rootfs_failed-IsHidden s.stop_e2_needed t' o)) r.1
        (rootfs_flash-Keeps env s.options s.boot s.devices s.images s.mounts.rootfs_type t ∙ h)

  run_kernel_flash-Keeps : (file : Option Stream) → Keeps (run_kernel_flash env s file)
  unfolding run_kernel_flash
  run_kernel_flash-Keeps file =
      kernel_flash-Keeps env s.devices.kernel_flash_mode s.devices.kernel_device
        s.images.kernel_filename file s.images.kernel_file_size s.options.no_write

  synced-Step : Step IsOpen IsOpen Ended (do tell Call.sync; pure none)
  unfolding status
  synced-Step t h = h

  flash_kernel-Step :
      (file : Option Stream) → Step IsOpen IsOpen Ended (flash_kernel_step env s file)
  unfolding flash_kernel_step Keeps
  flash_kernel-Step file t h = go s.options.flash_kernel
    where
      go :
          (b : Bool)
          → After IsOpen Ended (
              (if b
                  then (do
                    flashed ← run_kernel_flash env s file
                    by_result flashed
                        (do tell Call.sync; pure none)
                        (end_with (kernel_failed s.stop_e2_needed) Exit.failure))
                  else pure none)
                t)
      go true =
          let r = run_kernel_flash env s file t in
          by_result-Step r.0 (do tell Call.sync; pure none)
            (end_with (kernel_failed s.stop_e2_needed) Exit.failure) synced-Step
            (λ t' o. (Status.hidden, kernel_failed-IsHidden s.stop_e2_needed t' o)) r.1
            (run_kernel_flash-Keeps file t ∙ h)
      go false = h

  android_step-Keeps :
      (digest : Bytes → Option Bytes) (boxname : Bytes) → Keeps (android_step env s digest boxname)
  unfolding android_step
  android_step-Keeps digest boxname =
      search (keeps, create_kernel_img-Keeps env digest boxname s.devices.rootfs_device)

  finish-IsHidden : (a b : Bool) (t : Trace) → IsOpen t → IsHidden (tell_all (finish_calls a b) t).1
  unfolding status lit
  finish-IsHidden true true t h = rw h refl
  finish-IsHidden true false t h = rw h refl
  finish-IsHidden false true t h = rw h refl
  finish-IsHidden false false t h = rw h refl

  finish-Step : Step IsOpen IsHidden Ended (finish env s)
  unfolding finish
  finish-Step t h = finish-IsHidden (takes_over env s) s.stop_e2_needed t h

  flash_image-IsOrderly :
      (digest : Bytes → Option Bytes) (boxname : Bytes) (file : Option Stream)
      → Ends IsFresh Ended (flash_image env s digest boxname file)
  unfolding flash_image run_steps
  flash_image-IsOrderly digest boxname file =
      let middle =
        take_over env s
        ∷ mount_other env s
        ∷ make_sub_dir env s
        ∷ flash_rootfs_step env s
        ∷ flash_kernel_step env s file
        ∷ android_step env s digest boxname
        ∷ [] in
      let last = finish env s ∷ [] in
      run_steps-cons IsFresh IsFresh Ended (check_env env s) (kill_processes env s ∷ middle ++ last)
        Exit.success (check_env-Step env s)
        (run_steps-cons IsFresh IsOpen Ended (kill_processes env s) (middle ++ last) Exit.success
          (kill_processes-Step env s)
          (run_steps-append IsOpen Ended middle last Exit.success
            (
              take_over-Step env s,
              (
                mount_other-Step env s,
                (
                  kept env s _ make_sub_dir-Keeps,
                  (
                    flash_rootfs-Step,
                    (
                      flash_kernel-Step file,
                      (kept env s _ (android_step-Keeps digest boxname), tt),
                    ),
                  ),
                ),
              ),
            )
            (run_steps-cons IsOpen IsHidden Ended (finish env s) [] Exit.success finish-Step
              (λ t h. (Status.hidden, h)))))

  end_kernel-IsOrderly : (flashed : Option Bool) → Ends IsOpen Ended (end_kernel env s flashed)
  unfolding status lit
  end_kernel-IsOrderly none t h = (Status.shown, h)
  end_kernel-IsOrderly (some true) t h = go s.options.quiet
    where
      go :
          (b : Bool)
          → IsOrderly (
              Call.close_framebuffer
              ∷ (tell_all
                  (if b
                    then []
                    else Call.set_step (lit "Successfully flashed kernel!") ∷ Call.sleep 5 ∷ [])
                  t).1)
      go true = (Status.hidden, rw h refl)
      go false = (Status.hidden, rw h refl)
  end_kernel-IsOrderly (some false) t h = (Status.hidden, rw h refl)

  kernel_calls-IsOpen : (t : Trace) → IsFresh t → IsOpen (tell_all kernel_calls t).1
  unfolding status lit
  kernel_calls-IsOpen t h = rw h refl

  flash_only_kernel-IsOrderly :
      (file : Option Stream) → Ends IsFresh Ended (flash_only_kernel env s file)
  unfolding flash_only_kernel Keeps
  flash_only_kernel-IsOrderly file t h =
      let t' = (tell_all kernel_calls t).1 in
      end_kernel-IsOrderly (run_kernel_flash env s file t').0 (run_kernel_flash env s file t').1
        (run_kernel_flash-Keeps file t' ∙ kernel_calls-IsOpen t h)

  flash_setup-IsOrderly :
      (digest : Bytes → Option Bytes) (boxname : Bytes) (file : Option Stream)
      → Ends IsFresh Ended (flash_setup env s digest boxname file)
  unfolding flash_setup status
  flash_setup-IsOrderly digest boxname file t h = go s.options.flash_rootfs s.options.flash_kernel
    where
      go :
          (rootfs kernel : Bool)
          → let r =
              (if rootfs
                  then flash_image env s digest boxname file
                  else if kernel
                  then flash_only_kernel env s file
                  else do tell Call.close_framebuffer; pure Exit.success)
                t in
            IsOrderly r.1
      go true kernel = flash_image-IsOrderly digest boxname file t h
      go false true = flash_only_kernel-IsOrderly file t h
      go false false = (Status.fresh, rw h refl)

-- However the program ends, it has called the functions of fb.c in an order in which the main window is
-- painted only while the framebuffer is open, the framebuffer is opened with some steps and only where it
-- is not open, and it is closed only where it is open, or where it has
-- never been opened; and every text has at most 45 characters, which can be printed.
pub main-IsOrderly :
    (env : Env) (digest : Bytes → Option Bytes) (file : Option Stream) (inp : Inputs)
    → IsOrderly (main env digest file inp []).1
unfolding main status
main-IsOrderly env digest file inp = go (prepare inp)
  where
    go : (o : Option Setup) → IsOrderly (flash_prepared env digest inp.probe.boxname file o []).1
    go none = (Status.fresh, refl)
    go (some s) = flash_setup-IsOrderly env s digest inp.probe.boxname file [] refl
