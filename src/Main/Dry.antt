-- ===== src/Main/Dry.antt =====
-- What `main` does under `-n`.
use ofgwrite.Base.{Bool, true, false, ◌||◌, Option, none, some, List, [], ◌∷◌, ◌≡◌}
use ofgwrite.Base.{refl, Bool-cases, inl, inr, All, Pass, all, all-All, All-weaken}
use ofgwrite.Base.Calls.{M, Env, Call, Trace, tell_all, tell, run_steps, ◌>>◌}
use ofgwrite.Base.Steps.{Step, Ends, run_steps-cons, tell_all-All}
use ofgwrite.Base.Text.{Bytes, lit, str_eq}
use ofgwrite.Flash.Ext4.{Stream}
use ofgwrite.Flash.Dispatch.Dry.{is_dry, kernel_flash-IsDry, rootfs_flash-opened-IsDry}
use ofgwrite.Prepare.{Setup}
use ofgwrite.Main.{check_env, kill_processes, take_over, mount_other}
use ofgwrite.Main.{
  flash_image, flash_only_kernel, flash_setup, end_kernel, make_sub_dir, flash_rootfs_step,
  flash_kernel_step, android_step, finish,
}
use ofgwrite.Main.{run_kernel_flash, by_result}
use ofgwrite.Prepare.{Inputs, prepare}
use ofgwrite.Main.Shown.{kernel_only_failed, kernel_calls, start_calls, finish_calls}
use ofgwrite.Main.{count_steps, main}
use ofgwrite.Main.Shown.{rootfs_failed, kernel_failed}
use ofgwrite.Main.{end_with, go_on}
use ofgwrite.Main.Android.{Exit}

-- The directories that an earlier run may have left are released.
unfoldable pub is_cleanup : Call → Bool
is_cleanup (Call.umount path) = str_eq path (lit "/oldroot_remount/")
is_cleanup (Call.umount_detach path) =
    str_eq path (lit "/oldroot_remount/") || str_eq path (lit "/newroot/")
is_cleanup (Call.rmdir path) =
    str_eq path (lit "/oldroot_remount/") || str_eq path (lit "/newroot/")
is_cleanup _ = false

unfoldable pub is_reboot : Call → Bool
is_reboot Call.reboot = true
is_reboot _ = false

-- The calls up to an end of the program; `device` may be opened.
abbrev pub is_harmless : Bytes → Exit → Call → Bool
is_harmless device Exit.success c = is_dry (some device) c || is_cleanup c
is_harmless device Exit.failure c = is_dry (some device) c || is_reboot c
is_harmless device _ c = is_dry (some device) c

abbrev Dry : Bytes → Trace → Type 0
Dry device t = All (Pass (is_dry (some device))) t

abbrev Harmless : Bytes → Exit → Trace → Type 0
Harmless device exit t = All (Pass (is_harmless device exit)) t

dry_harmless :
    (device : Bytes) (exit : Exit) (c : Call)
    → is_dry (some device) c ≡ true
    → is_harmless device exit c ≡ true
dry_harmless device Exit.success c h = rw h refl
dry_harmless device Exit.failure c h = rw h refl
dry_harmless device Exit.parent c h = h
dry_harmless device Exit.undefined c h = h

Dry-Harmless : (device : Bytes) (exit : Exit) (t : Trace) → Dry device t → Harmless device exit t
Dry-Harmless device exit t h =
    All-weaken (Pass (is_dry (some device))) (Pass (is_harmless device exit)) t
      (dry_harmless device exit) h

-- Calls that all pass a test.
tell_all-Pass :
    (test : Call → Bool) (cs : List Call) (t : Trace)
    → all test cs ≡ true
    → All (Pass test) t
    → All (Pass test) (tell_all cs t).1
tell_all-Pass test cs t hs h = tell_all-All (Pass test) cs t (all-All test cs hs) h

module _ (env : Env) (s : Setup) (dry : s.options.no_write ≡ true) where
  abbrev kernel : Bytes
  kernel = s.devices.kernel_device

  abbrev IsDryStep : M (Option Exit) → Type 0
  IsDryStep m = Step (Dry kernel) (Dry kernel) (Harmless kernel) m

  check_env-Dry : IsDryStep (check_env env s)
  unfolding check_env
  check_env-Dry t h = elim (Bool-cases s.mounts.newroot_mounted) [
    | inl good ↦ rw good h
    | inr bad ↦ rw bad (Dry-Harmless kernel Exit.failure t h)
  ]

  kill_processes-Dry : IsDryStep (kill_processes env s)
  unfolding kill_processes is_dry
  kill_processes-Dry t h =
      simp dry (tell_all-Pass (is_dry (some kernel)) (start_calls (count_steps s) false) t refl h)

  take_over-Dry : IsDryStep (take_over env s)
  unfolding take_over
  take_over-Dry t h = simp dry h

  mount_other-Dry : IsDryStep (mount_other env s)
  unfolding mount_other
  mount_other-Dry t h = simp dry h

  make_sub_dir-Dry : IsDryStep (make_sub_dir env s)
  unfolding make_sub_dir
  make_sub_dir-Dry t h = simp dry h

  by_result-Dry :
      (flashed : Option Bool) (good : M (Option Exit)) (calls : List Call)
      → IsDryStep good
      → all (is_harmless kernel Exit.failure) calls ≡ true
      → IsDryStep (by_result flashed good (end_with calls Exit.failure))
  by_result-Dry none good calls g c t h = Dry-Harmless kernel Exit.undefined t h
  by_result-Dry (some true) good calls g c t h = g t h
  by_result-Dry (some false) good calls g c t h =
      tell_all-Pass (is_harmless kernel Exit.failure) calls t c
        (Dry-Harmless kernel Exit.failure t h)

  rootfs_failed-harmless :
      (stopped : Bool) → all (is_harmless kernel Exit.failure) (rootfs_failed stopped) ≡ true
  unfolding is_dry is_reboot
  rootfs_failed-harmless true = refl
  rootfs_failed-harmless false = refl

  kernel_failed-harmless :
      (stopped : Bool) → all (is_harmless kernel Exit.failure) (kernel_failed stopped) ≡ true
  unfolding is_dry is_reboot
  kernel_failed-harmless true = refl
  kernel_failed-harmless false = refl

  flash_rootfs_step-Dry : IsDryStep (flash_rootfs_step env s)
  unfolding flash_rootfs_step
  flash_rootfs_step-Dry t h =
      by_result-Dry _ go_on (rootfs_failed s.stop_e2_needed) (λ t h. h)
        (rootfs_failed-harmless s.stop_e2_needed) _
        (rootfs_flash-opened-IsDry env (some kernel) s.options s.boot s.devices s.images
          s.mounts.rootfs_type t dry h)

  run_kernel_flash-Dry :
      (kernel_file : Option Stream) (t : Trace)
      → Dry kernel t
      → Dry kernel (run_kernel_flash env s kernel_file t).1
  unfolding run_kernel_flash
  run_kernel_flash-Dry kernel_file t h = simp dry (
      kernel_flash-IsDry env s.devices.kernel_flash_mode s.devices.kernel_device
        s.images.kernel_filename kernel_file s.images.kernel_file_size t h)

  flash_kernel_step-Dry :
      (kernel_file : Option Stream) → IsDryStep (flash_kernel_step env s kernel_file)
  unfolding flash_kernel_step is_dry
  flash_kernel_step-Dry kernel_file t h = elim (Bool-cases s.options.flash_kernel) [
    | inl flash ↦ simp flash (
        by_result-Dry _ (do tell Call.sync; go_on) (kernel_failed s.stop_e2_needed)
          (λ t h. (refl, h)) (kernel_failed-harmless s.stop_e2_needed) _
          (run_kernel_flash-Dry kernel_file t h))
    | inr no_flash ↦ simp no_flash h
  ]

  android_step-Dry :
      (digest : Bytes → Option Bytes) (boxname : Bytes)
      → s.options.android ≡ false
      → IsDryStep (android_step env s digest boxname)
  unfolding android_step
  android_step-Dry digest boxname plain t h = simp plain h

  -- The last step releases the directories.
  finish_calls-harmless :
      (stop : Bool) → all (is_harmless kernel Exit.success) (finish_calls false stop) ≡ true
  unfolding is_dry is_cleanup str_eq lit
  finish_calls-harmless true = refl
  finish_calls-harmless false = refl

  finish-Dry : Step (Dry kernel) (Harmless kernel Exit.success) (Harmless kernel) (finish env s)
  unfolding finish
  finish-Dry t h = simp dry (
      tell_all-Pass (is_harmless kernel Exit.success) (finish_calls false s.stop_e2_needed) t
        (finish_calls-harmless s.stop_e2_needed) (Dry-Harmless kernel Exit.success t h))

  then_success : Ends (Harmless kernel Exit.success) (Harmless kernel) (run_steps [] Exit.success)
  unfolding run_steps
  then_success t h = h

  then_step :
      (step : M (Option Exit)) (steps : List (M (Option Exit)))
      → IsDryStep step
      → Ends (Dry kernel) (Harmless kernel) (run_steps steps Exit.success)
      → Ends (Dry kernel) (Harmless kernel) (run_steps (step ∷ steps) Exit.success)
  then_step step steps f others =
      run_steps-cons (Dry kernel) (Dry kernel) (Harmless kernel) step steps Exit.success f others

  flash_image-Harmless :
      (digest : Bytes → Option Bytes) (boxname : Bytes) (kernel_file : Option Stream)
      → s.options.android ≡ false
      → Ends (Dry kernel) (Harmless kernel) (flash_image env s digest boxname kernel_file)
  unfolding flash_image
  flash_image-Harmless digest boxname kernel_file plain = then_step _ _ check_env-Dry (
      then_step _ _ kill_processes-Dry (
        then_step _ _ take_over-Dry (
          then_step _ _ mount_other-Dry (
            then_step _ _ make_sub_dir-Dry (
              then_step _ _ flash_rootfs_step-Dry (
                then_step _ _ (flash_kernel_step-Dry kernel_file) (
                  then_step _ _ (android_step-Dry digest boxname plain) (
                    run_steps-cons (Dry kernel) (Harmless kernel Exit.success) (Harmless kernel) _ _
                      Exit.success finish-Dry then_success))))))))

  end_kernel-Harmless :
      (flashed : Option Bool) → Ends (Dry kernel) (Harmless kernel) (end_kernel env s flashed)
  unfolding is_dry
  end_kernel-Harmless none t h = h
  end_kernel-Harmless (some true) t h = elim (Bool-cases s.options.quiet) [
    | inl quiet ↦
        simp quiet (Dry-Harmless kernel Exit.success (Call.close_framebuffer ∷ t) (refl, h))
    | inr loud ↦ simp loud (
        tell_all-Pass (is_harmless kernel Exit.success)
          (Call.set_step (lit "Successfully flashed kernel!")
            ∷ Call.sleep 5
            ∷ Call.close_framebuffer
            ∷ [])
          t refl (Dry-Harmless kernel Exit.success t h))
  ]
  end_kernel-Harmless (some false) t h =
      tell_all-Pass (is_harmless kernel Exit.failure) kernel_only_failed t refl
        (Dry-Harmless kernel Exit.failure t h)

  flash_only_kernel-Harmless :
      (kernel_file : Option Stream)
      → Ends (Dry kernel) (Harmless kernel) (flash_only_kernel env s kernel_file)
  unfolding flash_only_kernel is_dry
  flash_only_kernel-Harmless kernel_file t h =
      end_kernel-Harmless (run_kernel_flash env s kernel_file (tell_all kernel_calls t).1).0 _ (
        run_kernel_flash-Dry kernel_file _
          (tell_all-Pass (is_dry (some kernel)) kernel_calls t refl h))

  flash_setup-Harmless :
      (digest : Bytes → Option Bytes) (boxname : Bytes) (kernel_file : Option Stream)
      → s.options.android ≡ false
      → Ends (Dry kernel) (Harmless kernel) (flash_setup env s digest boxname kernel_file)
  unfolding flash_setup is_dry
  flash_setup-Harmless digest boxname kernel_file plain t h =
      elim (Bool-cases s.options.flash_rootfs) [
        | inl rootfs ↦ simp rootfs (flash_image-Harmless digest boxname kernel_file plain t h)
        | inr no_rootfs ↦ elim (Bool-cases s.options.flash_kernel) [
          | inl kernel ↦ simp (no_rootfs, kernel) (flash_only_kernel-Harmless kernel_file t h)
          | inr no_kernel ↦
              simp (no_rootfs, no_kernel)
                (Dry-Harmless kernel Exit.success (Call.close_framebuffer ∷ t) (refl, h))
        ]
      ]

-- Under `-n` on a box that is not an Android box, and behind only such calls, `main` makes only calls
-- that ask, show, change the directory, synchronise and wait, and may open the kernel's device to write
-- it, which empties it if it is a regular file, but writes no block to it; but where it succeeds it also
-- unmounts and removes "/oldroot_remount/" and "/newroot/", and where it fails it may reboot.
pub main-IsHarmless :
    (env : Env) (digest : Bytes → Option Bytes) (kernel_file : Option Stream) (inp : Inputs)
    (s : Setup) (t : Trace)
    → prepare inp ≡ some s
    → s.options.no_write ≡ true
    → s.options.android ≡ false
    → All (Pass (is_dry (some s.devices.kernel_device))) t
    → let r = main env digest kernel_file inp t in
      All (Pass (is_harmless s.devices.kernel_device r.0)) r.1
unfolding main
main-IsHarmless env digest kernel_file inp s t h dry plain before =
    rw h (flash_setup-Harmless env s dry digest inp.probe.boxname kernel_file plain t before)
