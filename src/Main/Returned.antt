-- ===== src/Main/Returned.antt =====
-- `main` uses no value that the C standard leaves open.
use ofgwrite.Base.{Bool, true, false, Option, none, some, List, [], ◌∷◌, ◌≡◌, ◌≢◌}
use ofgwrite.Base.{arith, Bool-cases, inl, inr}
use ofgwrite.Base.Calls.{M, Env, Trace, run_steps}
use ofgwrite.Base.Steps.{Step, Ends, run_steps-cons, Step-weaken}
use ofgwrite.Base.Text.{Bytes}
use ofgwrite.State.{Options, Images, Devices, Boot, FlashMode, RootfsType}
use ofgwrite.Select.Modes.{has_modes, is_kernel_mode, is_known_mode}
use ofgwrite.Flash.Ext4.{Stream}
use ofgwrite.Flash.Dispatch.{rootfs_flash, rootfs_flash_by}
use ofgwrite.Flash.Dispatch.Dry.{some_of_mode}
use ofgwrite.Main.{flash_rootfs_step, run_kernel_flash, flash_kernel_step}
use ofgwrite.Main.{android_step, flash_image, flash_only_kernel, flash_setup, by_result}
use ofgwrite.Main.{end_kernel}
use ofgwrite.Prepare.{Inputs, Setup, prepare, lacks_kernel, lacks_rootfs}
use ofgwrite.Main.{main}
use ofgwrite.Main.Android.{Exit}
use ofgwrite.Prepare.Checked.{prepare-Prepared}
use ofgwrite.Main.Stops.{
  Nothing, Stopped, Stops, check_env-Stops, kill_processes-Stops, take_over-Stops,
}
use ofgwrite.Main.Stops.{mount_other-Stops, make_sub_dir-Stops, finish-Stops}

some_of_known_mode :
    (env : Env) (mode : FlashMode) (o : Options) (b : Boot) (d : Devices) (i : Images)
    (type : RootfsType) (t : Trace)
    → is_known_mode mode ≡ true
    → (rootfs_flash_by env mode o b d i type t).0 ≢ none
unfolding rootfs_flash_by
some_of_known_mode env FlashMode.tarbz2 o b d i type t h e = cc
some_of_known_mode env FlashMode.flash_mode_unknown o b d i type t h e = cc
some_of_known_mode env _ o b d i type t h e = cc

abbrev Defined : Exit → Trace → Type 0
Defined exit t = exit ≢ Exit.undefined

module _ (env : Env) (s : Setup) where
  abbrev Fine : M (Option Exit) → Type 0
  Fine m = Step Nothing Nothing Defined m

  then_step :
      (step : M (Option Exit)) (steps : List (M (Option Exit)))
      → Fine step
      → Ends Nothing Defined (run_steps steps Exit.success)
      → Ends Nothing Defined (run_steps (step ∷ steps) Exit.success)
  then_step step steps f others =
      run_steps-cons Nothing Nothing Defined step steps Exit.success f others

  Stops-Fine : (m : M (Option Exit)) → Stops env s m → Fine m
  Stops-Fine m h = Step-weaken Nothing Nothing Stopped Defined m (λ exit t e. ground (arith, e)) h

  by_result-Fine :
      (flashed : Option Bool) (good bad : M (Option Exit))
      → flashed ≢ none
      → Fine good
      → Fine bad
      → Fine (by_result flashed good bad)
  by_result-Fine none good bad f g b t h = ground (arith, f)
  by_result-Fine (some true) good bad f g b t h = g t h
  by_result-Fine (some false) good bad f g b t h = b t h

  flash_rootfs_step-Fine :
      is_known_mode s.devices.rootfs_flash_mode ≡ true → Fine (flash_rootfs_step env s)
  unfolding flash_rootfs_step rootfs_flash
  flash_rootfs_step-Fine known t h =
      by_result-Fine _ _ _
        (some_of_known_mode env s.devices.rootfs_flash_mode s.options s.boot s.devices s.images
          s.mounts.rootfs_type t known)
        (λ t h. tt) (λ t h e. cc) _ h

  flash_kernel_step-Fine :
      (kernel_file : Option Stream)
      → (s.options.flash_kernel ≡ true → is_kernel_mode s.devices.kernel_flash_mode ≡ true)
      → Fine (flash_kernel_step env s kernel_file)
  unfolding flash_kernel_step run_kernel_flash
  flash_kernel_step-Fine kernel_file known t h = elim (Bool-cases s.options.flash_kernel) [
    | inl good ↦ rw good (
        by_result-Fine _ _ _
          (some_of_mode env s.devices.kernel_flash_mode s.devices.kernel_device
            s.images.kernel_filename kernel_file s.images.kernel_file_size s.options.no_write t
            (known good))
          (λ t h. tt) (λ t h e. cc) _ h)
    | inr bad ↦ rw bad tt
  ]

  android_step-Fine :
      (digest : Bytes → Option Bytes) (boxname : Bytes)
      → s.options.android ≡ false
      → Fine (android_step env s digest boxname)
  unfolding android_step
  android_step-Fine digest boxname plain t h = rw plain tt

  then_success : Ends Nothing Defined (run_steps [] Exit.success)
  unfolding run_steps
  then_success t h = λ e. cc

  flash_image-Defined :
      (digest : Bytes → Option Bytes) (boxname : Bytes) (kernel_file : Option Stream)
      → s.options.android ≡ false
      → is_known_mode s.devices.rootfs_flash_mode ≡ true
      → (s.options.flash_kernel ≡ true → is_kernel_mode s.devices.kernel_flash_mode ≡ true)
      → Ends Nothing Defined (flash_image env s digest boxname kernel_file)
  unfolding flash_image
  flash_image-Defined digest boxname kernel_file plain rootfs kernel =
      then_step _ _ (Stops-Fine _ (check_env-Stops env s)) (
        then_step _ _ (Stops-Fine _ (kill_processes-Stops env s)) (
          then_step _ _ (Stops-Fine _ (take_over-Stops env s)) (
            then_step _ _ (Stops-Fine _ (mount_other-Stops env s)) (
              then_step _ _ (Stops-Fine _ (make_sub_dir-Stops env s)) (
                then_step _ _ (flash_rootfs_step-Fine rootfs) (
                  then_step _ _ (flash_kernel_step-Fine kernel_file kernel) (
                    then_step _ _ (android_step-Fine digest boxname plain)
                      (then_step _ _ (Stops-Fine _ (finish-Stops env s)) then_success))))))))

  flash_only_kernel-Defined :
      (kernel_file : Option Stream)
      → is_kernel_mode s.devices.kernel_flash_mode ≡ true
      → Ends Nothing Defined (flash_only_kernel env s kernel_file)
  unfolding flash_only_kernel run_kernel_flash
  flash_only_kernel-Defined kernel_file known t h =
      end_kernel-Defined _
        (some_of_mode env s.devices.kernel_flash_mode s.devices.kernel_device
          s.images.kernel_filename kernel_file s.images.kernel_file_size s.options.no_write _ known)
        _ h
    where
      end_kernel-Defined :
          (flashed : Option Bool) → flashed ≢ none → Ends Nothing Defined (end_kernel env s flashed)
      end_kernel-Defined none f t h = ground (arith, f)
      end_kernel-Defined (some true) f t h = λ e. cc
      end_kernel-Defined (some false) f t h = λ e. cc

-- The modes of devices that were found are known.
kernel_mode_of :
    (s : Setup)
    → lacks_kernel s ≡ false
    → has_modes s.devices ≡ true
    → s.options.flash_kernel ≡ true
    → is_kernel_mode s.devices.kernel_flash_mode ≡ true
kernel_mode_of s lacks modes flash = ground arith

rootfs_mode_of :
    (s : Setup)
    → lacks_rootfs s ≡ false
    → has_modes s.devices ≡ true
    → s.options.flash_rootfs ≡ true
    → is_known_mode s.devices.rootfs_flash_mode ≡ true
rootfs_mode_of s lacks modes flash = ground arith

flash_setup-Defined :
    (env : Env) (inp : Inputs) (s : Setup) (digest : Bytes → Option Bytes) (boxname : Bytes)
    (kernel_file : Option Stream)
    → prepare inp ≡ some s
    → s.options.android ≡ false
    → Ends Nothing Defined (flash_setup env s digest boxname kernel_file)
unfolding flash_setup
flash_setup-Defined env inp s digest boxname kernel_file h plain t tt =
    let (c, modes) = prepare-Prepared inp s h in
    elim (Bool-cases s.options.flash_rootfs) [
      | inl rootfs ↦ simp rootfs (
          flash_image-Defined env s digest boxname kernel_file plain
            (rootfs_mode_of s c.rootfs modes rootfs) (kernel_mode_of s c.kernel modes) t tt)
      | inr no_rootfs ↦ elim (Bool-cases s.options.flash_kernel) [
        | inl kernel ↦
            simp (no_rootfs, kernel)
              (flash_only_kernel-Defined env s kernel_file (kernel_mode_of s c.kernel modes kernel)
                t tt)
        | inr no_kernel ↦ rw (no_rootfs, no_kernel) (λ e. cc)
      ]
    ]

-- Where the checks in front of the flashing succeed and the box is not an Android box, `main` ends
-- with a value: it does not use the result of a function that ended without a return statement,
-- whatever the system answers.
pub main-ne-undefined :
    (env : Env) (digest : Bytes → Option Bytes) (kernel_file : Option Stream) (inp : Inputs)
    (s : Setup) (t : Trace)
    → prepare inp ≡ some s
    → s.options.android ≡ false
    → (main env digest kernel_file inp t).0 ≢ Exit.undefined
unfolding main
main-ne-undefined env digest kernel_file inp s t h plain =
    rw h (flash_setup-Defined env inp s digest inp.probe.boxname kernel_file h plain t tt)
