-- ===== src/Protocol/Takeover.antt =====
-- `umount_rootfs` opens the framebuffer again, and shows only texts that fit.
use ofgwrite.Base.{
  ℕ, zero, suc, ◌+◌, Bool, true, false, Option, none, some, List, [], ◌∷◌, refl, ◌≡◌, all, map, ◌∙◌,
  ◌==◌,
}
use ofgwrite.Base.Calls.{Env, Call, M, Trace}
use ofgwrite.Base.Steps.{Step, Ends, After, run_steps-All}
use ofgwrite.Base.Text.{Bytes, lit, is_some}
use ofgwrite.State.{Devices, FlashMode}
use ofgwrite.Mounts.{Mounts}
use ofgwrite.EnigmaStop.{check_e2_stopped, wait_for_e2, exec_ps}
use ofgwrite.Takeover.{
  release, daemonize, fork_away, make_newroot, copy_binaries, copy_libcrypt, copy_automount,
  switch_runmode, stop_e2, pivot, move_mounts, release_oldroot, umount_rootfs, umount_rootfs_steps,
  reopen_framebuffer, umount_oldroot, exec_fuser_kill, remount,
}
use ofgwrite.Takeover.Files.{on}
use ofgwrite.Protocol.{is_quiet, Keeps, keeps, status, Status}

module _ (env : Env) where
  pub daemonize-Keeps : Keeps (daemonize env)
  unfolding daemonize fork_away is_quiet
  daemonize-Keeps = search keeps depth 14

  make_newroot-Keeps :
      (multilib android : Bool) (point : Bytes) → Keeps (make_newroot env multilib android point)
  unfolding make_newroot is_quiet
  make_newroot-Keeps true true point = search keeps
  make_newroot-Keeps true false point = search keeps
  make_newroot-Keeps false true point = search keeps
  make_newroot-Keeps false false point = search keeps

  copy_binaries-Keeps : (multilib android : Bool) → Keeps (copy_binaries env multilib android)
  unfolding copy_binaries is_quiet
  copy_binaries-Keeps true true = search keeps
  copy_binaries-Keeps true false = search keeps
  copy_binaries-Keeps false true = search keeps
  copy_binaries-Keeps false false = search keeps

  copy_libcrypt-Keeps : (multilib : Bool) → Keeps (copy_libcrypt env multilib)
  unfolding copy_libcrypt is_quiet
  copy_libcrypt-Keeps multilib = search keeps depth 8

  copy_automount-Keeps : (multilib : Bool) → Keeps (copy_automount env multilib)
  unfolding copy_automount is_quiet
  copy_automount-Keeps true = search keeps
  copy_automount-Keeps false = search keeps

  switch_runmode-Keeps : Keeps (switch_runmode env)
  unfolding switch_runmode is_quiet lit
  switch_runmode-Keeps = search keeps depth 8

  wait_for_e2-Keeps : (fuel time : ℕ) → Keeps (wait_for_e2 env fuel time)
  unfolding wait_for_e2 exec_ps is_quiet
  wait_for_e2-Keeps zero time = search keeps
  wait_for_e2-Keeps (suc fuel) time = search (keeps, wait_for_e2-Keeps fuel (time + 2)) depth 10

  stop_e2-Keeps : Keeps (stop_e2 env)
  unfolding stop_e2 check_e2_stopped is_quiet lit
  stop_e2-Keeps = search (keeps, wait_for_e2-Keeps) depth 10

  pivot-Keeps : Keeps (pivot env)
  unfolding pivot is_quiet lit
  pivot-Keeps = search keeps depth 8

  move_mounts-Keeps : Keeps (move_mounts env)
  unfolding move_mounts is_quiet lit
  move_mounts-Keeps = search keeps depth 8

  released-quiet : (dirs : List Bytes) → all is_quiet (map release dirs) ≡ true
  unfolding is_quiet
  released-quiet [] = refl
  released-quiet (dir ∷ dirs) = released-quiet dirs

  on-quiet :
      (b : Bool) (source target : Bytes)
      → all is_quiet (on b (Call.mount_move source target ∷ [])) ≡ true
  unfolding is_quiet
  on-quiet true source target = refl
  on-quiet false source target = refl

  release_oldroot-Keeps : (no_write : Bool) (m : Mounts) → Keeps (release_oldroot env no_write m)
  unfolding release_oldroot exec_fuser_kill is_quiet
  release_oldroot-Keeps no_write m = search (keeps, released-quiet, on-quiet) depth 14

  pub remount-quiet :
      (mode : FlashMode) (d : Devices) (m : Mounts) → is_quiet (remount mode d m) ≡ true
  unfolding is_quiet remount
  remount-quiet FlashMode.tarbz2 d m = refl
  remount-quiet FlashMode.ubi_loop_subdir d m = refl
  remount-quiet FlashMode.tarxz_ubi d m = refl
  remount-quiet _ d m = refl

  umount_oldroot-Keeps : (d : Devices) (m : Mounts) → Keeps (umount_oldroot env d m)
  unfolding umount_oldroot is_quiet lit
  umount_oldroot-Keeps d m = search (keeps, remount-quiet) depth 14

-- The framebuffer is open.
abbrev pub IsOpen : Trace → Type 0
IsOpen t = status t ≡ some Status.shown

pub Keeps-Step :
    {A : Type 0} (m : M (Option A)) (Q : A → Trace → Type 0)
    → Keeps m
    → ((a : A) (t : Trace) → IsOpen t → Q a t)
    → Step IsOpen IsOpen Q m
unfolding Keeps
Keeps-Step m Q h q t open' = go (m t) (h t ∙ open')
  where
    go : (r : Option _ × Trace) → IsOpen r.1 → After IsOpen Q r
    go (none, t') o = o
    go (some a, t') o = q a t' o

module _ (env : Env) (steps : ℕ) (some_steps : (steps == 0) ≡ false) where
  abbrev Q : Bool → Trace → Type 0
  Q _ t = IsOpen t

  reopen_framebuffer-IsOpen : Step IsOpen IsOpen Q (reopen_framebuffer env steps)
  unfolding reopen_framebuffer status lit
  reopen_framebuffer-IsOpen t h = rw (h, some_steps) refl

  kept : (m : M (Option Bool)) → Keeps m → Step IsOpen IsOpen Q m
  kept m h = Keeps-Step m Q h (λ _ _ o. o)

  pub umount_rootfs-IsOpen :
      (android no_write : Bool) (d : Devices) (m : Mounts)
      → Ends IsOpen Q (umount_rootfs env android no_write d m steps)
  unfolding umount_rootfs
  umount_rootfs-IsOpen android no_write d m t h =
      let multilib = is_some (env.entries t (lit "/lib64")) in
      run_steps-All IsOpen Q (umount_rootfs_steps env multilib android no_write d m steps) true
        (
          kept _ (make_newroot-Keeps env multilib android m.rootfs_mount_point),
          (
            kept _ (copy_binaries-Keeps env multilib android),
            (
              kept _ (copy_libcrypt-Keeps env multilib),
              (
                kept _ (copy_automount-Keeps env multilib),
                (
                  kept _ (switch_runmode-Keeps env),
                  (
                    kept _ (stop_e2-Keeps env),
                    (
                      reopen_framebuffer-IsOpen,
                      (
                        kept _ (pivot-Keeps env),
                        (
                          kept _ (move_mounts-Keeps env),
                          (
                            kept _ (release_oldroot-Keeps env no_write m),
                            (kept _ (umount_oldroot-Keeps env d m), tt),
                          ),
                        ),
                      ),
                    ),
                  ),
                ),
              ),
            ),
          ),
        )
        (λ _ o. o) t h
