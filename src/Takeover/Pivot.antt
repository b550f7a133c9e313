-- ===== src/Takeover/Pivot.antt =====
-- How `umount_rootfs` ends, by whether `pivot_root` succeeded.
use ofgwrite.Base.{ℕ, Bool, true, false, ◌&&◌, not, Option, none, some, List, [], ◌∷◌}
use ofgwrite.Base.{◌≡◌, refl, arith, ◌∙◌, Bool-cases, inl, inr}
use ofgwrite.Base.Calls.{M, Env, Call, Trace, call_all, tell_all, run_steps}
use ofgwrite.Base.Int.{is_nonzero}
use ofgwrite.Base.Steps.{After, Step, Ends, run_steps-cons}
use ofgwrite.Base.Text.{Bytes, lit, str_eq, str_eq_same, is_some}
use ofgwrite.State.{Devices, FlashMode}
use ofgwrite.Mounts.{Mounts}
use ofgwrite.Takeover.{move_calls, give_up}
use ofgwrite.Takeover.{make_newroot}
use ofgwrite.Takeover.{copy_binaries, copy_libcrypt, copy_automount, switch_runmode, stop_e2}
use ofgwrite.Takeover.{reopen_framebuffer, pivot, move_mounts, release_oldroot}
use ofgwrite.Takeover.{umount_oldroot, umount_rootfs, remount, is_remounted}
use ofgwrite.Takeover.Apart.{pivoted-call_all, IsApart, make_newroot-IsApart, copy_binaries-IsApart}
use ofgwrite.Takeover.Apart.{
  copy_libcrypt-IsApart, copy_automount-IsApart, switch_runmode-IsApart, stop_e2-IsApart,
}
use ofgwrite.Takeover.Apart.{
  reopen_framebuffer-IsApart, release_oldroot-IsApart, CanFail, make_newroot-CanFail,
}
use ofgwrite.Takeover.Apart.{
  copy_binaries-CanFail, copy_libcrypt-CanFail, copy_automount-CanFail, switch_runmode-CanFail,
}
use ofgwrite.Takeover.Apart.{stop_e2-CanFail, reopen_framebuffer-CanFail, is_pivot, pivoted}
use ofgwrite.Takeover.Apart.{can_fail}

abbrev pub newest_is_reboot : Trace → Bool
newest_is_reboot (Call.reboot ∷ _) = true
newest_is_reboot _ = false

-- What is mounted on /oldroot_remount/ in the modes whose rootfs is a directory of files, with its
-- type: the device of the rootfs, or the name of the UBI volume that was mounted on /.
abbrev pub rootfs_of : FlashMode → Devices → Mounts → Option (Bytes × Bytes)
rootfs_of FlashMode.tarbz2 d m = some (d.rootfs_device, m.rootfs_fs_type)
rootfs_of FlashMode.ubi_loop_subdir d m = some (d.rootfs_device, lit "ext4")
rootfs_of FlashMode.tarxz_ubi d m = some (d.rootfs_device, lit "ext4")
rootfs_of FlashMode.tarbz2_mtd d m = some (m.ubi_fs_name, lit "ubifs")
rootfs_of FlashMode.mtd d m = none
rootfs_of FlashMode.flash_mode_unknown d m = none

-- The call mounts that rootfs on /oldroot_remount/; or without one it takes the old rootfs at
-- /oldroot/ out of use.
abbrev pub secures : Option (Bytes × Bytes) → Call → Bool
secures (some (rootfs, kind)) (Call.mount source target type) =
    str_eq source rootfs && (str_eq target (lit "/oldroot_remount/") && str_eq type kind)
secures none (Call.umount target) = str_eq target (lit "/oldroot/")
secures none (Call.remount_read_only target) = str_eq target (lit "/oldroot/")
secures _ _ = false

-- The newest call does so, and has answered 0.
unfoldable pub secured : Env → Option (Bytes × Bytes) → Trace → Bool
secured env rootfs [] = false
secured env rootfs (c ∷ t) = secures rootfs c && not (is_nonzero (env.answer t c))

module _ (env : Env) where
  abbrev NotPivoted : Trace → Type 0
  NotPivoted t = pivoted env t ≡ false

  abbrev HasPivoted : Trace → Type 0
  HasPivoted t = pivoted env t ≡ true

  -- What is known at the end of `umount_rootfs`.
  abbrev Ended : Option (Bytes × Bytes) → Bool → Trace → Type 0
  Ended rootfs true t = (pivoted env t ≡ true) × (secured env rootfs t ≡ true)
  Ended rootfs false t = pivoted env t ≡ true → newest_is_reboot t ≡ true

  apart-After :
      (rootfs : Option (Bytes × Bytes)) (t : Trace) (r : Option Bool × Trace)
      → NotPivoted t
      → pivoted env r.1 ≡ pivoted env t
      → can_fail r.0 ≡ true
      → After NotPivoted (Ended rootfs) r
  apart-After rootfs t (none, t') n e c = e ∙ n
  apart-After rootfs t (some false, t') n e c = λ p. ground arith
  apart-After rootfs t (some true, t') n e c = cc

  apart-Step :
      (rootfs : Option (Bytes × Bytes)) (m : M (Option Bool))
      → IsApart env m
      → CanFail env m
      → Step NotPivoted NotPivoted (Ended rootfs) m
  apart-Step rootfs m a c t n = apart-After rootfs t (m t) n (a t) (c t)

  pivot-Step :
      (rootfs : Option (Bytes × Bytes)) → Step NotPivoted HasPivoted (Ended rootfs) (pivot env)
  unfolding pivot pivoted
  pivot-Step rootfs t n =
      let c = Call.pivot_root (lit "/newroot/") (lit "oldroot") in
      elim (Bool-cases (is_nonzero (env.answer t c))) [
        | inl failed ↦ rw failed (λ p. ground arith)
        | inr good ↦ rw good (ground arith)
      ]

  move_mounts-IsApart : IsApart env (move_mounts env)
  unfolding move_mounts pivoted
  move_mounts-IsApart t = ground arith

  -- A failure behind `pivot_root`.
  give_up-Ended :
      (rootfs : Option (Bytes × Bytes)) (text1 text2 : Bytes) (t : Trace)
      → Ended rootfs false (tell_all (give_up env text1 text2) t).1
  give_up-Ended rootfs text1 text2 t p = refl

  move_mounts-Step :
      (rootfs : Option (Bytes × Bytes))
      → Step HasPivoted HasPivoted (Ended rootfs) (move_mounts env)
  unfolding move_mounts pivoted
  move_mounts-Step rootfs t p =
      let r = call_all env move_calls (Call.chdir (lit "/") ∷ t) in
      elim (Bool-cases (is_nonzero r.0)) [
        | inl failed ↦ rw failed (λ _. refl)
        | inr good ↦ rw good (pivoted-call_all env move_calls (Call.chdir (lit "/") ∷ t) refl ∙ p)
      ]

  release_oldroot-Step :
      (rootfs : Option (Bytes × Bytes)) (no_write : Bool) (m : Mounts)
      → Step HasPivoted HasPivoted (Ended rootfs) (release_oldroot env no_write m)
  release_oldroot-Step rootfs no_write m t p =
      unfold release_oldroot in (release_oldroot-IsApart env no_write m t ∙ p)

  secures-remount :
      (d : Devices) (m : Mounts) (mode : FlashMode)
      → is_remounted mode ≡ true
      → secures (rootfs_of mode d m) (remount mode d m) ≡ true
  unfolding remount
  secures-remount d m FlashMode.tarbz2 h =
      rw
        (
          str_eq_same d.rootfs_device,
          str_eq_same (lit "/oldroot_remount/"),
          str_eq_same m.rootfs_fs_type,
        )
        refl
  secures-remount d m FlashMode.ubi_loop_subdir h =
      rw
        (
          str_eq_same d.rootfs_device,
          str_eq_same (lit "/oldroot_remount/"),
          str_eq_same (lit "ext4"),
        )
        refl
  secures-remount d m FlashMode.tarxz_ubi h =
      rw
        (
          str_eq_same d.rootfs_device,
          str_eq_same (lit "/oldroot_remount/"),
          str_eq_same (lit "ext4"),
        )
        refl
  secures-remount d m FlashMode.tarbz2_mtd h =
      rw
        (
          str_eq_same m.ubi_fs_name,
          str_eq_same (lit "/oldroot_remount/"),
          str_eq_same (lit "ubifs"),
        )
        refl
  secures-remount d m FlashMode.mtd h = cc
  secures-remount d m FlashMode.flash_mode_unknown h = cc

  rootfs_of-none :
      (d : Devices) (m : Mounts) (mode : FlashMode)
      → is_remounted mode ≡ false
      → rootfs_of mode d m ≡ none
  rootfs_of-none d m FlashMode.tarbz2 h = cc
  rootfs_of-none d m FlashMode.ubi_loop_subdir h = cc
  rootfs_of-none d m FlashMode.tarxz_ubi h = cc
  rootfs_of-none d m FlashMode.tarbz2_mtd h = cc
  rootfs_of-none d m FlashMode.mtd h = refl
  rootfs_of-none d m FlashMode.flash_mode_unknown h = refl

  is_pivot-remount :
      (mode : FlashMode) (d : Devices) (m : Mounts) → is_pivot (remount mode d m) ≡ false
  unfolding remount
  is_pivot-remount FlashMode.tarbz2 d m = refl
  is_pivot-remount _ d m = refl

  umount_oldroot-Step :
      (d : Devices) (m : Mounts)
      → let r = rootfs_of d.rootfs_flash_mode d m in
        Step HasPivoted (Ended r true) (Ended r) (umount_oldroot env d m)
  unfolding umount_oldroot pivoted secured
  umount_oldroot-Step d m t p =
      let unmount = Call.umount (lit "/oldroot/") in
      let t1 = Call.umount (lit "/oldroot/newroot") ∷ t in
      let c = remount d.rootfs_flash_mode d m in
      let ro = Call.remount_read_only (lit "/oldroot/") in
      elim (Bool-cases (is_remounted d.rootfs_flash_mode)) [
        | inl remounted ↦ elim (Bool-cases (is_nonzero (env.answer (unmount ∷ t1) c))) [
          | inl failed ↦ rw (remounted, failed) (λ _. refl)
          | inr good ↦
              rw (remounted, good)
                (
                  ground (arith, is_pivot-remount d.rootfs_flash_mode d m),
                  ground (arith, secures-remount d m d.rootfs_flash_mode remounted),
                )
        ]
        | inr kept ↦
            let none_of = rootfs_of-none d m d.rootfs_flash_mode kept in
            elim (Bool-cases (is_nonzero (env.answer t1 unmount))) [
              | inl busy ↦ elim (Bool-cases (is_nonzero (env.answer (unmount ∷ t1) ro))) [
                | inl failed ↦ rw (kept, busy, failed) (λ _. refl)
                | inr good ↦
                    rw (none_of, kept, busy, good)
                      (ground arith, ground (arith, str_eq_same (lit "/oldroot/")))
              ]
              | inr free ↦
                  rw (none_of, kept, free)
                    (ground arith, ground (arith, str_eq_same (lit "/oldroot/")))
            ]
      ]

  apart_then :
      (q : Option (Bytes × Bytes)) (step : M (Option Bool)) (steps : List (M (Option Bool)))
      → IsApart env step
      → CanFail env step
      → Ends NotPivoted (Ended q) (run_steps steps true)
      → Ends NotPivoted (Ended q) (run_steps (step ∷ steps) true)
  apart_then q step steps a c others =
      run_steps-cons NotPivoted NotPivoted (Ended q) step steps true (apart-Step q step a c) others

  secured_end : (q : Option (Bytes × Bytes)) → Ends (Ended q true) (Ended q) (run_steps [] true)
  unfolding run_steps
  secured_end q t h = h

  pivot_steps-Ended :
      (no_write : Bool) (d : Devices) (m : Mounts)
      → let q = rootfs_of d.rootfs_flash_mode d m in
        Ends NotPivoted (Ended q) (
          run_steps
            (pivot env
              ∷ move_mounts env
              ∷ release_oldroot env no_write m
              ∷ umount_oldroot env d m
              ∷ [])
            true)
  pivot_steps-Ended no_write d m =
      let q = rootfs_of d.rootfs_flash_mode d m in
      run_steps-cons NotPivoted HasPivoted (Ended q) (pivot env) _ true (pivot-Step q) (
        run_steps-cons HasPivoted HasPivoted (Ended q) (move_mounts env) _ true (move_mounts-Step q)
          (run_steps-cons HasPivoted HasPivoted (Ended q) (release_oldroot env no_write m) _ true
            (release_oldroot-Step q no_write m)
            (run_steps-cons HasPivoted (Ended q true) (Ended q) (umount_oldroot env d m) [] true
              (umount_oldroot-Step d m) (secured_end q))))

  umount_rootfs-Ended :
      (android no_write : Bool) (d : Devices) (m : Mounts) (steps : ℕ)
      → Ends NotPivoted
          (Ended (rootfs_of d.rootfs_flash_mode d m))
          (umount_rootfs env android no_write d m steps)
  unfolding umount_rootfs
  umount_rootfs-Ended android no_write d m steps t =
      let q = rootfs_of d.rootfs_flash_mode d m in
      let x = is_some (env.entries t (lit "/lib64")) in
      apart_then q (make_newroot env x android m.rootfs_mount_point) _
        (make_newroot-IsApart env x android m.rootfs_mount_point)
        (make_newroot-CanFail env x android m.rootfs_mount_point)
        (apart_then q (copy_binaries env x android) _ (copy_binaries-IsApart env x android)
          (copy_binaries-CanFail env x android)
          (apart_then q (copy_libcrypt env x) _ (copy_libcrypt-IsApart env x)
            (copy_libcrypt-CanFail env x)
            (apart_then q (copy_automount env x) _ (copy_automount-IsApart env x)
              (copy_automount-CanFail env x)
              (apart_then q (switch_runmode env) _ (switch_runmode-IsApart env)
                (switch_runmode-CanFail env)
                (apart_then q (stop_e2 env) _ (stop_e2-IsApart env) (stop_e2-CanFail env) (
                  apart_then q (reopen_framebuffer env steps) _
                    (reopen_framebuffer-IsApart env steps) (reopen_framebuffer-CanFail env steps)
                    (pivot_steps-Ended no_write d m)))))))
        t

  -- When `umount_rootfs` returns 1, `pivot_root` has succeeded and the last call has succeeded too. In a
  -- flash mode that writes files this call has mounted the rootfs on /oldroot_remount/: the rootfs
  -- device, or for a tar archive on MTD the UBI volume that was mounted on /. In any other mode it has
  -- unmounted /oldroot/ or mounted it read only. No `pivot_root` had succeeded before.
  pub umount_rootfs-secured :
      (android no_write : Bool) (d : Devices) (m : Mounts) (steps : ℕ) (t : Trace)
      → pivoted env t ≡ false
      → let r = umount_rootfs env android no_write d m steps t in
        r.0 ≡ true
        → (pivoted env r.1 ≡ true) × (secured env (rootfs_of d.rootfs_flash_mode d m) r.1 ≡ true)
  umount_rootfs-secured android no_write d m steps t n e =
      rw e at (umount_rootfs-Ended android no_write d m steps t n)

  -- When `umount_rootfs` returns 0 although `pivot_root` has succeeded, so that the running system
  -- cannot go on, its last call is the reboot; where no `pivot_root` had succeeded before.
  pub umount_rootfs-newest_is_reboot :
      (android no_write : Bool) (d : Devices) (m : Mounts) (steps : ℕ) (t : Trace)
      → pivoted env t ≡ false
      → let r = umount_rootfs env android no_write d m steps t in
        r.0 ≡ false → pivoted env r.1 ≡ true → newest_is_reboot r.1 ≡ true
  umount_rootfs-newest_is_reboot android no_write d m steps t n e =
      rw e at (umount_rootfs-Ended android no_write d m steps t n)
