-- ===== src/Takeover/Apart.antt =====
-- The steps of `umount_rootfs` that ask for no `pivot_root` and can only go on or fail.
use ofgwrite.Base.{
  ℕ, Bool, true, false, ◌&&◌, ◌||◌, not, Option, some, List, [], ◌∷◌, ◌++◌, map, any,
}
use ofgwrite.Base.{◌+◌, ◌*◌, ◌/◌, ◌≡◌, refl, arith, ◌∙◌, Bool-cases, inl, inr, suc, zero}
use ofgwrite.Base.Calls.{M, Env, Call, Tool, Trace, call_all, tell_all}
use ofgwrite.Base.Int.{ℤ, is_nonzero}
use ofgwrite.Base.Text.{Bytes, lit}
use ofgwrite.Mounts.{Mounts}
use ofgwrite.EnigmaStop.{check_e2_stopped, wait_for_e2}
use ofgwrite.Takeover.{restart_calls}
use ofgwrite.Takeover.Files.{new_directories, binaries, automount_files}
use ofgwrite.Takeover.{release, fail_with, make_newroot}
use ofgwrite.Takeover.{copy_binaries, copy_libcrypt, copy_automount, switch_runmode, stop_e2}
use ofgwrite.Takeover.{reopen_framebuffer, exec_fuser_kill, release_oldroot}
use ofgwrite.Takeover.Files.{on}
use ofgwrite.Takeover.{move_image_mount}

abbrev pub is_pivot : Call → Bool
is_pivot (Call.pivot_root _ _) = true
is_pivot _ = false

-- A `pivot_root` in the trace has answered 0.
unfoldable pub pivoted : Env → Trace → Bool
pivoted env [] = false
pivoted env (c ∷ t) = is_pivot c && not (is_nonzero (env.answer t c)) || pivoted env t

abbrev pub can_fail : Option Bool → Bool
can_fail (some true) = false
can_fail _ = true

module _ (env : Env) where
  pub pivoted-call_all :
      (cs : List Call) (t : Trace)
      → any is_pivot cs ≡ false
      → pivoted env (call_all env cs t).1 ≡ pivoted env t
  unfolding pivoted
  pivoted-call_all [] t h = refl
  pivoted-call_all (c ∷ cs) t h = pivoted-call_all cs (c ∷ t) (ground arith) ∙ ground arith

  pub pivoted-tell_all :
      (cs : List Call) (t : Trace)
      → any is_pivot cs ≡ false
      → pivoted env (tell_all cs t).1 ≡ pivoted env t
  unfolding pivoted
  pivoted-tell_all [] t h = refl
  pivoted-tell_all (c ∷ cs) t h = pivoted-tell_all cs (c ∷ t) (ground arith) ∙ ground arith

  pivoted-wait_for_e2 :
      (fuel time : ℕ) (t : Trace) → pivoted env (wait_for_e2 env fuel time t).1 ≡ pivoted env t
  unfolding wait_for_e2 pivoted
  pivoted-wait_for_e2 zero time t = refl
  pivoted-wait_for_e2 (suc fuel) time t =
      let ps = Call.run Tool.ps [] in
      let t' = Call.set_step_progress ((time + 2) * 100 / 70) ∷ Call.sleep 2 ∷ ps ∷ t in
      ground (arith, pivoted-wait_for_e2 fuel (time + 2) t')

  pivoted-check_e2_stopped : (t : Trace) → pivoted env (check_e2_stopped env t).1 ≡ pivoted env t
  unfolding check_e2_stopped pivoted
  pivoted-check_e2_stopped t = pivoted-wait_for_e2 36 0 (Call.set_step_progress 0 ∷ t)

  -- Steps that ask for no `pivot_root`.
  abbrev pub IsApart : M (Option Bool) → Type 0
  IsApart m = (t : Trace) → pivoted env (m t).1 ≡ pivoted env t

  pivoted-fail_with :
      (ret : ℤ) (cs : List Call) → any is_pivot cs ≡ false → IsApart (fail_with env ret cs)
  pivoted-fail_with ret cs h t = elim (Bool-cases (is_nonzero ret)) [
    | inl failed ↦ rw failed (pivoted-tell_all cs t h)
    | inr good ↦ rw good refl
  ]

  pub make_newroot-IsApart :
      (multilib android : Bool) (path : Bytes) → IsApart (make_newroot env multilib android path)
  unfolding make_newroot
  make_newroot-IsApart multilib android path t =
      pivoted-call_all (new_directories multilib android path) t (ground arith)

  pub copy_binaries-IsApart :
      (multilib android : Bool) → IsApart (copy_binaries env multilib android)
  unfolding copy_binaries
  copy_binaries-IsApart multilib android t =
      pivoted-call_all (binaries multilib android) t (ground arith)

  pub copy_libcrypt-IsApart : (multilib : Bool) → IsApart (copy_libcrypt env multilib)
  unfolding copy_libcrypt pivoted
  copy_libcrypt-IsApart multilib t = ground arith

  pub copy_automount-IsApart : (multilib : Bool) → IsApart (copy_automount env multilib)
  unfolding copy_automount
  copy_automount-IsApart multilib t = pivoted-tell_all (automount_files multilib) t refl

  pub switch_runmode-IsApart : IsApart (switch_runmode env)
  unfolding switch_runmode pivoted
  switch_runmode-IsApart t = ground arith

  pub stop_e2-IsApart : IsApart (stop_e2 env)
  unfolding stop_e2 pivoted
  stop_e2-IsApart t =
      ground (arith, pivoted-check_e2_stopped (Call.set_step (lit "Wait until E2 is stopped") ∷ t))

  pub reopen_framebuffer-IsApart : (steps : ℕ) → IsApart (reopen_framebuffer env steps)
  unfolding reopen_framebuffer pivoted
  reopen_framebuffer-IsApart steps t = refl

  any-release : (dirs : List Bytes) → any is_pivot (map release dirs) ≡ false
  any-release [] = refl
  any-release (dir ∷ dirs) = any-release dirs

  exec_fuser_kill_apart :
      (no_write : Bool) (t : Trace) → pivoted env (exec_fuser_kill env no_write t).1 ≡ pivoted env t
  unfolding exec_fuser_kill pivoted
  exec_fuser_kill_apart true t = refl
  exec_fuser_kill_apart false t = refl

  pub release_oldroot-IsApart :
      (no_write : Bool) (m : Mounts) → IsApart (release_oldroot env no_write m)
  unfolding release_oldroot pivoted
  release_oldroot-IsApart no_write m t =
      let media = Call.mount_move (lit "/oldroot/media/") (lit "media/") in
      let moves = move_image_mount m.rootfs_mount_point (env.answer t media) in
      let image =
        on moves
          (Call.mount_move (lit "/oldroot" ++ m.rootfs_mount_point) m.rootfs_mount_point ∷ []) in
      let a = (tell_all image (media ∷ t)).1 in
      let b = (tell_all (map release m.mountlist) a).1 in
      let c = (tell_all restart_calls b).1 in
      exec_fuser_kill_apart no_write c
      ∙ pivoted-tell_all restart_calls b refl
      ∙ pivoted-tell_all (map release m.mountlist) a (any-release m.mountlist)
      ∙ pivoted-tell_all image (media ∷ t) (ground arith)

  -- A step that can only go on or fail.
  abbrev pub CanFail : M (Option Bool) → Type 0
  CanFail m = (t : Trace) → can_fail (m t).0 ≡ true

  CanFail-fail_with : (ret : ℤ) (cs : List Call) → CanFail (fail_with env ret cs)
  CanFail-fail_with ret cs t = ground arith

  pub make_newroot-CanFail :
      (multilib android : Bool) (path : Bytes) → CanFail (make_newroot env multilib android path)
  unfolding make_newroot
  make_newroot-CanFail multilib android path t = ground arith

  pub copy_binaries-CanFail :
      (multilib android : Bool) → CanFail (copy_binaries env multilib android)
  unfolding copy_binaries
  copy_binaries-CanFail multilib android t = ground arith

  pub copy_libcrypt-CanFail : (multilib : Bool) → CanFail (copy_libcrypt env multilib)
  unfolding copy_libcrypt
  copy_libcrypt-CanFail multilib t = ground arith

  pub copy_automount-CanFail : (multilib : Bool) → CanFail (copy_automount env multilib)
  unfolding copy_automount
  copy_automount-CanFail multilib t = refl

  pub switch_runmode-CanFail : CanFail (switch_runmode env)
  unfolding switch_runmode
  switch_runmode-CanFail t = ground arith

  pub stop_e2-CanFail : CanFail (stop_e2 env)
  unfolding stop_e2
  stop_e2-CanFail t = ground arith

  pub reopen_framebuffer-CanFail : (steps : ℕ) → CanFail (reopen_framebuffer env steps)
  unfolding reopen_framebuffer
  reopen_framebuffer-CanFail steps t = refl
