-- ===== src/Flash/Loop/Clean.antt =====
-- `mount_ubi_image` and `flash_ubi_loop_subdir` leave no loop device, block2mtd, UBI device or mount
-- behind.
use ofgwrite.Base.{ℕ, true, false, Option, none, some, ◌∷◌, ◌≡◌, refl, ◌∙◌}
use ofgwrite.Base.Calls.{M, Env, Call, Trace, tell}
use ofgwrite.Base.Text.{Bytes, lit}
use ofgwrite.State.{Images, Devices}
use ofgwrite.Flash.Tools.{ubi_detach_dev, rm_rootfs}
use ofgwrite.Flash.Loop.{
  choose_image, mount_chosen, mount_sized, mount_ubi_image, umount_ubi_image,
  get_erasesize_and_writesize, replace_rootfs, replace_if_mounted, flash_ubi_loop_subdir,
  ubi_mount_dir, cp_rootfs,
}
use ofgwrite.Flash.Loop.Resources.{
  Held, held, At, Works, nothing_held, is_spare, Spares, At-Spares, tell-Spares,
}
use ofgwrite.Flash.Loop.Setup.{
  Settled, all_held, mtd_node, mount_loop-Settled, umount-At, detach-At, held-remove_release,
}
use ofgwrite.Flash.Loop.Extract.{choose_image-Spares, cp_rootfs-Spares, rm_rootfs-Spares}

module _ (env : Env) (works : Works env) where
  -- What is done leaves the resources alone.
  held-Spares : {A : Type 0} (m : M A) (t : Trace) → Spares env m → held env (m t).1 ≡ held env t
  unfolding Spares
  held-Spares m t s = (s t).0

  mount_chosen-Settled :
      (image : Option Bytes) (erasesize writesize : ℕ) (path : Bytes) (t : Trace)
      → held env t ≡ nothing_held
      → Settled env path (mount_chosen env image erasesize writesize path t)
  unfolding mount_chosen
  mount_chosen-Settled none erasesize writesize path t h = h
  mount_chosen-Settled (some image) erasesize writesize path t h =
      mount_loop-Settled env works image erasesize writesize path t h

  mount_sized-Settled :
      (images : Images) (filename : Bytes) (sizes : Option (ℕ × ℕ)) (path : Bytes) (t : Trace)
      → held env t ≡ nothing_held
      → Settled env path (mount_sized env images filename sizes path t)
  unfolding mount_sized
  mount_sized-Settled images filename none path t h = h
  mount_sized-Settled images filename (some (e, w)) path t h =
      let r = choose_image env images filename w t in
      mount_chosen-Settled r.0 e w path r.1 (
        held-Spares (choose_image env images filename w) t
          (choose_image-Spares env works images filename w)
        ∙ h)

  -- With nothing held before, `mount_ubi_image` ends with the loop device, block2mtd on this device, the
  -- UBI device of the MTD number that it returns and the mount on the directory, if it succeeds; and if
  -- it fails, at whichever step, every one of them that was taken has been given back by a call that
  -- names it. The answers of these calls are not looked at. Only losetup sets `ubi_loop_device`, and
  -- block2mtd's parameter file can always be opened.
  pub mount_ubi_image-Settled :
      (images : Images) (filename path : Bytes) (t : Trace)
      → held env t ≡ nothing_held
      → Settled env path (mount_ubi_image env images filename path t)
  unfolding mount_ubi_image get_erasesize_and_writesize
  mount_ubi_image-Settled images filename path t h = mount_sized-Settled images filename _ path t h

  held-umount :
      (device : Bytes) (mtd : ℕ) (path : Bytes) (t : Trace)
      → At env device (all_held device mtd path) t
      → held env (umount_ubi_image env mtd path t).1 ≡ nothing_held
  unfolding umount_ubi_image
  held-umount device mtd path t a =
      held-remove_release env works device (ubi_detach_dev env mtd false (Call.umount path ∷ t)).1 (
        detach-At env works device (some device) (some device) none mtd (Call.umount path ∷ t)
          (umount-At env works device (some device) (some device) (some (mtd_node mtd)) path t a))

  told :
      (c : Call) (device : Bytes) (h : Held) (t : Trace)
      → is_spare c ≡ true
      → At env device h t
      → At env device h (c ∷ t)
  told c device h t s a = At-Spares env (tell c) device h t (tell-Spares env c works s) a

  held-replace_rootfs :
      (path : Bytes) (mtd : ℕ) (device : Bytes) (t : Trace)
      → At env device (all_held device mtd (ubi_mount_dir env)) t
      → held env (replace_rootfs env path mtd t).1 ≡ nothing_held
  unfolding replace_rootfs is_spare
  held-replace_rootfs path mtd device t a =
      let h = all_held device mtd (ubi_mount_dir env) in
      let t1 = Call.set_step (lit "Deleting rootfs") ∷ t in
      let t2 = (rm_rootfs env path false t1).1 in
      let t3 = Call.set_step (lit "Copying rootfs") ∷ Call.mkdir path ∷ t2 in
      let t4 = (cp_rootfs env (ubi_mount_dir env) path t3).1 in
      let a2 =
        At-Spares env (rm_rootfs env path false) device h t1 (rm_rootfs-Spares env works path)
          (told (Call.set_step (lit "Deleting rootfs")) device h t refl a) in
      let a4 =
        At-Spares env (cp_rootfs env (ubi_mount_dir env) path) device h t3
          (cp_rootfs-Spares env works (ubi_mount_dir env) path)
          (told (Call.set_step (lit "Copying rootfs")) device h (Call.mkdir path ∷ t2) refl
            (told (Call.mkdir path) device h t2 refl a2)) in
      held-Spares (tell (Call.rmdir (ubi_mount_dir env))) _
        (tell-Spares env (Call.rmdir (ubi_mount_dir env)) works refl)
      ∙ held-umount device mtd (ubi_mount_dir env) (Call.sync ∷ t4)
          (told Call.sync device h t4 refl a4)

  held-replace_if_mounted :
      (path : Bytes) (mtd : Option ℕ) (t : Trace)
      → Settled env (ubi_mount_dir env) (mtd, t)
      → held env (replace_if_mounted env path mtd t).1 ≡ nothing_held
  unfolding replace_if_mounted
  held-replace_if_mounted path none t h = h
  held-replace_if_mounted path (some mtd) t h =
      held-replace_rootfs path mtd (env.loop_device t) t (h, refl)

  -- A flash of a UBI image into a subdirectory, whether it succeeds or fails, has given back the loop
  -- device, block2mtd, the UBI device and the mount that it took, each by a call that names it. The
  -- answers of these calls are not looked at, and the directory "/ubi_mount/" stays where the mounting
  -- fails. Only losetup sets `ubi_loop_device`, and block2mtd's parameter file can always be opened.
  pub held-flash_ubi_loop_subdir :
      (d : Devices) (images : Images) (filename : Bytes) (t : Trace)
      → held env t ≡ nothing_held
      → held env (flash_ubi_loop_subdir env d images filename false t).1 ≡ nothing_held
  unfolding flash_ubi_loop_subdir is_spare
  held-flash_ubi_loop_subdir d images filename t h =
      let t' = Call.mkdir (ubi_mount_dir env) ∷ t in
      let r = mount_ubi_image env images filename (ubi_mount_dir env) t' in
      held-replace_if_mounted _ r.0 r.1 (
        mount_ubi_image-Settled images filename (ubi_mount_dir env) t' (
          held-Spares (tell (Call.mkdir (ubi_mount_dir env))) t
            (tell-Spares env (Call.mkdir (ubi_mount_dir env)) works refl)
          ∙ h))
