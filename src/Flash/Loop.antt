-- ===== src/Flash/Loop.antt =====
-- flash_ubi_jffs2.c: the image of a rootfs is mounted through a loop device, block2mtd and UBI, and
-- its files are copied to a subdirectory.
pub mod Resources
pub mod Setup
pub mod Extract
pub mod Clean
use ofgwrite.Base.{ℕ, suc, ◌+◌, ◌*◌, ◌/◌, Bool, true, false, ◌&&◌, ◌||◌, not, Option, none, some}
use ofgwrite.Base.{List, [], ◌∷◌, ◌++◌, if◌then◌else◌, length}
use ofgwrite.Base.Calls.{M, Env, Call, call, tell, ask, pure, ◌>>=◌, ◌>>◌, read_file, unless}
use ofgwrite.Base.Int.{ℤ, is_nonzero, is_negative}
use ofgwrite.Base.Text.{Bytes, lit, str_eq, is_empty, scan_uint}
use ofgwrite.State.{Options, Devices, Images}
use ofgwrite.Flash.Tools.{
  setup_loop_device, release_loop_device, ubi_attach_ofgwrite, ubi_detach_dev,
}
use ofgwrite.Flash.Tools.{cp_busybox, rm_rootfs}
use ofgwrite.Flash.Vid.{detect_vid_offset}
use ofgwrite.Flash.Nfi.{extract_rootfs_from_nfi}

-- fopen of the first path that can be opened.
abbrev pub either_file : Option Bytes → Option Bytes → Option Bytes
either_file none second = second
either_file (some s) second = some s

abbrev pub size_in : Env → Option Bytes → Option ℕ
size_in env none = none
size_in env (some s) = some (scan_uint env.garbage s)

module _ (env : Env) where
  -- One of the two sizes of mtd0: the path of Linux 4.x is tried first, then that of Linux 3.x.
  unfoldable pub get_size : Bytes → M (Option ℕ)
  get_size name = do
    linux4 ← read_file env (lit "/sys/class/mtd/mtd0/" ++ name)
    linux3 ← read_file env (lit "/sys/devices/virtual/mtd/mtd0/" ++ name)
    pure (size_in env (either_file linux4 linux3))

  unfoldable pub get_erasesize_and_writesize : M (Option (ℕ × ℕ))
  unfolding get_size
  get_erasesize_and_writesize = do
    erasesize ← get_size (lit "erasesize")
    writesize ← get_size (lit "writesize")
    pure (both erasesize writesize)
    where
      both : Option ℕ → Option ℕ → Option (ℕ × ℕ)
      both none w = none
      both (some e) none = none
      both (some e) (some w) = some (e, w)

  abbrev pub block2mtd_file : Bytes
  block2mtd_file = lit "/sys/module/block2mtd/parameters/block2mtd"

  unfoldable pub setup_block2mtd : Bytes → ℕ → ℕ → M Bool
  setup_block2mtd ubi_loop_device erasesize writesize = do
    fp ← call env (Call.open_to_write block2mtd_file)
    if not (is_nonzero fp) then pure false else do
      ret ← call env (Call.add_block2mtd ubi_loop_device erasesize writesize)
      pure (not (is_negative ret))

  unfoldable pub remove_block2mtd : Bytes → M Bool
  remove_block2mtd ubi_loop_device = do
    fp ← call env (Call.open_to_write block2mtd_file)
    if not (is_nonzero fp)
        then pure false
        else do ret ← call env (Call.remove_block2mtd ubi_loop_device); pure (not (is_negative ret))

  -- The loop over the device numbers: the first device of that name.
  unfoldable pub find_mtd : Bytes → List (ℕ × Option Bytes) → Option ℕ
  find_mtd name [] = none
  find_mtd name ((i, none) ∷ mtds) = find_mtd name mtds
  find_mtd name ((i, some found) ∷ mtds) =
      let rest = find_mtd name mtds in if str_eq found name then some i else rest

  unfoldable pub detect_mtd_device : Bytes → M (Option ℕ)
  unfolding find_mtd
  detect_mtd_device ubi_loop_device = do mtds ← ask env.mtd_devices; pure (in_mtds mtds)
    where
      in_mtds : Option (List (ℕ × Option Bytes)) → Option ℕ
      in_mtds none = none
      in_mtds (some mtds) = find_mtd (lit "block2mtd: " ++ ubi_loop_device) mtds

  -- The clean-up of the error paths.
  unfoldable pub undo_block2mtd : M Bool
  undo_block2mtd = do
    device ← ask env.loop_device
    remove_block2mtd device
    release_loop_device env
    pure false

  -- From `ubi_attach_ofgwrite` on. `loop_mtd_device` is returned: it is a global.
  unfoldable pub attach_and_mount : ℕ → ℕ → Bytes → M Bool
  attach_and_mount loop_mtd_device vid_offset ubi_mount_path = do
    attached ← ubi_attach_ofgwrite env loop_mtd_device vid_offset false
    if not attached then undo_block2mtd else do
      mounted ← call env (Call.mount_read_only (lit "/dev/ubi10_0") ubi_mount_path (lit "ubifs"))
      if is_negative mounted
          then (do ubi_detach_dev env loop_mtd_device false; undo_block2mtd)
          else pure true

  -- The device number if the image is mounted.
  unfoldable pub with_mtd : Option ℕ → ℕ → Bytes → M (Option ℕ)
  with_mtd none vid_offset ubi_mount_path = do undo_block2mtd; pure none
  with_mtd (some mtd) vid_offset ubi_mount_path = do
    mounted ← attach_and_mount mtd vid_offset ubi_mount_path
    pure (if mounted then some mtd else none)

  unfoldable pub with_vid_offset : Option ℕ → Bytes → M (Option ℕ)
  with_vid_offset none ubi_mount_path = do undo_block2mtd; pure none
  with_vid_offset (some vid_offset) ubi_mount_path = do
    device ← ask env.loop_device
    mtd ← detect_mtd_device device
    with_mtd mtd vid_offset ubi_mount_path

  -- From `setup_loop_device` on.
  unfoldable pub mount_loop : Bytes → ℕ → ℕ → Bytes → M (Option ℕ)
  mount_loop image erasesize writesize ubi_mount_path = do
    is_set_up ← setup_loop_device env image
    if not is_set_up then pure none else do
      device ← ask env.loop_device
      is_mtd ← setup_block2mtd device erasesize writesize
      if not is_mtd then (do release_loop_device env; pure none) else do
        vid_offset ← detect_vid_offset env device
        with_vid_offset vid_offset ubi_mount_path

  -- The image to mount: the NFI file's rootfs if there is an NFI file.
  unfoldable pub choose_image : Images → Bytes → ℕ → M (Option Bytes)
  choose_image images filename writesize =
      if is_empty images.nfi_filename
      then pure (some filename)
      else extract_rootfs_from_nfi env images.nfi_path images.nfi_filename writesize

  unfoldable pub mount_chosen : Option Bytes → ℕ → ℕ → Bytes → M (Option ℕ)
  mount_chosen none erasesize writesize ubi_mount_path = pure none
  mount_chosen (some image) erasesize writesize ubi_mount_path =
      mount_loop image erasesize writesize ubi_mount_path

  unfoldable pub mount_sized : Images → Bytes → Option (ℕ × ℕ) → Bytes → M (Option ℕ)
  mount_sized images filename none ubi_mount_path = pure none
  mount_sized images filename (some (erasesize, writesize)) ubi_mount_path = do
    image ← choose_image images filename writesize
    mount_chosen image erasesize writesize ubi_mount_path

  -- Without `no_write`; the device number, `loop_mtd_device`, on success.
  unfoldable pub mount_ubi_image : Images → Bytes → Bytes → M (Option ℕ)
  mount_ubi_image images filename ubi_mount_path = do
    sizes ← get_erasesize_and_writesize
    mount_sized images filename sizes ubi_mount_path

  -- Without `no_write`. All results are ignored.
  unfoldable pub umount_ubi_image : ℕ → Bytes → M Bool
  umount_ubi_image loop_mtd_device ubi_mount_path = do
    tell (Call.umount ubi_mount_path)
    ubi_detach_dev env loop_mtd_device false
    device ← ask env.loop_device
    remove_block2mtd device
    release_loop_device env
    pure true

  abbrev pub is_dot : Bytes → Bool
  is_dot name = str_eq name (lit ".") || str_eq name (lit "..")

  -- The entries that the first loop of `cp_rootfs` counts.
  unfoldable pub count_entries : List Bytes → ℕ
  count_entries [] = 0
  count_entries (name ∷ names) =
      if is_dot name then count_entries names else suc (count_entries names)

  -- The second loop, with `dir_entries`.
  unfoldable pub copy_entries : Bytes → Bytes → ℕ → ℕ → List Bytes → M Bool
  copy_entries source target total done [] = pure true
  copy_entries source target total done (name ∷ names) =
      let skip = copy_entries source target total done names in
      let next = copy_entries source target total (done + 1) names in
      if is_dot name then skip else do
        copied ← cp_busybox env (source ++ name) target false
        if not copied
            then pure false
            else do tell (Call.set_step_progress ((done + 1) * 100 / total)); next

  unfoldable pub copy_listed : Bytes → Bytes → Option (List Bytes) → M Bool
  unfolding copy_entries count_entries
  copy_listed source target none = pure false
  copy_listed source target (some names) = copy_entries source target (count_entries names) 0 names

  -- Without `no_write`.
  unfoldable pub cp_rootfs : Bytes → Bytes → M Bool
  unfolding copy_listed
  cp_rootfs source target = do
    names ← ask (λ t. env.entries t source)
    copy_listed source target names

  abbrev pub ubi_mount_dir : Bytes
  ubi_mount_dir = lit "/ubi_mount/"

  -- From the second `set_step` on, with the image mounted.
  unfoldable pub replace_rootfs : Bytes → ℕ → M Bool
  replace_rootfs rootfs_path loop_mtd_device = do
    tell (Call.set_step (lit "Deleting rootfs"))
    rm_rootfs env rootfs_path false
    tell (Call.mkdir rootfs_path)
    tell (Call.set_step (lit "Copying rootfs"))
    copied ← cp_rootfs ubi_mount_dir rootfs_path
    tell Call.sync
    umount_ubi_image loop_mtd_device ubi_mount_dir
    tell (Call.rmdir ubi_mount_dir)
    pure copied

  unfoldable pub replace_if_mounted : Bytes → Option ℕ → M Bool
  replace_if_mounted rootfs_path none = pure false
  replace_if_mounted rootfs_path (some mtd) = replace_rootfs rootfs_path mtd

  unfoldable pub flash_ubi_loop_subdir : Devices → Images → Bytes → Bool → M Bool
  flash_ubi_loop_subdir d images filename true = do
    tell (Call.set_step (lit "Deleting rootfs"))
    tell (Call.set_step (lit "Copying rootfs"))
    tell Call.sync
    pure true
  flash_ubi_loop_subdir d images filename false = do
    tell (Call.mkdir ubi_mount_dir)
    mounted ← mount_ubi_image images filename ubi_mount_dir
    replace_if_mounted (lit "/oldroot_remount/" ++ (d.rootfs_sub_dir ++ lit "/")) mounted
