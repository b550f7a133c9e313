-- ===== src/Protocol/Loop.antt =====
-- The flashing of a UBI image that is mounted by a loop device leaves the framebuffer open.
use ofgwrite.Base.{drop, zero, suc, ℕ, Bool, true, false, Option, none, some, List, [], ◌∷◌, ◌+◌}
use ofgwrite.Base.Calls.{Env}
use ofgwrite.Base.Text.{Bytes, lit}
use ofgwrite.State.{Devices, Images}
use ofgwrite.Flash.Tools.{
  release_loop_device, setup_loop_device, ubi_attach_ofgwrite, ubi_detach_dev, cp_busybox,
  rm_rootfs,
}
use ofgwrite.Flash.Nfi.{
  extract_rootfs_from_nfi, extract_file, extract_content, find_rootfs, copy_rootfs, copy_pages,
  page_size, u32, big_endian,
}
use ofgwrite.Flash.Vid.{detect_vid_offset}
use ofgwrite.Flash.Loop.{
  setup_block2mtd, remove_block2mtd, undo_block2mtd, attach_and_mount, with_mtd, with_vid_offset,
  mount_loop, choose_image, mount_chosen, mount_sized, mount_ubi_image, umount_ubi_image,
  copy_entries, copy_listed, cp_rootfs, replace_rootfs, replace_if_mounted, flash_ubi_loop_subdir,
  detect_mtd_device, get_erasesize_and_writesize, get_size,
}
use ofgwrite.Protocol.{is_quiet, Keeps, keeps}

module _ (env : Env) where
  setup_block2mtd-Keeps : (device : Bytes) (e w : ℕ) → Keeps (setup_block2mtd env device e w)
  unfolding setup_block2mtd is_quiet
  setup_block2mtd-Keeps device e w = search keeps

  remove_block2mtd-Keeps : (device : Bytes) → Keeps (remove_block2mtd env device)
  unfolding remove_block2mtd is_quiet
  remove_block2mtd-Keeps device = search keeps

  undo_block2mtd-Keeps : Keeps (undo_block2mtd env)
  unfolding undo_block2mtd release_loop_device is_quiet
  undo_block2mtd-Keeps = search (keeps, remove_block2mtd-Keeps)

  attach_and_mount-Keeps : (mtd vid : ℕ) (path : Bytes) → Keeps (attach_and_mount env mtd vid path)
  unfolding attach_and_mount ubi_attach_ofgwrite ubi_detach_dev is_quiet
  attach_and_mount-Keeps mtd vid path = search (keeps, undo_block2mtd-Keeps) depth 8

  with_mtd-Keeps : (mtd : Option ℕ) (vid : ℕ) (path : Bytes) → Keeps (with_mtd env mtd vid path)
  unfolding with_mtd
  with_mtd-Keeps none vid path = search (keeps, undo_block2mtd-Keeps)
  with_mtd-Keeps (some mtd) vid path = search (keeps, attach_and_mount-Keeps)

  with_vid_offset-Keeps : (vid : Option ℕ) (path : Bytes) → Keeps (with_vid_offset env vid path)
  unfolding with_vid_offset detect_mtd_device
  with_vid_offset-Keeps none path = search (keeps, undo_block2mtd-Keeps)
  with_vid_offset-Keeps (some vid) path = search (keeps, with_mtd-Keeps)

  mount_loop-Keeps :
      (image : Bytes) (e w : ℕ) (path : Bytes) → Keeps (mount_loop env image e w path)
  unfolding mount_loop setup_loop_device detect_vid_offset release_loop_device
  mount_loop-Keeps image e w path =
      search (keeps, setup_block2mtd-Keeps, with_vid_offset-Keeps) depth 14

  mount_chosen-Keeps :
      (image : Option Bytes) (e w : ℕ) (path : Bytes) → Keeps (mount_chosen env image e w path)
  unfolding mount_chosen
  mount_chosen-Keeps none e w path = search keeps
  mount_chosen-Keeps (some image) e w path = search (keeps, mount_loop-Keeps)

  copy_pages-Keeps :
      (path : Bytes) (writesize fuel at part_end : ℕ) (rest : Bytes)
      → Keeps (copy_pages env path writesize fuel at part_end rest)
  unfolding copy_pages is_quiet
  copy_pages-Keeps path writesize zero at part_end rest = search keeps
  copy_pages-Keeps path writesize (suc fuel) at part_end rest =
      let next =
        copy_pages-Keeps path writesize fuel (u32 (at + page_size writesize)) part_end
          (drop (page_size writesize) rest) in
      search (keeps, next) depth 8

  copy_rootfs-Keeps :
      (path : Bytes) (writesize at size : ℕ) (rest : Bytes)
      → Keeps (copy_rootfs env path writesize at size rest)
  unfolding copy_rootfs is_quiet
  copy_rootfs-Keeps path writesize at size rest = search (keeps, copy_pages-Keeps)

  find_rootfs-Keeps :
      (path : Bytes) (writesize fuel partition at total : ℕ) (rest : Bytes)
      → Keeps (find_rootfs env path writesize fuel partition at total rest)
  unfolding find_rootfs
  find_rootfs-Keeps path writesize zero partition at total rest = search keeps
  find_rootfs-Keeps path writesize (suc fuel) partition at total rest =
      let size = big_endian rest in
      let next =
        find_rootfs-Keeps path writesize fuel (partition + 1) (u32 (at + size + 4)) total
          (drop (size + 4) rest) in
      search (keeps, next, copy_rootfs-Keeps) depth 8

  extract_file-Keeps :
      (path : Bytes) (writesize : ℕ) (content : Option Bytes)
      → Keeps (extract_file env path writesize content)
  unfolding extract_file extract_content
  extract_file-Keeps path writesize none = search keeps
  extract_file-Keeps path writesize (some content) = search (keeps, find_rootfs-Keeps) depth 8

  choose_image-Keeps :
      (i : Images) (file : Bytes) (writesize : ℕ) → Keeps (choose_image env i file writesize)
  unfolding choose_image extract_rootfs_from_nfi
  choose_image-Keeps i file writesize = search (keeps, extract_file-Keeps) depth 8

  mount_sized-Keeps :
      (i : Images) (file : Bytes) (sizes : Option (ℕ × ℕ)) (path : Bytes)
      → Keeps (mount_sized env i file sizes path)
  unfolding mount_sized
  mount_sized-Keeps i file none path = search keeps
  mount_sized-Keeps i file (some (e, w)) path =
      search (keeps, choose_image-Keeps, mount_chosen-Keeps)

  mount_ubi_image-Keeps : (i : Images) (file path : Bytes) → Keeps (mount_ubi_image env i file path)
  unfolding mount_ubi_image get_erasesize_and_writesize get_size
  mount_ubi_image-Keeps i file path = search (keeps, mount_sized-Keeps) depth 10

  umount_ubi_image-Keeps : (mtd : ℕ) (path : Bytes) → Keeps (umount_ubi_image env mtd path)
  unfolding umount_ubi_image ubi_detach_dev release_loop_device is_quiet
  umount_ubi_image-Keeps mtd path = search (keeps, remove_block2mtd-Keeps) depth 10

  copy_entries-Keeps :
      (source target : Bytes) (total done : ℕ) (names : List Bytes)
      → Keeps (copy_entries env source target total done names)
  unfolding copy_entries cp_busybox is_quiet
  copy_entries-Keeps source target total done [] = search keeps
  copy_entries-Keeps source target total done (name ∷ names) =
      let skip = copy_entries-Keeps source target total done names in
      let next = copy_entries-Keeps source target total (done + 1) names in
      search (keeps, skip, next) depth 8

  copy_listed-Keeps :
      (source target : Bytes) (names : Option (List Bytes))
      → Keeps (copy_listed env source target names)
  unfolding copy_listed
  copy_listed-Keeps source target none = search keeps
  copy_listed-Keeps source target (some names) = search (keeps, copy_entries-Keeps)

  replace_rootfs-Keeps : (path : Bytes) (mtd : ℕ) → Keeps (replace_rootfs env path mtd)
  unfolding replace_rootfs rm_rootfs cp_rootfs is_quiet lit
  replace_rootfs-Keeps path mtd = search (keeps, copy_listed-Keeps, umount_ubi_image-Keeps) depth 14

  replace_if_mounted-Keeps :
      (path : Bytes) (mounted : Option ℕ) → Keeps (replace_if_mounted env path mounted)
  unfolding replace_if_mounted
  replace_if_mounted-Keeps path none = search keeps
  replace_if_mounted-Keeps path (some mtd) = search (keeps, replace_rootfs-Keeps)

  pub flash_ubi_loop_subdir-Keeps :
      (d : Devices) (i : Images) (file : Bytes) (no_write : Bool)
      → Keeps (flash_ubi_loop_subdir env d i file no_write)
  unfolding flash_ubi_loop_subdir is_quiet lit
  flash_ubi_loop_subdir-Keeps d i file true = search keeps depth 8
  flash_ubi_loop_subdir-Keeps d i file false =
      search (keeps, mount_ubi_image-Keeps, replace_if_mounted-Keeps) depth 8
