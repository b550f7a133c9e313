-- ===== src/Flash/Loop/Extract.antt =====
-- The extraction of an NFI image and the copying of a rootfs leave the resources alone.
use ofgwrite.Base.{drop, zero, suc, ℕ, false, Option, none, some, List, [], ◌∷◌, ◌+◌}
use ofgwrite.Base.Calls.{Env}
use ofgwrite.Base.Text.{Bytes}
use ofgwrite.State.{Images}
use ofgwrite.Flash.Tools.{cp_busybox, rm_rootfs}
use ofgwrite.Flash.Nfi.{
  extract_rootfs_from_nfi, extract_file, extract_content, find_rootfs, copy_rootfs, copy_pages,
  page_size, u32, big_endian,
}
use ofgwrite.Flash.Loop.{choose_image, copy_entries, copy_listed, cp_rootfs}
use ofgwrite.Flash.Loop.Resources.{Works, Spares, spares, is_spare}

module _ (env : Env) (works : Works env) where
  copy_pages-Spares :
      (path : Bytes) (writesize fuel at part_end : ℕ) (rest : Bytes)
      → Spares env (copy_pages env path writesize fuel at part_end rest)
  unfolding copy_pages is_spare
  copy_pages-Spares path writesize zero at part_end rest = search spares
  copy_pages-Spares path writesize (suc fuel) at part_end rest =
      let next =
        copy_pages-Spares path writesize fuel (u32 (at + page_size writesize)) part_end
          (drop (page_size writesize) rest) in
      search (spares, next) depth 8

  copy_rootfs-Spares :
      (path : Bytes) (writesize at size : ℕ) (rest : Bytes)
      → Spares env (copy_rootfs env path writesize at size rest)
  unfolding copy_rootfs is_spare
  copy_rootfs-Spares path writesize at size rest = search (spares, copy_pages-Spares)

  find_rootfs-Spares :
      (path : Bytes) (writesize fuel partition at total : ℕ) (rest : Bytes)
      → Spares env (find_rootfs env path writesize fuel partition at total rest)
  unfolding find_rootfs
  find_rootfs-Spares path writesize zero partition at total rest = search spares
  find_rootfs-Spares path writesize (suc fuel) partition at total rest =
      let size = big_endian rest in
      let next =
        find_rootfs-Spares path writesize fuel (partition + 1) (u32 (at + size + 4)) total
          (drop (size + 4) rest) in
      search (spares, next, copy_rootfs-Spares) depth 8

  extract_file-Spares :
      (path : Bytes) (writesize : ℕ) (content : Option Bytes)
      → Spares env (extract_file env path writesize content)
  unfolding extract_file extract_content
  extract_file-Spares path writesize none = search spares
  extract_file-Spares path writesize (some content) = search (spares, find_rootfs-Spares) depth 8

  pub choose_image-Spares :
      (i : Images) (file : Bytes) (writesize : ℕ) → Spares env (choose_image env i file writesize)
  unfolding choose_image extract_rootfs_from_nfi
  choose_image-Spares i file writesize = search (spares, extract_file-Spares) depth 8

  copy_entries-Spares :
      (source target : Bytes) (total done : ℕ) (names : List Bytes)
      → Spares env (copy_entries env source target total done names)
  unfolding copy_entries cp_busybox is_spare
  copy_entries-Spares source target total done [] = search spares
  copy_entries-Spares source target total done (name ∷ names) =
      let skip = copy_entries-Spares source target total done names in
      let next = copy_entries-Spares source target total (done + 1) names in
      search (spares, skip, next) depth 8

  copy_listed-Spares :
      (source target : Bytes) (names : Option (List Bytes))
      → Spares env (copy_listed env source target names)
  unfolding copy_listed
  copy_listed-Spares source target none = search spares
  copy_listed-Spares source target (some names) = search (spares, copy_entries-Spares)

  pub cp_rootfs-Spares : (source target : Bytes) → Spares env (cp_rootfs env source target)
  unfolding cp_rootfs
  cp_rootfs-Spares source target = search (spares, copy_listed-Spares)

  pub rm_rootfs-Spares : (path : Bytes) → Spares env (rm_rootfs env path false)
  unfolding rm_rootfs is_spare
  rm_rootfs-Spares path = search spares
