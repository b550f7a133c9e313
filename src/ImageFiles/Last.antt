-- ===== src/ImageFiles/Last.antt =====
-- The last entry of each kind is taken.
use ofgwrite.Base.{ℕ, Bool, ◌||◌, List, [], ◌∷◌, ◌++◌, ◌≡◌, refl, arith, some}
use ofgwrite.Base.{if◌then◌else◌, ◌∙◌, ap}
use ofgwrite.Base.Text.{Bytes}
use ofgwrite.State.{Images}
use ofgwrite.ImageFiles.{is_kernel_name, is_rootfs_name, is_nfi_name, is_tar_xz_name, take_entry}
use ofgwrite.ImageFiles.{take_entries, forget_files, find_image_files}

-- The path of the last name that passes the test, or what was there before.
unfoldable pub last_path : (Bytes → Bool) → Bytes → List Bytes → Bytes → Bytes
last_path p path [] old = old
last_path p path (name ∷ names) old = last_path p path names (if p name then path ++ name else old)

abbrev pub is_rootfs_file : Bytes → Bool
is_rootfs_file name = is_rootfs_name name || is_tar_xz_name name

module _ (path : Bytes) (stat_size : Bytes → ℕ) where
  abbrev LastOf : List Bytes → Images → Images → Type 0
  LastOf names i j =
      (j.kernel_filename ≡ last_path is_kernel_name path names i.kernel_filename)
      × (j.rootfs_filename ≡ last_path is_rootfs_file path names i.rootfs_filename)
      × (j.nfi_filename ≡ last_path is_nfi_name path names i.nfi_filename)

  take_entry_names :
      (name : Bytes) (i : Images)
      → ((take_entry path stat_size name i).kernel_filename
          ≡ (if is_kernel_name name then path ++ name else i.kernel_filename))
        × ((take_entry path stat_size name i).rootfs_filename
            ≡ (if is_rootfs_file name then path ++ name else i.rootfs_filename))
        × ((take_entry path stat_size name i).nfi_filename
            ≡ (if is_nfi_name name then path ++ name else i.nfi_filename))
  unfolding take_entry
  take_entry_names name i = ground arith

  take_entries-LastOf :
      (names : List Bytes) (i : Images) → LastOf names i (take_entries path stat_size names i)
  unfolding take_entries last_path
  take_entries-LastOf [] i = (refl, refl, refl)
  take_entries-LastOf (name ∷ names) i =
      let (k, r, n) = take_entries-LastOf names (take_entry path stat_size name i) in
      let (hk, hr, hn) = take_entry_names name i in
      (
        k ∙ ap (last_path is_kernel_name path names) hk,
        r ∙ ap (last_path is_rootfs_file path names) hr,
        n ∙ ap (last_path is_nfi_name path names) hn,
      )

-- In a directory that can be read the kernel, rootfs and NFI files are the last entries of their
-- kinds, with the directory in front, and the empty name where there is none of the kind. A rootfs
-- is one of the ten known names, or any name that ends in ".tar.xz".
pub find_image_files-last_path :
    (stat_size : Bytes → ℕ) (path : Bytes) (names : List Bytes) (i : Images)
    → let j = (find_image_files stat_size (some path) (some names) i).0 in
      (j.kernel_filename ≡ last_path is_kernel_name path names [])
      × (j.rootfs_filename ≡ last_path is_rootfs_file path names [])
      × (j.nfi_filename ≡ last_path is_nfi_name path names [])
unfolding find_image_files
find_image_files-last_path stat_size path names i =
    take_entries-LastOf path stat_size names (forget_files i)
