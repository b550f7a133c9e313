-- ===== src/ImageFiles/Sized.antt =====
-- The size that is kept for the rootfs file is that of the file that is kept.
use ofgwrite.Base.{ℕ, true, Option, none, some, List, [], ◌∷◌, ◌++◌, ◌≡◌, ◌≢◌, refl}
use ofgwrite.Base.{Bool-cases, inl, inr}
use ofgwrite.Base.Text.{Bytes, lit}
use ofgwrite.State.{Images}
use ofgwrite.ImageFiles.{
  is_kernel_name, is_rootfs_name, is_nfi_name, is_tar_xz_name, take_kernel, take_rootfs, take_nfi,
  take_tar_xz, take_entry, take_entries, forget_files, find_image_files, ends_with,
}

-- An NFI file has the same variable for its size.
abbrev pub IsSized : (Bytes → ℕ) → Images → Type 0
IsSized stat_size i =
    i.nfi_filename ≡ [] → i.rootfs_filename ≢ [] → i.rootfs_file_size ≡ stat_size i.rootfs_filename

nfi_path-ne : (path name : Bytes) → is_nfi_name name ≡ true → path ++ name ≢ []
unfolding is_nfi_name ends_with lit
nfi_path-ne [] [] h e = cc
nfi_path-ne [] (c ∷ name) h e = cc
nfi_path-ne (c ∷ path) name h e = cc

module _ (path : Bytes) (stat_size : Bytes → ℕ) where
  take_kernel-IsSized :
      (name : Bytes) (i : Images)
      → IsSized stat_size i
      → IsSized stat_size (take_kernel path stat_size name i)
  unfolding take_kernel
  take_kernel-IsSized name i h = elim (Bool-cases (is_kernel_name name)) [
    | inl named ↦ rw named h
    | inr other ↦ rw other h
  ]

  take_rootfs-IsSized :
      (name : Bytes) (i : Images)
      → IsSized stat_size i
      → IsSized stat_size (take_rootfs path stat_size name i)
  unfolding take_rootfs
  take_rootfs-IsSized name i h = elim (Bool-cases (is_rootfs_name name)) [
    | inl named ↦ rw named (λ _ _. refl)
    | inr other ↦ rw other h
  ]

  take_nfi-IsSized :
      (name : Bytes) (i : Images)
      → IsSized stat_size i
      → IsSized stat_size (take_nfi path stat_size name i)
  unfolding take_nfi
  take_nfi-IsSized name i h = elim (Bool-cases (is_nfi_name name)) [
    | inl named ↦ rw named (λ e _. absurd (nfi_path-ne path name named e))
    | inr other ↦ rw other h
  ]

  take_tar_xz-IsSized :
      (name : Bytes) (i : Images)
      → IsSized stat_size i
      → IsSized stat_size (take_tar_xz path stat_size name i)
  unfolding take_tar_xz
  take_tar_xz-IsSized name i h = elim (Bool-cases (is_tar_xz_name name)) [
    | inl named ↦ rw named (λ _ _. refl)
    | inr other ↦ rw other h
  ]

  take_entry-IsSized :
      (name : Bytes) (i : Images)
      → IsSized stat_size i
      → IsSized stat_size (take_entry path stat_size name i)
  unfolding take_entry
  take_entry-IsSized name i h =
      let k = take_kernel path stat_size name i in
      let r = take_rootfs path stat_size name k in
      let n = take_nfi path stat_size name r in
      take_tar_xz-IsSized name n
        (take_nfi-IsSized name r (take_rootfs-IsSized name k (take_kernel-IsSized name i h)))

  take_entries-IsSized :
      (names : List Bytes) (i : Images)
      → IsSized stat_size i
      → IsSized stat_size (take_entries path stat_size names i)
  unfolding take_entries
  take_entries-IsSized [] i h = h
  take_entries-IsSized (name ∷ names) i h =
      take_entries-IsSized names (take_entry path stat_size name i) (take_entry-IsSized name i h)

-- Whatever directory is searched.
pub find_image_files-IsSized :
    (stat_size : Bytes → ℕ) (resolved : Option Bytes) (names : Option (List Bytes)) (i : Images)
    → IsSized stat_size i
    → IsSized stat_size (find_image_files stat_size resolved names i).0
unfolding find_image_files
find_image_files-IsSized stat_size none names i h = h
find_image_files-IsSized stat_size (some path) none i h = λ _ n. absurd (n refl)
find_image_files-IsSized stat_size (some path) (some names) i h =
    take_entries-IsSized path stat_size names (forget_files i) (λ _ n. absurd (n refl))
