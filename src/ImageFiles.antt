-- ===== src/ImageFiles.antt =====
-- ofgwrite.c: `find_image_files`. `path` is the resolved directory with a slash at its end, `names`
-- what `readdir` returns, and `stat_size` the sizes that `stat` gives. For names shorter than the
-- suffix the code compares bytes in front of the name; such a name is taken to have no suffix.
pub mod Last
pub mod Sized
use ofgwrite.Base.{
  ℕ, ◌-◌, Bool, true, false, ◌&&◌, ◌||◌, List, [], ◌∷◌, ◌++◌, any, drop, length, ltb,
}
use ofgwrite.Base.{if◌then◌else◌, not, Option, none, some}
use ofgwrite.Base.Text.{Bytes, lit, str_eq, contains}
use ofgwrite.State.{Images, ImageType}

-- strcmp(&s[strlen(s) - strlen(t)], t) == 0
unfoldable pub ends_with : Bytes → Bytes → Bool
ends_with s t = not (ltb (length s) (length t)) && str_eq (drop (length s - length t) s) t

unfoldable pub is_kernel_name : Bytes → Bool
is_kernel_name name =
    contains name (lit "kernel") && contains name (lit ".bin") || str_eq name (lit "uImage")

abbrev pub rootfs_names : List Bytes
rootfs_names =
    lit "rootfs.bin"
    ∷ lit "root_cfe_auto.bin"
    ∷ lit "root_cfe_auto.jffs2"
    ∷ lit "oe_rootfs.bin"
    ∷ lit "e2jffs2.img"
    ∷ lit "rootfs.tar.bz2"
    ∷ lit "rootfs.ubi"
    ∷ lit "rootfs.tar.xz"
    ∷ lit "rootfs-one.tar.bz2"
    ∷ lit "rootfs-two.tar.bz2"
    ∷ []

unfoldable pub is_rootfs_name : Bytes → Bool
is_rootfs_name name = any (str_eq name) rootfs_names

unfoldable pub is_nfi_name : Bytes → Bool
unfolding ends_with
is_nfi_name name = ends_with name (lit ".nfi")

unfoldable pub is_tar_xz_name : Bytes → Bool
unfolding ends_with
is_tar_xz_name name = ends_with name (lit ".tar.xz")

unfoldable pub is_tar_name : Bytes → Bool
is_tar_name name = contains name (lit ".tar.")

module _ (path : Bytes) (stat_size : Bytes → ℕ) where
  -- The four tests of the loop's body, in order.
  unfoldable pub take_kernel : Bytes → Images → Images
  take_kernel name i =
      if is_kernel_name name
      then record i { kernel_filename = path ++ name; kernel_file_size = stat_size (path ++ name) }
      else i

  unfoldable pub take_rootfs : Bytes → Images → Images
  take_rootfs name i =
      if is_rootfs_name name
      then record i {
        rootfs_filename = path ++ name;
        rootfs_file_size = stat_size (path ++ name);
        image_type = if is_tar_name name then ImageType.tar_based else ImageType.ubi;
      }
      else i

  unfoldable pub take_nfi : Bytes → Images → Images
  take_nfi name i =
      if is_nfi_name name
      then record i {
        nfi_filename = path ++ name;
        rootfs_file_size = stat_size (path ++ name);
        nfi_path = path;
        image_type = ImageType.ubi;
      }
      else i

  unfoldable pub take_tar_xz : Bytes → Images → Images
  take_tar_xz name i =
      if is_tar_xz_name name
      then record i {
        rootfs_filename = path ++ name;
        rootfs_file_size = stat_size (path ++ name);
        image_type = ImageType.tar_ubi;
      }
      else i

  unfoldable pub take_entry : Bytes → Images → Images
  unfolding take_kernel take_rootfs take_nfi take_tar_xz
  take_entry name i = take_tar_xz name (take_nfi name (take_rootfs name (take_kernel name i)))

  unfoldable pub take_entries : List Bytes → Images → Images
  take_entries [] i = i
  take_entries (name ∷ names) i = take_entries names (take_entry name i)

abbrev pub forget_files : Images → Images
forget_files i = record i {
  kernel_filename = [];
  rootfs_filename = [];
  nfi_filename = [];
  nfi_path = [];
}

-- The images, and the return value. `resolved` is what `realpath` and the slash make of the
-- argument, `names` the entries if `opendir` succeeds.
unfoldable pub find_image_files :
    (Bytes → ℕ) → Option Bytes → Option (List Bytes) → Images → Images × Bool
find_image_files stat_size none names i = (i, false)
find_image_files stat_size (some path) none i = (forget_files i, false)
find_image_files stat_size (some path) (some names) i =
    (take_entries path stat_size names (forget_files i), true)
