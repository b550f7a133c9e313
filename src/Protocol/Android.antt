-- ===== src/Protocol/Android.antt =====
-- The boot image is written while the framebuffer is open.
use ofgwrite.Base.{ℕ, Option, none, some, List, [], ◌∷◌}
use ofgwrite.Base.Calls.{Env}
use ofgwrite.Base.Text.{Bytes, lit}
use ofgwrite.BootImage.{
  generate_boot_image, write_items, write_item, write_padding, write_image, remove_old,
  write_hashed, write_loaded,
}
use ofgwrite.Main.Android.{
  Exit, create_kernel_img, use_dreamcard, write_kernel_img, is_dreamcard, write_dreamcard,
  with_root,
}
use ofgwrite.Protocol.{is_quiet, Keeps, keeps}

module _ (env : Env) where
  write_item-Keeps : (path bytes : Bytes) → Keeps (write_item env path bytes)
  unfolding write_item is_quiet
  write_item-Keeps path bytes = search keeps

  write_items-Keeps : (path : Bytes) (items : List Bytes) → Keeps (write_items env path items)
  unfolding write_items write_padding
  write_items-Keeps path [] = search keeps
  write_items-Keeps path (item ∷ items) =
      search (keeps, write_item-Keeps, write_items-Keeps path items) depth 10

  write_image-Keeps : (path : Bytes) (items : List Bytes) → Keeps (write_image env path items)
  unfolding write_image remove_old is_quiet
  write_image-Keeps path items = search (keeps, write_items-Keeps) depth 12

  write_hashed-Keeps :
      (path board cmdline kernel second : Bytes) (hash : Option Bytes)
      → Keeps (write_hashed env path board cmdline kernel second hash)
  write_hashed-Keeps path board cmdline kernel second none = search keeps
  write_hashed-Keeps path board cmdline kernel second (some hash) =
      search (keeps, write_image-Keeps)

  write_loaded-Keeps :
      (digest : Bytes → Option Bytes) (path board cmdline : Bytes) (kernel second : Option Bytes)
      → Keeps (write_loaded env digest path board cmdline kernel second)
  write_loaded-Keeps digest path board cmdline none second = search keeps
  write_loaded-Keeps digest path board cmdline (some kernel) none = search keeps
  write_loaded-Keeps digest path board cmdline (some kernel) (some second) =
      search (keeps, write_hashed-Keeps)

  module _ (digest : Bytes → Option Bytes) (boxname rootfs_device : Bytes) where
    generate_boot_image-Keeps :
        (path : Bytes) → Keeps (generate_boot_image env digest boxname rootfs_device path)
    unfolding generate_boot_image
    generate_boot_image-Keeps path = search (keeps, write_loaded-Keeps) depth 10

    write_dreamcard-Keeps :
        (digit : Option ℕ) → Keeps (write_dreamcard env digest boxname rootfs_device digit)
    unfolding is_quiet
    write_dreamcard-Keeps none = search keeps
    write_dreamcard-Keeps (some digit) = search (keeps, generate_boot_image-Keeps) depth 8

    use_dreamcard-Keeps : Keeps (use_dreamcard env digest boxname rootfs_device)
    unfolding use_dreamcard is_dreamcard is_quiet
    use_dreamcard-Keeps = search (keeps, write_dreamcard-Keeps) depth 14

    write_kernel_img-Keeps :
        (ended : Option Exit) → Keeps (write_kernel_img env digest boxname rootfs_device ended)
    unfolding write_kernel_img is_quiet
    write_kernel_img-Keeps none = search (keeps, generate_boot_image-Keeps) depth 8
    write_kernel_img-Keeps (some exit) = search keeps

    with_root-Keeps :
        (cut : Bytes × Option Bytes) → Keeps (with_root env digest boxname rootfs_device cut)
    with_root-Keeps (root, none) = search keeps
    with_root-Keeps (root, some rest) =
        search (keeps, use_dreamcard-Keeps, write_kernel_img-Keeps) depth 8

    pub create_kernel_img-Keeps : Keeps (create_kernel_img env digest boxname rootfs_device)
    unfolding create_kernel_img is_quiet lit
    create_kernel_img-Keeps = search (keeps, with_root-Keeps) depth 8
