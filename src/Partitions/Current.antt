-- ===== src/Partitions/Current.antt =====
-- `search_current_used_partitions`, which confirms the devices of the running image.
use ofgwrite.Base.{ℕ, ◌+◌, true, false, List, [], ◌∷◌, ◌++◌, ◌≡◌, arith}
use ofgwrite.Base.{Option, none, some}
use ofgwrite.Base.Text.{Bytes, lit, cut, split}
use ofgwrite.State.{Devices, FlashMode, Boot}
use ofgwrite.Partitions.{Search, check_entry, check_entries, check_behind}
use ofgwrite.Partitions.{search_current_used_partitions}

-- Whatever is found is the running image's.
pub record IsCurrent (b : Boot) (d : Devices) : Type 0 where
  pub kernel : d.found_kernel_device ≡ true → d.kernel_device ≡ b.current_kernel_device
  pub rootfs : d.found_rootfs_device ≡ true → d.rootfs_device ≡ b.current_rootfs_device
  pub kernel_mode : d.found_kernel_device ≡ true → d.kernel_flash_mode ≡ FlashMode.tarbz2
  pub rootfs_mode : d.found_rootfs_device ≡ true → d.rootfs_flash_mode ≡ FlashMode.tarbz2

check_entry-IsCurrent :
    (b : Boot) (name : Bytes) (n : ℕ) (entry : Bytes) (d : Devices)
    → IsCurrent b d
    → IsCurrent b (check_entry b name n entry d)
unfolding check_entry
check_entry-IsCurrent b name n entry d h = ground arith

check_entries-IsCurrent :
    (b : Boot) (name : Bytes) (n : ℕ) (entries : List Bytes) (d : Devices)
    → IsCurrent b d
    → IsCurrent b (check_entries b name n entries d)
unfolding check_entries
check_entries-IsCurrent b name n [] d h = h
check_entries-IsCurrent b name n (entry ∷ entries) d h =
    check_entries-IsCurrent b name (n + 1) entries (check_entry b name n entry d)
      (check_entry-IsCurrent b name n entry d h)

check_behind-IsCurrent :
    (b : Boot) (front : Bytes) (after : Option Bytes) (d : Devices)
    → IsCurrent b d
    → IsCurrent b (check_behind b (front, after) d).0
unfolding check_behind
check_behind-IsCurrent b front none d h = h
check_behind-IsCurrent b front (some rest) d h =
    ground
      (arith, check_entries-IsCurrent b (lit "/dev/" ++ (front ++ lit "p")) 1 (split b',' rest) d h)

check_behind-found :
    (b : Boot) (front : Bytes) (after : Option Bytes) (d : Devices)
    → (check_behind b (front, after) d).1 ≡ Search.found
    → let d' = (check_behind b (front, after) d).0 in
      (d'.found_kernel_device ≡ true)
      × (d'.found_rootfs_device ≡ true)
      × (d'.rootfs_sub_dir ≡ b.current_rootfs_sub_dir)
unfolding check_behind
check_behind-found b front none d h = cc
check_behind-found b front (some rest) d h = ground arith

-- A search that starts with nothing found and ends with 1 has chosen the kernel and the rootfs device
-- of the running image, both with the mode `TARBZ2`, and the running image's directory.
pub search_current_found :
    (b : Boot) (table : Bytes) (d : Devices)
    → d.found_kernel_device ≡ false
    → d.found_rootfs_device ≡ false
    → (search_current_used_partitions b table d).1 ≡ Search.found
    → let d' = (search_current_used_partitions b table d).0 in
      (d'.kernel_device ≡ b.current_kernel_device)
      × (d'.rootfs_device ≡ b.current_rootfs_device)
      × (d'.kernel_flash_mode ≡ FlashMode.tarbz2)
      × (d'.rootfs_flash_mode ≡ FlashMode.tarbz2)
      × (d'.rootfs_sub_dir ≡ b.current_rootfs_sub_dir)
unfolding search_current_used_partitions
search_current_found b table d hk hr h =
    let front = (cut b':' table).0 in
    let after = (cut b':' table).1 in
    ground (
      arith,
      check_behind-found b front after d h,
      check_behind-IsCurrent b front after d (ground arith),
    )
