-- ===== src/Partitions/Scan.antt =====
-- `search_via_part_names` against an independent reading of the table.
use ofgwrite.Base.{
  ap, ◌∙◌, ℕ, ◌+◌, Bool, true, false, Option, none, some, List, [], ◌∷◌, ◌++◌, ◌≡◌, refl,
}
use ofgwrite.Base.{arith, if◌then◌else◌, any, not, ◌&&◌, All, ◌==◌}
use ofgwrite.Base.Text.{Bytes, contains, cut_append, split-join, join}
use ofgwrite.State.{Devices, FlashMode}
use ofgwrite.Partitions.{Names, partition_path, scan_entry, scan, scan_behind, scan_table}

-- The number of the last entry that passes the test; the first entry has the number `n`.
unfoldable pub last_match : (Bytes → Bool) → ℕ → List Bytes → Option ℕ → Option ℕ
last_match p n [] best = best
last_match p n (entry ∷ entries) best =
    last_match p (n + 1) entries (if p entry then some n else best)

abbrev pub is_kernel_entry : Names → Bytes → Bool
is_kernel_entry names entry = contains entry names.kernel_name

-- An entry with both names is taken for the kernel.
abbrev pub is_rootfs_entry : Names → Bytes → Bool
is_rootfs_entry names entry =
    not (contains entry names.kernel_name) && contains entry names.rootfs_name

abbrev pub place_kernel : Bytes → Option ℕ → Devices → Devices
place_kernel device none d = d
place_kernel device (some n) d = record d {
  found_kernel_device = true;
  kernel_flash_mode = FlashMode.tarbz2;
  kernel_device = partition_path device n;
}

abbrev pub place_rootfs : Bytes → Option ℕ → Devices → Devices
place_rootfs device none d = d
place_rootfs device (some n) d = record d {
  found_rootfs_device = true;
  rootfs_flash_mode = FlashMode.tarbz2;
  rootfs_device = partition_path device n;
}

-- The devices with the kernel on partition `k` and the rootfs on partition `r`, where given.
abbrev pub place : Bytes → Option ℕ → Option ℕ → Devices → Devices
place device k r d = place_rootfs device r (place_kernel device k d)

scan_entry-place :
    (names : Names) (device : Bytes) (n : ℕ) (entry : Bytes) (k r : Option ℕ) (d : Devices)
    → scan_entry names device n entry (place device k r d)
      ≡ place device
          (if is_kernel_entry names entry then some n else k)
          (if is_rootfs_entry names entry then some n else r)
          d
unfolding scan_entry
scan_entry-place names device n entry k r d = ground arith

scan-place :
    (names : Names) (device : Bytes) (n : ℕ) (entries : List Bytes) (k r : Option ℕ) (d : Devices)
    → scan names device n entries (place device k r d)
      ≡ place device
          (last_match (is_kernel_entry names) n entries k)
          (last_match (is_rootfs_entry names) n entries r)
          d
unfolding scan last_match
scan-place names device n [] k r d = refl
scan-place names device n (entry ∷ entries) k r d =
    rw (scan_entry-place names device n entry k r d) (
      scan-place names device (n + 1) entries (if is_kernel_entry names entry then some n else k)
        (if is_rootfs_entry names entry then some n else r) d)

-- A table that is printed from a device name without a colon and entries without commas is read
-- back: the kernel lies on the last entry with the kernel's name and the rootfs on the last other
-- entry with the rootfs's name, entries counted from 1, and nothing else changes.
pub scan_table-join :
    (names : Names) (device entry : Bytes) (entries : List Bytes) (d : Devices)
    → any (λ c. c == b':') device ≡ false
    → any (λ c. c == b',') entry ≡ false
    → All (λ e. any (λ c. c == b',') e ≡ false) entries
    → (scan_table names (device ++ b':' ∷ join b',' entry entries) d).0
      ≡ place device
          (last_match (is_kernel_entry names) 1 (entry ∷ entries) none)
          (last_match (is_rootfs_entry names) 1 (entry ∷ entries) none)
          d
unfolding scan_table scan_behind
scan_table-join names device entry entries d hd he hes =
    ap (λ p. (scan_behind names p d).0) (cut_append b':' device (join b',' entry entries) hd)
    ∙ rw (split-join b',' entry entries he hes)
        (scan-place names device 1 (entry ∷ entries) none none d)
