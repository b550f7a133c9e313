-- ===== src/Mounts.antt =====
-- ofgwrite.c: `readProcMounts`. The mounts are the entries that `getmntent` returns. Its test whether
-- a rootfs file was found compares `nfi_filename`, an array, with '\0' and is always true.
use ofgwrite.Base.{Bool, true, false, ◌&&◌, ◌||◌, not, Option, none, some, List, [], ◌∷◌, ◌≡◌}
use ofgwrite.Base.{◌≢◌, All-weaken, refl, arith, any, All, if◌then◌else◌, Bool-cases, inl, inr}
use ofgwrite.Base.Text.{Bytes, lit, str_eq, str_eq_iff, contains}
use ofgwrite.State.{Images, RootfsType}

-- `has_image_device`: `stat` of the name or of the directory gives the device of the rootfs file.
pub record Mount : Type 0 where
  pub fsname : Bytes
  pub dir : Bytes
  pub kind : Bytes
  pub has_image_device : Bool

-- The globals that the function writes.
pub record Mounts : Type 0 where
  pub rootfs_type : RootfsType
  pub rootfs_fs_type : Bytes
  pub ubi_fs_name : Bytes
  pub newroot_mounted : Bool
  pub rootfs_mount_point : Bytes
  pub mountlist : List Bytes

unfoldable pub is_root : Mount → Bytes → Bool
is_root m kind = str_eq m.dir (lit "/") && str_eq m.kind kind

unfoldable pub is_ubifs_root : Mount → Bool
unfolding is_root
is_ubifs_root m =
    (contains m.fsname (lit "rootfs") || contains m.fsname (lit "ubifs")) && is_root m (lit "ubifs")

unfoldable pub is_jffs2_root : Mount → Bool
unfolding is_root
is_jffs2_root m = contains m.fsname (lit "root") && is_root m (lit "jffs2")

unfoldable pub is_newroot : Mount → Bool
is_newroot m = str_eq m.dir (lit "/newroot") && str_eq m.kind (lit "tmpfs")

-- The mount on which the image files are located.
unfoldable pub has_image : Images → Mount → Bool
has_image i m =
    str_eq i.rootfs_filename m.dir
    || (str_eq i.rootfs_filename m.fsname
        || (str_eq i.nfi_filename m.dir || (str_eq i.nfi_filename m.fsname || m.has_image_device)))

abbrev pub kept_dirs : List Bytes
kept_dirs =
    lit "/" ∷ lit "/sys" ∷ lit "/dev" ∷ lit "/dev/pts" ∷ lit "/proc" ∷ lit "/var/volatile" ∷ []

unfoldable pub is_kept : Bytes → Bool
is_kept dir = any (str_eq dir) kept_dirs

-- The last branch: a mount that is neither the rootfs nor /newroot.
unfoldable pub take_other : Images → Mount → Mounts → Mounts
take_other i m s =
    if has_image i m
    then record s { rootfs_mount_point = m.dir }
    else if is_kept m.dir
    then s
    else record s { mountlist = m.dir ∷ s.mountlist }

unfoldable pub take_mount : Images → Mount → Mounts → Mounts
take_mount i m s =
    if is_ubifs_root m
    then record s { rootfs_type = RootfsType.ubifs; ubi_fs_name = m.fsname }
    else if is_jffs2_root m
    then record s { rootfs_type = RootfsType.jffs2 }
    else if is_root m (lit "ext3")
    then record s { rootfs_type = RootfsType.ext3; rootfs_fs_type = lit "ext3" }
    else if is_root m (lit "ext4")
    then record s { rootfs_type = RootfsType.ext4; rootfs_fs_type = lit "ext4" }
    else if is_newroot m
    then record s { newroot_mounted = true }
    else take_other i m s

unfoldable pub take_mounts : Images → List Mount → Mounts → Mounts
take_mounts i [] s = s
take_mounts i (m ∷ ms) s = take_mounts i ms (take_mount i m s)

abbrev pub forget_mounts : Mounts → Mounts
forget_mounts s = record s {
  rootfs_type = RootfsType.unknown;
  rootfs_mount_point = [];
  mountlist = [];
}

-- The globals, and the return value: false where /proc/mounts cannot be opened.
unfoldable pub read_proc_mounts : Images → Option (List Mount) → Mounts → Mounts × Bool
read_proc_mounts i none s = (forget_mounts s, false)
read_proc_mounts i (some ms) s = (take_mounts i ms (forget_mounts s), true)

-- Whether a mount is to be unmounted.
abbrev pub is_released : Images → Mount → Bool
is_released i m =
    not (is_ubifs_root m)
    && (not (is_jffs2_root m)
        && (not (is_root m (lit "ext3"))
            && (not (is_root m (lit "ext4"))
                && (not (is_newroot m) && (not (has_image i m) && not (is_kept m.dir))))))

-- The directories of the mounts to unmount, the last mount first, in front of `acc`.
unfoldable pub released_onto : Images → List Mount → List Bytes → List Bytes
released_onto i [] acc = acc
released_onto i (m ∷ ms) acc = released_onto i ms (if is_released i m then m.dir ∷ acc else acc)

take_mount-mountlist :
    (i : Images) (m : Mount) (s : Mounts)
    → (take_mount i m s).mountlist ≡ (if is_released i m then m.dir ∷ s.mountlist else s.mountlist)
unfolding take_mount take_other
take_mount-mountlist i m s = ground arith

take_mounts-mountlist :
    (i : Images) (ms : List Mount) (s : Mounts)
    → (take_mounts i ms s).mountlist ≡ released_onto i ms s.mountlist
unfolding take_mounts released_onto
take_mounts-mountlist i [] s = refl
take_mounts-mountlist i (m ∷ ms) s =
    ground (arith, take_mounts-mountlist i ms (take_mount i m s), take_mount-mountlist i m s)

-- The mounts to unmount are, the newest first, those that are neither the rootfs nor /newroot, do not
-- hold the image files, and are not one of the six directories that stay mounted.
pub read_proc_mounts-mountlist :
    (i : Images) (ms : List Mount) (s : Mounts)
    → (read_proc_mounts i (some ms) s).0.mountlist ≡ released_onto i ms []
unfolding read_proc_mounts
read_proc_mounts-mountlist i ms s = take_mounts-mountlist i ms (forget_mounts s)

abbrev IsFree : Bytes → Type 0
IsFree dir = is_kept dir ≡ false

take_mount-IsFree :
    (i : Images) (m : Mount) (s : Mounts)
    → All IsFree s.mountlist
    → All IsFree (take_mount i m s).mountlist
take_mount-IsFree i m s h = elim (Bool-cases (is_released i m)) [
  | inl out ↦ rw (take_mount-mountlist i m s, out) (ground arith, h)
  | inr stays ↦ rw (take_mount-mountlist i m s, stays) h
]

take_mounts-IsFree :
    (i : Images) (ms : List Mount) (s : Mounts)
    → All IsFree s.mountlist
    → All IsFree (take_mounts i ms s).mountlist
unfolding take_mounts
take_mounts-IsFree i [] s h = h
take_mounts-IsFree i (m ∷ ms) s h =
    take_mounts-IsFree i ms (take_mount i m s) (take_mount-IsFree i m s h)

-- Neither one of the directories that the system needs, nor the root itself.
abbrev pub IsReleased : Bytes → Type 0
IsReleased dir =
    (dir ≢ lit "/")
    × (dir ≢ lit "/sys")
    × (dir ≢ lit "/dev")
    × (dir ≢ lit "/dev/pts")
    × (dir ≢ lit "/proc")
    × (dir ≢ lit "/var/volatile")

IsFree-IsReleased : (dir : Bytes) → IsFree dir → IsReleased dir
unfolding is_kept
IsFree-IsReleased dir h = (
  ground (arith, str_eq_iff dir (lit "/")),
  ground (arith, str_eq_iff dir (lit "/sys")),
  ground (arith, str_eq_iff dir (lit "/dev")),
  ground (arith, str_eq_iff dir (lit "/dev/pts")),
  ground (arith, str_eq_iff dir (lit "/proc")),
  ground (arith, str_eq_iff dir (lit "/var/volatile")),
)

-- Whatever is mounted, the mounts to unmount are none of /, /sys, /dev, /dev/pts, /proc and
-- /var/volatile, also where /proc/mounts cannot be read.
pub read_proc_mounts-IsReleased :
    (i : Images) (mounts : Option (List Mount)) (s : Mounts)
    → All IsReleased (read_proc_mounts i mounts s).0.mountlist
unfolding read_proc_mounts
read_proc_mounts-IsReleased i none s = tt
read_proc_mounts-IsReleased i (some ms) s =
    All-weaken IsFree IsReleased (take_mounts i ms (forget_mounts s)).mountlist IsFree-IsReleased
      (take_mounts-IsFree i ms (forget_mounts s) tt)
