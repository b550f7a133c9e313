-- ===== src/Main/Android.antt =====
-- ofgwrite.c: the end of `main` for Android boxes, which writes the boot images. The results of
-- `generate_boot_image` are ignored, as are those of `umount`, `umount2` and `rmdir`.
use ofgwrite.Base.{ℕ, Bool, ◌&&◌, not, Option, none, some, [], ◌∷◌, ◌++◌}
use ofgwrite.Base.{if◌then◌else◌, leb}
use ofgwrite.Base.Calls.{M, Env, Call, call, tell, tell_all, ask, pure, ◌>>=◌, ◌>>◌}
use ofgwrite.Base.Int.{int_eq, minus_one}
use ofgwrite.Base.Text.{Bytes, lit, str_eq, cut, is_some}
use ofgwrite.BootImage.{generate_boot_image}

-- How the program ends: with EXIT_SUCCESS, with EXIT_FAILURE, as the process that `daemonize` leaves
-- behind, or with what the C standard leaves open.
pub data Exit : Type 0 where
  success failure parent undefined : Exit

abbrev pub dreamcard_device : Bytes
dreamcard_device = lit "/dev/mmcblk1p1"

abbrev pub dreamcard_mount : Bytes
dreamcard_mount = lit "/dreamcard"

-- rootfs_device[length - 1]
unfoldable pub last_byte : Bytes → Option ℕ
last_byte [] = none
last_byte (c ∷ []) = some c
last_byte (c ∷ d ∷ s) = last_byte (d ∷ s)

abbrev pub digit_of : Option ℕ → Option ℕ
digit_of none = none
digit_of (some c) = if leb b'0' c && leb c b'9' then some c else none

module _ (env : Env) (digest : Bytes → Option Bytes) (boxname rootfs_device : Bytes) where
  -- `kernelnr` is between 0 and 9 exactly if the last byte is a digit.
  abbrev pub write_dreamcard : Option ℕ → M (Option Exit)
  write_dreamcard none = do tell (Call.rmdir dreamcard_mount); pure (some Exit.failure)
  write_dreamcard (some digit) = do
    generate_boot_image env digest boxname rootfs_device
        (lit "/dreamcard/kernel" ++ (digit ∷ lit ".img"))
    tell_all (
        Call.sync
        ∷ Call.sleep 1
        ∷ Call.umount_detach dreamcard_mount
        ∷ Call.rmdir dreamcard_mount
        ∷ [])
    pure none

  -- `dreamcard`: the device can be opened and its label is "DREAMCARD".
  unfoldable pub is_dreamcard : M Bool
  is_dreamcard = do
    device ← ask (λ t. env.content t dreamcard_device)
    label ←
        ask (λ t. env.first_line t (lit "blkid.util-linux -s LABEL -o value " ++ dreamcard_device))
    pure (is_some device && str_eq label (lit "DREAMCARD" ++ (10 ∷ [])))

  unfoldable pub use_dreamcard : M (Option Exit)
  unfolding is_dreamcard last_byte
  use_dreamcard = do
    tell (Call.mkdir dreamcard_mount)
    dreamcard ← is_dreamcard
    if not dreamcard then pure none else do
      tell_all (Call.umount dreamcard_device ∷ Call.sync ∷ Call.sleep 1 ∷ [])
      ret ← call env (Call.mount dreamcard_device dreamcard_mount (lit "vfat"))
      if int_eq ret minus_one
          then (do tell (Call.rmdir dreamcard_mount); pure (some Exit.failure))
          else write_dreamcard (digit_of (last_byte rootfs_device))

  unfoldable pub write_kernel_img : Option Exit → M (Option Exit)
  write_kernel_img (some exit) = pure (some exit)
  write_kernel_img none = do
    generate_boot_image env digest boxname rootfs_device (lit "/oldroot_remount/boot/kernel.img")
    tell_all (Call.sync ∷ Call.sleep 1 ∷ [])
    pure none

  -- The text in front of the first 'p' of the device, which the code takes to be there.
  abbrev pub with_root : Bytes × Option Bytes → M (Option Exit)
  with_root (device_root, none) = pure (some Exit.undefined)
  with_root (device_root, some _) =
      if str_eq device_root (lit "/dev/mmcblk1")
      then (do ended ← use_dreamcard; write_kernel_img ended)
      else write_kernel_img none

  unfoldable pub create_kernel_img : M (Option Exit)
  unfolding use_dreamcard write_kernel_img
  create_kernel_img = do
    tell (Call.set_step (lit "Create Kernel.img"))
    with_root (cut b'p' rootfs_device)
