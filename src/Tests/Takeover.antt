-- ===== src/Tests/Takeover.antt =====
-- The takeover of the system and the boot image at concrete inputs.
use ofgwrite.Base.{all-All}
use ofgwrite.BootImage.Strings.{is_text}
use ofgwrite.BootImage.{
  write_item, write_padding, remove_old, write_image, write_items, boot_img_hdr, field,
}
use ofgwrite.Takeover.{
  reopen_framebuffer, stop_e2, release_oldroot, switch_runmode, pivot, make_newroot, move_mounts,
  umount_oldroot, copy_libcrypt, copy_binaries, copy_automount,
}
use ofgwrite.Base.Calls.{run_steps}
use ofgwrite.EnigmaStop.{check_e2_stopped}
use ofgwrite.Base.{true, false, some, [], ◌∷◌, ◌≡◌, refl, length, Option, arith}
use ofgwrite.Base.Int.{ℤ, pos, minus_one}
use ofgwrite.Base.Text.{Bytes, lit}
use ofgwrite.Base.Calls.{Env, Call, Trace}
use ofgwrite.Takeover.{umount_rootfs}
use ofgwrite.Takeover.Apart.{pivoted}
use ofgwrite.Takeover.Pivot.{secured, rootfs_of, newest_is_reboot, umount_rootfs-secured}
use ofgwrite.Takeover.Pivot.{umount_rootfs-newest_is_reboot}
use ofgwrite.BootImage.{generate_boot_image, boot_cmdline}
use ofgwrite.BootImage.RoundTrip.{ReadsBack, generate_boot_image-ReadsBack}
use ofgwrite.Prepare.{no_mounts}
use ofgwrite.Tests.Samples.{env, devices, succeed}

-- After `pivot_root`, no mount can be moved.
abbrev no_move : Trace → Call → ℤ
no_move t (Call.mount_move _ _) = minus_one
no_move t c = succeed t c

abbrev stuck : Env
stuck = record env { answer = no_move }

secured_run : (umount_rootfs env false false devices no_mounts 8 []).0 ≡ true
unfolding umount_rootfs reopen_framebuffer run_steps stop_e2 check_e2_stopped release_oldroot
    switch_runmode pivot make_newroot move_mounts umount_oldroot copy_libcrypt copy_binaries
    copy_automount
secured_run = refl

pivoted_none : pivoted env [] ≡ false
unfolding pivoted
pivoted_none = refl

umount_rootfs-secured_example :
    let r = umount_rootfs env false false devices no_mounts 8 [] in
    (pivoted env r.1 ≡ true)
    × (secured env (rootfs_of devices.rootfs_flash_mode devices no_mounts) r.1 ≡ true)
umount_rootfs-secured_example =
    umount_rootfs-secured env false false devices no_mounts 8 [] pivoted_none secured_run

stuck_run : (umount_rootfs stuck false false devices no_mounts 8 []).0 ≡ false
unfolding umount_rootfs reopen_framebuffer copy_automount copy_binaries copy_libcrypt
    check_e2_stopped move_mounts stop_e2 switch_runmode make_newroot run_steps pivot
stuck_run = refl

stuck_behind : pivoted stuck (umount_rootfs stuck false false devices no_mounts 8 []).1 ≡ true
unfolding umount_rootfs copy_libcrypt check_e2_stopped copy_binaries run_steps reopen_framebuffer
    pivot switch_runmode stop_e2 copy_automount move_mounts make_newroot pivoted
stuck_behind = refl

stuck_none : pivoted stuck [] ≡ false
unfolding pivoted
stuck_none = refl

umount_rootfs-newest_is_reboot_example :
    newest_is_reboot (umount_rootfs stuck false false devices no_mounts 8 []).1 ≡ true
umount_rootfs-newest_is_reboot_example =
    umount_rootfs-newest_is_reboot stuck false false devices no_mounts 8 [] stuck_none stuck_run
      stuck_behind

-- Writes are complete, and no boot image is there before.
abbrev disk : Trace → Call → ℤ
disk t (Call.write_file _ bytes) = pos (length bytes)
disk t (Call.access _) = minus_one
disk t c = succeed t c

abbrev disk_env : Env
disk_env = record env { answer = disk; content = λ _ _. some (1 ∷ 2 ∷ 3 ∷ []) }

abbrev digest : Bytes → Option Bytes
digest s = some (7 ∷ [])

image_run :
    (generate_boot_image disk_env digest
      (lit "one")
      (lit "/dev/mmcblk0p1")
      (lit "/kernel.img")
      []).0
    ≡ true
unfolding generate_boot_image write_item write_padding remove_old write_image write_items
    boot_img_hdr field lit
image_run = refl

generate_boot_image-ReadsBack_example :
    ReadsBack disk_env
      (lit "/kernel.img")
      (lit "one")
      (boot_cmdline (lit "/dev/mmcblk0p1"))
      (1 ∷ 2 ∷ 3 ∷ [])
      (1 ∷ 2 ∷ 3 ∷ [])
      (generate_boot_image disk_env digest
        (lit "one")
        (lit "/dev/mmcblk0p1")
        (lit "/kernel.img")
        []).1
unfolding lit
generate_boot_image-ReadsBack_example =
    generate_boot_image-ReadsBack disk_env digest (lit "one") (lit "/dev/mmcblk0p1")
      (lit "/kernel.img") (1 ∷ 2 ∷ 3 ∷ []) (1 ∷ 2 ∷ 3 ∷ []) [] refl refl (omega arith) (omega arith)
      (all-All is_text (lit "/dev/mmcblk0p1") refl) image_run
