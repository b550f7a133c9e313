-- ===== src/Select/Modes.antt =====
-- A device that is found has a flash mode that the flashing functions know.
use ofgwrite.Base.{Bool, true, false, List, [], ◌∷◌, ◌≡◌, arith, Bool-cases}
use ofgwrite.Base.{inl, inr, ◌&&◌, ◌||◌, not}
use ofgwrite.State.{Options, Devices, Boot, FlashMode, ImageType}
use ofgwrite.Cmdline.Modes.{HasModes, HasModesFrom, read_proc_cmdline-HasModesFrom}
use ofgwrite.Cmdline.{read_proc_cmdline}
use ofgwrite.Select.{FdiskEvent, run_fdisk, choose_devices, force_and_finish, select_devices}
use ofgwrite.Select.{keep_mtd_kernel, forget_found, needs_fdisk, Probe, find_kernel_rootfs_device}

run_fdisk-HasModesFrom :
    (found : Bool) (events : List FdiskEvent) (d : Devices)
    → HasModesFrom found d
    → HasModesFrom found (run_fdisk events d)
unfolding run_fdisk
run_fdisk-HasModesFrom found [] d h = h
run_fdisk-HasModesFrom found (FdiskEvent.kernel_at dev n ∷ events) d h =
    run_fdisk-HasModesFrom found events _ (ground arith)
run_fdisk-HasModesFrom found (FdiskEvent.rootfs_at dev n ∷ events) d h =
    run_fdisk-HasModesFrom found events _ (ground arith)

choose_devices-HasModes :
    (image : ImageType) (o : Options) (b : Boot) (d : Devices)
    → HasModes d
    → HasModes (choose_devices image o b d)
unfolding choose_devices
choose_devices-HasModes image o b d h = ground arith

force_and_finish-HasModes :
    (image : ImageType) (o : Options) (b : Boot) (d : Devices)
    → HasModes d
    → HasModes (force_and_finish image o b d).0
unfolding force_and_finish
force_and_finish-HasModes image o b d h = ground (arith, choose_devices-HasModes image o b d h)

forget_found-HasModesFrom :
    (found : Bool) (d : Devices) → HasModesFrom found d → HasModesFrom found (forget_found d)
forget_found-HasModesFrom found d h = ground arith

keep_mtd_kernel-HasModes :
    (found : Bool) (d : Devices) → HasModesFrom found d → HasModes (keep_mtd_kernel found d)
keep_mtd_kernel-HasModes found d h = ground arith

select_devices-HasModes :
    (fdisk : List FdiskEvent) (fdisk_ok : Bool) (image : ImageType) (found : Bool) (o : Options)
    (b : Boot) (d : Devices)
    → HasModesFrom found d
    → HasModes (select_devices fdisk fdisk_ok image found o b d).0
unfolding select_devices
select_devices-HasModes fdisk fdisk_ok image found o b d h =
    let after = run_fdisk fdisk (forget_found d) in
    let modes =
      run_fdisk-HasModesFrom found fdisk (forget_found d) (forget_found-HasModesFrom found d h) in
    elim (Bool-cases (needs_fdisk b d)) [
      | inl need ↦ elim (Bool-cases fdisk_ok) [
        | inl good ↦
            rw (need, good)
              (force_and_finish-HasModes image o b (keep_mtd_kernel found after)
                (keep_mtd_kernel-HasModes found after modes))
        | inr bad ↦ rw (need, bad) modes.modes
      ]
      | inr enough ↦ rw enough (
          force_and_finish-HasModes image o b (keep_mtd_kernel found d)
            (keep_mtd_kernel-HasModes found d h))
    ]

find_kernel_rootfs_device-HasModes :
    (p : Probe) (image : ImageType) (o : Options) (d : Devices)
    → HasModes d
    → HasModes (find_kernel_rootfs_device p image o d).2.0
unfolding find_kernel_rootfs_device
find_kernel_rootfs_device-HasModes p image o d h =
    let (o', b, d') = read_proc_cmdline p.flag_present p.boxname p.line o d in
    select_devices-HasModes p.fdisk p.fdisk_ok image d.found_kernel_device o' b d' (
      read_proc_cmdline-HasModesFrom d.found_kernel_device p.flag_present p.boxname p.line o d
        (record { modes = h; kernel_from = h.kernel }))

abbrev pub is_kernel_mode : FlashMode → Bool
is_kernel_mode FlashMode.mtd = true
is_kernel_mode FlashMode.tarbz2 = true
is_kernel_mode _ = false

abbrev pub is_known_mode : FlashMode → Bool
is_known_mode FlashMode.flash_mode_unknown = false
is_known_mode _ = true

-- The devices that are found have a mode that `kernel_flash` and `rootfs_flash` know.
abbrev pub has_modes : Devices → Bool
has_modes d =
    (not d.found_kernel_device || is_kernel_mode d.kernel_flash_mode)
    && (not d.found_rootfs_device || is_known_mode d.rootfs_flash_mode)

HasModes-has_modes : (d : Devices) → HasModes d → has_modes d ≡ true
HasModes-has_modes d h = ground arith

has_modes-HasModes : (d : Devices) → has_modes d ≡ true → HasModes d
has_modes-HasModes d h = ground arith

-- If each device that was found in /proc/mtd has its flash mode, then so has each that is found when
-- the search for devices ends, whatever the command line, fdisk and the user say: a kernel has the
-- mode `MTD` or `TARBZ2`, and a rootfs a mode that is not unknown.
pub find_kernel_rootfs_device-has_modes :
    (p : Probe) (image : ImageType) (o : Options) (d : Devices)
    → has_modes d ≡ true
    → has_modes (find_kernel_rootfs_device p image o d).2.0 ≡ true
find_kernel_rootfs_device-has_modes p image o d h =
    HasModes-has_modes _ (find_kernel_rootfs_device-HasModes p image o d (has_modes-HasModes d h))
