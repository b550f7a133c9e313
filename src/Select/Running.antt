-- ===== src/Select/Running.antt =====
-- What `stop_e2_needed` and the user's choice of the devices come to.
use ofgwrite.Base.{
  List, Bool, true, false, ◌≡◌, ◌≢◌, ◌⊎◌, ◌++◌, ◌∷◌, ◌==◌, ◌∙◌, arith, [], any, refl, ap, sym, none,
  some, inl, inr, Bool-cases,
}
use ofgwrite.Base.Text.{Bytes, lit, str_eq_iff, strstr, NotBefore}
use ofgwrite.State.{Options, Devices, Boot, FlashMode, ImageType}
use ofgwrite.Select.{flashes_other, force_and_finish, choose_devices, lacks_multi}
use ofgwrite.Select.{select_devices, FdiskEvent, run_fdisk, forget_found}
use ofgwrite.Select.{keep_mtd_kernel, Probe, find_kernel_rootfs_device}
use ofgwrite.Cmdline.{read_proc_cmdline, read_boot, set_chkroot, is_chkroot, find_store_substring}
use ofgwrite.Cmdline.Store.{find_store_substring-space}

-- The devices hold another image than the running one.
abbrev IsOther : Options → Boot → Devices → Type 0
IsOther o b d =
    ((b.current_rootfs_sub_dir ≡ [])
        × (d.rootfs_device ≢ b.current_rootfs_device)
        × (d.rootfs_flash_mode ≢ FlashMode.mtd)
      ⊎ (b.current_rootfs_sub_dir ≢ []) × (d.rootfs_sub_dir ≢ b.current_rootfs_sub_dir))
    × (o.force_e2_stop ≡ false)

flashes_other-IsOther :
    (o : Options) (b : Boot) (d : Devices) → flashes_other o b d ≡ true → IsOther o b d
unfolding flashes_other
flashes_other-IsOther o b d h = ground (
  arith,
  str_eq_iff d.rootfs_device b.current_rootfs_device,
  str_eq_iff b.current_rootfs_sub_dir d.rootfs_sub_dir,
)

force_and_finish-IsOther :
    (image : ImageType) (o : Options) (b : Boot) (d : Devices)
    → (force_and_finish image o b d).1 ≡ false
    → IsOther o b (force_and_finish image o b d).0
unfolding force_and_finish
force_and_finish-IsOther image o b d h =
    ground (arith, flashes_other-IsOther o b (choose_devices image o b d))

select_devices-IsOther :
    (fdisk : List FdiskEvent) (fdisk_ok : Bool) (image : ImageType) (found : Bool) (o : Options)
    (b : Boot) (d : Devices)
    → (select_devices fdisk fdisk_ok image found o b d).1 ≡ false
    → IsOther o b (select_devices fdisk fdisk_ok image found o b d).0
unfolding select_devices
select_devices-IsOther fdisk fdisk_ok image found o b d h = ground (
  arith,
  force_and_finish-IsOther image o b (keep_mtd_kernel found d),
  force_and_finish-IsOther image o b (keep_mtd_kernel found (run_fdisk fdisk (forget_found d))),
)

-- Enigma2 is left running only while the devices hold another image than what `readProcCmdline` has
-- stored of the running one, and no stop is forced.
find_kernel_rootfs_device-IsOther :
    (p : Probe) (image : ImageType) (o : Options) (d : Devices)
    → (find_kernel_rootfs_device p image o d).2.1 ≡ false
    → IsOther
        (find_kernel_rootfs_device p image o d).0
        (find_kernel_rootfs_device p image o d).1
        (find_kernel_rootfs_device p image o d).2.0
unfolding find_kernel_rootfs_device
find_kernel_rootfs_device-IsOther p image o d h =
    let (o', b, d') = read_proc_cmdline p.flag_present p.boxname p.line o d in
    select_devices-IsOther p.fdisk p.fdisk_ok image d.found_kernel_device o' b d' h

set_chkroot-plain :
    (line boxname : Bytes) (o : Options) (b : Boot)
    → (set_chkroot line boxname o b).1.chkroot_mode ≡ false
    → (set_chkroot line boxname o b).1 ≡ b
unfolding set_chkroot
set_chkroot-plain line boxname o b h = elim (Bool-cases (is_chkroot line boxname o)) [
  | inl chroot ↦ let e : ◌≡◌ {A = Bool} true false = rw chroot at h in cc
  | inr plain ↦ rw plain refl
]

-- A line without the key.
find_store_substring-none :
    (line key dest : Bytes) → strstr line key ≡ none → find_store_substring line key dest ≡ dest
unfolding find_store_substring
find_store_substring-none line key dest h = rw (h, find_store_substring) refl

module _ (front device rest : Bytes) where
  -- A command line that names the device of the running rootfs.
  abbrev pub line_of : Bytes
  line_of = front ++ (lit "root=" ++ (device ++ b' ' ∷ rest))

  no_space : any (λ c. c == b' ') (lit "root=") ≡ false
  unfolding lit
  no_space = refl

  boot_of :
      (p : Probe) (image : ImageType) (o : Options) (d : Devices)
      → p.line ≡ some line_of
      → (find_kernel_rootfs_device p image o d).1.chkroot_mode ≡ false
      → (find_kernel_rootfs_device p image o d).1 ≡ read_boot line_of
  unfolding find_kernel_rootfs_device read_proc_cmdline
  boot_of p image o d named mode =
      rw named (set_chkroot-plain line_of p.boxname o (read_boot line_of) (rw named at mode))

  root_device :
      NotBefore (lit "root=") front (lit "root=" ++ (device ++ b' ' ∷ rest))
      → any (λ c. c == b' ') device ≡ false
      → (read_boot line_of).current_rootfs_device ≡ device
  unfolding read_boot
  root_device first word =
      find_store_substring-space front (lit "root=") device rest [] first no_space word

  no_sub_dir :
      strstr line_of (lit "rootsubdir=") ≡ none → (read_boot line_of).current_rootfs_sub_dir ≡ []
  unfolding read_boot
  no_sub_dir plain = find_store_substring-none line_of (lit "rootsubdir=") [] plain

  -- On a box whose command line has the word "root=" with the device of the running rootfs, followed by
  -- a space and without "rootsubdir=", and which is not in the chkroot mode, Enigma2 is left running
  -- only while the rootfs goes to another device, which is not in MTD, and no stop is forced.
  pub find_kernel_rootfs_device-ne :
      (p : Probe) (image : ImageType) (o : Options) (d : Devices)
      → p.line ≡ some line_of
      → NotBefore (lit "root=") front (lit "root=" ++ (device ++ b' ' ∷ rest))
      → any (λ c. c == b' ') device ≡ false
      → strstr line_of (lit "rootsubdir=") ≡ none
      → let r = find_kernel_rootfs_device p image o d in
        r.1.chkroot_mode ≡ false
        → r.2.1 ≡ false
        → (r.2.0.rootfs_device ≢ device)
          × (r.2.0.rootfs_flash_mode ≢ FlashMode.mtd)
          × (r.0.force_e2_stop ≡ false)
  find_kernel_rootfs_device-ne p image o d named first word plain mode running =
      let r = find_kernel_rootfs_device p image o d in
      let boot : r.1 ≡ read_boot line_of = boot_of p image o d named mode in
      let dev : r.1.current_rootfs_device ≡ device =
        ap (λ b. b.current_rootfs_device) boot ∙ root_device first word in
      let sub : r.1.current_rootfs_sub_dir ≡ [] =
        ap (λ b. b.current_rootfs_sub_dir) boot ∙ no_sub_dir plain in
      let (other, force) = find_kernel_rootfs_device-IsOther p image o d running in
      elim other [ inl (_, n, m) ↦ (λ e. n (e ∙ sym dev), m, force) | inr (n, _) ↦ absurd (n sub) ]

-- A rootfs device that the user names is taken unless one was found in /proc/mtd before: it is
-- either the device that is flashed, or, where -m is missing with the rootSubDir feature, no rootfs
-- device is found at all.
pub force_and_finish-user_rootfs :
    (image : ImageType) (o : Options) (b : Boot) (d : Devices)
    → o.user_rootfs ≡ true
    → d.rootfs_flash_mode ≢ FlashMode.mtd
    → d.rootfs_flash_mode ≢ FlashMode.tarbz2_mtd
    → let d' = (force_and_finish image o b d).0 in
      (d'.found_rootfs_device ≡ true) × (d'.rootfs_device ≡ lit "/dev/" ++ o.rootfs_device_arg)
      ⊎ (lacks_multi o b ≡ true) × (d'.found_rootfs_device ≡ false)
unfolding force_and_finish choose_devices
force_and_finish-user_rootfs image o b d u m t = ground arith
