-- ===== src/Prepare/Checked.antt =====
-- What the checks in front of the flashing guarantee.
use ofgwrite.Base.{
  ℕ, Bool, true, false, ◌&&◌, ◌||◌, not, Option, none, some, List, [], ◌∷◌, ◌≡◌, ◌≢◌, ◌≤◌,
}
use ofgwrite.Base.{arith, refl, Bool-cases, inl, inr, ap, sym}
use ofgwrite.Base.Text.{Bytes, lit, is_empty}
use ofgwrite.State.{Options, Images, Devices, FlashMode}
use ofgwrite.Sizes.{check_device_size, check_device_size-kernel, check_device_size-rootfs}
use mathlib.Core.Path.{subst}
use ofgwrite.Args.{Opt, read_args, read_operands, read_opts, initial}
use ofgwrite.ImageFiles.{find_image_files}
use ofgwrite.ImageFiles.Sized.{IsSized, find_image_files-IsSized}
use ofgwrite.Mounts.{Mounts, read_proc_mounts}
use ofgwrite.ProcMtd.{
  Fields, scan_fields, all_fields, is_header, mtd_line, mtd_lines, read_mtd_file,
}
use ofgwrite.ProcMtd.{user_kernel_line, user_rootfs_line, auto_kernel_line, auto_rootfs_line}
use ofgwrite.Select.{find_kernel_rootfs_device}
use ofgwrite.Select.Modes.{has_modes, find_kernel_rootfs_device-has_modes}
use ofgwrite.Prepare.{no_devices, no_images, no_mounts}
use ofgwrite.Prepare.{Inputs, Setup, prepare, find_setup, check_setup, lacks_kernel, lacks_rootfs}

-- What `check_setup` has tested.
pub record IsChecked (size_of : Bytes → Option ℕ) (s : Setup) : Type 0 where
  pub kernel : lacks_kernel s ≡ false
  pub rootfs : lacks_rootfs s ≡ false
  pub sizes : check_device_size size_of s.images s.boot s.devices ≡ true

found_of :
    (s : Setup)
    → s.options.flash_kernel ≡ true
    → lacks_kernel s ≡ false
    → (s.devices.found_kernel_device ≡ true) × (s.images.kernel_filename ≢ [])
found_of s flash lacks =
    lacks_none s.options.flash_kernel s.devices.found_kernel_device s.images.kernel_filename flash
      lacks
  where
    lacks_none :
        (flash found : Bool) (file : Bytes)
        → flash ≡ true
        → (flash && (not found || is_empty file)) ≡ false
        → (found ≡ true) × (file ≢ [])
    lacks_none flash found file f l = ground arith

check_setup-IsChecked :
    (size_of : Bytes → Option ℕ) (s s' : Setup)
    → check_setup size_of s ≡ some s'
    → (s ≡ s') × IsChecked size_of s
unfolding check_setup
check_setup-IsChecked size_of s s' h = elim (Bool-cases (lacks_kernel s)) [
  | inl bad ↦ let e : ◌≡◌ {A = Option Setup} none (some s') = rw bad at h in cc
  | inr k ↦ elim (Bool-cases (lacks_rootfs s)) [
    | inl bad ↦ let e : ◌≡◌ {A = Option Setup} none (some s') = rw (k, bad) at h in cc
    | inr r ↦ elim (Bool-cases (check_device_size size_of s.images s.boot s.devices)) [
      | inl good ↦
          let e : ◌≡◌ {A = Option Setup} (some s) (some s') = rw (k, r, good) at h in
          (cc, record { kernel = k; rootfs = r; sizes = good })
      | inr bad ↦ let e : ◌≡◌ {A = Option Setup} none (some s') = rw (k, r, bad) at h in cc
    ]
  ]
]

-- The lines of /proc/mtd give only known modes.
mtd_line-has_modes :
    (o : Options) (i : Images) (f : Fields) (d : Devices) (wrong : Bool)
    → has_modes d ≡ true
    → has_modes (mtd_line o i f (d, wrong)).0 ≡ true
unfolding mtd_line user_kernel_line user_rootfs_line auto_kernel_line auto_rootfs_line
mtd_line-has_modes o i f d wrong h = ground arith

mtd_lines-has_modes :
    (o : Options) (i : Images) (fs : List Fields) (d : Devices) (wrong : Bool)
    → has_modes d ≡ true
    → has_modes (mtd_lines o i fs (d, wrong)).0 ≡ true
unfolding mtd_lines
mtd_lines-has_modes o i [] d wrong h = h
mtd_lines-has_modes o i (f ∷ fs) d wrong h =
    mtd_lines-has_modes o i fs (mtd_line o i f (d, wrong)).0 (mtd_line o i f (d, wrong)).1
      (mtd_line-has_modes o i f d wrong h)

read_mtd_file-has_modes :
    (garbage : Fields) (lines : Option (List Bytes)) (o : Options) (i : Images)
    → has_modes (read_mtd_file garbage lines o i no_devices).0 ≡ true
unfolding read_mtd_file
read_mtd_file-has_modes garbage none o i = refl
read_mtd_file-has_modes garbage (some []) o i = refl
read_mtd_file-has_modes garbage (some (header ∷ lines)) o i =
    let f = scan_fields garbage header in
    elim (Bool-cases (is_header f)) [
      | inl good ↦ rw good (mtd_lines-has_modes o i (all_fields f lines) no_devices false refl)
      | inr bad ↦ rw bad refl
    ]

abbrev Prepared : Inputs → Setup → Type 0
Prepared inp s = IsChecked inp.size_of s × (has_modes s.devices ≡ true)

find_setup-Prepared :
    (inp : Inputs) (o : Options) (i : Images) (m : Mounts) (s : Setup)
    → find_setup inp o i m ≡ some s
    → Prepared inp s
unfolding find_setup
find_setup-Prepared inp o i m s h =
    let d = (read_mtd_file inp.garbage inp.proc_mtd o i no_devices).0 in
    let r = find_kernel_rootfs_device inp.probe i.image_type o d in
    let s0 : Setup = record {
      options = r.0;
      images = i;
      mounts = m;
      boot = r.1;
      devices = r.2.0;
      stop_e2_needed = r.2.1;
    } in
    let (e, c) = check_setup-IsChecked inp.size_of s0 s h in
    subst (Prepared inp) e (
      c,
      find_kernel_rootfs_device-has_modes inp.probe i.image_type o d
          (read_mtd_file-has_modes inp.garbage inp.proc_mtd o i),
    )

pub prepare-Prepared : (inp : Inputs) (s : Setup) → prepare inp ≡ some s → Prepared inp s
unfolding prepare
prepare-Prepared inp s h =
    let r = read_args inp.find inp.opts inp.operands no_images in
    let m = read_proc_mounts r.1 (inp.mounts r.1) no_mounts in
    elim (Bool-cases (not r.2 || r.0.show_help)) [
      | inl bad ↦ let e : ◌≡◌ {A = Option Setup} none (some s) = rw bad at h in cc
      | inr good ↦ elim (Bool-cases m.1) [
        | inl read ↦ find_setup-Prepared inp r.0 r.1 m.0 s (rw (good, read) at h)
        | inr bad ↦ let e : ◌≡◌ {A = Option Setup} none (some s) = rw (good, bad) at h in cc
      ]
    ]

-- A kernel that is to be flashed to a block device is at most as big as the device, whose size is
-- known, when the flashing starts; unless the kexec mode is "1".
pub prepare-kernel_size :
    (inp : Inputs) (s : Setup)
    → prepare inp ≡ some s
    → s.options.flash_kernel ≡ true
    → s.devices.kernel_flash_mode ≡ FlashMode.tarbz2
    → s.boot.kexec_mode ≢ lit "1"
    → (size : ℕ) × (inp.size_of s.devices.kernel_device ≡ some size)
      × (s.images.kernel_file_size ≤ size)
prepare-kernel_size inp s h flash mode kexec =
    let (c, _) = prepare-Prepared inp s h in
    check_device_size-kernel inp.size_of s.images s.boot s.devices c.sizes
      (found_of s flash c.kernel).0 (found_of s flash c.kernel).1 mode kexec

found_rootfs_of :
    (s : Setup)
    → s.options.flash_rootfs ≡ true
    → lacks_rootfs s ≡ false
    → s.devices.found_rootfs_device ≡ true
found_rootfs_of s flash lacks =
    go s.options.flash_rootfs s.devices.found_rootfs_device _ flash lacks
  where
    go :
        (flash found missing : Bool)
        → flash ≡ true
        → (flash && (not found || missing)) ≡ false
        → found ≡ true
    go flash found missing f l = ground arith

-- What is known of the images that `read_args` starts from and of those that are found.
read_operands-images :
    (P : Images → Type 0) (find : Bytes → Images → Images × Bool) (operands : List Bytes)
    (o : Options) (i : Images)
    → P i
    → ((directory : Bytes) → P (find directory i).0)
    → P (read_operands find operands o i).1
unfolding read_operands
read_operands-images P find [] o i h f = h
read_operands-images P find (directory ∷ []) o i h f = elim (Bool-cases (find directory i).1) [
  | inl good ↦ rw good (f directory)
  | inr bad ↦ rw bad (f directory)
]
read_operands-images P find (directory ∷ extra ∷ operands) o i h f = h

read_args-images :
    (P : Images → Type 0) (find : Bytes → Images → Images × Bool) (opts : List Opt)
    (operands : List Bytes) (i : Images)
    → P i
    → ((directory : Bytes) → P (find directory i).0)
    → P (read_args find opts operands i).1
unfolding read_args
read_args-images P find opts operands i h f =
    let r = read_opts opts initial in
    elim (Bool-cases r.1) [
      | inl good ↦ rw good (read_operands-images P find operands r.0 i h f)
      | inr bad ↦ rw bad h
    ]

find_setup-images :
    (inp : Inputs) (o : Options) (i : Images) (m : Mounts) (s : Setup)
    → find_setup inp o i m ≡ some s
    → i ≡ s.images
unfolding find_setup
find_setup-images inp o i m s h =
    let d = (read_mtd_file inp.garbage inp.proc_mtd o i no_devices).0 in
    let r = find_kernel_rootfs_device inp.probe i.image_type o d in
    let s0 : Setup = record {
      options = r.0;
      images = i;
      mounts = m;
      boot = r.1;
      devices = r.2.0;
      stop_e2_needed = r.2.1;
    } in
    ap (λ x. x.images) (check_setup-IsChecked inp.size_of s0 s h).0

prepare-images :
    (inp : Inputs) (s : Setup)
    → prepare inp ≡ some s
    → (read_args inp.find inp.opts inp.operands no_images).1 ≡ s.images
unfolding prepare
prepare-images inp s h =
    let r = read_args inp.find inp.opts inp.operands no_images in
    let m = read_proc_mounts r.1 (inp.mounts r.1) no_mounts in
    elim (Bool-cases (not r.2 || r.0.show_help)) [
      | inl bad ↦ let e : ◌≡◌ {A = Option Setup} none (some s) = rw bad at h in cc
      | inr good ↦ elim (Bool-cases m.1) [
        | inl read ↦ find_setup-images inp r.0 r.1 m.0 s (rw (good, read) at h)
        | inr bad ↦ let e : ◌≡◌ {A = Option Setup} none (some s) = rw (good, bad) at h in cc
      ]
    ]

-- A rootfs archive that is to be flashed to a block device is at most as big as the device, whose size
-- is known, when the flashing starts; where the files were looked for by `find_image_files`, and no NFI
-- file was found beside the archive.
pub prepare-rootfs_size :
    (inp : Inputs) (s : Setup) (stat_size : Bytes → ℕ) (resolved : Bytes → Option Bytes)
    (entries : Bytes → Option (List Bytes))
    → ((directory : Bytes) (i : Images)
        → inp.find directory i
          ≡ find_image_files stat_size (resolved directory) (entries directory) i)
    → prepare inp ≡ some s
    → s.options.flash_rootfs ≡ true
    → s.devices.rootfs_flash_mode ≡ FlashMode.tarbz2
    → s.images.rootfs_filename ≢ []
    → s.images.nfi_filename ≡ []
    → (size : ℕ) × (inp.size_of s.devices.rootfs_device ≡ some size)
      × (stat_size s.images.rootfs_filename ≤ size)
prepare-rootfs_size inp s stat_size resolved entries finds h flash mode file nfi =
    let (c, _) = prepare-Prepared inp s h in
    let (size, known, fits) =
      check_device_size-rootfs inp.size_of s.images s.boot s.devices c.sizes
        (found_rootfs_of s flash c.rootfs) file mode in
    let none_yet : IsSized stat_size no_images = λ _ n. absurd (n refl) in
    let sized : IsSized stat_size s.images = subst (IsSized stat_size) (prepare-images inp s h) (
      read_args-images (IsSized stat_size) inp.find inp.opts inp.operands no_images none_yet
        (λ directory.
          subst (λ r. IsSized stat_size r.0) (sym (finds directory no_images))
            (find_image_files-IsSized stat_size (resolved directory) (entries directory) no_images
              none_yet))) in
    (size, known, subst (λ n. n ≤ size) (sized nfi file) fits)
