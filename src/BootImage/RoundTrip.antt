-- ===== src/BootImage/RoundTrip.antt =====
-- A boot image that `generate_boot_image` has written is read back.
use mathlib.Core.List.{append_assoc, append-nil}
use ofgwrite.Base.{Pass, ℕ, ◌-◌, ◌%◌, ◌<◌, ◌≤◌, true, false, Option, none, some}
use ofgwrite.Base.{
  List, [], ◌∷◌, ◌++◌, ◌≡◌, refl, ap, ◌∙◌, sym, arith, if◌then◌else◌, ◌==◌, leb, ltb,
}
use ofgwrite.Base.{length, Bool-cases, inl, inr, All-append, all-All}
use ofgwrite.Base.Calls.{Env, Call, Trace}
use ofgwrite.Base.Int.{is_negative}
use ofgwrite.Base.Text.{Bytes, lit, str_eq, str_eq_iff}
use ofgwrite.BootImage.{
  zeros, padding, pagesize, write_item, write_padding, write_items, remove_old,
}
use ofgwrite.BootImage.{write_image, write_hashed, boot_items, generate_boot_image, boot_cmdline}
use ofgwrite.BootImage.{max_cmdline, hashed}
use ofgwrite.BootImage.Strings.{IsText, is_text}
use ofgwrite.BootImage.Layout.{image_of, paged, kernel_in, second_in, cmdline_in}
use ofgwrite.BootImage.Layout.{kernel_in-image, second_in-image, cmdline_in-image}

-- A file's content behind a call whose writes are complete.
unfoldable pub after_call : Bytes → Call → Bytes → Bytes
after_call path (Call.create to) s = if str_eq to path then [] else s
after_call path (Call.remove to) s = if str_eq to path then [] else s
after_call path (Call.unlink to) s = if str_eq to path then [] else s
after_call path (Call.write_file to bytes) s = if str_eq to path then s ++ bytes else s
after_call path _ s = s

unfoldable pub file_content : Bytes → Trace → Bytes
file_content path [] = []
file_content path (c ∷ t) = after_call path c (file_content path t)

str_eq_same : (s : Bytes) → str_eq s s ≡ true
str_eq_same s = ground (arith, str_eq_iff s s)

module _ (env : Env) (path : Bytes) where
  write_item-content :
      (bytes : Bytes) (t : Trace)
      → file_content path (write_item env path bytes t).1 ≡ file_content path t ++ bytes
  unfolding write_item file_content after_call
  write_item-content bytes t = rw (str_eq_same path) refl

  write_padding-content :
      (n : ℕ) (t : Trace)
      → file_content path (write_padding env path pagesize n t).1
        ≡ file_content path t ++ padding pagesize n
  unfolding write_padding
  write_padding-content n t = elim (Bool-cases (n % pagesize == 0)) [
    | inl whole ↦ rw whole (sym (append-nil (file_content path t)))
    | inr part ↦ rw part (write_item-content (zeros (pagesize - n % pagesize)) t)
  ]

  write_items-content :
      (items : List Bytes) (t : Trace)
      → (write_items env path items t).0 ≡ true
      → file_content path (write_items env path items t).1 ≡ file_content path t ++ image_of items
  unfolding write_items
  write_items-content [] t h = sym (append-nil (file_content path t))
  write_items-content (item ∷ items) t h =
      let t1 = (write_item env path item t).1 in
      let t2 = (write_padding env path pagesize (length item) t1).1 in
      elim (Bool-cases (write_item env path item t).0) [
        | inr bad ↦ let e : false ≡ true = rw bad at h in cc
        | inl written ↦ elim (Bool-cases (write_padding env path pagesize (length item) t1).0) [
          | inr bad ↦ let e : false ≡ true = rw (written, bad) at h in cc
          | inl padded ↦
              rw (written, padded)
                (write_items-content items t2 (rw (written, padded) at h)
                  ∙ ap (λ s. s ++ image_of items)
                      (write_padding-content (length item) t1
                        ∙ ap (λ s. s ++ padding pagesize (length item)) (write_item-content item t)
                        ∙ append_assoc (file_content path t) item (padding pagesize (length item)))
                  ∙ append_assoc (file_content path t) (paged item) (image_of items))
        ]
      ]

  created : (t : Trace) → file_content path (Call.create path ∷ t) ≡ []
  unfolding file_content after_call
  created t = rw (str_eq_same path) refl

  write_image-content :
      (items : List Bytes) (t : Trace)
      → (write_image env path items t).0 ≡ true
      → file_content path (write_image env path items t).1 ≡ image_of items
  unfolding write_image
  write_image-content items t h =
      let t1 = (remove_old env path t).1 in
      let t2 = Call.create path ∷ t1 in
      elim (Bool-cases (remove_old env path t).0) [
        | inr bad ↦ let e : false ≡ true = rw bad at h in cc
        | inl free ↦ elim (Bool-cases (is_negative (env.answer t1 (Call.create path)))) [
          | inl bad ↦ let e : false ≡ true = rw (free, bad) at h in cc
          | inr opened ↦ elim (Bool-cases (write_items env path items t2).0) [
            | inr bad ↦ let e : false ≡ true = rw (free, opened, bad) at h in cc
            | inl done ↦
                rw (free, opened, done)
                  (write_items-content items t2 done ∙ ap (λ s. s ++ image_of items) (created t1))
          ]
        ]
      ]

  module _ (board cmdline kernel second : Bytes) where
    -- What an image on disk gives back.
    abbrev pub ReadsBack : Trace → Type 0
    ReadsBack t =
        let image = file_content path t in
        (kernel_in image ≡ kernel) × (second_in image ≡ second) × (cmdline_in image ≡ cmdline)

    write_hashed-ReadsBack :
        (hash : Option Bytes) (t : Trace)
        → length kernel < 4294967296
        → length second < 4294967296
        → length cmdline ≤ 1534
        → IsText cmdline
        → (write_hashed env path board cmdline kernel second hash t).0 ≡ true
        → ReadsBack (write_hashed env path board cmdline kernel second hash t).1
    write_hashed-ReadsBack none t hk hs hc text h = cc
    write_hashed-ReadsBack (some hash) t hk hs hc text h =
        rw (write_image-content (boot_items board cmdline kernel second hash) t h) (
          kernel_in-image kernel second board cmdline hash hk,
          second_in-image kernel second board cmdline hash hk hs,
          cmdline_in-image kernel second board cmdline hash hc text,
        )

boot_cmdline-IsText : (device : Bytes) → IsText device → IsText (boot_cmdline device)
unfolding lit
boot_cmdline-IsText device h =
    All-append (Pass is_text) (lit "console=ttyS0,1000000 root=") _
      (all-All is_text (lit "console=ttyS0,1000000 root=") refl)
      (All-append (Pass is_text) device _ h
        (all-All is_text (lit " rootwait rootfstype=ext4 no_console_suspend") refl))

-- If `generate_boot_image` returns 0, the files "Image.gz-4.9" and "dream<boxname>.dtb" that it has read
-- are shorter than 2^32 bytes, and the rootfs device has no zero byte, then the file it has written
-- gives back, by the numbers in its header, the kernel, the second file and the whole command line.
pub generate_boot_image-ReadsBack :
    (env : Env) (digest : Bytes → Option Bytes) (boxname rootfs_device path kernel second : Bytes)
    (t : Trace)
    → env.content t (lit "/oldroot_remount/boot/Image.gz-4.9") ≡ some kernel
    → env.content t (lit "/oldroot_remount/boot/dream" ++ (boxname ++ lit ".dtb")) ≡ some second
    → length kernel < 4294967296
    → length second < 4294967296
    → IsText rootfs_device
    → (generate_boot_image env digest boxname rootfs_device path t).0 ≡ true
    → ReadsBack env path boxname
        (boot_cmdline rootfs_device)
        kernel
        second
        (generate_boot_image env digest boxname rootfs_device path t).1
unfolding generate_boot_image
generate_boot_image-ReadsBack env digest boxname rootfs_device path kernel second t ek es hk hs text
      h =
    let cmdline = boot_cmdline rootfs_device in
    elim (Bool-cases (leb 16 (length boxname))) [
      | inl bad ↦ let e : false ≡ true = rw bad at h in cc
      | inr short ↦ elim (Bool-cases (ltb max_cmdline (length cmdline))) [
        | inl bad ↦ let e : false ≡ true = rw (short, bad) at h in cc
        | inr fits ↦
            rw (short, fits, ek, es)
              (write_hashed-ReadsBack env path boxname cmdline kernel second
                (digest (hashed kernel second)) t hk hs (ground (arith, fits))
                (boot_cmdline-IsText rootfs_device text) (rw (short, fits, ek, es) at h))
      ]
    ]
