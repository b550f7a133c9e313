-- ===== src/Flash/Ext4/Copy.antt =====
-- `flash_ext4_kernel` writes the whole kernel file, or nothing under `no_write`.
use mathlib.Core.List.{append-nil, append_assoc}
use ofgwrite.Base.{ℕ, ◌+◌, Bool, true, false, some, [], ◌∷◌, ◌++◌, ◌≡◌, refl, arith, ltb}
use ofgwrite.Base.{if◌then◌else◌, length, Bool-cases, inl, inr, ◌∙◌, ap, sym}
use ofgwrite.Base.Calls.{Env, Call, Trace}
use ofgwrite.Base.Int.{pos, int_eq, is_nonzero}
use ofgwrite.Base.Text.{Bytes, lit}
use ofgwrite.Flash.Written.{written, written-tell, written-write}
use ofgwrite.Flash.Ext4.{Stream, end_of_file, read_error, block, copy_kernel, flash_ext4_kernel}
use ofgwrite.Flash.Ext4.{percent, show_progress}

unfoldable pub content : Stream → Bytes
content end_of_file = []
content read_error = []
content (block bytes rest) = bytes ++ content rest

unfoldable pub is_whole : Stream → Bool
is_whole end_of_file = true
is_whole read_error = false
is_whole (block bytes rest) = is_whole rest

written-show_progress :
    (device : Bytes) (current new : ℕ) (t : Trace)
    → written device (show_progress current new t).1 ≡ written device t
written-show_progress device current new t =
    ground (arith, written-tell device (Call.set_step_progress new) t)

module _ (env : Env) (device : Bytes) (size : ℕ) where
  copy_kernel_writes :
      (read_bytes current : ℕ) (s : Stream) (t : Trace)
      → (copy_kernel env device size false read_bytes current s t).0 ≡ true
      → (is_whole s ≡ true)
        × (written device (copy_kernel env device size false read_bytes current s t).1
            ≡ written device t ++ content s)
  unfolding copy_kernel is_whole content written
  copy_kernel_writes read_bytes current end_of_file t h =
      (refl, sym (append-nil (written device t)))
  copy_kernel_writes read_bytes current read_error t h = cc
  copy_kernel_writes read_bytes current (block bytes rest) t h =
      let total = read_bytes + length bytes in
      let new = percent env device size total in
      let t' = (show_progress current new t).1 in
      let step = Call.write_block device bytes in
      let ih =
        copy_kernel_writes total (if ltb current new then new else current) rest (step ∷ t') in
      elim (Bool-cases (int_eq (env.answer t' step) (pos 1))) [
        | inl good ↦
            let (whole, out) = ih (rw good at h) in
            rw good (
              whole,
              out
                  ∙ ap (λ w. w ++ content rest) (written-write device bytes t')
                  ∙ append_assoc (written device t') bytes (content rest)
                  ∙ ap (λ w. w ++ (bytes ++ content rest))
                      (written-show_progress device current new t),
            )
        | inr bad ↦ let e : ◌≡◌ {A = Bool} false true = rw bad at h in cc
      ]

  copy_kernel_dry :
      (read_bytes current : ℕ) (s : Stream) (t : Trace)
      → written device (copy_kernel env device size true read_bytes current s t).1
        ≡ written device t
  unfolding copy_kernel
  copy_kernel_dry read_bytes current end_of_file t = refl
  copy_kernel_dry read_bytes current read_error t = refl
  copy_kernel_dry read_bytes current (block bytes rest) t =
      let total = read_bytes + length bytes in
      let new = percent env device size total in
      copy_kernel_dry total (if ltb current new then new else current) rest
        (show_progress current new t).1
      ∙ written-show_progress device current new t

module _ (env : Env) (device : Bytes) (size : ℕ) (kernel_file : Stream) (t : Trace) where
  -- The trace when the copying starts.
  abbrev opened : Trace
  opened = Call.set_step (lit "Writing ext4 kernel") ∷ Call.open_to_write device ∷ t

  written-opened : written device opened ≡ written device t
  written-opened =
      written-tell device (Call.set_step (lit "Writing ext4 kernel"))
        (Call.open_to_write device ∷ t) refl
      ∙ written-tell device (Call.open_to_write device) t refl

  -- A success without `no_write` has read the kernel file to its end and has passed all its bytes
  -- to `fwrite` on the device, in their order and nothing else.
  pub flash_ext4_kernel-written :
      (flash_ext4_kernel env device (some kernel_file) size false t).0 ≡ true
      → (is_whole kernel_file ≡ true)
        × (written device (flash_ext4_kernel env device (some kernel_file) size false t).1
            ≡ written device t ++ content kernel_file)
  unfolding flash_ext4_kernel
  flash_ext4_kernel-written h =
      elim (Bool-cases (is_nonzero (env.answer t (Call.open_to_write device)))) [
        | inl good ↦
            let (whole, out) =
              copy_kernel_writes env device size 0 0 kernel_file opened (rw good at h) in
            rw good (whole, out ∙ ap (λ w. w ++ content kernel_file) written-opened)
        | inr bad ↦ let e : ◌≡◌ {A = Bool} false true = rw bad at h in cc
      ]

  -- Under `no_write` no byte is written to the device, whether the call succeeds or fails.
  pub flash_ext4_kernel_dry :
      written device (flash_ext4_kernel env device (some kernel_file) size true t).1
      ≡ written device t
  unfolding flash_ext4_kernel
  flash_ext4_kernel_dry =
      elim (Bool-cases (is_nonzero (env.answer t (Call.open_to_write device)))) [
        | inl good ↦
            rw good (copy_kernel_dry env device size 0 0 kernel_file opened ∙ written-opened)
        | inr bad ↦ rw bad (written-tell device (Call.open_to_write device) t refl)
      ]
