-- ===== src/Args/Flags.antt =====
-- What the options come to when `read_args` succeeds.
use ofgwrite.Base.{Bool, true, false, ◌&&◌, ◌||◌, not, List, [], ◌∷◌, ◌++◌, any, none, ◌≡◌}
use ofgwrite.Base.{refl, arith, Bool-cases, inl, inr}
use ofgwrite.Base.Text.{Bytes}
use ofgwrite.State.{Options, Images}
use ofgwrite.Args.{Opt, read_opt, read_opts, read_operands, read_args, initial, set_defaults}

abbrev pub is_no_write : Opt → Bool
is_no_write Opt.no_write = true
is_no_write _ = false

abbrev pub is_kernel : Opt → Bool
is_kernel (Opt.kernel _) = true
is_kernel _ = false

abbrev pub is_rootfs : Opt → Bool
is_rootfs (Opt.rootfs _) = true
is_rootfs _ = false

abbrev pub is_help : Opt → Bool
is_help Opt.help = true
is_help _ = false

record Flags (opts : List Opt) (o o' : Options) : Type 0 where
  no_write : o'.no_write ≡ (any is_no_write opts || o.no_write)
  kernel : o'.flash_kernel ≡ (any is_kernel opts || o.flash_kernel)
  rootfs : o'.flash_rootfs ≡ (any is_rootfs opts || o.flash_rootfs)
  show_help : o'.show_help ≡ o.show_help

read_opt-Flags :
    (opt : Opt) (o : Options) → (read_opt opt o).1 ≡ true → Flags (opt ∷ []) o (read_opt opt o).0
unfolding read_opt
read_opt-Flags (Opt.kernel none) o h = ground arith
read_opt-Flags _ o h = ground arith

cons-Flags :
    (opt : Opt) (opts : List Opt) (o o' o'' : Options)
    → Flags (opt ∷ []) o o'
    → Flags opts o' o''
    → Flags (opt ∷ opts) o o''
cons-Flags opt opts o o' o'' f g = ground arith

read_opts-Flags :
    (opts : List Opt) (o : Options)
    → (read_opts opts o).1 ≡ true
    → Flags opts o (read_opts opts o).0
unfolding read_opts
read_opts-Flags [] o h = ground arith
read_opts-Flags (opt ∷ opts) o h = elim (Bool-cases (read_opt opt o).1) [
  | inl good ↦ rw good (
      cons-Flags opt opts o (read_opt opt o).0 _ (read_opt-Flags opt o good)
        (read_opts-Flags opts (read_opt opt o).0 (rw good at h)))
  | inr bad ↦ let e : ◌≡◌ {A = Bool} false true = rw bad at h in cc
]

set_defaults-Flags :
    (opts : List Opt) (o' o : Options)
    → Flags opts initial o'
    → o ≡ set_defaults o'
    → let neither = not (any is_kernel opts) && not (any is_rootfs opts) in
      (o.no_write ≡ any is_no_write opts)
      × (o.flash_kernel ≡ (any is_kernel opts || neither))
      × (o.flash_rootfs ≡ (any is_rootfs opts || neither))
      × (o.show_help ≡ false)
set_defaults-Flags opts o' o f e = rw e (ground arith)

module _ (find : Bytes → Images → Images × Bool) where
  read_operands_ok :
      (operands : List Bytes) (o : Options) (i : Images)
      → (read_operands find operands o i).2 ≡ true
      → (read_operands find operands o i).0 ≡ set_defaults o
  unfolding read_operands
  read_operands_ok [] o i h = cc
  read_operands_ok (directory ∷ []) o i h = ground arith
  read_operands_ok (directory ∷ extra ∷ operands) o i h = cc

  -- When the arguments are accepted, nothing is to be written exactly if `-n` is among them; the
  -- kernel is to be flashed exactly if `-k` is, and the rootfs exactly if `-r` is, or both if neither
  -- is; and no help is asked for.
  pub read_args-flags :
      (opts : List Opt) (operands : List Bytes) (i : Images)
      → (read_args find opts operands i).2 ≡ true
      → let o = (read_args find opts operands i).0 in
        let neither = not (any is_kernel opts) && not (any is_rootfs opts) in
        (o.no_write ≡ any is_no_write opts)
        × (o.flash_kernel ≡ (any is_kernel opts || neither))
        × (o.flash_rootfs ≡ (any is_rootfs opts || neither))
        × (o.show_help ≡ false)
  unfolding read_args
  read_args-flags opts operands i h = elim (Bool-cases (read_opts opts initial).1) [
    | inl good ↦ rw good (
        set_defaults-Flags opts (read_opts opts initial).0
          (read_operands find operands (read_opts opts initial).0 i).0
          (read_opts-Flags opts initial good)
          (read_operands_ok operands (read_opts opts initial).0 i (rw good at h)))
    | inr bad ↦ let e : ◌≡◌ {A = Bool} false true = rw bad at h in cc
  ]

read_opts-help :
    (before after : List Opt) (o : Options)
    → read_opts (before ++ Opt.help ∷ after) o ≡ read_opts (before ++ after) o
unfolding read_opts read_opt
read_opts-help [] after o = refl
read_opts-help (opt ∷ before) after o =
    ground (arith, read_opts-help before after (read_opt opt o).0)

-- `-h` is ignored: with it anywhere among the options the same is done as without it, also where
-- that is to flash.
pub read_args-help :
    (find : Bytes → Images → Images × Bool) (before after : List Opt) (operands : List Bytes)
    (i : Images)
    → read_args find (before ++ Opt.help ∷ after) operands i
      ≡ read_args find (before ++ after) operands i
unfolding read_args
read_args-help find before after operands i = rw (read_opts-help before after initial)
