-- ===== src/BootImage/Layout.antt =====
-- Where the parts of a boot image stand.
use mathlib.Core.List.{append_assoc}
use ofgwrite.Base.{ℕ, zero, suc, ◌+◌, ◌-◌, ◌*◌, ◌/◌, ◌%◌, ◌<◌, ◌≤◌}
use ofgwrite.Base.{List, [], ◌∷◌, ◌++◌, ◌≡◌, ap, ◌∙◌, sym, arith, ◌==◌}
use ofgwrite.Base.{length, take, drop, length-append, length-replicate, drop-append, take-append}
use ofgwrite.Base.{Bool-cases, inl, inr}
use ofgwrite.Base.Text.{Bytes}
use ofgwrite.BootImage.Strings.{cstring, IsText, cmdline-parts}
use ofgwrite.BootImage.{le32, zeros, field, pagesize, extra, boot_img_hdr, padding}

-- A bootloader's view: the numbers in the header, the items behind it, each from a page's start on,
-- and the command line's two parts.
abbrev pub number_at : Bytes → ℕ
number_at (a ∷ b ∷ c ∷ d ∷ s) = a + 256 * b + 65536 * c + 16777216 * d
number_at _ = 0

abbrev pub pages_of : ℕ → ℕ
pages_of size = (size + 2047) / 2048 * 2048

abbrev pub kernel_size_in : Bytes → ℕ
kernel_size_in image = number_at (drop 8 image)

abbrev pub kernel_in : Bytes → Bytes
kernel_in image = take (kernel_size_in image) (drop 2048 image)

abbrev pub second_in : Bytes → Bytes
second_in image =
    take (number_at (drop 24 image)) (drop (pages_of (kernel_size_in image)) (drop 2048 image))

abbrev pub cmdline_in : Bytes → Bytes
cmdline_in image = cstring (drop 64 image) ++ cstring (drop 608 image)

-- What `write_items` writes.
abbrev pub paged : Bytes → Bytes
paged item = item ++ padding pagesize (length item)

abbrev pub image_of : List Bytes → Bytes
image_of [] = []
image_of (item ∷ items) = paged item ++ image_of items

number_at-le32 : (n : ℕ) → n < 4294967296 → number_at (le32 n) ≡ n
number_at-le32 n h = omega arith

length-zeros : (n : ℕ) → length (zeros n) ≡ n
length-zeros n = length-replicate {A = ℕ} n 0

length-padding : (n : ℕ) → n + length (padding pagesize n) ≡ pages_of n
length-padding n = elim (Bool-cases (n % pagesize == 0)) [
  | inl whole ↦ rw whole (ground arith)
  | inr part ↦ rw part (ground (arith, length-zeros (pagesize - n % pagesize)))
]

length-paged : (item : Bytes) → length (paged item) ≡ pages_of (length item)
length-paged item =
    length-append item (padding pagesize (length item)) ∙ length-padding (length item)

length-take : (n : ℕ) (s : Bytes) → length (take n s) + (n - length s) ≡ n
length-take zero s = omega arith
length-take (suc n) [] = omega arith
length-take (suc n) (c ∷ s) = omega (arith, length-take n s)

length-field : (n : ℕ) (s : Bytes) → length (field n s) ≡ n
unfolding field
length-field n s = omega (
  arith,
  length-append (take n s) (zeros (n - length s)),
  length-zeros (n - length s),
  length-take n s,
)

length-first : (s : Bytes) → length (field 511 s ++ zeros 1) ≡ 512
length-first s = omega (arith, length-append (field 511 s) (zeros 1), length-field 511 s)

drop_at : (n : ℕ) (xs ys : Bytes) → length xs ≡ n → drop n (xs ++ ys) ≡ ys
drop_at n xs ys h = ap (λ k. drop k (xs ++ ys)) (sym h) ∙ drop-append xs ys

take_at : (n : ℕ) (xs ys : Bytes) → length xs ≡ n → take n (xs ++ ys) ≡ xs
take_at n xs ys h = ap (λ k. take k (xs ++ ys)) (sym h) ∙ take-append xs ys

-- The header.
abbrev header_tail : Bytes → Bytes → Bytes → Bytes
header_tail board cmdline hash =
    field 16 board
    ++ ((field 511 cmdline ++ zeros 1) ++ (field 32 (take 20 hash) ++ field 1024 (extra cmdline)))

length-tail : (board cmdline hash : Bytes) → length (header_tail board cmdline hash) ≡ 1584
length-tail board cmdline hash =
    let a = field 16 board in
    let b = field 511 cmdline in
    let c = field 32 (take 20 hash) in
    let d = field 1024 (extra cmdline) in
    omega (
      arith,
      length-append a ((b ++ zeros 1) ++ (c ++ d)),
      length-append (b ++ zeros 1) (c ++ d),
      length-append b (zeros 1),
      length-append c d,
      length-field 16 board,
      length-field 511 cmdline,
      length-field 32 (take 20 hash),
      length-field 1024 (extra cmdline),
    )

pub length-boot_img_hdr :
    (kernel_size second_size : ℕ) (board cmdline hash : Bytes)
    → length (boot_img_hdr kernel_size second_size board cmdline hash) ≡ 1632
unfolding boot_img_hdr
length-boot_img_hdr kernel_size second_size board cmdline hash =
    omega (arith, length-tail board cmdline hash)

module _ (a b c d r : Bytes) where
  at_second : length a ≡ 16 → drop 16 ((a ++ (b ++ (c ++ d))) ++ r) ≡ b ++ ((c ++ d) ++ r)
  at_second h =
      ap (drop 16) (append_assoc a (b ++ (c ++ d)) r)
      ∙ drop_at 16 a ((b ++ (c ++ d)) ++ r) h
      ∙ append_assoc b (c ++ d) r

  at_last :
      length a ≡ 16
      → length b ≡ 512
      → length c ≡ 32
      → drop 560 ((a ++ (b ++ (c ++ d))) ++ r) ≡ d ++ r
  at_last ha hb hc =
      ap (λ l. drop 560 ((a ++ l) ++ r)) (sym (append_assoc b c d))
      ∙ ap (λ l. drop 560 (l ++ r)) (sym (append_assoc a (b ++ c) d))
      ∙ ap (drop 560) (append_assoc (a ++ (b ++ c)) d r)
      ∙ drop_at 560 (a ++ (b ++ c)) (d ++ r)
          (omega (arith, length-append a (b ++ c), length-append b c, ha, hb, hc))

-- The four items.
abbrev pub boot_image : Bytes → Bytes → Bytes → Bytes
boot_image hdr kernel second = image_of (hdr ∷ kernel ∷ [] ∷ second ∷ [])

items_of : Bytes → Bytes → Bytes
items_of kernel second = image_of (kernel ∷ [] ∷ second ∷ [])

drop-header :
    (hdr kernel second : Bytes)
    → length hdr ≡ 1632
    → drop 2048 (boot_image hdr kernel second) ≡ items_of kernel second
unfolding items_of
drop-header hdr kernel second h =
    drop_at 2048 (paged hdr) (items_of kernel second) (length-paged hdr ∙ ap pages_of h)

kernel_of : (kernel second : Bytes) → take (length kernel) (items_of kernel second) ≡ kernel
unfolding items_of
kernel_of kernel second =
    ap (take (length kernel))
      (append_assoc kernel (padding pagesize (length kernel)) (image_of ([] ∷ second ∷ [])))
    ∙ take-append kernel _

second_of :
    (kernel second : Bytes)
    → take (length second) (drop (pages_of (length kernel)) (items_of kernel second)) ≡ second
unfolding items_of
second_of kernel second =
    ap (take (length second)) (
      drop_at (pages_of (length kernel)) (paged kernel) (image_of ([] ∷ second ∷ []))
        (length-paged kernel)
      ∙ append_assoc second (padding pagesize (length second)) [])
    ∙ take-append second _

module _ (kernel second board cmdline hash : Bytes) where
  abbrev hdr : Bytes
  hdr = boot_img_hdr (length kernel) (length second) board cmdline hash

  abbrev image : Bytes
  image = boot_image hdr kernel second

  length-hdr : length hdr ≡ 1632
  length-hdr = length-boot_img_hdr (length kernel) (length second) board cmdline hash

  kernel_size_in-image : length kernel < 4294967296 → kernel_size_in image ≡ length kernel
  unfolding boot_img_hdr
  kernel_size_in-image h = number_at-le32 (length kernel) h

  second_size_in-image : length second < 4294967296 → number_at (drop 24 image) ≡ length second
  unfolding boot_img_hdr
  second_size_in-image h = number_at-le32 (length second) h

  pub kernel_in-image : length kernel < 4294967296 → kernel_in image ≡ kernel
  kernel_in-image h =
      rw (kernel_size_in-image h, drop-header hdr kernel second length-hdr)
        (kernel_of kernel second)

  pub second_in-image :
      length kernel < 4294967296 → length second < 4294967296 → second_in image ≡ second
  second_in-image h h' =
      rw (kernel_size_in-image h, second_size_in-image h', drop-header hdr kernel second length-hdr)
        (second_of kernel second)

  pub cmdline_in-image : length cmdline ≤ 1534 → IsText cmdline → cmdline_in image ≡ cmdline
  unfolding boot_img_hdr items_of
  cmdline_in-image h text =
      let a = field 16 board in
      let b = field 511 cmdline ++ zeros 1 in
      let c = field 32 (take 20 hash) in
      let d = field 1024 (extra cmdline) in
      let r = padding pagesize (length hdr) ++ items_of kernel second in
      let whole : image ≡ hdr ++ r =
        append_assoc hdr (padding pagesize (length hdr)) (items_of kernel second) in
      let first : drop 64 image ≡ b ++ ((c ++ d) ++ r) =
        ap (drop 64) whole ∙ at_second a b c d r (length-field 16 board) in
      let second_part : drop 608 image ≡ d ++ r =
        ap (drop 608) whole
        ∙ at_last a b c d r (length-field 16 board) (length-first cmdline)
            (length-field 32 (take 20 hash)) in
      rw (first, second_part) (cmdline-parts cmdline ((c ++ d) ++ r) r h text)
