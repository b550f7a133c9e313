-- ===== src/Screen.antt =====
-- fb.c: the framebuffer's pages and the painting of boxes. `int` and `unsigned int` are numbers below
-- 2^32; what is written to the framebuffer is the list of the places in it, with their colours.
pub mod Inside
pub mod Window
pub mod Device
pub mod Font
pub mod Text
pub mod Shown
pub mod Session
use ofgwrite.Base.{ℕ, zero, suc, ◌+◌, ◌-◌, ◌*◌, ◌/◌, ◌%◌, Bool, not, ◌&&◌, ◌||◌}
use ofgwrite.Base.{Option, none, some, List, [], ◌∷◌, ◌++◌, if◌then◌else◌, ◌==◌, ltb}

pub data Color : Type 0 where
  trans black white red : Color

-- g_screeninfo_var, g_screeninfo_fix and g_fbMapLen
pub record Screen : Type 0 where
  pub xres : ℕ
  pub yres : ℕ
  pub yres_virtual : ℕ
  pub xoffset : ℕ
  pub yoffset : ℕ
  pub bits_per_pixel : ℕ
  pub line_length : ℕ
  pub smem_len : ℕ
  pub map_len : ℕ

abbrev pub word : ℕ
word = 4294967296

-- The sum and the difference in 32 bits.
abbrev pub add : ℕ → ℕ → ℕ
add a b = (a + b) % word

abbrev pub sub : ℕ → ℕ → ℕ
sub a b = (a + (word - b)) % word

-- The rounds of `for (i = a; i < b; i++)` with signed numbers.
abbrev pub rounds : ℕ → ℕ → ℕ
rounds a b = add b 2147483648 - add a 2147483648

abbrev pub Pixel : Type 0
Pixel = ℕ × Color

-- The index into g_lfb.
abbrev pub pixel_at : Screen → ℕ → ℕ → ℕ
pixel_at s x y = add (add x s.xoffset * 4) (add y s.yoffset * s.line_length)

unfoldable pub paint_row : Screen → Color → ℕ → ℕ → ℕ → List Pixel
paint_row s color y zero x = []
paint_row s color y (suc n) x = (pixel_at s x y, color) ∷ paint_row s color y n (add x 1)

unfoldable pub paint_rows : Screen → Color → ℕ → ℕ → ℕ → ℕ → List Pixel
unfolding paint_row
paint_rows s color x columns zero y = []
paint_rows s color x columns (suc n) y =
    paint_row s color y columns x ++ paint_rows s color x columns n (add y 1)

unfoldable pub paint_box : Screen → ℕ → ℕ → ℕ → ℕ → Color → List Pixel
unfolding paint_rows
paint_box s x1 y1 x2 y2 color = paint_rows s color x1 (rounds x1 x2) (rounds y1 y2) y1

abbrev pub least : ℕ → ℕ → ℕ
least a b = if ltb b a then b else a

abbrev pub at_least_one : ℕ → ℕ
at_least_one n = if ltb n 1 then 1 else n

unfoldable pub get_safe_pages : Screen → ℕ
get_safe_pages s =
    if s.map_len == 0 || (s.line_length == 0 || s.yres == 0)
    then 1
    else at_least_one (least s.yres_virtual (s.map_len / s.line_length) / s.yres)

-- The first pages in their order.
abbrev pub paint_page : Screen → Color → ℕ → List Pixel
paint_page s color page =
    paint_box (record s { yoffset = page * s.yres % word }) 0 0 s.xres s.yres color

unfoldable pub paint_pages : Screen → Color → ℕ → List Pixel
paint_pages s color zero = []
paint_pages s color (suc n) = paint_pages s color n ++ paint_page s color n

unfoldable pub clear_all_pages : Screen → Color → List Pixel
unfolding paint_pages get_safe_pages
clear_all_pages s color = paint_pages s color (get_safe_pages s)

-- The length that is mapped: the one that the driver says, or one that is computed; size_t has no
-- bound here.
abbrev pub computed_len : Screen → ℕ
computed_len s =
    if not (s.line_length == 0) && not (s.yres_virtual == 0)
    then s.line_length * s.yres_virtual
    else s.xres * s.yres_virtual * (s.bits_per_pixel / 8)

abbrev pub wanted_len : Screen → ℕ
wanted_len s = if s.smem_len == 0 then computed_len s else s.smem_len

-- `yoffset` is set to 0 where it is behind the last page.
abbrev pub clamp : Screen → Screen
clamp s =
    if not (s.yres == 0) && ltb ((get_safe_pages s - 1) * s.yres) s.yoffset
    then record s { yoffset = 0 }
    else s

-- `mapped` says whether `mmap` succeeds for a length.
unfoldable pub mmap_fb : (ℕ → Bool) → Screen → Option Screen
mmap_fb mapped s =
    let len = wanted_len s in
    if len == 0
    then none
    else if mapped len
    then some (clamp (record s { map_len = len }))
    else none
