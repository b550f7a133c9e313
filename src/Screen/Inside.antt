-- ===== src/Screen/Inside.antt =====
-- What is painted lies in the mapping of the framebuffer.
use mathlib.Core.Path.{subst}
use native.Mathlib.Nat.{mul-le-mul_right, div-mul-le_self}
use ofgwrite.Base.{ℕ, zero, suc, ◌+◌, ◌-◌, ◌*◌, ◌/◌, ◌%◌, ◌≤◌, ◌<◌, ◌≡◌, Bool, not, ◌&&◌, ◌||◌}
use ofgwrite.Base.{Option, none, some, ◌==◌, ltb, All, All-append}
use ofgwrite.Base.{arith, Bool-cases, inl, inr}
use ofgwrite.Screen.{Screen, Color, Pixel, pixel_at, paint_row, paint_rows, paint_box, paint_page}
use ofgwrite.Screen.{paint_pages, get_safe_pages, clear_all_pages, mmap_fb, rounds}
use ofgwrite.Screen.{wanted_len, clamp, least}

-- The four bytes of a pixel lie in the mapping.
abbrev pub IsInside : Screen → Pixel → Type 0
IsInside s p = p.0 + 4 ≤ s.map_len

-- A line holds the visible columns, and one page is mapped.
pub record IsUsable (s : Screen) : Type 0 where
  pub columns : (s.xoffset + s.xres) * 4 ≤ s.line_length
  pub page : s.yres * s.line_length ≤ s.map_len
  pub lines : s.yres ≤ s.yres_virtual
  pub small : s.map_len ≤ 4294967296
  pub some_columns : 0 < s.xres
  pub some_lines : 0 < s.yres
  pub width : s.xres < 2147483648
  pub height : s.yres < 2147483648
  pub no_offset : s.xoffset < 4294967296

-- The visible page is mapped.
abbrev pub IsShown : Screen → Type 0
IsShown s = (s.yoffset + s.yres) * s.line_length ≤ s.map_len

pub line-fits : (b n l m : ℕ) → b < n → n * l ≤ m → b * l + l ≤ m
line-fits b n l m h e = omega (arith, mul-le-mul_right l h, e)

pub le-mul : (b l : ℕ) → 0 < l → b ≤ b * l
le-mul zero l h = omega arith
le-mul (suc b) l h = omega (arith, le-mul b l h, h)

module _ (s : Screen) (usable : IsUsable s) (shown : IsShown s) where
  pixel_at-inside : (x y : ℕ) → x < s.xres → y < s.yres → pixel_at s x y + 4 ≤ s.map_len
  pixel_at-inside x y hx hy =
      let l = s.line_length in
      let b = y + s.yoffset in
      let row : b * l + l ≤ s.map_len =
        line-fits b (s.yoffset + s.yres) l s.map_len (omega (arith, hy)) shown in
      let column : (x + s.xoffset) * 4 + 4 ≤ l = omega (arith, usable.columns, hx) in
      let small : b ≤ b * l = le-mul b l (omega (arith, column)) in
      let no_wrap : b % 4294967296 ≡ b = omega (arith, small, row, column, usable.small) in
      let no_wrap' : (x + s.xoffset) % 4294967296 ≡ x + s.xoffset =
        omega (arith, row, column, usable.small) in
      rw (no_wrap, no_wrap') (omega (arith, row, column, usable.small))

  -- A box on the screen, by its counts of columns and lines.
  paint_row-IsInside :
      (color : Color) (y n x : ℕ)
      → y < s.yres
      → x + n ≤ s.xres
      → All (IsInside s) (paint_row s color y n x)
  unfolding paint_row
  paint_row-IsInside color y zero x hy hx = tt
  paint_row-IsInside color y (suc n) x hy hx =
      let next : (x + 1) % 4294967296 ≡ x + 1 = omega (arith, hx, usable.width) in
      (
        pixel_at-inside x y (omega (arith, hx)) hy,
        rw next (paint_row-IsInside color y n (x + 1) hy (omega (arith, hx))),
      )

  paint_rows-IsInside :
      (color : Color) (x columns n y : ℕ)
      → x + columns ≤ s.xres
      → y + n ≤ s.yres
      → All (IsInside s) (paint_rows s color x columns n y)
  unfolding paint_rows
  paint_rows-IsInside color x columns zero y hx hy = tt
  paint_rows-IsInside color x columns (suc n) y hx hy =
      let next : (y + 1) % 4294967296 ≡ y + 1 = omega (arith, hy, usable.height) in
      All-append (IsInside s) (paint_row s color y columns x) _
        (paint_row-IsInside color y columns x (omega (arith, hy)) hx)
        (rw next (paint_rows-IsInside color x columns n (y + 1) hx (omega (arith, hy))))

  pub paint_box-IsInside :
      (x1 y1 x2 y2 : ℕ) (color : Color)
      → x1 ≤ x2
      → y1 ≤ y2
      → x2 ≤ s.xres
      → y2 ≤ s.yres
      → All (IsInside s) (paint_box s x1 y1 x2 y2 color)
  unfolding paint_box
  paint_box-IsInside x1 y1 x2 y2 color hx hy hx2 hy2 =
      paint_rows-IsInside color x1 (rounds x1 x2) (rounds y1 y2) y1
        (omega (arith, hx, hx2, usable.width)) (omega (arith, hy, hy2, usable.height))

-- The pages that are safe are mapped.
least-le : (a b : ℕ) → least a b ≤ b
least-le a b = ground arith

pages-fit : (s : Screen) → IsUsable s → get_safe_pages s * s.yres * s.line_length ≤ s.map_len
unfolding get_safe_pages
pages-fit s usable =
    let q = least s.yres_virtual (s.map_len / s.line_length) / s.yres in
    elim (Bool-cases (s.map_len == 0 || (s.line_length == 0 || s.yres == 0))) [
      | inl bad ↦ rw bad (omega (arith, usable.page))
      | inr good ↦ rw good (elim (Bool-cases (ltb q 1)) [
        | inl few ↦ rw few (omega (arith, usable.page))
        | inr many ↦ rw many (
            omega (
              arith,
              mul-le-mul_right s.line_length
                  (div-mul-le_self (least s.yres_virtual (s.map_len / s.line_length)) s.yres),
              mul-le-mul_right s.line_length (least-le s.yres_virtual (s.map_len / s.line_length)),
              div-mul-le_self s.map_len s.line_length,
            ))
      ])
    ]

pub moved : (s : Screen) (yoffset : ℕ) → IsUsable s → IsUsable (record s { yoffset = yoffset })
moved s yoffset usable = record {
  columns = usable.columns;
  page = usable.page;
  lines = usable.lines;
  small = usable.small;
  some_columns = usable.some_columns;
  some_lines = usable.some_lines;
  width = usable.width;
  height = usable.height;
  no_offset = usable.no_offset;
}

paint_page-IsInside :
    (s : Screen) (color : Color) (page : ℕ)
    → IsUsable s
    → page < get_safe_pages s
    → All (IsInside s) (paint_page s color page)
paint_page-IsInside s color page usable h =
    let l = s.line_length in
    let fits : page * s.yres * l + s.yres * l ≤ s.map_len =
      omega (arith, mul-le-mul_right l (mul-le-mul_right s.yres h), pages-fit s usable) in
    let small : page * s.yres ≤ page * s.yres * l =
      le-mul (page * s.yres) l (omega (arith, usable.columns, usable.some_columns)) in
    let lines : s.yres ≤ s.yres * l =
      le-mul s.yres l (omega (arith, usable.columns, usable.some_columns)) in
    let no_wrap : page * s.yres % 4294967296 ≡ page * s.yres =
      omega (arith, fits, small, lines, usable.some_lines, usable.small) in
    rw no_wrap (
      paint_box-IsInside (record s { yoffset = page * s.yres }) (moved s (page * s.yres) usable)
        (omega (arith, fits)) 0 0 s.xres s.yres color (omega arith) (omega arith) (omega arith)
        (omega arith))

paint_pages-IsInside :
    (s : Screen) (color : Color) (n : ℕ)
    → IsUsable s
    → n ≤ get_safe_pages s
    → All (IsInside s) (paint_pages s color n)
unfolding paint_pages
paint_pages-IsInside s color zero usable h = tt
paint_pages-IsInside s color (suc n) usable h =
    All-append (IsInside s) (paint_pages s color n) _
      (paint_pages-IsInside s color n usable (omega (arith, h)))
      (paint_page-IsInside s color n usable h)

-- Clearing the pages of a screen of which one page is mapped, and whose lines hold the visible columns,
-- writes only inside of the mapping.
pub clear_all_pages-IsInside :
    (s : Screen) (color : Color) → IsUsable s → All (IsInside s) (clear_all_pages s color)
unfolding clear_all_pages
clear_all_pages-IsInside s color usable =
    paint_pages-IsInside s color (get_safe_pages s) usable (omega arith)

get_safe_pages-pos : (s : Screen) → 1 ≤ get_safe_pages s
unfolding get_safe_pages
get_safe_pages-pos s = ground arith

last_page :
    (pages lines offset : ℕ)
    → 1 ≤ pages
    → offset ≤ (pages - 1) * lines
    → offset + lines ≤ pages * lines
last_page zero lines offset h e = omega (arith, h)
last_page (suc n) lines offset h e =
    let less : suc n - 1 ≡ n = omega arith in omega (arith, rw less at e)

in_last_page : (s : Screen) → IsUsable s → s.yoffset ≤ (get_safe_pages s - 1) * s.yres → IsShown s
in_last_page s usable h = omega (
  arith,
  mul-le-mul_right s.line_length
      (last_page (get_safe_pages s) s.yres s.yoffset (get_safe_pages-pos s) h),
  pages-fit s usable,
)

-- Clamping changes nothing but the offset.
unclamped : (s : Screen) → IsUsable (clamp s) → IsUsable s
unclamped s usable =
    elim (Bool-cases (not (s.yres == 0) && ltb ((get_safe_pages s - 1) * s.yres) s.yoffset)) [
      | inl behind ↦ moved (record s { yoffset = 0 }) s.yoffset (simp behind at usable)
      | inr shown ↦ simp shown at usable
    ]

pub clamp-IsShown : (s : Screen) → IsUsable s → IsShown (clamp s)
clamp-IsShown s usable =
    elim (Bool-cases (not (s.yres == 0) && ltb ((get_safe_pages s - 1) * s.yres) s.yoffset)) [
      | inl behind ↦ simp behind (omega (arith, usable.page))
      | inr shown ↦ simp shown (in_last_page s usable (ground (arith, usable.some_lines)))
    ]

pub mmap_fb-IsShown :
    (mapped : ℕ → Bool) (s s' : Screen) → mmap_fb mapped s ≡ some s' → IsUsable s' → IsShown s'
unfolding mmap_fb
mmap_fb-IsShown mapped s s' h =
    let t : Screen = record s { map_len = wanted_len s } in
    elim (Bool-cases (wanted_len s == 0)) [
      | inl bad ↦ let e : ◌≡◌ {A = Option Screen} none (some s') = rw bad at h in cc
      | inr good ↦ elim (Bool-cases (mapped (wanted_len s))) [
        | inl done ↦
            let e : some (clamp t) ≡ some s' = simp (good, done) at h in
            let e' : clamp t ≡ s' = cc in
            subst (λ u. IsUsable u → IsShown u) e' (λ usable. clamp-IsShown t (unclamped t usable))
        | inr bad ↦ let e : ◌≡◌ {A = Option Screen} none (some s') = simp (good, bad) at h in cc
      ]
    ]

-- Once the framebuffer is mapped, every box on the screen is painted inside of the mapping, if one page
-- of the screen is mapped and its lines hold the visible columns.
pub mmap_fb-IsInside :
    (mapped : ℕ → Bool) (s s' : Screen) (x1 y1 x2 y2 : ℕ) (color : Color)
    → mmap_fb mapped s ≡ some s'
    → IsUsable s'
    → x1 ≤ x2
    → y1 ≤ y2
    → x2 ≤ s'.xres
    → y2 ≤ s'.yres
    → All (IsInside s') (paint_box s' x1 y1 x2 y2 color)
mmap_fb-IsInside mapped s s' x1 y1 x2 y2 color h usable =
    paint_box-IsInside s' usable (mmap_fb-IsShown mapped s s' h usable) x1 y1 x2 y2 color
