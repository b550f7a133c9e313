-- ===== src/Screen/Window/Bars.antt =====
-- The window and the progress bars are painted inside of the mapping.
use ofgwrite.Base.{
  [], if◌then◌else◌, ℕ, ◌+◌, ◌-◌, ◌*◌, ◌/◌, ◌≤◌, Bool, true, false, All, All-append,
}
use ofgwrite.Base.{refl, arith, Bool-cases, inl, inr, leb, ◌≡◌}
use ofgwrite.Base.Int.{ℤ}
use ofgwrite.Screen.{Screen, Color, paint_box, clear_all_pages}
use ofgwrite.Screen.Inside.{
  IsInside, IsUsable, IsShown, paint_box-IsInside, clear_all_pages-IsInside,
}
use ofgwrite.Screen.Window.{Window, Bar, set_window_dimension, init_progressbar, init_progressbars}
use ofgwrite.Screen.Window.{paint_progressbar, paint_progressbars, clamp_percent, fill}
use ofgwrite.Screen.Window.{set_step_progress, set_overall_progress, show_bars}

-- Where a bar stands on the screen.
record IsOnScreen (s : Screen) (b : Bar) : Type 0 where
  left : b.x1 + 542 ≤ s.xres
  right : b.x2 ≡ b.x1 + 542
  top : b.y1 + 78 ≤ s.yres
  bottom : b.y2 ≡ b.y1 + 78
  outer : b.outer_border_width ≡ 10
  inner : b.inner_border_width ≡ 5
  wide : b.width ≡ 512
  high : b.height ≡ 48

clamp_percent-le : (percent : ℤ) → clamp_percent percent ≤ 100
clamp_percent-le (ℤ.pos n) = ground arith
clamp_percent-le (ℤ.negsuc n) = omega arith

module _ (s : Screen) (usable : IsUsable s) (shown : IsShown s) where
  fill-IsInside :
      (b : Bar) (columns : ℕ) (color : Color)
      → IsOnScreen s b
      → columns ≤ 512
      → All (IsInside s) (fill s b columns color)
  fill-IsInside b columns color on h =
      paint_box-IsInside s usable shown _ _ _ _ color
        (omega (arith, on.outer, on.inner, on.left, h, usable.width))
        (omega (arith, on.outer, on.inner, on.high, on.top, usable.height))
        (omega (arith, on.outer, on.inner, on.left, h, usable.width))
        (omega (arith, on.outer, on.inner, on.high, on.top, usable.height))

  paint_progressbar-IsInside : (b : Bar) → IsOnScreen s b → All (IsInside s) (paint_progressbar s b)
  paint_progressbar-IsInside b on =
      All-append (IsInside s) (paint_box s b.x1 b.y1 b.x2 b.y2 Color.white) _
        (paint_box-IsInside s usable shown b.x1 b.y1 b.x2 b.y2 Color.white (omega (arith, on.right))
          (omega (arith, on.bottom)) (omega (arith, on.right, on.left))
          (omega (arith, on.bottom, on.top)))
        (paint_box-IsInside s usable shown _ _ _ _ Color.black
          (omega (arith, on.outer, on.right, on.left, usable.width))
          (omega (arith, on.outer, on.bottom, on.top, usable.height))
          (omega (arith, on.outer, on.right, on.left, usable.width))
          (omega (arith, on.outer, on.bottom, on.top, usable.height)))

module _ (s : Screen) (usable : IsUsable s) (wide : 640 ≤ s.xres) (high : 480 ≤ s.yres) where
  abbrev window : Window
  window = set_window_dimension s

  bar_on : (top : ℕ) → top ≤ 402 → IsOnScreen s (init_progressbar window top)
  unfolding set_window_dimension init_progressbar
  bar_on top h = record {
    left = omega (arith, wide, usable.width);
    right = omega (arith, wide, usable.width);
    top = omega (arith, high, usable.height, h);
    bottom = omega (arith, high, usable.height, h);
    outer = refl;
    inner = refl;
    wide = refl;
    high = refl;
  }

  pub window-IsInside :
      IsShown s → All (IsInside s) (paint_box s window.x1 window.y1 window.x2 window.y2 Color.black)
  unfolding set_window_dimension
  window-IsInside shown =
      paint_box-IsInside s usable shown _ _ _ _ Color.black (omega (arith, wide, usable.width))
        (omega (arith, high, usable.height)) (omega (arith, wide, usable.width))
        (omega (arith, high, usable.height))

  pub progressbars-IsInside :
      IsShown s → All (IsInside s) (paint_progressbars s (init_progressbars window))
  unfolding paint_progressbars
  progressbars-IsInside shown =
      All-append (IsInside s) (paint_progressbar s (init_progressbar window 192)) _
        (paint_progressbar-IsInside s usable shown _ (bar_on 192 (omega arith)))
        (paint_progressbar-IsInside s usable shown _ (bar_on 312 (omega arith)))

  background-IsInside :
      (black : Bool)
      → IsShown s
      → All (IsInside s) (if black then paint_box s 0 0 s.xres s.yres Color.black else [])
  background-IsInside true shown =
      paint_box-IsInside s usable shown 0 0 s.xres s.yres Color.black (omega arith) (omega arith)
        (omega arith) (omega arith)
  background-IsInside false shown = tt

  part : (percent : ℤ) → 512 * clamp_percent percent / 100 ≤ 512
  part percent = omega (arith, clamp_percent-le percent)

  set_step_progress-IsInside :
      (is_open : Bool) (percent : ℤ)
      → IsShown s
      → All (IsInside s) (set_step_progress is_open s (init_progressbars window) percent)
  unfolding set_step_progress init_progressbar
  set_step_progress-IsInside false percent shown = tt
  set_step_progress-IsInside true percent shown =
      fill-IsInside s usable shown _ _ Color.white (bar_on 312 (omega arith)) (part percent)

  set_overall_progress-IsInside :
      (steps number : ℕ)
      → IsShown s
      → All (IsInside s) (set_overall_progress steps s (init_progressbars window) number)
  unfolding set_overall_progress init_progressbar
  set_overall_progress-IsInside steps number shown =
      let percent = clamp_percent (ℤ.pos ((number - 1) * 100 / steps)) in
      All-append (IsInside s)
        (fill s (init_progressbar window 192) (512 * percent / 100) Color.white) _
        (fill-IsInside s usable shown _ _ Color.white (bar_on 192 (omega arith))
          (part (ℤ.pos ((number - 1) * 100 / steps))))
        (elim (Bool-cases (leb 99 percent)) [
          | inl full ↦ rw full tt
          | inr going ↦ rw going (
              fill-IsInside s usable shown _ _ Color.black (bar_on 312 (omega arith)) (omega arith))
        ])

  -- On a screen of at least 640 x 480 that is usable and whose visible page is mapped, the window with its
  -- bars, with or without a black screen behind it, the step's progress for every percentage and the overall progress for every step are
  -- painted inside of the mapping.
  pub progress-IsInside :
      (black is_open : Bool) (percent : ℤ) (steps number : ℕ)
      → IsShown s
      → All (IsInside s) (show_bars black s window)
        × All (IsInside s) (set_step_progress is_open s (init_progressbars window) percent)
        × All (IsInside s) (set_overall_progress steps s (init_progressbars window) number)
  unfolding show_bars paint_progressbars
  progress-IsInside black is_open percent steps number shown = (
    All-append (IsInside s) (clear_all_pages s Color.trans) _
        (clear_all_pages-IsInside s Color.trans usable)
        (All-append (IsInside s) (if black then paint_box s 0 0 s.xres s.yres Color.black else []) _
          (background-IsInside black shown)
          (All-append (IsInside s) (paint_box s window.x1 window.y1 window.x2 window.y2 Color.black)
            _ (window-IsInside shown) (progressbars-IsInside shown))),
    set_step_progress-IsInside is_open percent shown,
    set_overall_progress-IsInside steps number shown,
  )
