-- ===== src/Screen/Window.antt =====
-- fb.c: the window and its two progress bars. The window is 640 x 480, and the factors that the code
-- applies to it are written as the lengths that they give; the texts are
-- in Screen/Shown.antt.
pub mod Bars
use ofgwrite.Base.{ℕ, ◌+◌, ◌-◌, ◌*◌, ◌/◌, Bool, not, List, [], ◌++◌}
use ofgwrite.Base.{if◌then◌else◌, ltb, leb}
use ofgwrite.Base.Int.{ℤ}
use ofgwrite.Screen.{Screen, Color, Pixel, add, sub, paint_box, clear_all_pages}

-- `struct window_t`
pub record Window : Type 0 where
  pub x1 : ℕ
  pub y1 : ℕ
  pub x2 : ℕ
  pub y2 : ℕ
  pub width : ℕ
  pub height : ℕ

-- `struct progressbar` without its steps
pub record Bar : Type 0 where
  pub x1 : ℕ
  pub y1 : ℕ
  pub x2 : ℕ
  pub y2 : ℕ
  pub outer_border_width : ℕ
  pub inner_border_width : ℕ
  pub width : ℕ
  pub height : ℕ

unfoldable pub set_window_dimension : Screen → Window
set_window_dimension s = record {
  width = 640;
  height = 480;
  x1 = sub (s.xres / 2) 320;
  y1 = sub (s.yres / 2) 240;
  x2 = add (s.xres / 2) 320;
  y2 = add (s.yres / 2) 240;
}

-- A bar whose upper border stands `top` below the window's.
unfoldable pub init_progressbar : Window → ℕ → Bar
init_progressbar w top = record {
  width = 512;
  height = 48;
  outer_border_width = 10;
  inner_border_width = 5;
  x1 = add w.x1 49;
  y1 = add w.y1 top;
  x2 = sub w.x2 49;
  y2 = add (add w.y1 top) 78;
}

-- g_pb_overall and g_pb_step
abbrev pub init_progressbars : Window → Bar × Bar
init_progressbars w = (init_progressbar w 192, init_progressbar w 312)

-- The white border of a bar, and its black inside.
abbrev pub paint_progressbar : Screen → Bar → List Pixel
paint_progressbar s b =
    paint_box s b.x1 b.y1 b.x2 b.y2 Color.white
    ++ paint_box s (add b.x1 b.outer_border_width) (add b.y1 b.outer_border_width)
        (sub b.x2 b.outer_border_width) (sub b.y2 b.outer_border_width) Color.black

unfoldable pub paint_progressbars : Screen → Bar × Bar → List Pixel
paint_progressbars s (overall, step) = paint_progressbar s overall ++ paint_progressbar s step

abbrev pub clamp_percent : ℤ → ℕ
clamp_percent (ℤ.negsuc _) = 0
clamp_percent (ℤ.pos n) = if ltb 100 n then 100 else n

-- From the upper left corner of a bar's inside, over `columns`.
abbrev pub fill : Screen → Bar → ℕ → Color → List Pixel
fill s b columns color =
    let x = add (add b.x1 b.outer_border_width) b.inner_border_width in
    let y = add (add b.y1 b.outer_border_width) b.inner_border_width in
    paint_box s x y (add x columns) (add y b.height) color

-- `is_open`: g_fbFd is not -1.
unfoldable pub set_step_progress : Bool → Screen → Bar × Bar → ℤ → List Pixel
set_step_progress is_open s (overall, step) percent =
    if not is_open then [] else fill s step (step.width * clamp_percent percent / 100) Color.white

-- The number of steps is that of `init_framebuffer`, which is not 0, and `number` starts with 1.
unfoldable pub set_overall_progress : ℕ → Screen → Bar × Bar → ℕ → List Pixel
set_overall_progress steps s (overall, step) number =
    let percent = clamp_percent (ℤ.pos ((number - 1) * 100 / steps)) in
    fill s overall (overall.width * percent / 100) Color.white
    ++ (if leb 99 percent then [] else fill s step step.width Color.black)

-- `show_main_window` up to its texts. `black`: the screen is painted black, because a background
-- image was asked for and could not be shown.
unfoldable pub show_bars : Bool → Screen → Window → List Pixel
unfolding paint_progressbars
show_bars black s w =
    clear_all_pages s Color.trans
    ++ ((if black then paint_box s 0 0 s.xres s.yres Color.black else [])
        ++ (paint_box s w.x1 w.y1 w.x2 w.y2 Color.black
            ++ paint_progressbars s (init_progressbars w)))
