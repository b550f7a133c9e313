-- ===== src/Screen/Shown.antt =====
-- fb.c: the texts and the progress that are shown in the window. The factors that the code applies to
-- the window's height are hundredths here.
pub mod Ready
pub mod Texts
pub mod Progress
use ofgwrite.Base.{ℕ, ◌+◌, ◌*◌, ◌/◌, Bool, true, false, Option, none, some, List}
use ofgwrite.Base.{if◌then◌else◌, ◌==◌}
use ofgwrite.Base.Int.{ℤ}
use ofgwrite.Base.Text.{Bytes}
use ofgwrite.Screen.{Color, Pixel, add, paint_box}
use ofgwrite.Screen.Window.{Window}
use ofgwrite.Screen.Window.{
  set_step_progress as step_pixels, set_overall_progress as overall_pixels,
}
use ofgwrite.Screen.Text.{render_string}
use ofgwrite.Screen.Device.{F, pure, get, modify, paint, blit, ◌>>=◌, ◌>>◌}

-- `if (g_fbFd == -1) return;`
abbrev pub if_open : F (Unit {0}) → F (Unit {0})
if_open m = do is_open ← get (λ d. d.is_open); if is_open then m else pure tt

abbrev pub fault : F (Unit {0})
fault d = none

unfoldable pub paint_drawn : Option (List Pixel) → F (Unit {0})
unfolding paint
paint_drawn none = fault
paint_drawn (some pixels) = paint (λ _. pixels)

-- The place of a text, by its distance from the window's top.
abbrev pub text_top : Window → ℕ → ℕ
text_top w hundredths = add w.y1 (w.height * hundredths / 100)

-- `hide text`
unfoldable pub hide_text : ℕ → (Window → ℕ) → F (Unit {0})
unfolding paint
hide_text hundredths bottom = do
  w ← get (λ d. d.window)
  paint (λ s. paint_box s (add w.x1 10) (text_top w hundredths) w.x2 (bottom w) Color.black)

-- `display text`
unfoldable pub display_text : ℕ → Bytes → Color → Bool → F (Unit {0})
unfolding render_string paint_drawn
display_text hundredths str color thick = do
  w ← get (λ d. d.window)
  s ← get (λ d. d.screen)
  paint_drawn (render_string s str (add w.x1 10) (text_top w hundredths) color thick)

-- A text that hides what was there before: up to `bottom`, and then it is displayed.
unfoldable pub replace_text : ℕ → (Window → ℕ) → Bytes → Color → Bool → F (Unit {0})
unfolding hide_text display_text blit
replace_text hundredths bottom str color thick =
    if_open (do hide_text hundredths bottom; display_text hundredths str color thick; blit)

-- The height of a line of text.
abbrev pub line_bottom : ℕ → ℕ → Window → ℕ
line_bottom hundredths height w = add (text_top w hundredths) height

unfoldable pub set_title : Bytes → F (Unit {0})
unfolding replace_text
set_title str = replace_text 10 (line_bottom 10 36) str Color.white true

unfoldable pub set_sub_title : Bytes → F (Unit {0})
unfolding replace_text
set_sub_title str = replace_text 20 (line_bottom 20 18) str Color.white false

unfoldable pub set_overall_text : Bytes → F (Unit {0})
unfolding replace_text
set_overall_text str = replace_text 35 (line_bottom 35 18) str Color.white false

unfoldable pub set_step_text : Bytes → F (Unit {0})
unfolding replace_text
set_step_text str = replace_text 60 (line_bottom 60 18) str Color.white false

unfoldable pub set_error_text : Bytes → F (Unit {0})
unfolding replace_text
set_error_text str = replace_text 90 (λ w. w.y2) str Color.red false

unfoldable pub set_error_text1 : Bytes → F (Unit {0})
unfolding replace_text
set_error_text1 str = replace_text 85 (λ w. w.y2) str Color.red false

unfoldable pub set_error_text2 : Bytes → F (Unit {0})
unfolding replace_text
set_error_text2 str = replace_text 91 (λ w. w.y2) str Color.red false

-- It hides nothing.
unfoldable pub set_info_text : Bytes → F (Unit {0})
unfolding display_text blit
set_info_text str = if_open (do display_text 90 str Color.white false; blit)

unfoldable pub set_step_progress : ℤ → F (Unit {0})
unfolding paint blit step_pixels
set_step_progress percent =
    if_open (do bars ← get (λ d. d.bars); paint (λ s. step_pixels true s bars percent); blit)

-- The division by the number of steps is a fault where that is 0.
unfoldable pub set_overall_progress : ℕ → F (Unit {0})
unfolding paint overall_pixels
set_overall_progress number = do
  steps ← get (λ d. d.steps)
  bars ← get (λ d. d.bars)
  if steps == 0 then fault else paint (λ s. overall_pixels steps s bars number)

unfoldable pub set_step : Bytes → F (Unit {0})
unfolding set_step_text set_overall_progress set_step_progress
set_step str = if_open (do
  set_step_text str
  number ← get (λ d. d.step)
  set_overall_progress number
  modify (λ d. record d { step = d.step + 1 })
  set_step_progress (ℤ.pos 0))

unfoldable pub set_step_without_incr : Bytes → F (Unit {0})
unfolding set_step_text set_overall_progress blit
set_step_without_incr str =
    if_open (do set_step_text str; number ← get (λ d. d.step); set_overall_progress number; blit)
