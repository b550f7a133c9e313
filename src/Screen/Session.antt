-- ===== src/Screen/Session.antt =====
-- fb.c: the framebuffer is opened and mapped, the main window is painted, and its contents are shown.
pub mod Reported
pub mod Opens
pub mod Fails
pub mod Shows
pub mod Closes
pub mod Runs
use ofgwrite.Base.{ℕ, Bool, true, false, List, [], ◌∷◌, ◌++◌, if◌then◌else◌}
use ofgwrite.Base.Int.{ℤ}
use ofgwrite.Base.Text.{Bytes, lit}
use ofgwrite.Screen.{Color, paint_box}
use ofgwrite.Screen.Window.{set_window_dimension, init_progressbars, paint_progressbars}
use ofgwrite.Screen.Device.{F, Driver, Request, pure, get, modify, ask, paint, ◌>>=◌, ◌>>◌}
use ofgwrite.Screen.Device.{hide_old_content, open_framebuffer, get_screeninfo, set_screeninfo}
use ofgwrite.Screen.Device.{mmap_fb, close_framebuffer}
use ofgwrite.Screen.Shown.{set_title, set_sub_title, set_overall_text, set_step, set_info_text}
use ofgwrite.Screen.Shown.{set_step_without_incr, set_step_progress}
use ofgwrite.Screen.Shown.{set_error_text, set_error_text1, set_error_text2}

-- The pictures are looked for in their order; the first that can be read is shown.
unfoldable pub load_picture : Driver → List Bytes → F Bool
load_picture driver [] = pure false
load_picture driver (path ∷ paths) = do
  found ← ask driver (Request.access path)
  if found then ask driver (Request.showiframe path) else load_picture driver paths

abbrev pub pictures : List Bytes
pictures =
    lit "/etc/enigma2/bootlogo.mvi"
    ∷ lit "/etc/enigma2/backdrop.mvi"
    ∷ lit "/usr/share/bootlogo.mvi"
    ∷ lit "/usr/share/backdrop.mvi"
    ∷ []

unfoldable pub load_background_image : Driver → F Bool
unfolding load_picture
load_background_image driver = load_picture driver pictures

-- Without an image the screen is painted black.
unfoldable pub set_background : Driver → Bool → F (Unit {0})
unfolding load_background_image paint
set_background driver show_background_image = do
  shown ← (if show_background_image then load_background_image driver else pure true)
  if shown then pure tt else paint (λ s. paint_box s 0 0 s.xres s.yres Color.black)

unfoldable pub paint_window : F (Unit {0})
unfolding paint
paint_window = do w ← get (λ d. d.window); paint (λ s. paint_box s w.x1 w.y1 w.x2 w.y2 Color.black)

unfoldable pub paint_bars : F (Unit {0})
unfolding paint paint_progressbars
paint_bars = do bars ← get (λ d. d.bars); paint (λ s. paint_progressbars s bars)

unfoldable pub show_main_window : Driver → Bool → Bytes → F (Unit {0})
unfolding hide_old_content set_background paint_window paint_bars set_title set_sub_title
show_main_window driver show_background_image version = do
  hide_old_content
  set_background driver show_background_image
  paint_window
  paint_bars
  set_title (lit "ofgwrite Flashing Tool")
  set_sub_title (lit "written by Betacentauri  v." ++ version)

-- The window's place and its bars, behind the mapping.
unfoldable pub set_window : ℕ → F (Unit {0})
unfolding set_window_dimension hide_old_content
set_window steps = do
  modify (λ d. record d { window = set_window_dimension d.screen })
  hide_old_content
  modify (λ d. record d { bars = init_progressbars d.window; steps = steps })

unfoldable pub close_and_fail : Driver → F Bool
unfolding close_framebuffer
close_and_fail driver = do close_framebuffer driver; pure false

-- One of the steps of `init_framebuffer`: the framebuffer is closed where it fails.
unfoldable pub or_close : Driver → F Bool → F Bool → F Bool
unfolding close_and_fail
or_close driver m next = do ok ← m; if ok then next else close_and_fail driver

unfoldable pub init_open : Driver → ℕ → F Bool
unfolding get_screeninfo set_screeninfo mmap_fb set_window or_close
init_open driver steps = or_close driver (get_screeninfo driver) (
    or_close driver (set_screeninfo driver)
      (or_close driver (mmap_fb driver) (do set_window steps; pure true)))

unfoldable pub init_framebuffer : Driver → ℕ → F Bool
unfolding open_framebuffer init_open
init_framebuffer driver steps = do
  is_open ← get (λ d. d.is_open)
  opened ← (if is_open then pure true else open_framebuffer driver)
  if opened then init_open driver steps else pure false

-- The functions that the other files call.
pub data Act : Type 0 where
  open_screen : ℕ → Act
  show_window : Bool → Bytes → Act
  close_screen : Act
  overall_text step step_without_incr info error error1 error2 : Bytes → Act
  progress : ℤ → Act

abbrev pub ignoring : {A : Type 0} → F A → F (Unit {0})
ignoring m = m >>= λ _. pure tt

unfoldable pub perform : Driver → Act → F (Unit {0})
unfolding init_framebuffer show_main_window close_framebuffer set_step set_step_without_incr
perform driver (Act.open_screen steps) = ignoring (init_framebuffer driver steps)
perform driver (Act.show_window picture version) = show_main_window driver picture version
perform driver Act.close_screen = close_framebuffer driver
perform driver (Act.overall_text str) = set_overall_text str
perform driver (Act.step str) = set_step str
perform driver (Act.step_without_incr str) = set_step_without_incr str
perform driver (Act.info str) = set_info_text str
perform driver (Act.error str) = set_error_text str
perform driver (Act.error1 str) = set_error_text1 str
perform driver (Act.error2 str) = set_error_text2 str
perform driver (Act.progress percent) = set_step_progress percent

unfoldable pub perform_all : Driver → List Act → F (Unit {0})
unfolding perform
perform_all driver [] = pure tt
perform_all driver (act ∷ acts) = do perform driver act; perform_all driver acts
