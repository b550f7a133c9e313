-- ===== src/Tests/Screens.antt =====
-- The framebuffer's device at concrete inputs: a driver that always reports 1280 x 720.
use ofgwrite.Base.{Bool, true, false, none, some, [], ◌∷◌, List, ◌≡◌, refl, arith, length}
use mathlib.Core.Option
use ofgwrite.Base.Int.{pos}
use ofgwrite.Base.Text.{lit}
use ofgwrite.Screen.{Screen, Color}
use ofgwrite.Screen.Inside.{IsInside, IsUsable}
use ofgwrite.Screen.Window.{Window, Bar, set_window_dimension, init_progressbars}
use ofgwrite.Screen.Device.{Driver, Display, Memory, Request, close_framebuffer}
use ofgwrite.Screen.Device.Triples.{Returns}
use ofgwrite.Screen.{pixel_at}
use ofgwrite.Screen.Text.Bits.{char_dots, render_char-bits}
use ofgwrite.Screen.Text.{dots, render_char, render_rows, render_row, render_string}
use ofgwrite.Screen.Font.{glyph}
use ofgwrite.Screen.Text.Inside.{Drawn, IsPrintable-all, render_string-IsInside}
use ofgwrite.Screen.Shown.Ready.{IsReady}
use ofgwrite.Screen.Session.{Act, perform_all, init_framebuffer}
use ofgwrite.Screen.Session.Reported.{IsReporting, IsWorking, Succeeds}
use ofgwrite.Screen.Session.Opens.{init_framebuffer-IsReady}
use ofgwrite.Screen.Session.Closes.{IsClosed, close_framebuffer-IsClosed}
use ofgwrite.Screen.Session.Runs.{Ordered, IsState, perform_all-Returns}
use ofgwrite.Tests.Display.{hd_screen, hd_screen-IsUsable}

-- A full stop has two rows of two dots.
few_dots : Option.map length (render_char hd_screen 46 0 0 Color.white false) ≡ some 4
unfolding render_char render_rows render_row glyph
few_dots = refl

many_dots : Option.map length (render_char hd_screen 46 0 0 Color.white true) ≡ some 16
unfolding render_char render_rows render_row glyph
many_dots = refl

-- A byte behind the table's last character cannot be shown.
no_character : render_char hd_screen 128 0 0 Color.white false ≡ none
unfolding render_char glyph
no_character = refl

render_string-IsInside_example :
    Drawn
      (IsInside hd_screen)
      (render_string hd_screen (lit "Writing kernel") 330 408 Color.red false)
unfolding lit
render_string-IsInside_example =
    render_string-IsInside hd_screen hd_screen-IsUsable (omega arith) Color.red false 408
      (omega arith) (lit "Writing kernel") 330 (IsPrintable-all (lit "Writing kernel") refl)
      (omega arith)

-- The drivers.
abbrev pub hd_driver : Driver
hd_driver = record { succeeds = λ _ _. true; mode = λ _. hd_screen }

-- It refuses every mapping.
abbrev refuses_mapping : Request → Bool
refuses_mapping (Request.mmap _) = false
refuses_mapping _ = true

abbrev unmappable_driver : Driver
unmappable_driver = record { succeeds = λ _ r. refuses_mapping r; mode = λ _. hd_screen }

mapped-IsUsable : IsUsable (record hd_screen { map_len = 11059200 })
mapped-IsUsable = hd_screen-IsUsable

hd_driver-IsReporting : IsReporting hd_driver
hd_driver-IsReporting = record {
  opens = λ t. refl;
  tells_var = λ t. refl;
  tells_fix = λ t. refl;
  usable = λ t t' s. mapped-IsUsable;
  wide = λ t. omega arith;
  high = λ t. omega arith;
}

pub hd_driver-IsWorking : IsWorking hd_driver
hd_driver-IsWorking = record { reports = hd_driver-IsReporting; maps = λ t len. refl }

-- The globals at the program's start, and behind `init_framebuffer(8)`.
abbrev no_screen : Screen
no_screen = record {
  xres = 0;
  yres = 0;
  yres_virtual = 0;
  xoffset = 0;
  yoffset = 0;
  bits_per_pixel = 0;
  line_length = 0;
  smem_len = 0;
  map_len = 0;
}

abbrev no_window : Window
no_window = record { x1 = 0; y1 = 0; x2 = 0; y2 = 0; width = 0; height = 0 }

abbrev no_bar : Bar
no_bar = record {
  x1 = 0;
  y1 = 0;
  x2 = 0;
  y2 = 0;
  outer_border_width = 0;
  inner_border_width = 0;
  width = 0;
  height = 0;
}

abbrev pub first_display : Display
first_display = record {
  is_open = false;
  manual_blit = false;
  memory = Memory.null;
  screen = no_screen;
  pages = 1;
  window = no_window;
  bars = (no_bar, no_bar);
  steps = 0;
  step = 1;
  asked = [];
  painted = [];
}

abbrev hd_display : Display
hd_display = record first_display {
  is_open = true;
  memory = Memory.mapped;
  screen = hd_screen;
  pages = 3;
  window = set_window_dimension hd_screen;
  bars = init_progressbars (set_window_dimension hd_screen);
  steps = 8;
}

hd_display-IsReady : IsReady hd_display
hd_display-IsReady = record {
  is_open = refl;
  mapped = refl;
  usable = hd_screen-IsUsable;
  shown = omega arith;
  wide = omega arith;
  high = omega arith;
  window = refl;
  bars = refl;
  some_steps = refl;
}

init_framebuffer-IsReady_example : Succeeds IsReady (init_framebuffer hd_driver 8 first_display)
init_framebuffer-IsReady_example =
    init_framebuffer-IsReady hd_driver 8 first_display hd_driver-IsWorking refl

close_framebuffer-IsClosed_example :
    Returns (λ _ d'. IsClosed hd_display d') (close_framebuffer hd_driver hd_display)
close_framebuffer-IsClosed_example =
    close_framebuffer-IsClosed hd_driver hd_display hd_display-IsReady

abbrev kernel_acts : List Act
kernel_acts =
    Act.open_screen 2
    ∷ Act.show_window false (lit "4.8.0")
    ∷ Act.overall_text (lit "Flashing kernel")
    ∷ Act.step (lit "Writing kernel")
    ∷ Act.progress (pos 100)
    ∷ Act.step (lit "Successfully flashed kernel!")
    ∷ Act.close_screen
    ∷ Act.progress (pos 0)
    ∷ []

kernel_acts-Ordered : Ordered false kernel_acts
unfolding lit
kernel_acts-Ordered = Ordered.opens refl (
    Ordered.shows (IsPrintable-all (lit "4.8.0") refl, omega arith)
      (Ordered.says (IsPrintable-all (lit "Flashing kernel") refl, omega arith)
        (Ordered.says (IsPrintable-all (lit "Writing kernel") refl, omega arith)
          (Ordered.says tt (
            Ordered.says (IsPrintable-all (lit "Successfully flashed kernel!") refl, omega arith)
              (Ordered.closes (Ordered.says tt Ordered.ended)))))))

perform_all-Returns_example :
    Returns (λ _ d'. (b : Bool) × IsState b d') (perform_all hd_driver kernel_acts first_display)
perform_all-Returns_example =
    perform_all-Returns hd_driver hd_driver-IsWorking false kernel_acts first_display
      kernel_acts-Ordered refl

render_char-bits_example :
    render_char hd_screen 46 0 0 Color.white true
    ≡ Option.map (char_dots (dots hd_screen Color.white true (pixel_at hd_screen 0 0)) 0) (glyph 46)
render_char-bits_example = render_char-bits hd_screen 46 0 0 Color.white true
