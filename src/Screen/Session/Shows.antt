-- ===== src/Screen/Session/Shows.antt =====
-- `show_main_window` makes no fault on a display that is ready, and leaves it ready.
use ofgwrite.Base.{◌≤◌, Bool, true, false, List, [], ◌∷◌, ◌++◌}
use ofgwrite.Base.{All, All-append, length, refl, arith}
use ofgwrite.Base.Text.{Bytes, lit}
use ofgwrite.Screen.{Color, paint_box}
use ofgwrite.Screen.Inside.{paint_box-IsInside}
use ofgwrite.Screen.Window.{paint_progressbars}
use ofgwrite.Screen.Window.Bars.{window-IsInside, progressbars-IsInside}
use ofgwrite.Screen.Text.Inside.{IsPrintable, IsPrintable-all}
use ofgwrite.Screen.Device.{Driver, Display, Request, paint, pure, ask}
use ofgwrite.Screen.Device.{hide_old_content}
use ofgwrite.Screen.Device.Triples.{Returns, bind-Returns, if-Returns}
use ofgwrite.Screen.Shown.{set_title}
use ofgwrite.Screen.Shown.Ready.{IsReady, StaysReady, asked-IsReady, then_ready, paint-StaysReady}
use ofgwrite.Screen.Shown.Texts.{IsText, set_title-StaysReady, set_sub_title-StaysReady}
use ofgwrite.Screen.Session.{
  load_picture, load_background_image, pictures, show_main_window, set_background, paint_window,
  paint_bars,
}
use ofgwrite.Screen.Session.Opens.{hide_old_content-Returns}

-- The window.
load_picture-Ready :
    (driver : Driver) (paths : List Bytes) (d : Display)
    → IsReady d
    → Returns (λ _ d'. IsReady d') (load_picture driver paths d)
unfolding load_picture
load_picture-Ready driver [] d r = r
load_picture-Ready driver (path ∷ paths) d r =
    let asked = Request.access path ∷ d.asked in
    let d' = record d { asked = asked } in
    let r' : IsReady d' = asked-IsReady d asked d.painted d.step d.manual_blit r in
    if-Returns (λ _ d''. IsReady d'') (driver.succeeds d.asked (Request.access path))
      (ask driver (Request.showiframe path)) (load_picture driver paths) d'
      (asked-IsReady d' (Request.showiframe path ∷ asked) d.painted d.step d.manual_blit r')
      (load_picture-Ready driver paths d' r')

hide_old_content-StaysReady : (d : Display) → IsReady d → StaysReady (hide_old_content d)
hide_old_content-StaysReady d r =
    hide_old_content-Returns (λ _ d'. IsReady d') d r.mapped r.usable
      (λ painted. asked-IsReady d d.asked painted d.step d.manual_blit r)

abbrev title : Bytes
title = lit "ofgwrite Flashing Tool"

abbrev author : Bytes
author = lit "written by Betacentauri  v."

title-IsText : IsText true title
unfolding lit
title-IsText = (IsPrintable-all title refl, omega arith)

-- The version has at most 18 characters.
abbrev pub IsVersion : Bytes → Type 0
IsVersion version = All IsPrintable version × (length version ≤ 18)

author-IsText : (version : Bytes) → IsVersion version → IsText false (author ++ version)
unfolding lit
author-IsText version (printable, short) = (
  All-append IsPrintable author version (IsPrintable-all author refl) printable,
  omega (arith, short),
)

module _ (driver : Driver) where
  set_background-StaysReady :
      (picture : Bool) (d : Display) → IsReady d → StaysReady (set_background driver picture d)
  unfolding set_background load_background_image
  set_background-StaysReady picture d r =
      let black = paint (λ s. paint_box s 0 0 s.xres s.yres Color.black) in
      bind-Returns (λ _ d'. IsReady d') (λ _ d'. IsReady d') _ _
        (if-Returns (λ _ d'. IsReady d') picture (load_picture driver pictures) (pure true) d
          (load_picture-Ready driver pictures d r) r)
        (λ shown d' r'.
          if-Returns (λ _ d'. IsReady d') shown (pure tt) black d' r'
            (paint-StaysReady (λ s. paint_box s 0 0 s.xres s.yres Color.black) d' r'
              (paint_box-IsInside d'.screen r'.usable r'.shown 0 0 d'.screen.xres d'.screen.yres
                Color.black (omega arith) (omega arith) (omega arith) (omega arith))))

  paint_window-StaysReady : (d : Display) → IsReady d → StaysReady (paint_window d)
  unfolding paint_window
  paint_window-StaysReady d r =
      paint-StaysReady
        (λ s. paint_box s d.window.x1 d.window.y1 d.window.x2 d.window.y2 Color.black) d r
        (rw r.window (window-IsInside d.screen r.usable r.wide r.high r.shown))

  paint_bars-StaysReady : (d : Display) → IsReady d → StaysReady (paint_bars d)
  unfolding paint_bars
  paint_bars-StaysReady d r =
      paint-StaysReady (λ s. paint_progressbars s d.bars) d r
        (rw (r.bars, r.window) (progressbars-IsInside d.screen r.usable r.wide r.high r.shown))

  pub show_main_window-StaysReady :
      (picture : Bool) (version : Bytes) (d : Display)
      → IsVersion version
      → IsReady d
      → StaysReady (show_main_window driver picture version d)
  unfolding show_main_window
  show_main_window-StaysReady picture version d v r =
      then_ready hide_old_content _ d (hide_old_content-StaysReady d r) (λ d1 r1.
        then_ready (set_background driver picture) _ d1 (set_background-StaysReady picture d1 r1)
          (λ d2 r2. then_ready paint_window _ d2 (paint_window-StaysReady d2 r2) (λ d3 r3.
            then_ready paint_bars _ d3 (paint_bars-StaysReady d3 r3) (λ d4 r4.
              then_ready (set_title title) _ d4 (set_title-StaysReady title d4 title-IsText r4)
                (set_sub_title-StaysReady (author ++ version) (author-IsText version v))))))
