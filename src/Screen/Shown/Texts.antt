-- ===== src/Screen/Shown/Texts.antt =====
-- A text of a length that fits into the window makes no fault, and leaves the display ready.
use ofgwrite.Base.{ℕ, ◌+◌, ◌*◌, ◌/◌, ◌%◌, ◌≤◌, ◌<◌, ◌≡◌, Bool, true, false, Option, none, some}
use ofgwrite.Base.{List, All, length, refl, arith}
use ofgwrite.Base.Text.{Bytes}
use ofgwrite.Screen.{Screen, Color, Pixel, paint_box}
use ofgwrite.Screen.Inside.{IsInside, paint_box-IsInside}
use ofgwrite.Screen.Window.{Window}
use ofgwrite.Screen.Text.{scale}
use ofgwrite.Screen.Text.Inside.{IsPrintable, Drawn, render_string-IsInside}
use ofgwrite.Screen.Device.{Display}
use ofgwrite.Screen.Shown.{
  paint_drawn, text_top, hide_text, display_text, replace_text, line_bottom,
}
use ofgwrite.Screen.Shown.{set_title, set_sub_title, set_overall_text, set_step_text, set_info_text}
use ofgwrite.Screen.Shown.{set_error_text, set_error_text1, set_error_text2}
use ofgwrite.Screen.Shown.Ready.{
  IsReady, IsPlaced, StaysReady, placed, paint-StaysReady, then_ready,
}
use ofgwrite.Screen.Shown.Ready.{if_open-StaysReady, blit-StaysReady}

-- A text of at most 45 characters, or of at most 22 thick ones, fits into the window.
abbrev pub IsText : Bool → Bytes → Type 0
IsText thick str = All IsPrintable str × (length str * (14 * scale thick) ≤ 630)

paint_drawn-StaysReady :
    (drawn : Option (List Pixel)) (d : Display)
    → IsReady d
    → Drawn (IsInside d.screen) drawn
    → StaysReady (paint_drawn drawn d)
unfolding paint_drawn
paint_drawn-StaysReady none d r h = h
paint_drawn-StaysReady (some pixels) d r h = paint-StaysReady (λ _. pixels) d r h

-- The place of a text in the window.
text_top-placed :
    (s : Screen) (w : Window) (hundredths : ℕ)
    → s.yres < 2147483648
    → IsPlaced s w
    → hundredths ≤ 91
    → text_top w hundredths ≡ w.y1 + 480 * hundredths / 100
text_top-placed s w hundredths height p low =
    let e : w.height * hundredths / 100 ≡ 480 * hundredths / 100 = rw p.high refl in
    rw e (omega (arith, p.top, low, height))

scale_le : (thick : Bool) → scale thick ≤ 2
scale_le true = omega arith
scale_le false = omega arith

display_text-StaysReady :
    (hundredths : ℕ) (str : Bytes) (color : Color) (thick : Bool) (d : Display)
    → IsText thick str
    → hundredths ≤ 91
    → IsReady d
    → StaysReady (display_text hundredths str color thick d)
unfolding display_text
display_text-StaysReady hundredths str color thick d text low r =
    let p = placed d r in
    let top : text_top d.window hundredths ≡ d.window.y1 + 480 * hundredths / 100 =
      text_top-placed d.screen d.window hundredths r.usable.height p low in
    let left : (d.window.x1 + 10) % 4294967296 ≡ d.window.x1 + 10 =
      omega (arith, p.left, r.usable.width) in
    paint_drawn-StaysReady _ d r (
      render_string-IsInside d.screen r.usable r.shown color thick (text_top d.window hundredths)
        (omega (arith, top, p.top, scale_le thick, low)) str ((d.window.x1 + 10) % 4294967296)
        text.0 (omega (arith, left, p.left, text.1)))

-- A box from the text's place to the window's right edge.
hide_text-StaysReady :
    (hundredths : ℕ) (bottom : Window → ℕ) (d : Display)
    → IsReady d
    → text_top d.window hundredths ≤ bottom d.window
    → bottom d.window ≤ d.window.y1 + 480
    → StaysReady (hide_text hundredths bottom d)
unfolding hide_text
hide_text-StaysReady hundredths bottom d r above fits =
    let p = placed d r in
    let left : (d.window.x1 + 10) % 4294967296 ≡ d.window.x1 + 10 =
      omega (arith, p.left, r.usable.width) in
    paint-StaysReady
      (λ s.
        paint_box s ((d.window.x1 + 10) % 4294967296) (text_top d.window hundredths) d.window.x2
          (bottom d.window) Color.black)
      d r
      (paint_box-IsInside d.screen r.usable r.shown ((d.window.x1 + 10) % 4294967296)
        (text_top d.window hundredths) d.window.x2 (bottom d.window) Color.black
        (omega (arith, left, p.right)) above (omega (arith, p.left, p.right))
        (omega (arith, fits, p.top)))

-- Where the box of a text ends.
abbrev IsBoxEnd : ℕ → (Window → ℕ) → Type 0
IsBoxEnd hundredths bottom =
    (s : Screen) (w : Window)
    → s.yres < 2147483648
    → IsPlaced s w
    → (text_top w hundredths ≤ bottom w) × (bottom w ≤ w.y1 + 480)

replace_text-StaysReady :
    (hundredths : ℕ) (bottom : Window → ℕ) (str : Bytes) (color : Color) (thick : Bool)
    (d : Display)
    → hundredths ≤ 91
    → IsBoxEnd hundredths bottom
    → IsText thick str
    → IsReady d
    → StaysReady (replace_text hundredths bottom str color thick d)
unfolding replace_text
replace_text-StaysReady hundredths bottom str color thick d low ends text r =
    let (above, fits) = ends d.screen d.window r.usable.height (placed d r) in
    if_open-StaysReady _ d r (
      then_ready (hide_text hundredths bottom) _ d
        (hide_text-StaysReady hundredths bottom d r above fits)
        (λ d' r'.
          then_ready (display_text hundredths str color thick) _ d'
            (display_text-StaysReady hundredths str color thick d' text low r') blit-StaysReady))

-- A box that is a line high, and one that ends at the window's bottom.
line_bottom-IsBoxEnd :
    (hundredths height : ℕ)
    → height ≤ 36
    → hundredths ≤ 91
    → IsBoxEnd hundredths (line_bottom hundredths height)
line_bottom-IsBoxEnd hundredths height h low s w small p =
    let top = text_top-placed s w hundredths small p low in
    (omega (arith, top, p.top, h, low, small), omega (arith, top, p.top, h, low, small))

window_bottom-IsBoxEnd : (hundredths : ℕ) → hundredths ≤ 91 → IsBoxEnd hundredths (λ w. w.y2)
window_bottom-IsBoxEnd hundredths low s w small p =
    let top = text_top-placed s w hundredths small p low in
    (omega (arith, top, p.bottom, low), omega (arith, p.bottom))

-- The functions that show a text.
module _ (str : Bytes) (text : IsText false str) (d : Display) (r : IsReady d) where
  line :
      (hundredths : ℕ)
      → hundredths ≤ 91
      → StaysReady (replace_text hundredths (line_bottom hundredths 18) str Color.white false d)
  line hundredths low =
      replace_text-StaysReady hundredths (line_bottom hundredths 18) str Color.white false d low
        (line_bottom-IsBoxEnd hundredths 18 (omega arith) low) text r

  message :
      (hundredths : ℕ)
      → hundredths ≤ 91
      → StaysReady (replace_text hundredths (λ w. w.y2) str Color.red false d)
  message hundredths low =
      replace_text-StaysReady hundredths (λ w. w.y2) str Color.red false d low
        (window_bottom-IsBoxEnd hundredths low) text r

  pub set_sub_title-StaysReady : StaysReady (set_sub_title str d)
  unfolding set_sub_title
  set_sub_title-StaysReady = line 20 (omega arith)

  pub set_overall_text-StaysReady : StaysReady (set_overall_text str d)
  unfolding set_overall_text
  set_overall_text-StaysReady = line 35 (omega arith)

  pub set_step_text-StaysReady : StaysReady (set_step_text str d)
  unfolding set_step_text
  set_step_text-StaysReady = line 60 (omega arith)

  pub set_error_text-StaysReady : StaysReady (set_error_text str d)
  unfolding set_error_text
  set_error_text-StaysReady = message 90 (omega arith)

  pub set_error_text1-StaysReady : StaysReady (set_error_text1 str d)
  unfolding set_error_text1
  set_error_text1-StaysReady = message 85 (omega arith)

  pub set_error_text2-StaysReady : StaysReady (set_error_text2 str d)
  unfolding set_error_text2
  set_error_text2-StaysReady = message 91 (omega arith)

  pub set_info_text-StaysReady : StaysReady (set_info_text str d)
  unfolding set_info_text
  set_info_text-StaysReady = if_open-StaysReady _ d r (
      then_ready (display_text 90 str Color.white false) _ d
        (display_text-StaysReady 90 str Color.white false d text (omega arith) r) blit-StaysReady)

pub set_title-StaysReady :
    (str : Bytes) (d : Display) → IsText true str → IsReady d → StaysReady (set_title str d)
unfolding set_title
set_title-StaysReady str d text r =
    replace_text-StaysReady 10 (line_bottom 10 36) str Color.white true d (omega arith)
      (line_bottom-IsBoxEnd 10 36 (omega arith) (omega arith)) text r
