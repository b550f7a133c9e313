-- ===== src/Screen/Shown/Ready.antt =====
-- What is shown on a display that is ready makes no fault, and leaves it ready.
use ofgwrite.Base.{ℕ, ◌+◌, ◌≤◌, ◌≡◌, Bool, true, false, Option}
use ofgwrite.Base.{List, ◌==◌, All, refl, arith, if◌then◌else◌}
use ofgwrite.Screen.{Screen, Pixel}
use ofgwrite.Screen.Inside.{IsInside, IsUsable, IsShown}
use ofgwrite.Screen.Window.{Window, set_window_dimension, init_progressbars}
use ofgwrite.Screen.Device.{Display, Memory, Request, F, bind, paint, blit}
use ofgwrite.Screen.Device.Triples.{Returns, bind-Returns, if-Returns, paint-Returns}
use ofgwrite.Screen.Shown.{if_open}

-- The framebuffer is open and mapped, and the window and its bars lie on the screen.
pub record IsReady (d : Display) : Type 0 where
  pub is_open : d.is_open ≡ true
  pub mapped : d.memory ≡ Memory.mapped
  pub usable : IsUsable d.screen
  pub shown : IsShown d.screen
  pub wide : 640 ≤ d.screen.xres
  pub high : 480 ≤ d.screen.yres
  pub window : d.window ≡ set_window_dimension d.screen
  pub bars : d.bars ≡ init_progressbars d.window
  pub some_steps : (d.steps == 0) ≡ false

-- What is asked and painted, the number of the step and the manual blit do not matter.
pub asked-IsReady :
    (d : Display) (asked : List Request) (painted : List Pixel) (step : ℕ) (manual : Bool)
    → IsReady d
    → IsReady (record d { asked = asked; painted = painted; step = step; manual_blit = manual })
asked-IsReady d asked painted step manual r = record {
  is_open = r.is_open;
  mapped = r.mapped;
  usable = r.usable;
  shown = r.shown;
  wide = r.wide;
  high = r.high;
  window = r.window;
  bars = r.bars;
  some_steps = r.some_steps;
}

-- No fault, and the display stays ready.
abbrev pub StaysReady : Option (Unit {0} × Display) → Type 0
StaysReady = Returns (λ _ d. IsReady d)

-- Where the window stands.
pub record IsPlaced (s : Screen) (w : Window) : Type 0 where
  pub left : w.x1 + 640 ≤ s.xres
  pub right : w.x2 ≡ w.x1 + 640
  pub top : w.y1 + 480 ≤ s.yres
  pub bottom : w.y2 ≡ w.y1 + 480
  pub high : w.height ≡ 480

pub placed : (d : Display) → IsReady d → IsPlaced d.screen d.window
unfolding set_window_dimension
placed d r = rw r.window record {
  left = omega (arith, r.wide, r.usable.width);
  right = omega (arith, r.wide, r.usable.width);
  top = omega (arith, r.high, r.usable.height);
  bottom = omega (arith, r.high, r.usable.height);
  high = refl;
}

pub paint-StaysReady :
    (f : Screen → List Pixel) (d : Display)
    → IsReady d
    → All (IsInside d.screen) (f d.screen)
    → StaysReady (paint f d)
paint-StaysReady f d r inside =
    paint-Returns (λ _ d'. IsReady d') f d r.mapped inside
      (λ painted. asked-IsReady d d.asked painted d.step d.manual_blit r)

pub then_ready :
    (m : F (Unit {0})) (k : F (Unit {0})) (d : Display)
    → StaysReady (m d)
    → ((d' : Display) → IsReady d' → StaysReady (k d'))
    → StaysReady (bind (m d) (λ _. k))
then_ready m k d h next =
    bind-Returns (λ _ d'. IsReady d') (λ _ d'. IsReady d') (m d) (λ _. k) h (λ _ d' r. next d' r)

pub if-StaysReady :
    (b : Bool) (m k : F (Unit {0})) (d : Display)
    → StaysReady (m d)
    → StaysReady (k d)
    → StaysReady ((if b then m else k) d)
if-StaysReady b m k d hm hk = if-Returns (λ _ d'. IsReady d') b m k d hm hk

pub if_open-StaysReady :
    (m : F (Unit {0})) (d : Display) → IsReady d → StaysReady (m d) → StaysReady (if_open m d)
if_open-StaysReady m d r h = if-StaysReady d.is_open m _ d h r

pub blit-StaysReady : (d : Display) → IsReady d → StaysReady (blit d)
unfolding blit
blit-StaysReady d r = if-StaysReady d.manual_blit _ _ d (asked-IsReady d _ _ _ _ r) r
