-- ===== src/Screen/Shown/Progress.antt =====
-- The progress makes no fault, and leaves the display ready.
use ofgwrite.Base.{ℕ, ◌+◌, true, false}
use ofgwrite.Base.Int.{ℤ}
use ofgwrite.Base.Text.{Bytes}
use ofgwrite.Screen.Window.{
  set_step_progress as step_pixels, set_overall_progress as overall_pixels,
}
use ofgwrite.Screen.Window.Bars.{progress-IsInside}
use ofgwrite.Screen.Device.{Display, blit, paint}
use ofgwrite.Screen.Shown.{set_step_text, set_step_progress, set_overall_progress, set_step}
use ofgwrite.Screen.Shown.{set_step_without_incr}
use ofgwrite.Screen.Shown.Ready.{IsReady, StaysReady, paint-StaysReady, then_ready, asked-IsReady}
use ofgwrite.Screen.Shown.Ready.{if_open-StaysReady, blit-StaysReady}
use ofgwrite.Screen.Shown.Texts.{IsText, set_step_text-StaysReady}

pub set_step_progress-StaysReady :
    (percent : ℤ) (d : Display) → IsReady d → StaysReady (set_step_progress percent d)
unfolding set_step_progress
set_step_progress-StaysReady percent d r = if_open-StaysReady _ d r (
    then_ready (paint (λ s. step_pixels true s d.bars percent)) blit d
      (paint-StaysReady (λ s. step_pixels true s d.bars percent) d r
        (rw (r.bars, r.window)
          ((progress-IsInside d.screen r.usable r.wide r.high true true percent 1 1 r.shown).1)))
      blit-StaysReady)

pub set_overall_progress-StaysReady :
    (number : ℕ) (d : Display) → IsReady d → StaysReady (set_overall_progress number d)
unfolding set_overall_progress
set_overall_progress-StaysReady number d r = rw r.some_steps (
    paint-StaysReady (λ s. overall_pixels d.steps s d.bars number) d r
      (rw (r.bars, r.window)
        ((progress-IsInside d.screen r.usable r.wide r.high true true (ℤ.pos 0) d.steps number
          r.shown).2)))

pub set_step-StaysReady :
    (str : Bytes) (d : Display) → IsText false str → IsReady d → StaysReady (set_step str d)
unfolding set_step
set_step-StaysReady str d text r = if_open-StaysReady _ d r (
    then_ready (set_step_text str) _ d (set_step_text-StaysReady str text d r) (λ d1 r1.
      then_ready (set_overall_progress d1.step) _ d1 (set_overall_progress-StaysReady d1.step d1 r1)
        (λ d2 r2.
          set_step_progress-StaysReady (ℤ.pos 0) _
            (asked-IsReady d2 d2.asked d2.painted (d2.step + 1) d2.manual_blit r2))))

pub set_step_without_incr-StaysReady :
    (str : Bytes) (d : Display)
    → IsText false str
    → IsReady d
    → StaysReady (set_step_without_incr str d)
unfolding set_step_without_incr
set_step_without_incr-StaysReady str d text r = if_open-StaysReady _ d r (
    then_ready (set_step_text str) _ d (set_step_text-StaysReady str text d r) (λ d1 r1.
      then_ready (set_overall_progress d1.step) _ d1 (set_overall_progress-StaysReady d1.step d1 r1)
        blit-StaysReady))
