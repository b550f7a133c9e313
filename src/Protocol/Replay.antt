-- ===== src/Protocol/Replay.antt =====
-- What the calls of a run do to the framebuffer.
use mathlib.Core.Path.{subst}
use ofgwrite.Base.{Bool, true, false, Option, none, some, [], ◌∷◌, ◌≡◌, refl, if◌then◌else◌}
use ofgwrite.Base.Calls.{Env, Call, Trace}
use ofgwrite.Base.Int.{pos}
use ofgwrite.Base.Text.{Bytes}
use ofgwrite.Flash.Ext4.{Stream}
use ofgwrite.Prepare.{Inputs}
use ofgwrite.Main.{main}
use ofgwrite.Screen.Device.{Display, Driver, F, pure, bind, ◌>>◌}
use ofgwrite.Screen.Device.Triples.{Returns, bind-Returns, Returns-weaken}
use ofgwrite.Screen.Session.{Act, perform}
use ofgwrite.Screen.Session.Reported.{IsWorking}
use ofgwrite.Protocol.{Status, status, after, is_text}
use ofgwrite.Protocol.Runs.{main-IsOrderly}
use ofgwrite.Protocol.Acts.{
  act_of, perform_if, IsFresh, IsIn, Leads, opens-after, opens-IsIn, closes-IsIn, shows-IsIn,
  said-IsIn, says-IsIn, quiet-IsIn,
}

-- The calls of a trace, the oldest first.
unfoldable pub replay : Driver → Trace → F (Unit {0})
unfolding act_of perform_if
replay driver [] = pure tt
replay driver (c ∷ t) = do replay driver t; perform_if driver (act_of c)

module _ (driver : Driver) (works : IsWorking driver) where
  call-IsIn :
      (c : Call) (s s' : Status) (d : Display)
      → after c (some s) ≡ some s'
      → IsIn s d
      → Leads driver works s' (perform_if driver (act_of c) d)
  unfolding after act_of perform_if
  call-IsIn (Call.open_framebuffer steps) s s' d e i =
      let (some_steps, e') = opens-after driver works s s' steps e in
      subst (λ s'. Leads driver works s' (perform driver (Act.open_screen steps) d)) e'
        (opens-IsIn driver works steps d some_steps)
  call-IsIn Call.close_framebuffer s s' d e i = closes-IsIn driver works s s' d e i
  call-IsIn (Call.show_main_window picture) s s' d e i = shows-IsIn driver works s s' picture d e i
  call-IsIn (Call.set_overall_text str) s s' d e i =
      said-IsIn driver works str s s' (Act.overall_text str) d e (λ x. x) i
  call-IsIn (Call.set_step str) s s' d e i =
      said-IsIn driver works str s s' (Act.step str) d e (λ x. x) i
  call-IsIn (Call.set_step_without_incr str) s s' d e i =
      said-IsIn driver works str s s' (Act.step_without_incr str) d e (λ x. x) i
  call-IsIn (Call.set_error_text str) s s' d e i =
      said-IsIn driver works str s s' (Act.error str) d e (λ x. x) i
  call-IsIn (Call.set_error_text1 str) s s' d e i =
      said-IsIn driver works str s s' (Act.error1 str) d e (λ x. x) i
  call-IsIn (Call.set_error_text2 str) s s' d e i =
      said-IsIn driver works str s s' (Act.error2 str) d e (λ x. x) i
  call-IsIn (Call.set_step_progress percent) s s' d e i =
      subst (λ s'. Leads driver works s' (perform driver (Act.progress (pos percent)) d))
        (let e' : s ≡ s' = cc in e') (says-IsIn driver works s (Act.progress (pos percent)) d tt i)
  call-IsIn _ s s' d e i = quiet-IsIn driver works s s' d e i

  text-none : (b : Bool) → ◌≡◌ {A = Option Status} (if b then none else none) none
  text-none true = refl
  text-none false = refl

  after-none : (c : Call) → after c none ≡ none
  unfolding after
  after-none (Call.open_framebuffer steps) = refl
  after-none Call.close_framebuffer = refl
  after-none (Call.show_main_window picture) = refl
  after-none (Call.set_overall_text str) = text-none (is_text str)
  after-none (Call.set_step str) = text-none (is_text str)
  after-none (Call.set_step_without_incr str) = text-none (is_text str)
  after-none (Call.set_error_text str) = text-none (is_text str)
  after-none (Call.set_error_text1 str) = text-none (is_text str)
  after-none (Call.set_error_text2 str) = text-none (is_text str)
  after-none _ = refl

  replay-IsIn :
      (t : Trace) (s : Status) (d : Display)
      → status t ≡ some s
      → IsFresh d
      → Leads driver works s (replay driver t d)
  unfolding replay status
  replay-IsIn [] s d e i = quiet-IsIn driver works Status.fresh s d e i
  replay-IsIn (c ∷ t) s d e i = go (status t) refl e (λ s0 h. replay-IsIn t s0 d h i)
    where
      go :
          (o : Option Status)
          → status t ≡ o
          → after c o ≡ some s
          → ((s0 : Status) → status t ≡ some s0 → Leads driver works s0 (replay driver t d))
          → Leads driver works s (bind (replay driver t d) (λ _. perform_if driver (act_of c)))
      go none h e' before = let n = after-none c in cc
      go (some s0) h e' before =
          bind-Returns (λ _ d'. IsIn s0 d') (λ _ d'. IsIn s d') (replay driver t d)
            (λ _. perform_if driver (act_of c)) (before s0 h) (λ _ d' i'. call-IsIn c s0 s d' e' i')

-- Replaying what `main` asks of the framebuffer makes no fault, if the driver works: nothing is painted
-- outside of the mapping, no glyph is read behind the table, and nothing is divided by 0. The framebuffer
-- is not open at the start, and there is no screen yet. What the tools show themselves is not replayed.
pub main-shows :
    (driver : Driver) (env : Env) (digest : Bytes → Option Bytes) (file : Option Stream)
    (inp : Inputs) (d : Display)
    → IsWorking driver
    → IsFresh d
    → Returns (λ _ d'. (s : Status) × IsIn s d') (replay driver (main env digest file inp []).1 d)
main-shows driver env digest file inp d works fresh =
    let (s, e) = main-IsOrderly env digest file inp in
    Returns-weaken (λ _ d'. IsIn s d') (λ _ d'. (s : Status) × IsIn s d') _
      (replay-IsIn driver works (main env digest file inp []).1 s d e fresh) (λ _ d' i. (s, i))
