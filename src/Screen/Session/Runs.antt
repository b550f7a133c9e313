-- ===== src/Screen/Session/Runs.antt =====
-- A run of the functions that the other files call: opened before it is painted on, and closed.
use ofgwrite.Base.{some, ℕ, ◌≡◌, Bool, true, false, List, [], ◌∷◌, ◌==◌}
use ofgwrite.Base.{refl}
use ofgwrite.Base.Text.{Bytes}
use ofgwrite.Screen.Device.{Driver, Display, F}
use ofgwrite.Screen.Device.Triples.{Returns, bind-Returns, Returns-weaken}
use ofgwrite.Screen.Shown.{if_open, set_overall_text, set_step, set_info_text}
use ofgwrite.Screen.Shown.{
  set_step_without_incr, set_step_progress, set_error_text, set_error_text1, set_error_text2,
  replace_text,
}
use ofgwrite.Screen.Shown.Ready.{IsReady, StaysReady}
use ofgwrite.Screen.Shown.Texts.{IsText}
use ofgwrite.Screen.Shown.Texts.{
  set_overall_text-StaysReady, set_info_text-StaysReady, set_error_text-StaysReady,
}
use ofgwrite.Screen.Shown.Texts.{set_error_text1-StaysReady, set_error_text2-StaysReady}
use ofgwrite.Screen.Shown.Progress.{
  set_step-StaysReady, set_step_without_incr-StaysReady, set_step_progress-StaysReady,
}
use ofgwrite.Screen.Session.{Act, perform, perform_all}
use ofgwrite.Screen.Session.{init_framebuffer}
use ofgwrite.Screen.Session.Closes.{IsClosed, close_framebuffer-IsClosed}
use ofgwrite.Screen.Session.Reported.{IsWorking}
use ofgwrite.Screen.Session.Opens.{init_framebuffer-IsReady}
use ofgwrite.Screen.Session.Shows.{IsVersion, show_main_window-StaysReady}

-- What is shown, with texts that fit into the window.
abbrev pub IsSaid : Act → Type 0
IsSaid (Act.overall_text str) = IsText false str
IsSaid (Act.step str) = IsText false str
IsSaid (Act.step_without_incr str) = IsText false str
IsSaid (Act.info str) = IsText false str
IsSaid (Act.error str) = IsText false str
IsSaid (Act.error1 str) = IsText false str
IsSaid (Act.error2 str) = IsText false str
IsSaid (Act.progress percent) = Unit
IsSaid (Act.open_screen steps) = ⊥
IsSaid (Act.show_window picture version) = ⊥
IsSaid Act.close_screen = ⊥

-- The order of the calls: the window is painted only while the framebuffer is open, which the index
-- says, and it is closed only once. What is shown while it is closed is ignored.
pub data Ordered : Bool → List Act → Type 0 where
  ended : {b : Bool} → Ordered b []
  opens :
      {steps : ℕ} {acts : List Act}
      → (steps == 0) ≡ false
      → Ordered true acts
      → Ordered false (Act.open_screen steps ∷ acts)
  shows :
      {picture : Bool} {version : Bytes} {acts : List Act}
      → IsVersion version
      → Ordered true acts
      → Ordered true (Act.show_window picture version ∷ acts)
  says :
      {b : Bool} {act : Act} {acts : List Act}
      → IsSaid act
      → Ordered b acts
      → Ordered b (act ∷ acts)
  closes : {acts : List Act} → Ordered false acts → Ordered true (Act.close_screen ∷ acts)

-- Open and ready, or closed.
abbrev pub IsState : Bool → Display → Type 0
IsState true d = IsReady d
IsState false d = d.is_open ≡ false

if_open-closed : (m : F (Unit {0})) (d : Display) → d.is_open ≡ false → if_open m d ≡ some (tt, d)
if_open-closed m d e = rw e refl

module _ (driver : Driver) (works : IsWorking driver) where
  pub says-closed :
      (act : Act) (d : Display)
      → IsSaid act
      → d.is_open ≡ false
      → perform driver act d ≡ some (tt, d)
  unfolding perform set_overall_text set_step set_step_without_incr set_info_text set_error_text
      set_error_text1 set_error_text2 set_step_progress replace_text
  says-closed (Act.overall_text str) d s e = if_open-closed _ d e
  says-closed (Act.step str) d s e = if_open-closed _ d e
  says-closed (Act.step_without_incr str) d s e = if_open-closed _ d e
  says-closed (Act.info str) d s e = if_open-closed _ d e
  says-closed (Act.error str) d s e = if_open-closed _ d e
  says-closed (Act.error1 str) d s e = if_open-closed _ d e
  says-closed (Act.error2 str) d s e = if_open-closed _ d e
  says-closed (Act.progress percent) d s e = if_open-closed _ d e
  says-closed (Act.open_screen steps) d s e = absurd s
  says-closed (Act.show_window picture version) d s e = absurd s
  says-closed Act.close_screen d s e = absurd s

  pub says-ready :
      (act : Act) (d : Display) → IsSaid act → IsReady d → StaysReady (perform driver act d)
  unfolding perform
  says-ready (Act.overall_text str) d s r = set_overall_text-StaysReady str s d r
  says-ready (Act.step str) d s r = set_step-StaysReady str d s r
  says-ready (Act.step_without_incr str) d s r = set_step_without_incr-StaysReady str d s r
  says-ready (Act.info str) d s r = set_info_text-StaysReady str s d r
  says-ready (Act.error str) d s r = set_error_text-StaysReady str s d r
  says-ready (Act.error1 str) d s r = set_error_text1-StaysReady str s d r
  says-ready (Act.error2 str) d s r = set_error_text2-StaysReady str s d r
  says-ready (Act.progress percent) d s r = set_step_progress-StaysReady percent d r
  says-ready (Act.open_screen steps) d s r = absurd s
  says-ready (Act.show_window picture version) d s r = absurd s
  says-ready Act.close_screen d s r = absurd s

  says-IsState :
      (b : Bool) (act : Act) (d : Display)
      → IsSaid act
      → IsState b d
      → Returns (λ _ d'. IsState b d') (perform driver act d)
  says-IsState true act d s r = says-ready act d s r
  says-IsState false act d s e = rw (says-closed act d s e) e

  -- The first act, and then the others.
  then_all :
      (b : Bool) (act : Act) (acts : List Act) (d : Display)
      → Returns (λ _ d'. IsState b d') (perform driver act d)
      → ((d' : Display)
          → IsState b d'
          → Returns (λ _ d''. (b' : Bool) × IsState b' d'') (perform_all driver acts d'))
      → Returns (λ _ d''. (b' : Bool) × IsState b' d'') (perform_all driver (act ∷ acts) d)
  unfolding perform_all
  then_all b act acts d h next =
      bind-Returns (λ _ d'. IsState b d') (λ _ d''. (b' : Bool) × IsState b' d'')
        (perform driver act d) _ h (λ _ d' s. next d' s)

  -- With a driver that works, calls in the right order, of which every text fits into the window, make no
  -- fault: nothing is painted outside of the mapping, and no number of steps that is 0 is divided by. The
  -- framebuffer is then ready or closed.
  pub perform_all-Returns :
      (b : Bool) (acts : List Act) (d : Display)
      → Ordered b acts
      → IsState b d
      → Returns (λ _ d'. (b' : Bool) × IsState b' d') (perform_all driver acts d)
  unfolding perform perform_all
  perform_all-Returns b [] d ended s = (b, s)
  perform_all-Returns b (_ ∷ acts) d (opens {steps = steps} n o) s =
      then_all true (Act.open_screen steps) acts d
        (bind-Returns (λ ok d'. (ok ≡ true) × IsReady d') (λ _ d'. IsReady d')
          (init_framebuffer driver steps d) _ (init_framebuffer-IsReady driver steps d works n)
          (λ _ d' (_, r). r))
        (λ d' s'. perform_all-Returns true acts d' o s')
  perform_all-Returns b (_ ∷ acts) d (shows {picture = picture} {version = version} v o) s =
      then_all true (Act.show_window picture version) acts d
        (show_main_window-StaysReady driver picture version d v s)
        (λ d' s'. perform_all-Returns true acts d' o s')
  perform_all-Returns b (act ∷ acts) d (says said o) s =
      then_all b act acts d (says-IsState b act d said s)
        (λ d' s'. perform_all-Returns b acts d' o s')
  perform_all-Returns b (_ ∷ acts) d (closes o) s =
      then_all false Act.close_screen acts d
        (Returns-weaken (λ _ d'. IsClosed d d') (λ _ d'. d'.is_open ≡ false) _
          (close_framebuffer-IsClosed driver d s) (λ _ d' c. c.0))
        (λ d' s'. perform_all-Returns false acts d' o s')
