-- ===== src/Protocol/Acts.antt =====
-- The functions of fb.c that the calls of a trace are, and what each of them does to the framebuffer.
use mathlib.Core.Path.{subst}
use ofgwrite.Base.{
  ℕ, ◌*◌, ◌≤◌, Bool, true, false, Option, none, some, ◌≡◌, ◌==◌, refl, arith, if◌then◌else◌, length,
  leb,
}
use ofgwrite.Base.Calls.{Call}
use ofgwrite.Base.Int.{pos}
use ofgwrite.Base.Text.{Bytes, lit}
use ofgwrite.Screen.{paint_box, paint_rows}
use ofgwrite.Screen.Text.Inside.{IsPrintable-all}
use ofgwrite.Screen.Device.{
  Display, Driver, Memory, F, pure, paint, hide_old_content, close_framebuffer,
}
use ofgwrite.Screen.Device.Triples.{Returns, bind-Returns, Returns-weaken}
use ofgwrite.Screen.Shown.Ready.{IsReady}
use ofgwrite.Screen.Shown.Texts.{IsText}
use ofgwrite.Screen.Session.{Act, perform}
use ofgwrite.Screen.Session.Reported.{IsWorking}
use ofgwrite.Screen.Session.Closes.{IsClosed, close_framebuffer-IsClosed}
use ofgwrite.Screen.Session.Shows.{IsVersion, show_main_window-StaysReady}
use ofgwrite.Screen.Session.Opens.{init_framebuffer-IsReady}
use ofgwrite.Screen.Session.Runs.{IsSaid, says-ready, says-closed}
use ofgwrite.Protocol.{Status, is_text, after_open, after_close, after_show, after_text}

-- `ofgwrite_version`
abbrev pub version : Bytes
version = lit "4.8.0"

-- The function of fb.c that a call is.
unfoldable pub act_of : Call → Option Act
act_of (Call.open_framebuffer steps) = some (Act.open_screen steps)
act_of Call.close_framebuffer = some Act.close_screen
act_of (Call.show_main_window picture) = some (Act.show_window picture version)
act_of (Call.set_overall_text str) = some (Act.overall_text str)
act_of (Call.set_step str) = some (Act.step str)
act_of (Call.set_step_without_incr str) = some (Act.step_without_incr str)
act_of (Call.set_step_progress percent) = some (Act.progress (pos percent))
act_of (Call.set_error_text str) = some (Act.error str)
act_of (Call.set_error_text1 str) = some (Act.error1 str)
act_of (Call.set_error_text2 str) = some (Act.error2 str)
act_of _ = none

unfoldable pub perform_if : Driver → Option Act → F (Unit {0})
unfolding perform
perform_if driver none = pure tt
perform_if driver (some act) = perform driver act

-- The globals before the framebuffer was opened: there is no screen.
pub record IsFresh (d : Display) : Type 0 where
  pub is_closed : d.is_open ≡ false
  pub memory : d.memory ≡ Memory.null
  pub columns : d.screen.xres ≡ 0
  pub lines : d.screen.yres ≡ 0

abbrev pub IsIn : Status → Display → Type 0
IsIn Status.fresh d = IsFresh d
IsIn Status.shown d = IsReady d
IsIn Status.hidden d = d.is_open ≡ false

is_text-IsText : (str : Bytes) → is_text str ≡ true → IsText false str
unfolding is_text
is_text-IsText str h = (IsPrintable-all str (ground arith), short (length str) (ground arith))
  where
    short : (n : ℕ) → leb n 45 ≡ true → n * (14 * 1) ≤ 630
    short n e = ground arith

version-IsVersion : IsVersion version
unfolding lit
version-IsVersion = (IsPrintable-all version refl, omega arith)

module _ (driver : Driver) (works : IsWorking driver) where
  abbrev pub Leads : Status → Option (Unit {0} × Display) → Type 0
  Leads s = Returns (λ _ d. IsIn s d)

  same :
      (o : Option (Unit {0} × Display)) (s : Status) (d : Display)
      → o ≡ some (tt, d)
      → IsIn s d
      → Leads s o
  same o s d e i = rw e i

  pub says-IsIn :
      (s : Status) (act : Act) (d : Display)
      → IsSaid act
      → IsIn s d
      → Leads s (perform driver act d)
  says-IsIn Status.fresh act d said i =
      same _ Status.fresh d (says-closed driver works act d said i.is_closed) i
  says-IsIn Status.hidden act d said i =
      same _ Status.hidden d (says-closed driver works act d said i) i
  says-IsIn Status.shown act d said i = says-ready driver works act d said i

  pub opens-IsIn :
      (steps : ℕ) (d : Display)
      → (steps == 0) ≡ false
      → Leads Status.shown (perform driver (Act.open_screen steps) d)
  unfolding perform
  opens-IsIn steps d some_steps =
      bind-Returns (λ ok d'. (ok ≡ true) × IsReady d') (λ _ d'. IsReady d') _ _
        (init_framebuffer-IsReady driver steps d works some_steps) (λ _ d' (_, r). r)

  close-IsFresh : (d : Display) → IsFresh d → Leads Status.fresh (close_framebuffer driver d)
  unfolding close_framebuffer hide_old_content paint paint_box paint_rows
  close-IsFresh d i =
      rw (i.memory, i.columns, i.lines, i.is_closed)
        record { is_closed = refl; memory = refl; columns = refl; lines = refl }

  pub closes-IsIn :
      (s s' : Status) (d : Display)
      → after_close (some s) ≡ some s'
      → IsIn s d
      → Leads s' (perform driver Act.close_screen d)
  unfolding perform
  closes-IsIn Status.fresh Status.fresh d e i = close-IsFresh d i
  closes-IsIn Status.fresh Status.shown d e i = cc
  closes-IsIn Status.fresh Status.hidden d e i = cc
  closes-IsIn Status.shown Status.hidden d e i =
      Returns-weaken (λ _ d'. IsClosed d d') (λ _ d'. d'.is_open ≡ false) _
        (close_framebuffer-IsClosed driver d i) (λ _ d' c. c.0)
  closes-IsIn Status.shown Status.fresh d e i = cc
  closes-IsIn Status.shown Status.shown d e i = cc
  closes-IsIn Status.hidden s' d e i = cc

  pub shows-IsIn :
      (s s' : Status) (picture : Bool) (d : Display)
      → after_show (some s) ≡ some s'
      → IsIn s d
      → Leads s' (perform driver (Act.show_window picture version) d)
  unfolding perform
  shows-IsIn Status.fresh s' picture d e i = cc
  shows-IsIn Status.hidden s' picture d e i = cc
  shows-IsIn Status.shown Status.shown picture d e i =
      show_main_window-StaysReady driver picture version d version-IsVersion i
  shows-IsIn Status.shown Status.fresh picture d e i = cc
  shows-IsIn Status.shown Status.hidden picture d e i = cc

  pub opens-after :
      (s s' : Status) (steps : ℕ)
      → after_open steps (some s) ≡ some s'
      → ((steps == 0) ≡ false) × (Status.shown ≡ s')
  opens-after Status.shown s' steps e = cc
  opens-after Status.fresh s' steps e = go (steps == 0) e
    where
      go :
          (b : Bool)
          → (if b then none else some Status.shown) ≡ some s'
          → (b ≡ false) × (Status.shown ≡ s')
      go true e' = cc
      go false e' = (refl, cc)
  opens-after Status.hidden s' steps e = go (steps == 0) e
    where
      go :
          (b : Bool)
          → (if b then none else some Status.shown) ≡ some s'
          → (b ≡ false) × (Status.shown ≡ s')
      go true e' = cc
      go false e' = (refl, cc)

  said-after :
      (str : Bytes) (s s' : Status)
      → after_text str (some s) ≡ some s'
      → IsText false str × (s ≡ s')
  said-after str s s' e = go (is_text str) refl e
    where
      go :
          (b : Bool)
          → is_text str ≡ b
          → (if b then some s else none) ≡ some s'
          → IsText false str × (s ≡ s')
      go true h e' = (is_text-IsText str h, cc)
      go false h e' = cc

  pub said-IsIn :
      (str : Bytes) (s s' : Status) (act : Act) (d : Display)
      → after_text str (some s) ≡ some s'
      → (IsText false str → IsSaid act)
      → IsIn s d
      → Leads s' (perform driver act d)
  said-IsIn str s s' act d e said i =
      let (text, same_status) = said-after str s s' e in
      subst (λ s'. Leads s' (perform driver act d)) same_status (says-IsIn s act d (said text) i)

  pub quiet-IsIn :
      (s s' : Status) (d : Display) → some s ≡ some s' → IsIn s d → Leads s' (pure tt d)
  quiet-IsIn s s' d e i = subst (λ s'. IsIn s' d) (let e' : s ≡ s' = cc in e') i
