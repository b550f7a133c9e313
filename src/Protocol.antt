-- ===== src/Protocol.antt =====
-- ofgwrite.c and the flash_*.c files: the order in which the functions of fb.c are called, and the texts
-- that are handed to them.
pub mod Flash
pub mod Loop
pub mod Takeover
pub mod Android
pub mod Starts
pub mod Runs
pub mod Acts
pub mod Replay
use ofgwrite.Base.{
  ℕ, ◌+◌, Bool, true, false, ◌&&◌, Option, none, some, arith, List, [], ◌∷◌, ◌≡◌, ◌∙◌, refl,
}
use ofgwrite.Base.{if◌then◌else◌, ◌==◌, leb, ltb, all, length}
use ofgwrite.Base.Calls.{
  ◌>>=◌, ◌>>◌, M, Env, Call, Tool, Trace, call, tell, pure, run_unless, unless, tell_all, ask,
  read_file, call_all,
}
use ofgwrite.Base.Int.{pos, ◌+ℤ◌}
use ofgwrite.Base.Text.{Bytes}

-- Before the framebuffer is opened, while it is open, and behind its closing.
pub data Status : Type 0 where
  fresh shown hidden : Status

-- A text that fits into the window.
unfoldable pub is_text : Bytes → Bool
is_text str = all (λ ch. leb 32 ch && ltb ch 128) str && leb (length str) 45

-- The framebuffer is opened with a number of steps that is not 0.
abbrev pub after_open : ℕ → Option Status → Option Status
after_open steps none = none
after_open steps (some Status.shown) = none
after_open steps (some _) = if steps == 0 then none else some Status.shown

-- It may be closed before it was opened, but not twice.
abbrev pub after_close : Option Status → Option Status
after_close none = none
after_close (some Status.fresh) = some Status.fresh
after_close (some Status.shown) = some Status.hidden
after_close (some Status.hidden) = none

abbrev pub after_show : Option Status → Option Status
after_show (some Status.shown) = some Status.shown
after_show _ = none

abbrev pub after_text : Bytes → Option Status → Option Status
after_text str s = if is_text str then s else none

-- `none` where a call was out of order, or a text too long.
unfoldable pub after : Call → Option Status → Option Status
unfolding is_text
after (Call.open_framebuffer steps) s = after_open steps s
after Call.close_framebuffer s = after_close s
after (Call.show_main_window picture) s = after_show s
after (Call.set_overall_text str) s = after_text str s
after (Call.set_step str) s = after_text str s
after (Call.set_step_without_incr str) s = after_text str s
after (Call.set_error_text str) s = after_text str s
after (Call.set_error_text1 str) s = after_text str s
after (Call.set_error_text2 str) s = after_text str s
after _ s = s

-- Where a trace leads.
unfoldable pub status : Trace → Option Status
unfolding after
status [] = some Status.fresh
status (c ∷ t) = after c (status t)

-- What is done leaves the framebuffer as it is, and shows only texts that fit.
unfoldable pub Keeps : {A : Type 0} → M A → Type 0
Keeps m = (t : Trace) → status (m t).1 ≡ status t

pub if-Keeps : {A : Type 0} (b : Bool) (m k : M A) → Keeps m → Keeps k → Keeps (if b then m else k)
if-Keeps true m k hm hk = hm
if-Keeps false m k hm hk = hk

pub bind-Keeps :
    {A B : Type 0} (m : M A) (f : A → M B) → Keeps m → ((a : A) → Keeps (f a)) → Keeps (m >>= f)
unfolding Keeps
bind-Keeps m f h k t = k (m t).0 (m t).1 ∙ h t

pub then-Keeps : {A B : Type 0} (m : M A) (k : M B) → Keeps m → Keeps k → Keeps (m >> k)
unfolding Keeps
then-Keeps m k h h' t = h' (m t).1 ∙ h t

pub pure-Keeps : {A : Type 0} (a : A) → Keeps (pure a)
unfolding Keeps
pure-Keeps a t = refl

pub ask-Keeps : {A : Type 0} (f : Trace → A) → Keeps (ask f)
unfolding Keeps
ask-Keeps f t = refl

pub read_file-Keeps : (env : Env) (path : Bytes) → Keeps (read_file env path)
unfolding Keeps
read_file-Keeps env path t = refl

-- A call that the status does not depend on.
unfoldable pub is_quiet : Call → Bool
unfolding is_text
is_quiet (Call.open_framebuffer steps) = false
is_quiet Call.close_framebuffer = false
is_quiet (Call.show_main_window picture) = false
is_quiet (Call.set_overall_text str) = is_text str
is_quiet (Call.set_step str) = is_text str
is_quiet (Call.set_step_without_incr str) = is_text str
is_quiet (Call.set_error_text str) = is_text str
is_quiet (Call.set_error_text1 str) = is_text str
is_quiet (Call.set_error_text2 str) = is_text str
is_quiet _ = true

pub quiet-after : (c : Call) (s : Option Status) → is_quiet c ≡ true → after c s ≡ s
unfolding is_quiet after
quiet-after (Call.open_framebuffer steps) s h = cc
quiet-after Call.close_framebuffer s h = cc
quiet-after (Call.show_main_window picture) s h = cc
quiet-after (Call.set_overall_text str) s h = rw h refl
quiet-after (Call.set_step str) s h = rw h refl
quiet-after (Call.set_step_without_incr str) s h = rw h refl
quiet-after (Call.set_error_text str) s h = rw h refl
quiet-after (Call.set_error_text1 str) s h = rw h refl
quiet-after (Call.set_error_text2 str) s h = rw h refl
quiet-after _ s h = refl

pub call-Keeps : (env : Env) (c : Call) → is_quiet c ≡ true → Keeps (call env c)
unfolding Keeps status
call-Keeps env c h t = quiet-after c (status t) h

pub tell-Keeps : (c : Call) → is_quiet c ≡ true → Keeps (tell c)
unfolding Keeps status
tell-Keeps c h t = quiet-after c (status t) h

pub unless-Keeps : (b : Bool) (c : Call) → is_quiet c ≡ true → Keeps (unless b c)
unless-Keeps true c h = pure-Keeps tt
unless-Keeps false c h = tell-Keeps c h

pub tell_all-Keeps : (cs : List Call) → all is_quiet cs ≡ true → Keeps (tell_all cs)
tell_all-Keeps [] h = pure-Keeps tt
tell_all-Keeps (c ∷ cs) h =
    then-Keeps (tell c) (tell_all cs) (tell-Keeps c (ground arith))
      (tell_all-Keeps cs (ground arith))

pub call_all-Keeps : (env : Env) (cs : List Call) → all is_quiet cs ≡ true → Keeps (call_all env cs)
call_all-Keeps env [] h = pure-Keeps (pos 0)
call_all-Keeps env (c ∷ cs) h = bind-Keeps (call env c) _ (call-Keeps env c (ground arith)) (λ ret.
    bind-Keeps (call_all env cs) _ (call_all-Keeps env cs (ground arith))
      (λ rest. pure-Keeps (ret +ℤ rest)))

pub run_unless-Keeps :
    (env : Env) (no_write : Bool) (tool : Tool) (argv : List Bytes)
    → Keeps (run_unless env no_write tool argv)
unfolding Keeps status
run_unless-Keeps env true tool argv t = refl
run_unless-Keeps env false tool argv t = refl

pub ruleset keeps = (
  if-Keeps, bind-Keeps, then-Keeps, pure-Keeps, ask-Keeps, read_file-Keeps, call-Keeps, tell-Keeps,
  unless-Keeps, tell_all-Keeps, call_all-Keeps, run_unless-Keeps, refl,
)
