-- ===== src/Base/Steps.antt =====
-- Rules for functions that are written as steps, each of which may end the function.
use mathlib.Core.Option.{Option, none, some}
use mathlib.Core.List.{List, [], ◌∷◌, ◌++◌}
use ofgwrite.Base.Calls.{M, Call, Trace, run_steps, resume, pure, tell_all}
use ofgwrite.Base.Lists.{All}

module _ {A : Type 0} where
  -- Where a step leads: on with `P`, or to the end with `Q`.
  abbrev pub After : (Trace → Type 0) → (A → Trace → Type 0) → Option A × Trace → Type 0
  After P Q (none, t) = P t
  After P Q (some a, t) = Q a t

  abbrev pub Step :
      (Trace → Type 0) → (Trace → Type 0) → (A → Trace → Type 0) → M (Option A) → Type 0
  Step P P' Q m = (t : Trace) → P t → After P' Q (m t)

  abbrev pub Ends : (Trace → Type 0) → (A → Trace → Type 0) → M A → Type 0
  Ends P Q m = (t : Trace) → P t → Q (m t).0 (m t).1

  module _ (P P' : Trace → Type 0) (Q : A → Trace → Type 0) where
    resume-After :
        (next : M A) (r : Option A × Trace)
        → After P' Q r
        → Ends P' Q next
        → Q (resume pure next r.0 r.1).0 (resume pure next r.0 r.1).1
    resume-After next (none, t) h ends = ends t h
    resume-After next (some a, t) h ends = h

    pub run_steps-cons :
        (step : M (Option A)) (steps : List (M (Option A))) (final : A)
        → Step P P' Q step
        → Ends P' Q (run_steps steps final)
        → Ends P Q (run_steps (step ∷ steps) final)
    unfolding run_steps
    run_steps-cons step steps final first others t h =
        resume-After (run_steps steps final) (step t) (first t h) others

  module _ (P : Trace → Type 0) (Q : A → Trace → Type 0) where
    -- Steps that keep `P`, in front of others.
    pub run_steps-append :
        (ms last : List (M (Option A))) (final : A)
        → All (Step P P Q) ms
        → Ends P Q (run_steps last final)
        → Ends P Q (run_steps (ms ++ last) final)
    run_steps-append [] last final hs e = e
    run_steps-append (m ∷ ms) last final hs e =
        run_steps-cons P P Q m (ms ++ last) final hs.0 (run_steps-append ms last final hs.1 e)

    pub run_steps-All :
        (ms : List (M (Option A))) (final : A)
        → All (Step P P Q) ms
        → ((t : Trace) → P t → Q final t)
        → Ends P Q (run_steps ms final)
    unfolding run_steps
    run_steps-All [] final hs q = q
    run_steps-All (m ∷ ms) final hs q =
        run_steps-cons P P Q m ms final hs.0 (run_steps-All ms final hs.1 q)

  pub Step-weaken :
      (P P' : Trace → Type 0) (Q Q' : A → Trace → Type 0) (m : M (Option A))
      → ((a : A) → (t : Trace) → Q a t → Q' a t)
      → Step P P' Q m
      → Step P P' Q' m
  Step-weaken P P' Q Q' m weaken step t h = go (m t) (step t h)
    where
      go : (r : Option A × Trace) → After P' Q r → After P' Q' r
      go (none, t') after = after
      go (some a, t') after = weaken a t' after

-- The calls in a list are added to a trace.
pub tell_all-All :
    (P : Call → Type 0) (cs : List Call) (t : Trace) → All P cs → All P t → All P (tell_all cs t).1
tell_all-All P [] t hs h = h
tell_all-All P (c ∷ cs) t hs h = tell_all-All P cs (c ∷ t) hs.1 (hs.0, h)
