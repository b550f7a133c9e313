-- ===== src/Screen/Session/Opens.antt =====
-- `init_framebuffer` with a driver that answers: what it opens is ready to be painted on.
use ofgwrite.Base.{ℕ, ◌-◌, ◌*◌, ◌≤◌, ◌<◌, ◌≡◌, Bool, true, false, not, ◌&&◌, some}
use ofgwrite.Base.{List, ◌∷◌, ◌==◌, ltb, refl, arith, if◌then◌else◌, Bool-cases, inl, inr}
use ofgwrite.Screen.{
  Screen, Pixel, Color, wanted_len, clamp, get_safe_pages, mmap_fb as mapped_screen,
  clear_all_pages,
}
use ofgwrite.Screen.Inside.{
  le-mul, IsUsable, IsShown, clear_all_pages-IsInside, clamp-IsShown, moved,
}
use ofgwrite.Screen.Window.{set_window_dimension}
use ofgwrite.Screen.Device.{Driver, Display, Memory, Request, is_null}
use ofgwrite.Screen.Device.{hide_old_content, get_screeninfo, set_screeninfo}
use ofgwrite.Screen.Device.{open_framebuffer, enable_manual_blit, mmap_fb, pure, modify}
use ofgwrite.Screen.Device.Triples.{Returns, bind-Returns, paint-Returns, if-Returns}
use ofgwrite.Screen.Shown.Ready.{IsReady}
use ofgwrite.Screen.Session.{init_framebuffer, init_open, set_window}
use ofgwrite.Screen.Session.Reported.{
  with_mapping, IsReporting, IsWorking, Succeeds, choose, or_close-Succeeds, IsReported,
  get_screeninfo-works, set_screeninfo-works,
}

-- The framebuffer is open and mapped; the window has not been placed yet.
pub record IsMapped (d : Display) : Type 0 where
  pub is_open : d.is_open ≡ true
  pub mapped : d.memory ≡ Memory.mapped
  pub usable : IsUsable d.screen
  pub shown : IsShown d.screen
  pub wide : 640 ≤ d.screen.xres
  pub high : 480 ≤ d.screen.yres

pub IsReady-IsMapped : (d : Display) → IsReady d → IsMapped d
IsReady-IsMapped d r = record {
  is_open = r.is_open;
  mapped = r.mapped;
  usable = r.usable;
  shown = r.shown;
  wide = r.wide;
  high = r.high;
}

pub hide_old_content-Returns :
    (Q : Unit {0} → Display → Type 0) (d : Display)
    → d.memory ≡ Memory.mapped
    → IsUsable d.screen
    → ((painted : List Pixel) → Q tt (record d { painted = painted }))
    → Returns Q (hide_old_content d)
unfolding hide_old_content
hide_old_content-Returns Q d mapped usable q =
    let there : is_null d.memory ≡ false = rw mapped refl in
    rw there (
      paint-Returns Q (λ s. clear_all_pages s Color.trans) d mapped
        (clear_all_pages-IsInside d.screen Color.trans usable) q)

-- The clamped offset is the only thing that `mmap_fb` changes behind the mapping.
clamp-keeps : (P : Screen → Type 0) (s : Screen) → P s → P (record s { yoffset = 0 }) → P (clamp s)
clamp-keeps P s kept set =
    elim (Bool-cases (not (s.yres == 0) && ltb ((get_safe_pages s - 1) * s.yres) s.yoffset)) [
      | inl behind ↦ rw behind set
      | inr shown ↦ rw shown kept
    ]

pub some_len : (s : Screen) → IsUsable s → (s.map_len == 0) ≡ false
some_len s usable =
    let lines = le-mul s.yres s.line_length (omega (arith, usable.columns, usable.some_columns)) in
    let positive : 0 < s.map_len = omega (arith, lines, usable.page, usable.some_lines) in
    ground (arith, positive)

mapped_screen-clamp :
    (s : Screen)
    → (wanted_len s == 0) ≡ false
    → mapped_screen (λ _. true) s ≡ some (clamp (with_mapping s))
unfolding mapped_screen
mapped_screen-clamp s some_bytes = rw some_bytes refl

module _ (driver : Driver) (reports : IsReporting driver) where
  mmap_fb-works :
      (maps : (t : List Request) (len : ℕ) → driver.succeeds t (Request.mmap len) ≡ true)
      (d : Display)
      → IsReported driver reports d
      → Succeeds IsMapped (mmap_fb driver d)
  unfolding mmap_fb
  mmap_fb-works maps d (is_open, (t, t', s, e)) =
      let usable : IsUsable (with_mapping d.screen) = rw e (reports.usable t t' s) in
      let wide : 640 ≤ d.screen.xres = rw e (reports.wide t) in
      let high : 480 ≤ d.screen.yres = rw e (reports.high t) in
      let some_bytes = some_len (with_mapping d.screen) usable in
      let mapped = mapped_screen-clamp d.screen some_bytes in
      rw (some_bytes, maps d.asked (wanted_len d.screen), mapped)
        (
          refl,
          record {
            is_open = is_open;
            mapped = refl;
            usable =
                clamp-keeps IsUsable (with_mapping d.screen) usable
                  (moved (with_mapping d.screen) 0 usable);
            shown = clamp-IsShown (with_mapping d.screen) usable;
            wide = clamp-keeps (λ s. 640 ≤ s.xres) (with_mapping d.screen) wide wide;
            high = clamp-keeps (λ s. 480 ≤ s.yres) (with_mapping d.screen) high high;
          },
        )

  open_framebuffer-works :
      (d : Display) → Succeeds (λ d'. d'.is_open ≡ true) (open_framebuffer driver d)
  unfolding open_framebuffer enable_manual_blit
  open_framebuffer-works d =
      let d1 = record d { is_open = true; asked = Request.open_fd ∷ d.asked } in
      let enabled = record d1 { asked = Request.set_blit true ∷ d1.asked } in
      rw (reports.opens d.asked) (
        bind-Returns (λ _ d'. d'.is_open ≡ true) (λ ok d'. (ok ≡ true) × (d'.is_open ≡ true))
          (enable_manual_blit driver d1) _
          (if-Returns (λ _ d'. d'.is_open ≡ true) (driver.succeeds d1.asked (Request.set_blit true))
            (modify (λ d. record d { manual_blit = true })) (pure tt) enabled refl refl)
          (λ _ d' h. (refl, h)))

  pub opened :
      (d : Display)
      → Succeeds
          (λ d'. d'.is_open ≡ true)
          ((if d.is_open then pure true else open_framebuffer driver) d)
  opened d = go d.is_open refl
    where
      go :
          (b : Bool)
          → d.is_open ≡ b
          → Succeeds
              (λ d'. d'.is_open ≡ true)
              ((if b then pure true else open_framebuffer driver) d)
      go true e = (refl, e)
      go false e = open_framebuffer-works d

set_window-Returns :
    (steps : ℕ) (d : Display)
    → (steps == 0) ≡ false
    → IsMapped d
    → Returns (λ _ d'. IsReady d') (set_window steps d)
unfolding set_window
set_window-Returns steps d some_steps m =
    let w = set_window_dimension d.screen in
    bind-Returns (λ _ d'. IsMapped d' × (d'.window ≡ set_window_dimension d'.screen))
      (λ _ d'. IsReady d') (hide_old_content (record d { window = w })) _
      (hide_old_content-Returns (λ _ d'. IsMapped d' × (d'.window ≡ set_window_dimension d'.screen))
        (record d { window = w }) m.mapped m.usable
        (λ painted. (
          record {
            is_open = m.is_open;
            mapped = m.mapped;
            usable = m.usable;
            shown = m.shown;
            wide = m.wide;
            high = m.high;
          },
          refl,
        )))
      (λ _ d' (m', e). record {
        is_open = m'.is_open;
        mapped = m'.mapped;
        usable = m'.usable;
        shown = m'.shown;
        wide = m'.wide;
        high = m'.high;
        window = e;
        bars = refl;
        some_steps = some_steps;
      })

module _ (driver : Driver) (reports : IsReporting driver) (steps : ℕ)
    (some_steps : (steps == 0) ≡ false) where
  init_open-works :
      (maps : (t : List Request) (len : ℕ) → driver.succeeds t (Request.mmap len) ≡ true)
      (d : Display)
      → d.is_open ≡ true
      → Succeeds IsReady (init_open driver steps d)
  unfolding init_open
  init_open-works maps d is_open =
      or_close-Succeeds (IsReported driver reports) IsReady driver (get_screeninfo driver) _ d
        (get_screeninfo-works driver reports d is_open)
        (λ d1 r1.
          or_close-Succeeds (IsReported driver reports) IsReady driver (set_screeninfo driver) _ d1
            (set_screeninfo-works driver reports d1 r1)
            (λ d2 r2.
              or_close-Succeeds IsMapped IsReady driver (mmap_fb driver) _ d2
                (mmap_fb-works driver reports maps d2 r2)
                (λ d3 m.
                  bind-Returns (λ _ d'. IsReady d') (λ ok d'. (ok ≡ true) × IsReady d')
                    (set_window steps d3) _ (set_window-Returns steps d3 some_steps m)
                    (λ _ d' r. (refl, r)))))

-- A driver that works is opened and mapped, whatever the display was before: `init_framebuffer` makes
-- no fault, returns 1 and leaves the display ready, if the number of steps is not 0.
pub init_framebuffer-IsReady :
    (driver : Driver) (steps : ℕ) (d : Display)
    → IsWorking driver
    → (steps == 0) ≡ false
    → Succeeds IsReady (init_framebuffer driver steps d)
unfolding init_framebuffer
init_framebuffer-IsReady driver steps d works some_steps =
    bind-Returns (λ ok d'. (ok ≡ true) × (d'.is_open ≡ true)) (λ ok d'. (ok ≡ true) × IsReady d') _
      _ (opened driver works.reports d)
      (λ ok d' (e, is_open).
        choose (λ ok d'. (ok ≡ true) × IsReady d') ok (init_open driver steps) (pure false) d' e
          (init_open-works driver works.reports steps some_steps works.maps d' is_open))
