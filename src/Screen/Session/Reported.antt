-- ===== src/Screen/Session/Reported.antt =====
-- `get_screeninfo` and `set_screeninfo` with a driver that reports a mode: it is what the screen is set to.
use ofgwrite.Base.{ℕ, ◌≤◌, ◌≡◌, Bool, true, false, Option}
use ofgwrite.Base.{List, [], ◌∷◌, ◌==◌, refl, arith, if◌then◌else◌}
use ofgwrite.Screen.{Screen, wanted_len}
use ofgwrite.Screen.Inside.{IsUsable}
use ofgwrite.Screen.Device.{Driver, Display, Request, F, filled_var, filled_fix}
use ofgwrite.Screen.Device.{get_screeninfo, try_heights, read_back, set_screeninfo}
use ofgwrite.Screen.Device.{heights, pure, ask_screen, change_screen}
use ofgwrite.Screen.Device.Triples.{Returns, bind-Returns, if-Returns}
use ofgwrite.Screen.Session.{or_close, close_and_fail}

-- What the driver reports when it is read twice.
abbrev pub reported : Driver → List Request → List Request → Screen → Screen
reported driver t t' s = filled_fix (driver.mode t') (filled_var (driver.mode t) s)

abbrev pub with_mapping : Screen → Screen
with_mapping s = record s { map_len = wanted_len s }

-- The device can be opened and read, and it always reports a mode of 640 x 480 or more, of which a
-- mapping holds the lines of a page. The modes that the driver is asked for may be refused.
pub record IsReporting (driver : Driver) : Type 0 where
  pub opens : (t : List Request) → driver.succeeds t Request.open_fd ≡ true
  pub tells_var : (t : List Request) → driver.succeeds t Request.get_var ≡ true
  pub tells_fix : (t : List Request) → driver.succeeds t Request.get_fix ≡ true
  pub usable : (t t' : List Request) (s : Screen) → IsUsable (with_mapping (reported driver t t' s))
  pub wide : (t : List Request) → 640 ≤ (driver.mode t).xres
  pub high : (t : List Request) → 480 ≤ (driver.mode t).yres

-- And the framebuffer can be mapped.
pub record IsWorking (driver : Driver) : Type 0 where
  pub reports : IsReporting driver
  pub maps : (t : List Request) (len : ℕ) → driver.succeeds t (Request.mmap len) ≡ true

-- A step that succeeds, with what then holds.
abbrev pub Succeeds : (Display → Type 0) → Option (Bool × Display) → Type 0
Succeeds P = Returns (λ ok d. (ok ≡ true) × P d)

pub choose :
    (Q : Bool → Display → Type 0) (ok : Bool) (m k : F Bool) (d : Display)
    → ok ≡ true
    → Returns Q (m d)
    → Returns Q ((if ok then m else k) d)
choose Q true m k d e h = h
choose Q false m k d e h = cc

pub or_close-Succeeds :
    (P Q : Display → Type 0) (driver : Driver) (m next : F Bool) (d : Display)
    → Succeeds P (m d)
    → ((d' : Display) → P d' → Succeeds Q (next d'))
    → Succeeds Q (or_close driver m next d)
unfolding or_close
or_close-Succeeds P Q driver m next d h k =
    bind-Returns (λ ok d'. (ok ≡ true) × P d') (λ ok d'. (ok ≡ true) × Q d') (m d) _ h
      (λ ok d' (e, p).
        choose (λ ok d'. (ok ≡ true) × Q d') ok next (close_and_fail driver) d' e (k d' p))

module _ (driver : Driver) (reports : IsReporting driver) where
  -- The screen is what the driver has reported.
  abbrev pub IsReported : Display → Type 0
  IsReported d =
      (d.is_open ≡ true)
      × ((t : List Request) × (t' : List Request) × (s : Screen) × (d.screen
            ≡ reported driver t t' s))

  pub get_screeninfo-works :
      (d : Display) → d.is_open ≡ true → Succeeds IsReported (get_screeninfo driver d)
  unfolding get_screeninfo
  get_screeninfo-works d is_open =
      rw (reports.tells_var d.asked, reports.tells_fix (Request.get_var ∷ d.asked))
        (refl, (is_open, (d.asked, (Request.get_var ∷ d.asked), d.screen, refl)))

  ask_screen-open :
      (r : Request) (fill : Screen → Screen → Screen) (d : Display)
      → d.is_open ≡ true
      → Returns (λ _ d'. d'.is_open ≡ true) (ask_screen driver r fill d)
  ask_screen-open r fill d is_open =
      bind-Returns (λ _ d'. d'.is_open ≡ true) (λ _ d'. d'.is_open ≡ true) _ _
        (if-Returns (λ _ d'. d'.is_open ≡ true) (driver.succeeds d.asked r)
          (change_screen (fill (driver.mode d.asked))) (pure tt) (record d { asked = r ∷ d.asked })
          is_open is_open)
        (λ _ d' h. h)

  try_heights-open :
      (orig : Screen) (hs : List ℕ) (d : Display)
      → d.is_open ≡ true
      → Returns (λ _ d'. d'.is_open ≡ true) (try_heights driver orig hs d)
  unfolding try_heights
  try_heights-open orig [] d is_open = is_open
  try_heights-open orig (h ∷ hs) d is_open =
      let wanted = record orig { yres_virtual = h; xoffset = 0; yoffset = 0 } in
      bind-Returns (λ _ d'. d'.is_open ≡ true) (λ _ d'. d'.is_open ≡ true) _ _
        (ask_screen-open (Request.put_var wanted) filled_var (record d { screen = wanted }) is_open)
        (λ ok d' h'.
          if-Returns (λ _ d'. d'.is_open ≡ true) ok (pure true) (try_heights driver orig hs) d' h'
            (try_heights-open orig hs d' h'))

  read_back-works : (d : Display) → d.is_open ≡ true → Succeeds IsReported (read_back driver d)
  unfolding read_back
  read_back-works d is_open =
      bind-Returns (λ ok d'. (ok ≡ true) × IsReported d') (λ ok d'. (ok ≡ true) × IsReported d') _ _
        (get_screeninfo-works d is_open)
        (λ ok d' (e, r).
          bind-Returns (λ _ d''. IsReported d'') (λ ok d'. (ok ≡ true) × IsReported d') _ _
            (if-Returns (λ _ d''. IsReported d'') ok _ (pure tt) d' r r) (λ _ d'' r'. (e, r')))

  pub set_screeninfo-works :
      (d : Display) → IsReported d → Succeeds IsReported (set_screeninfo driver d)
  unfolding set_screeninfo
  set_screeninfo-works d (is_open, (t, t', s, e)) =
      let some_lines : (d.screen.yres == 0) ≡ false = rw e (ground (arith, reports.high t)) in
      bind-Returns (λ _ d'. d'.is_open ≡ true) (λ ok d'. (ok ≡ true) × IsReported d') _ _
        (try_heights-open d.screen (if d.screen.yres == 0 then [] else heights d.screen.yres) d
          is_open)
        (λ _ d' h. rw some_lines (read_back-works d' h))
