-- ===== src/Screen/Session/Closes.antt =====
-- `close_framebuffer`, and what is painted behind it.
use ofgwrite.Base.{
  ℕ, zero, suc, ◌%◌, ◌+◌, ◌*◌, ◌<◌, ◌≡◌, Bool, true, false, Option, none, some, List, ◌∷◌, ◌==◌,
  leb,
}
use ofgwrite.Base.{refl, ap, arith, if◌then◌else◌}
use ofgwrite.Screen.{
  Screen, Pixel, Color, paint_box, paint_rows, paint_row, paint_pages, get_safe_pages,
  clear_all_pages, pixel_at, rounds,
}
use ofgwrite.Screen.Device.{writable, Driver, Display, Memory, Request, F, paint, pure, is_null}
use ofgwrite.Screen.Device.{
  hide_old_content, close_framebuffer, close_device, disable_manual_blit, modify,
}
use ofgwrite.Screen.Device.Triples.{Returns, bind-Returns, if-Returns, Returns-weaken}
use ofgwrite.Screen.Shown.Ready.{IsReady}
use ofgwrite.Screen.Session.Opens.{some_len, hide_old_content-Returns}

-- The framebuffer is closed and unmapped; the requests that are made are at the front.
abbrev pub IsClosed : Display → Display → Type 0
IsClosed d d' =
    let len = d.screen.map_len in
    (d'.is_open ≡ false)
    × (d'.memory ≡ Memory.unmapped)
    × (d'.screen ≡ record d.screen { map_len = 0 })
    × (d'.asked
        ≡ Request.close_fd
          ∷ Request.set_blit false
          ∷ Request.munmap len
          ∷ Request.msync len
          ∷ d.asked)

-- What closing the device leaves as it is.
abbrev IsKept : Display → List Request → Unit {0} → Display → Type 0
IsKept d asked _ d' = (d'.memory ≡ d.memory) × (d'.screen ≡ d.screen) × (d'.asked ≡ asked)

close_device-closes :
    (driver : Driver) (d : Display)
    → Returns
        (λ a d'.
          (d'.is_open ≡ false)
          × IsKept d (Request.close_fd ∷ Request.set_blit false ∷ d.asked) a d')
        (close_device driver d)
unfolding close_device disable_manual_blit
close_device-closes driver d =
    let asked = Request.set_blit false ∷ d.asked in
    bind-Returns (IsKept d asked)
      (λ a d'. (d'.is_open ≡ false) × IsKept d (Request.close_fd ∷ asked) a d') _ _
      (if-Returns (IsKept d asked) (driver.succeeds d.asked (Request.set_blit false))
        (modify (λ d. record d { manual_blit = false })) (pure tt) (record d { asked = asked })
        (refl, refl, refl) (refl, refl, refl))
      (λ _ d' (m, s, e). (refl, (m, s, ap (λ t. Request.close_fd ∷ t) e)))

hidden :
    (d : Display)
    → IsReady d
    → (p : List Pixel) × (hide_old_content d ≡ some (tt, record d { painted = p }))
hidden d r = go (hide_old_content d) (
    hide_old_content-Returns (λ _ d'. (p : List Pixel) × (d' ≡ record d { painted = p })) d r.mapped
      r.usable (λ p. (p, refl)))
  where
    go :
        (o : Option (Unit {0} × Display))
        → Returns (λ _ d'. (p : List Pixel) × (d' ≡ record d { painted = p })) o
        → (p : List Pixel) × (o ≡ some (tt, record d { painted = p }))
    go none h = absurd h
    go (some (u, d')) (p, e) = (p, ap (λ x. some (tt, x)) e)

-- Closing a display that is ready makes no fault: the mapping is synchronised and removed with the
-- length that was mapped, the manual blit is switched off, and then the device is closed.
pub close_framebuffer-IsClosed :
    (driver : Driver) (d : Display)
    → IsReady d
    → Returns (λ _ d'. IsClosed d d') (close_framebuffer driver d)
unfolding close_framebuffer
close_framebuffer-IsClosed driver d r =
    let (p, e) = hidden d r in
    rw (e, r.mapped, some_len d.screen r.usable, r.is_open)
      (Returns-weaken _ (λ _ d'. IsClosed d d') _ (close_device-closes driver _)
        (λ _ d' (o, (m, s, a)). (o, m, s, a)))

-- Where nothing is mapped, but the screen has columns and lines, hiding the old contents is a fault.
pub record IsUnmapped (d : Display) : Type 0 where
  pub no_bytes : d.screen.map_len ≡ 0
  pub some_columns : 0 < d.screen.xres
  pub some_lines : 0 < d.screen.yres
  pub width : d.screen.xres < 2147483648
  pub height : d.screen.yres < 2147483648

no_bytes-writable : (m : Memory) (s : Screen) → s.map_len ≡ 0 → writable m s ≡ 0
no_bytes-writable Memory.null s h = refl
no_bytes-writable Memory.mapped s h = h
no_bytes-writable Memory.unmapped s h = refl

-- The first pixel of a box.
first_pixel :
    (s : Screen) (color : Color) (m n : ℕ)
    → 0 < m
    → 0 < n
    → m < 2147483648
    → n < 2147483648
    → (pixels : List Pixel) × (paint_box s 0 0 m n color ≡ (pixel_at s 0 0, color) ∷ pixels)
unfolding paint_box paint_rows paint_row
first_pixel s color zero n hm hn wm wn = absurd (omega (arith, hm))
first_pixel s color (suc m) zero hm hn wm wn = absurd (omega (arith, hn))
first_pixel s color (suc m) (suc n) hm hn wm wn =
    let columns : rounds 0 (suc m) ≡ suc m = omega (arith, wm) in
    let lines : rounds 0 (suc n) ≡ suc n = omega (arith, wn) in rw (columns, lines) (_, refl)

paint-faults :
    (f : Screen → List Pixel) (d : Display) (p : Pixel) (pixels : List Pixel)
    → d.screen.map_len ≡ 0
    → f d.screen ≡ p ∷ pixels
    → paint f d ≡ none
unfolding paint
paint-faults f d p pixels h e =
    let outside : leb (p.0 + 4) 0 ≡ false = ground arith in
    rw (e, no_bytes-writable d.memory d.screen h, outside) refl

cleared :
    (d : Display)
    → IsUnmapped d
    → (p : Pixel) × (pixels : List Pixel) × (clear_all_pages d.screen Color.trans ≡ p ∷ pixels)
unfolding clear_all_pages get_safe_pages paint_pages
cleared d u =
    let s = record d.screen { yoffset = 0 * d.screen.yres % 4294967296 } in
    let (pixels, e) =
      first_pixel s Color.trans d.screen.xres d.screen.yres u.some_columns u.some_lines u.width
        u.height in
    let none_mapped : (d.screen.map_len == 0) ≡ true = rw u.no_bytes refl in
    ((pixel_at s 0 0, Color.trans), pixels, rw none_mapped e)

hide_old_content-faults : (d : Display) → IsUnmapped d → hide_old_content d ≡ none
unfolding hide_old_content
hide_old_content-faults d u =
    let s = d.screen in
    let (pixels, e) =
      first_pixel s Color.trans s.xres s.yres u.some_columns u.some_lines u.width u.height in
    let (p, pixels', e') = cleared d u in
    go (is_null d.memory) _ _
      (paint-faults (λ s. paint_box s 0 0 s.xres s.yres Color.trans) d _ pixels u.no_bytes e)
      (paint-faults (λ s. clear_all_pages s Color.trans) d p pixels' u.no_bytes e')
  where
    go : (b : Bool) (m k : F (Unit {0})) → m d ≡ none → k d ≡ none → (if b then m else k) d ≡ none
    go true m k hm hk = hm
    go false m k hm hk = hk

pub close-faults :
    (driver : Driver) (d : Display) → IsUnmapped d → close_framebuffer driver d ≡ none
unfolding close_framebuffer
close-faults driver d u = rw (hide_old_content-faults d u) refl
