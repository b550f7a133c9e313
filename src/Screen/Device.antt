-- ===== src/Screen/Device.antt =====
-- fb.c: the framebuffer's device, from its opening to its closing. A fault, which is a write outside of
-- the mapping or a division by zero, is `none`. What the code asks of the system is recorded, newest
-- first, and a driver answers from the requests before; what is painted is recorded in its order.
pub mod Triples
use ofgwrite.Base.{ℕ, ◌+◌, ◌*◌, ◌/◌, ◌%◌, Bool, true, false, Option, none, some}
use ofgwrite.Base.{List, [], ◌∷◌, ◌++◌, if◌then◌else◌, ◌==◌, leb, all}
use ofgwrite.Base.Text.{Bytes}
use ofgwrite.Screen.{Screen, Color, Pixel, word, paint_box, clear_all_pages, get_safe_pages}
use ofgwrite.Screen.{wanted_len}
use ofgwrite.Screen.{mmap_fb as mapped_screen}
use ofgwrite.Screen.Window.{Window, Bar}

-- The system calls; `put_var` has the mode that is asked for.
pub data Request : Type 0 where
  open_fd close_fd send_blit get_var get_fix : Request
  set_blit : Bool → Request
  put_var : Screen → Request
  mmap munmap msync : ℕ → Request
  access showiframe : Bytes → Request

-- `mode` is what the ioctls that read the screen's information fill in.
pub record Driver : Type 0 where
  pub succeeds : List Request → Request → Bool
  pub mode : List Request → Screen

-- What g_lfb points to: nothing, the mapping, or where the mapping was before `munmap`.
pub data Memory : Type 0 where
  null mapped unmapped : Memory

-- The globals of fb.c, and what has been asked and painted.
pub record Display : Type 0 where
  pub is_open : Bool
  pub manual_blit : Bool
  pub memory : Memory
  pub screen : Screen
  pub pages : ℕ
  pub window : Window
  pub bars : Bar × Bar
  pub steps : ℕ
  pub step : ℕ
  pub asked : List Request
  pub painted : List Pixel

abbrev pub F : Type 0 → Type 0
F A = Display → Option (A × Display)

abbrev pub pure : {A : Type 0} → A → F A
pure a d = some (a, d)

abbrev pub bind : {A B : Type 0} → Option (A × Display) → (A → F B) → Option (B × Display)
bind none f = none
bind (some (a, d)) f = f a d

infixl 5 ◌>>=◌ ◌>>◌
abbrev pub ◌>>=◌ : {A B : Type 0} → F A → (A → F B) → F B
◌>>=◌ m f d = bind (m d) f

abbrev pub ◌>>◌ : {B : Type 0} → F (Unit {0}) → F B → F B
◌>>◌ m k d = bind (m d) (λ _. k)

abbrev pub get : {A : Type 0} → (Display → A) → F A
get f d = some (f d, d)

abbrev pub modify : (Display → Display) → F (Unit {0})
modify f d = some (tt, f d)

abbrev pub change_screen : (Screen → Screen) → F (Unit {0})
change_screen f = modify λ d. record d { screen = f d.screen }

abbrev pub ask : Driver → Request → F Bool
ask driver r d = some (driver.succeeds d.asked r, record d { asked = r ∷ d.asked })

-- A call whose result is not used.
abbrev pub tell : Request → F (Unit {0})
tell r = modify λ d. record d { asked = r ∷ d.asked }

-- The bytes behind g_lfb that may be written.
abbrev pub writable : Memory → Screen → ℕ
writable Memory.mapped s = s.map_len
writable _ s = 0

-- `memcpy` through the pointer, for every pixel.
unfoldable pub paint : (Screen → List Pixel) → F (Unit {0})
paint f d =
    let pixels = f d.screen in
    if all (λ p. leb (p.0 + 4) (writable d.memory d.screen)) pixels
    then some (tt, record d { painted = d.painted ++ pixels })
    else none

-- What the ioctls fill in.
abbrev pub filled_var : Screen → Screen → Screen
filled_var v s = record s {
  xres = v.xres;
  yres = v.yres;
  yres_virtual = v.yres_virtual;
  xoffset = v.xoffset;
  yoffset = v.yoffset;
  bits_per_pixel = v.bits_per_pixel;
}

abbrev pub filled_fix : Screen → Screen → Screen
filled_fix v s = record s { line_length = v.line_length; smem_len = v.smem_len }

-- An ioctl that fills in a part of the screen's information, if it succeeds.
abbrev pub ask_screen : Driver → Request → (Screen → Screen → Screen) → F Bool
ask_screen driver r fill = do
  asked ← get (λ d. d.asked)
  ok ← ask driver r
  if ok then change_screen (fill (driver.mode asked)) else pure tt
  pure ok

unfoldable pub blit : F (Unit {0})
blit = do manual ← get (λ d. d.manual_blit); if manual then tell Request.send_blit else pure tt

abbrev pub set_manual_blit : Driver → Bool → F (Unit {0})
set_manual_blit driver value = do
  ok ← ask driver (Request.set_blit value)
  if ok then modify (λ d. record d { manual_blit = value }) else pure tt

unfoldable pub enable_manual_blit : Driver → F (Unit {0})
enable_manual_blit driver = set_manual_blit driver true

unfoldable pub disable_manual_blit : Driver → F (Unit {0})
disable_manual_blit driver = set_manual_blit driver false

-- `if (g_lfb) clear_all_pages(TRANS); else paint_box(...);`
abbrev pub is_null : Memory → Bool
is_null Memory.null = true
is_null _ = false

unfoldable pub hide_old_content : F (Unit {0})
unfolding paint
hide_old_content = do
  missing ← get (λ d. is_null d.memory)
  if missing
      then paint (λ s. paint_box s 0 0 s.xres s.yres Color.trans)
      else paint (λ s. clear_all_pages s Color.trans)

abbrev pub mapping_len : Screen → ℕ
mapping_len s = if s.map_len == 0 then s.smem_len else s.map_len

abbrev pub unmap : F (Unit {0})
unmap = do
  len ← get (λ d. mapping_len d.screen)
  tell (Request.msync len)
  tell (Request.munmap len)
  modify (λ d. record d { memory = Memory.unmapped; screen = record d.screen { map_len = 0 } })

unfoldable pub close_device : Driver → F (Unit {0})
unfolding disable_manual_blit
close_device driver = do
  disable_manual_blit driver
  tell Request.close_fd
  modify (λ d. record d { is_open = false })

unfoldable pub close_framebuffer : Driver → F (Unit {0})
unfolding hide_old_content close_device
close_framebuffer driver = do
  hide_old_content
  missing ← get (λ d. is_null d.memory)
  if missing then pure tt else unmap
  is_open ← get (λ d. d.is_open)
  if is_open then close_device driver else pure tt

unfoldable pub get_screeninfo : Driver → F Bool
get_screeninfo driver = do
  has_var ← ask_screen driver Request.get_var filled_var
  if has_var then ask_screen driver Request.get_fix filled_fix else pure false

-- `yres` is written back, and the driver is asked for each virtual height in turn.
unfoldable pub try_heights : Driver → Screen → List ℕ → F Bool
try_heights driver orig [] = pure false
try_heights driver orig (height ∷ heights) = do
  let wanted = record orig { yres_virtual = height; xoffset = 0; yoffset = 0 }
  change_screen (λ _. wanted)
  applied ← ask_screen driver (Request.put_var wanted) filled_var
  if applied then pure true else try_heights driver orig heights

abbrev pub shown_pages : Screen → ℕ
shown_pages s =
    if s.yres == 0 then 1 else (let n = s.yres_virtual / s.yres in if n == 0 then 1 else n)

-- Three pages are tried first, then two and one. What the driver accepted is read back.
abbrev pub heights : ℕ → List ℕ
heights yres = yres * 3 % word ∷ yres * 2 % word ∷ yres ∷ []

unfoldable pub read_back : Driver → F Bool
unfolding get_screeninfo
read_back driver = do
  read ← get_screeninfo driver
  if read then modify (λ d. record d { pages = shown_pages d.screen }) else pure tt
  pure read

unfoldable pub set_screeninfo : Driver → F Bool
unfolding try_heights read_back
set_screeninfo driver = do
  orig ← get (λ d. d.screen)
  applied ← try_heights driver orig (if orig.yres == 0 then [] else heights orig.yres)
  if orig.yres == 0 then pure true else read_back driver

unfoldable pub open_framebuffer : Driver → F Bool
unfolding enable_manual_blit
open_framebuffer driver = do
  opened ← ask driver Request.open_fd
  if opened
      then (do modify (λ d. record d { is_open = true }); enable_manual_blit driver; pure true)
      else pure false

-- Behind the call of `mmap`; g_fbPages is the number of pages before the offset is changed.
abbrev pub after_mmap : Option Screen → F Bool
after_mmap none = do
  modify (λ d. record d { memory = Memory.null; screen = record d.screen { map_len = 0 } })
  pure false
after_mmap (some s) = do
  modify (λ d. record d { memory = Memory.mapped; screen = s; pages = get_safe_pages s })
  pure true

unfoldable pub mmap_fb : Driver → F Bool
mmap_fb driver = do
  s ← get (λ d. d.screen)
  if wanted_len s == 0 then pure false else (do
    ok ← ask driver (Request.mmap (wanted_len s))
    after_mmap (mapped_screen (λ _. ok) s))

-- The mode of 1280 x 720 with 32 bits; no function calls it.
unfoldable pub set_fb_resolution : Driver → F Bool
unfolding get_screeninfo
set_fb_resolution driver = do
  change_screen (λ s. record s {
    xres = 1280;
    yres = 720;
    yres_virtual = 720;
    bits_per_pixel = 32;
    xoffset = 0;
    yoffset = 0;
  })
  s ← get (λ d. d.screen)
  put ← ask_screen driver (Request.put_var s) filled_var
  if put
      then (do
        read ← get_screeninfo driver
        bits ← get (λ d. d.screen.bits_per_pixel)
        if read then pure (bits == 32) else pure false)
      else pure false
