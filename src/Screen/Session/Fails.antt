-- ===== src/Screen/Session/Fails.antt =====
-- `init_framebuffer` where the mapping fails.
use ofgwrite.Base.{ℕ, ◌≡◌, false}
use ofgwrite.Base.{List}
use ofgwrite.Screen.{Screen, mmap_fb as mapped_screen}
use ofgwrite.Screen.Device.{Driver, Request}
use ofgwrite.Screen.Device.{mmap_fb}

-- Every mapping fails.
abbrev pub IsUnmappable : Driver → Type 0
IsUnmappable driver = (t : List Request) (len : ℕ) → driver.succeeds t (Request.mmap len) ≡ false
