-- ===== src/Tests/Display.antt =====
-- The framebuffer at concrete inputs: a screen of 2 x 2 pixels, of which two pages are mapped, and one of
-- 1280 x 720.
use ofgwrite.Base.{true, some, [], ◌∷◌, ◌≡◌, refl, arith}
use ofgwrite.Screen.{Screen, Color, paint_box, paint_row, paint_rows, mmap_fb, get_safe_pages}
use ofgwrite.Screen.Inside.{IsUsable}

abbrev small_screen : Screen
small_screen = record {
  xres = 2;
  yres = 2;
  yres_virtual = 4;
  xoffset = 0;
  yoffset = 3;
  bits_per_pixel = 32;
  line_length = 8;
  smem_len = 0;
  map_len = 0;
}

-- The offset is behind the last page.
abbrev mapped_screen : Screen
mapped_screen = record small_screen { map_len = 32; yoffset = 0 }

maps : mmap_fb (λ _. true) small_screen ≡ some mapped_screen
unfolding mmap_fb get_safe_pages
maps = refl

mapped_screen-IsUsable : IsUsable mapped_screen
mapped_screen-IsUsable = record {
  columns = omega arith;
  page = omega arith;
  lines = omega arith;
  small = omega arith;
  some_columns = omega arith;
  some_lines = omega arith;
  width = omega arith;
  height = omega arith;
  no_offset = omega arith;
}

painted : paint_box mapped_screen 0 1 2 2 Color.red ≡ (8, Color.red) ∷ (12, Color.red) ∷ []
unfolding paint_box paint_rows paint_row
painted = refl

abbrev pub hd_screen : Screen
hd_screen = record {
  xres = 1280;
  yres = 720;
  yres_virtual = 2160;
  xoffset = 0;
  yoffset = 720;
  bits_per_pixel = 32;
  line_length = 5120;
  smem_len = 11059200;
  map_len = 11059200;
}

pub hd_screen-IsUsable : IsUsable hd_screen
hd_screen-IsUsable = record {
  columns = omega arith;
  page = omega arith;
  lines = omega arith;
  small = omega arith;
  some_columns = omega arith;
  some_lines = omega arith;
  width = omega arith;
  height = omega arith;
  no_offset = omega arith;
}
