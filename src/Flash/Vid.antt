-- ===== src/Flash/Vid.antt =====
-- flash_ubi_jffs2.c: `detect_vid_offset`, which looks for "UBI!" in the loop device's bytes.
use ofgwrite.Base.{ℕ, ◌+◌, ◌*◌, Bool, false, ◌&&◌, Option, none, some, List, [], ◌∷◌, ◌++◌}
use ofgwrite.Base.{◌≡◌, arith, ◌==◌, if◌then◌else◌, length, any, All, ◌∙◌, ap}
use ofgwrite.Base.Calls.{M, Env, pure, ◌>>=◌, read_file}
use ofgwrite.Base.Text.{Bytes}

-- strcmp(buffer, "BI!") == 0 for the three bytes that fread gave.
abbrev pub is_vid : ℕ → ℕ → ℕ → Bool
is_vid x y z = x == b'B' && (y == b'I' && z == b'!')

-- The loop. Behind a 'U' three bytes are read that `pos` does not count; with fewer than three left
-- `fread` meets the end of the file.
unfoldable pub find_vid : ℕ → Bytes → Option ℕ
find_vid pos [] = none
find_vid pos (c ∷ []) = none
find_vid pos (c ∷ x ∷ []) =
    let rest = find_vid (pos + 1) (x ∷ []) in if c == b'U' then none else rest
find_vid pos (c ∷ x ∷ y ∷ []) =
    let rest = find_vid (pos + 1) (x ∷ y ∷ []) in if c == b'U' then none else rest
find_vid pos (c ∷ x ∷ y ∷ z ∷ s) =
    let behind = find_vid (pos + 1) s in
    let next = find_vid (pos + 1) (x ∷ y ∷ z ∷ s) in
    if c == b'U' then if is_vid x y z then some (pos + 3) else behind else next

unfoldable pub find_vid_in : Option Bytes → Option ℕ
unfolding find_vid
find_vid_in none = none
find_vid_in (some s) = find_vid 0 s

unfoldable pub detect_vid_offset : Env → Bytes → M (Option ℕ)
unfolding find_vid_in
detect_vid_offset env ubi_loop_device = do
  found ← read_file env ubi_loop_device
  pure (find_vid_in found)

abbrev pub vid_magic : Bytes
vid_magic = b'U' ∷ b'B' ∷ b'I' ∷ b'!' ∷ []

-- Any other byte is counted.
find_vid_step :
    (pos c : ℕ) (s : Bytes) → (c == b'U') ≡ false → find_vid pos (c ∷ s) ≡ find_vid (pos + 1) s
unfolding find_vid
find_vid_step pos c [] h = ground arith
find_vid_step pos c (x ∷ []) h = ground arith
find_vid_step pos c (x ∷ y ∷ []) h = ground arith
find_vid_step pos c (x ∷ y ∷ z ∷ s) h = rw h

find_vid-append :
    (pos : ℕ) (gap s : Bytes)
    → any (λ c. c == b'U') gap ≡ false
    → find_vid pos (gap ++ s) ≡ find_vid (pos + length gap) s
find_vid-append pos [] s h = ap {B = Option ℕ} (λ p. find_vid p s) (omega arith)
find_vid-append pos (c ∷ gap) s h =
    find_vid_step pos c (gap ++ s) (ground arith)
    ∙ find_vid-append (pos + 1) gap s (ground arith)
    ∙ ap {B = Option ℕ} (λ p. find_vid p s) (omega arith)

find_vid_skip :
    (pos : ℕ) (gap rest : Bytes)
    → any (λ c. c == b'U') gap ≡ false
    → find_vid pos (gap ++ (vid_magic ++ rest)) ≡ some (pos + length gap + 3)
unfolding find_vid
find_vid_skip pos gap rest h = find_vid-append pos gap (vid_magic ++ rest) h

-- A 'U' that does not begin "UBI!" takes three more bytes with it, uncounted.
find_vid_block :
    (pos x y z : ℕ) (rest : Bytes)
    → is_vid x y z ≡ false
    → find_vid pos (b'U' ∷ x ∷ y ∷ z ∷ rest) ≡ find_vid (pos + 1) rest
unfolding find_vid
find_vid_block pos x y z rest k = rw k

find_vid_miss :
    (pos : ℕ) (gap rest : Bytes) (x y z : ℕ)
    → any (λ c. c == b'U') gap ≡ false
    → is_vid x y z ≡ false
    → find_vid pos (gap ++ (b'U' ∷ x ∷ y ∷ z ∷ rest)) ≡ find_vid (pos + length gap + 1) rest
find_vid_miss pos gap rest x y z h k =
    find_vid-append pos gap (b'U' ∷ x ∷ y ∷ z ∷ rest) h
    ∙ find_vid_block (pos + length gap) x y z rest k

-- A stretch of bytes with one 'U', three bytes in front of its end, that does not begin "UBI!".
pub record Miss : Type 0 where
  pub gap : Bytes
  pub x : ℕ
  pub y : ℕ
  pub z : ℕ

abbrev pub IsMiss : Miss → Type 0
IsMiss m = (any (λ c. c == b'U') m.gap ≡ false) × (is_vid m.x m.y m.z ≡ false)

-- The bytes of the stretches, in front of `back`.
abbrev pub before_vid : List Miss → Bytes → Bytes
before_vid [] back = back
before_vid (m ∷ ms) back = m.gap ++ (b'U' ∷ m.x ∷ m.y ∷ m.z ∷ before_vid ms back)

-- The length of the stretches.
abbrev pub length_of : List Miss → ℕ
length_of [] = 0
length_of (m ∷ ms) = length m.gap + 4 + length_of ms

find_vid_misses :
    (pos : ℕ) (ms : List Miss) (gap rest : Bytes)
    → All IsMiss ms
    → any (λ c. c == b'U') gap ≡ false
    → (offset : ℕ) × (find_vid pos (before_vid ms (gap ++ (vid_magic ++ rest))) ≡ some offset)
      × (offset + 3 * length ms ≡ pos + length_of ms + length gap + 3)
find_vid_misses pos [] gap rest hs h =
    (pos + length gap + 3, find_vid_skip pos gap rest h, omega arith)
find_vid_misses pos (m ∷ ms) gap rest hs h =
    let (offset, found, e) = find_vid_misses (pos + length m.gap + 1) ms gap rest hs.1 h in
    (
      offset,
      find_vid_miss pos m.gap (before_vid ms (gap ++ (vid_magic ++ rest))) m.x m.y m.z hs.0.0 hs.0.1
          ∙ found,
      omega arith,
    )

-- The VID header that stands behind exactly one other 'U', as behind the "UBI#" of the erase counter
-- header, is found at its offset in the image.
pub find_vid-one_miss :
    (m : Miss) (gap rest : Bytes)
    → IsMiss m
    → any (λ c. c == b'U') gap ≡ false
    → find_vid_in (some (before_vid (m ∷ []) (gap ++ (vid_magic ++ rest))))
      ≡ some (length_of (m ∷ []) + length gap)
unfolding find_vid_in
find_vid-one_miss m gap rest hm h =
    let (offset, found, e) = find_vid_misses 0 (m ∷ []) gap rest (hm, tt) h in
    found ∙ ap some (omega arith)

-- The VID header that stands behind some number of stretches with another 'U' is found, at an offset
-- that is larger by 3 than its own less 3 for each such stretch: it is its own behind exactly one.
pub find_vid-misses :
    (ms : List Miss) (gap rest : Bytes)
    → All IsMiss ms
    → any (λ c. c == b'U') gap ≡ false
    → (offset : ℕ) × (find_vid_in (some (before_vid ms (gap ++ (vid_magic ++ rest)))) ≡ some offset)
      × (offset + 3 * length ms ≡ length_of ms + length gap + 3)
unfolding find_vid_in
find_vid-misses ms gap rest hs h =
    let (offset, found, e) = find_vid_misses 0 ms gap rest hs h in (offset, found, omega arith)
