-- ===== src/ProcEntry.antt =====
-- ofgwrite.c: `ReadProcEntry`, which reads the name of the box from a file of /proc.
-- `content` is what the file holds, where it can be opened, `is_signed` says whether `char` has a sign,
-- `garbage` is what the buffer held before, and `is_allocated` says whether `malloc` succeeds.
use ofgwrite.Base.{ℕ, zero, suc, ◌≤◌, ◌<◌, ◌≡◌, ◌≢◌, Bool, true, false, ◌&&◌, Option, none, some}
use ofgwrite.Base.{[], ◌∷◌, ◌++◌, ◌==◌, if◌then◌else◌, length, All, any, refl, ap, arith}
use ofgwrite.Base.Text.{Bytes, cut, cut-none}

-- `c = fgetc(file)`: EOF is -1, of which a `char` keeps 8 bits, and its sign where it has one.
abbrev pub fgetc : Bytes → ℕ × Bytes
fgetc [] = (255, [])
fgetc (c ∷ bytes) = (c, bytes)

abbrev pub is_eof : Bool → ℕ → Bool
is_eof is_signed c = is_signed && c == 255

-- The bytes that are stored in the rounds that are left, and whether a newline has ended the loop.
unfoldable pub read_name : Bool → ℕ → Bytes → Bytes × Bool
read_name is_signed zero bytes = ([], false)
read_name is_signed (suc n) bytes =
    let (c, bytes') = fgetc bytes in
    let (name, ended) = read_name is_signed n bytes' in
    if is_eof is_signed c then ([], false) else if c == 10 then ([], true) else (c ∷ name, ended)

-- The zero stands behind the name where a newline has ended it, and one byte later elsewhere.
abbrev pub name_in_buffer : (ℕ → ℕ) → Bytes → Bool → Bytes
name_in_buffer garbage name ended =
    (cut 0 (if ended then name else name ++ garbage (length name) ∷ [])).0

unfoldable pub read_proc_entry : Bool → (ℕ → ℕ) → Bool → Option Bytes → Option Bytes
unfolding read_name
read_proc_entry is_signed garbage is_allocated none = none
read_proc_entry is_signed garbage is_allocated (some content) =
    let (name, ended) = read_name is_signed 18 content in
    if is_allocated then some (name_in_buffer garbage name ended) else none

-- The bytes of a name: not the newline, no zero, and not what EOF becomes.
abbrev pub IsNameByte : ℕ → Type 0
IsNameByte c = (c ≢ 10) × (c ≢ 0) × (c ≢ 255)

is_eof-name : (is_signed : Bool) (c : ℕ) → c ≢ 255 → is_eof is_signed c ≡ false
is_eof-name is_signed c h = ground (arith, h)

==-false : (a b : ℕ) → a ≢ b → (a == b) ≡ false
==-false a b h = ground (arith, h)

read_name-line :
    (is_signed : Bool) (n : ℕ) (name rest : Bytes)
    → All IsNameByte name
    → length name < n
    → read_name is_signed n (name ++ 10 ∷ rest) ≡ (name, true)
unfolding read_name
read_name-line is_signed zero name rest hs h = absurd (omega (arith, h))
read_name-line is_signed (suc n) [] rest hs h = rw (is_eof-name is_signed 10 (ground arith)) refl
read_name-line is_signed (suc n) (c ∷ name) rest hs h =
    rw
      (
        read_name-line is_signed n name rest hs.1 (omega (arith, h)),
        is_eof-name is_signed c hs.0.2,
        ==-false c 10 hs.0.0,
      )
      refl

no_zero : (name : Bytes) → All IsNameByte name → any (λ b. b == 0) name ≡ false
no_zero [] hs = refl
no_zero (c ∷ name) hs = rw (==-false c 0 hs.0.1) (no_zero name hs.1)

-- A first line of at most 17 bytes, none of which is a zero or 255, is read back without its newline,
-- whatever follows it in the file and whatever the buffer held before.
pub read_proc_entry-line :
    (is_signed : Bool) (garbage : ℕ → ℕ) (name rest : Bytes)
    → All IsNameByte name
    → length name ≤ 17
    → read_proc_entry is_signed garbage true (some (name ++ 10 ∷ rest)) ≡ some name
unfolding read_proc_entry
read_proc_entry-line is_signed garbage name rest hs h =
    let whole : name_in_buffer garbage name true ≡ name =
      ap (λ r. r.0) (cut-none 0 name (no_zero name hs)) in
    rw (read_name-line is_signed 18 name rest hs (omega (arith, h)), whole) refl
