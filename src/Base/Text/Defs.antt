-- ===== src/Base/Text/Defs.antt =====
-- strcmp, strncmp, strstr, strtoul, sscanf and printf's decimal numbers.
use Prim.Native.Nat.{ℕ, zero, suc, ◌+◌, ◌-◌, ◌*◌, ◌/◌, ◌%◌}
use Prim.Native.Char.{code}
use Prim.Native.String.{String}
use mathlib.Core.Bool.{Bool, true, false, ◌&&◌, ◌||◌}
use mathlib.Core.Option.{Option, none, some}
use mathlib.Core.List.{List, [], ◌∷◌}
use ofgwrite.Base.Int.{ℤ, pos, negsuc}
use ofgwrite.Base.Tests.{◌==◌, leb, if◌then◌else◌}

abbrev pub Bytes : Type 0
Bytes = List ℕ

-- A string literal. It stays shut in proofs.
unfoldable pub lit : String → Bytes
lit String.[] = []
lit (String.◌∷◌ c s) = code c ∷ lit s

-- strcmp(s, t) == 0
unfoldable pub str_eq : Bytes → Bytes → Bool
str_eq [] [] = true
str_eq [] (_ ∷ _) = false
str_eq (_ ∷ _) [] = false
str_eq (a ∷ s) (b ∷ t) = a == b && str_eq s t

-- strncmp(s, t, strlen(t)) == 0
unfoldable pub starts_with : Bytes → Bytes → Bool
starts_with s [] = true
starts_with [] (_ ∷ _) = false
starts_with (a ∷ s) (b ∷ t) = a == b && starts_with s t

-- strstr(s, t): the text from the first place on where `t` stands.
unfoldable pub strstr : Bytes → Bytes → Option Bytes
unfolding starts_with
strstr [] t = if starts_with [] t then some [] else none
strstr (c ∷ s) t = let rest = strstr s t in if starts_with (c ∷ s) t then some (c ∷ s) else rest

-- strstr(s, t) != NULL
abbrev pub is_some {ℓ} : {A : Type ℓ} → Option A → Bool
is_some none = false
is_some (some _) = true

unfoldable pub contains : Bytes → Bytes → Bool
unfolding strstr
contains s t = is_some (strstr s t)

-- `if ((pos = strstr(s, "c")) != NULL) *pos = '\0';` for one byte c: the text in front of the
-- first c, and the text behind it if there is one.
unfoldable pub cut : ℕ → Bytes → Bytes × Option Bytes
cut c [] = ([], none)
cut c (b ∷ s) = let (front, back) = cut c s in if b == c then ([], some s) else (b ∷ front, back)

abbrev pub is_empty : Bytes → Bool
is_empty [] = true
is_empty (_ ∷ _) = false

-- %u
unfoldable pub decimal_onto : ℕ → ℕ → Bytes → Bytes
decimal_onto zero n acc = acc
decimal_onto (suc f) n acc =
    let digit = b'0' + n % 10 in
    let rest = decimal_onto f (n / 10) (digit ∷ acc) in if leb n 9 then digit ∷ acc else rest

-- n has fewer than n + 1 digits, so the fuel is enough.
unfoldable pub decimal : ℕ → Bytes
unfolding decimal_onto
decimal n = decimal_onto (n + 1) n []

-- %d
unfoldable pub int_decimal : ℤ → Bytes
unfolding decimal
int_decimal (pos n) = decimal n
int_decimal (negsuc n) = b'-' ∷ decimal (n + 1)

-- isspace
abbrev pub is_space : ℕ → Bool
is_space c = c == 32 || (leb 9 c && leb c 13)

-- One `%s` of sscanf: white space is skipped, then the longest text without white space is read.
unfoldable pub skip_space : Bytes → Bytes
skip_space [] = []
skip_space (c ∷ s) = let rest = skip_space s in if is_space c then rest else c ∷ s

unfoldable pub word : Bytes → Bytes × Bytes
word [] = ([], [])
word (c ∷ s) = let (w, rest) = word s in if is_space c then ([], c ∷ s) else (c ∷ w, rest)

-- The value of a hexadecimal digit, 16 for any other byte.
unfoldable pub hex_digit : ℕ → ℕ
hex_digit c =
    if leb b'0' c && leb c b'9'
    then c - b'0'
    else if leb b'a' c && leb c b'f'
    then c - b'a' + 10
    else if leb b'A' c && leb c b'F'
    then c - b'A' + 10
    else 16

-- strtoul(s, 0, 16) on digits, up to the first byte that is none. A prefix "0x" is not read: the
-- kernel prints the sizes in /proc/mtd without it.
unfoldable pub hex_onto : ℕ → Bytes → ℕ
unfolding hex_digit
hex_onto acc [] = acc
hex_onto acc (c ∷ s) =
    let rest = hex_onto (acc * 16 + hex_digit c) s in if leb (hex_digit c) 15 then rest else acc

unfoldable pub strtoul16 : Bytes → ℕ
unfolding hex_onto
strtoul16 s = hex_onto 0 s

-- The texts between the separators, as a loop with `cut` meets them.
unfoldable pub split : ℕ → Bytes → List Bytes
split c [] = [] ∷ []
split c (b ∷ s) =
    let rest = split c s in
    if b == c then [] ∷ rest else elim rest [ [] ↦ (b ∷ []) ∷ [] | w ∷ ws ↦ (b ∷ w) ∷ ws ]

-- The digits at the front of a text as a number, `acc` in front of them.
unfoldable pub digits_onto : ℕ → Bytes → ℕ
digits_onto acc [] = acc
digits_onto acc (c ∷ s) =
    let rest = digits_onto (acc * 10 + (c - b'0')) s in
    if leb b'0' c && leb c b'9' then rest else acc

-- `%u` of fscanf: without a digit the variable keeps its old value.
unfoldable pub scan_digits : ℕ → Bytes → ℕ
unfolding digits_onto
scan_digits old [] = old
scan_digits old (c ∷ s) = if leb b'0' c && leb c b'9' then digits_onto 0 (c ∷ s) else old

unfoldable pub scan_uint : ℕ → Bytes → ℕ
unfolding scan_digits skip_space
scan_uint old s = scan_digits old (skip_space s)
