-- ===== src/Base/Text/Laws.antt =====
-- What proofs elsewhere use of the string functions.
use Prim.Native.Nat.{ℕ}
use mathlib.Core.Path.{◌≡◌, refl, ap}
use mathlib.Core.Logic.{◌↔◌}
use mathlib.Core.Bool.{Bool, true, false}
use mathlib.Core.Option.{none, some}
use mathlib.Core.List.{List, [], ◌∷◌, ◌++◌}
use native.Mathlib.Omega.{arith}
use ofgwrite.Base.Lists.{any, All}
use ofgwrite.Base.Tests.{◌==◌}
use ofgwrite.Base.Text.Defs.{Bytes, str_eq, starts_with, strstr, contains, cut, split}

-- str_eq decides equality.
pub str_eq_iff : (s t : Bytes) → (str_eq s t ≡ true) ↔ (s ≡ t)
unfolding str_eq
str_eq_iff [] [] = ground arith
str_eq_iff [] (b ∷ t) = ground arith
str_eq_iff (a ∷ s) [] = ground arith
str_eq_iff (a ∷ s) (b ∷ t) = ground (arith, str_eq_iff s t)

pub str_eq_same : (s : Bytes) → str_eq s s ≡ true
str_eq_same s = ground (arith, str_eq_iff s s)

pub starts_with-append : (s t : Bytes) → starts_with (s ++ t) s ≡ true
unfolding starts_with
starts_with-append [] t = refl
starts_with-append (a ∷ s) t = ground (arith, starts_with-append s t)

-- A text with no separator is cut at the end, and one with a separator in front of it.
pub cut-none : (c : ℕ) (s : Bytes) → any (λ b. b == c) s ≡ false → cut c s ≡ (s, none)
unfolding cut
cut-none c [] h = refl
cut-none c (b ∷ s) h = ground (arith, cut-none c s)

pub cut_append :
    (c : ℕ) (s t : Bytes) → any (λ b. b == c) s ≡ false → cut c (s ++ c ∷ t) ≡ (s, some t)
unfolding cut
cut_append c [] t h = ground arith
cut_append c (b ∷ s) t h = ground (arith, cut_append c s t)

-- Each round of such a loop takes the text in front of the next separator.
pub split-cut :
    (c : ℕ) (s : Bytes)
    → split c s ≡ (cut c s).0 ∷ (elim ((cut c s).1) [ none ↦ [] | some t ↦ split c t ])
unfolding cut split
split-cut c [] = refl
split-cut c (b ∷ s) = ground (arith, split-cut c s)

-- The texts with a separator between them.
abbrev pub join : ℕ → Bytes → List Bytes → Bytes
join c w [] = w
join c w (v ∷ ws) = w ++ c ∷ join c v ws

pub split-join :
    (c : ℕ) (w : Bytes) (ws : List Bytes)
    → any (λ b. b == c) w ≡ false
    → All (λ v. any (λ b. b == c) v ≡ false) ws
    → split c (join c w ws) ≡ w ∷ ws
split-join c w [] h hs = rw (split-cut c w, cut-none c w h)
split-join c w (v ∷ ws) h hs =
    rw (split-cut c (w ++ c ∷ join c v ws), cut_append c w (join c v ws) h)
      (ap (λ l. w ∷ l) (split-join c v ws hs.0 hs.1))

pub contains_byte : (c : ℕ) (s t : Bytes) → contains (s ++ c ∷ t) (c ∷ []) ≡ true
unfolding contains starts_with
contains_byte c [] t = ground arith
contains_byte c (b ∷ s) t = ground (arith, contains_byte c s t)

pub contains_no_byte :
    (c : ℕ) (s : Bytes) → any (λ b. b == c) s ≡ false → contains s (c ∷ []) ≡ false
unfolding contains starts_with
contains_no_byte c [] h = ground arith
contains_no_byte c (b ∷ s) h = ground (arith, contains_no_byte c s (ground arith))

pub any-append_false :
    (p : ℕ → Bool) (s t : Bytes) → any p s ≡ false → any p t ≡ false → any p (s ++ t) ≡ false
any-append_false p [] t h k = k
any-append_false p (b ∷ s) t h k = ground (arith, any-append_false p s t)

-- `key` stands at no place of `front ++ back` that lies in `front`.
abbrev pub NotBefore : Bytes → Bytes → Bytes → Type 0
NotBefore key [] back = Unit
NotBefore key (c ∷ front) back =
    (starts_with ((c ∷ front) ++ back) key ≡ false) × NotBefore key front back

strstr_here : (key s : Bytes) → starts_with s key ≡ true → strstr s key ≡ some s
unfolding strstr
strstr_here key [] h = ground arith
strstr_here key (c ∷ s) h = ground arith

pub strstr-append :
    (key front back : Bytes)
    → NotBefore key front (key ++ back)
    → strstr (front ++ (key ++ back)) key ≡ some (key ++ back)
unfolding strstr
strstr-append key [] back h = strstr_here key (key ++ back) (starts_with-append key back)
strstr-append key (c ∷ front) back h = ground (arith, strstr-append key front back h.1)
