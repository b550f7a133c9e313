-- ===== src/BootImage/Strings.antt =====
-- The command line in the header.
use mathlib.Core.List.{append_assoc}
use ofgwrite.Base.{ℕ, zero, suc, ◌-◌, ◌<◌, ◌≤◌, Bool, false, not}
use ofgwrite.Base.{[], ◌∷◌, ◌++◌, ◌≡◌, refl, ap, ◌∙◌, sym, arith, if◌then◌else◌, ◌==◌, leb}
use ofgwrite.Base.{length, take, drop, All, Pass, Bool-cases, inl, inr}
use ofgwrite.Base.Text.{Bytes}
use ofgwrite.BootImage.{zeros, field, extra}

unfoldable pub cstring : Bytes → Bytes
cstring [] = []
cstring (c ∷ s) = if c == 0 then [] else c ∷ cstring s

abbrev pub is_text : ℕ → Bool
is_text c = not (c == 0)

-- The bytes of a C string.
abbrev pub IsText : Bytes → Type 0
IsText s = All (Pass is_text) s

cstring-append : (s r : Bytes) → IsText s → cstring (s ++ (0 ∷ r)) ≡ s
unfolding cstring
cstring-append [] r h = refl
cstring-append (c ∷ s) r h =
    let not_nul : (c == 0) ≡ false = ground (arith, h.0) in
    rw (not_nul, cstring-append s r h.1) refl

cstring-zeros : (k : ℕ) (s r : Bytes) → 0 < k → IsText s → cstring (s ++ (zeros k ++ r)) ≡ s
cstring-zeros zero s r h t = ground (arith, h)
cstring-zeros (suc k) s r h t = cstring-append s (zeros k ++ r) t

take-all : (n : ℕ) (s : Bytes) → length s ≤ n → take n s ≡ s
take-all zero [] h = refl
take-all zero (c ∷ s) h = ground (arith, h)
take-all (suc n) [] h = refl
take-all (suc n) (c ∷ s) h = ap (λ l. c ∷ l) (take-all n s (omega (arith, h)))

take-IsText : (n : ℕ) (s : Bytes) → IsText s → IsText (take n s)
take-IsText zero s h = tt
take-IsText (suc n) [] h = tt
take-IsText (suc n) (c ∷ s) h = (h.0, take-IsText n s h.1)

drop-IsText : (n : ℕ) (s : Bytes) → IsText s → IsText (drop n s)
drop-IsText zero s h = h
drop-IsText (suc n) [] h = tt
drop-IsText (suc n) (c ∷ s) h = drop-IsText n s h.1

length-drop : (n : ℕ) (s : Bytes) → length (drop n s) ≡ length s - n
length-drop zero s = omega arith
length-drop (suc n) [] = omega arith
length-drop (suc n) (c ∷ s) = omega (arith, length-drop n s)

drop-nil : (n : ℕ) (s : Bytes) → length s ≤ n → drop n s ≡ []
drop-nil zero [] h = refl
drop-nil zero (c ∷ s) h = ground (arith, h)
drop-nil (suc n) [] h = refl
drop-nil (suc n) (c ∷ s) h = drop-nil n s (omega (arith, h))

take-drop : (n : ℕ) (s : Bytes) → take n s ++ drop n s ≡ s
take-drop zero s = refl
take-drop (suc n) [] = refl
take-drop (suc n) (c ∷ s) = ap (λ l. c ∷ l) (take-drop n s)

extra_lem : (s : Bytes) → extra s ≡ drop 511 s
extra_lem s = elim (Bool-cases (leb 511 (length s))) [
  | inl long ↦ simp long refl
  | inr short ↦ simp short (sym (drop-nil 511 s (ground arith)))
]

-- A field that is not full.
cstring-field : (n : ℕ) (s r : Bytes) → length s < n → IsText s → cstring (field n s ++ r) ≡ s
unfolding field
cstring-field n s r h t =
    ap cstring (
      append_assoc (take n s) (zeros (n - length s)) r
      ∙ ap (λ l. l ++ (zeros (n - length s) ++ r)) (take-all n s (omega (arith, h))))
    ∙ cstring-zeros (n - length s) s r (omega (arith, h)) t

zeros-snoc : (k : ℕ) → zeros k ++ zeros 1 ≡ zeros (suc k)
zeros-snoc zero = refl
zeros-snoc (suc k) = ap (λ l. 0 ∷ l) (zeros-snoc k)

-- The first field, of which one byte is kept zero.
cstring-first : (s r : Bytes) → IsText s → cstring ((field 511 s ++ zeros 1) ++ r) ≡ take 511 s
unfolding field
cstring-first s r t =
    let k = 511 - length s in
    ap cstring (
      ap (λ l. l ++ r) (append_assoc (take 511 s) (zeros k) (zeros 1))
      ∙ append_assoc (take 511 s) (zeros k ++ zeros 1) r
      ∙ ap (λ l. take 511 s ++ (l ++ r)) (zeros-snoc k))
    ∙ cstring-zeros (suc k) (take 511 s) r (omega arith) (take-IsText 511 s t)

-- The two parts of a command line that is not too long.
pub cmdline-parts :
    (s r r' : Bytes)
    → length s ≤ 1534
    → IsText s
    → cstring ((field 511 s ++ zeros 1) ++ r) ++ cstring (field 1024 (extra s) ++ r') ≡ s
cmdline-parts s r r' h t =
    rw
      (
        cstring-first s r t,
        extra_lem s,
        cstring-field 1024 (drop 511 s) r' (omega (arith, length-drop 511 s, h))
            (drop-IsText 511 s t),
      )
      (take-drop 511 s)
