-- ===== src/Screen/Device/Triples.antt =====
-- Total correctness of what is done with the framebuffer: no fault, and a postcondition.
use ofgwrite.Base.{
  Bool, true, false, if◌then◌else◌, Option, none, some, List, All, all, leb, refl, arith, ◌≡◌,
}
use ofgwrite.Base.{◌+◌, [], ◌∷◌}
use ofgwrite.Screen.{Screen, Pixel}
use ofgwrite.Screen.Inside.{IsInside}
use ofgwrite.Screen.Device.{Display, Memory, F, bind, paint, writable}

-- There is no fault, and `Q` holds of the result and of what is left.
abbrev pub Returns : {A : Type 0} → (A → Display → Type 0) → Option (A × Display) → Type 0
Returns Q none = ⊥
Returns Q (some (a, d)) = Q a d

pub bind-Returns :
    {A B : Type 0} (P : A → Display → Type 0) (Q : B → Display → Type 0) (r : Option (A × Display))
    (f : A → F B)
    → Returns P r
    → ((a : A) (d : Display) → P a d → Returns Q (f a d))
    → Returns Q (bind r f)
bind-Returns P Q none f h next = h
bind-Returns P Q (some (a, d)) f h next = next a d h

pub bind-faults :
    {A B : Type 0} (P : A → Display → Type 0) (r : Option (A × Display)) (f : A → F B)
    → Returns P r
    → ((a : A) (d : Display) → P a d → f a d ≡ none)
    → bind r f ≡ none
bind-faults P none f h fault = refl
bind-faults P (some (a, d)) f h fault = fault a d h

-- Where it does not matter how a test ends.
pub if-Returns :
    {A : Type 0} (Q : A → Display → Type 0) (b : Bool) (m k : F A) (d : Display)
    → Returns Q (m d)
    → Returns Q (k d)
    → Returns Q ((if b then m else k) d)
if-Returns Q true m k d hm hk = hm
if-Returns Q false m k d hm hk = hk

pub Returns-weaken :
    {A : Type 0} (P Q : A → Display → Type 0) (r : Option (A × Display))
    → Returns P r
    → ((a : A) (d : Display) → P a d → Q a d)
    → Returns Q r
Returns-weaken P Q none h weaken = h
Returns-weaken P Q (some (a, d)) h weaken = weaken a d h

-- Pixels of the mapping are painted without a fault.
all_inside :
    (s : Screen) (pixels : List Pixel)
    → All (IsInside s) pixels
    → all (λ p. leb (p.0 + 4) (writable Memory.mapped s)) pixels ≡ true
all_inside s [] h = ground arith
all_inside s (p ∷ pixels) h = ground (arith, h, all_inside s pixels h.1)

pub paint-Returns :
    (Q : Unit {0} → Display → Type 0) (f : Screen → List Pixel) (d : Display)
    → d.memory ≡ Memory.mapped
    → All (IsInside d.screen) (f d.screen)
    → ((painted : List Pixel) → Q tt (record d { painted = painted }))
    → Returns Q (paint f d)
unfolding paint
paint-Returns Q f d mapped inside q =
    let fits : all (λ p. leb (p.0 + 4) (writable d.memory d.screen)) (f d.screen) ≡ true =
      rw mapped (all_inside d.screen (f d.screen) inside) in
    rw fits (q _)
