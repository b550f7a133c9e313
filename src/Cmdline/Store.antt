-- ===== src/Cmdline/Store.antt =====
-- `find_store_substring` finds the value of a key in a command line.
use mathlib.Core.List.{append_assoc}
use ofgwrite.Base.{false, ◌++◌, any, [], ◌∷◌, ◌==◌, ◌≡◌, refl}
use ofgwrite.Base.{drop-append, sym, ap, ◌∙◌}
use ofgwrite.Base.Text.{Bytes, lit, cut_append, contains_byte, contains_no_byte}
use ofgwrite.Base.Text.{any-append_false, NotBefore, strstr-append}
use ofgwrite.Cmdline.{find_store_substring, value_at, newline}

value_at-space :
    (key word rest : Bytes)
    → any (λ c. c == b' ') (key ++ word) ≡ false
    → value_at key ((key ++ word) ++ b' ' ∷ rest) ≡ word
unfolding value_at lit
value_at-space key word rest h =
    rw (contains_byte b' ' (key ++ word) rest, cut_append b' ' (key ++ word) rest h)
      (drop-append key word)

value_at-newline :
    (key word : Bytes)
    → any (λ c. c == b' ') (key ++ word) ≡ false
    → any (λ c. c == newline) (key ++ word) ≡ false
    → value_at key ((key ++ word) ++ newline ∷ []) ≡ word
unfolding value_at lit
value_at-newline key word h k =
    rw
      (
        contains_no_byte b' ' ((key ++ word) ++ newline ∷ [])
            (any-append_false (λ c. c == b' ') (key ++ word) (newline ∷ []) h refl),
        contains_byte newline (key ++ word) [],
        cut_append newline (key ++ word) [] k,
      )
      (drop-append key word)

find_store_substring_at :
    (front key back dest : Bytes)
    → NotBefore key front (key ++ back)
    → find_store_substring (front ++ (key ++ back)) key dest ≡ value_at key (key ++ back)
unfolding find_store_substring
find_store_substring_at front key back dest h =
    rw (strstr-append key front back h, find_store_substring)

-- In a line where the key, which has no space, stands first in front of a word that a space ends, the
-- word is stored, whatever follows the space.
pub find_store_substring-space :
    (front key word rest dest : Bytes)
    → NotBefore key front (key ++ (word ++ b' ' ∷ rest))
    → any (λ c. c == b' ') key ≡ false
    → any (λ c. c == b' ') word ≡ false
    → find_store_substring (front ++ (key ++ (word ++ b' ' ∷ rest))) key dest ≡ word
find_store_substring-space front key word rest dest h hk hw =
    find_store_substring_at front key (word ++ b' ' ∷ rest) dest h
    ∙ ap (value_at key) (sym (append_assoc key word (b' ' ∷ rest)))
    ∙ value_at-space key word rest (any-append_false (λ c. c == b' ') key word hk hw)

-- In a line where the key, which has no space and no newline, stands first in front of the last word,
-- which the newline ends, that word is stored.
pub find_store_substring-newline :
    (front key word dest : Bytes)
    → NotBefore key front (key ++ (word ++ newline ∷ []))
    → any (λ c. c == b' ') key ≡ false
    → any (λ c. c == b' ') word ≡ false
    → any (λ c. c == newline) key ≡ false
    → any (λ c. c == newline) word ≡ false
    → find_store_substring (front ++ (key ++ (word ++ newline ∷ []))) key dest ≡ word
find_store_substring-newline front key word dest h hk hw nk nw =
    find_store_substring_at front key (word ++ newline ∷ []) dest h
    ∙ ap (value_at key) (sym (append_assoc key word (newline ∷ [])))
    ∙ value_at-newline key word (any-append_false (λ c. c == b' ') key word hk hw)
        (any-append_false (λ c. c == newline) key word nk nw)
