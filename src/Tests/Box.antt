-- ===== src/Tests/Box.antt =====
-- The name of the box at concrete inputs: a whole line, and files that no newline ends.
use ofgwrite.Base.{true, false, some, [], ◌∷◌, ◌++◌, ◌≡◌, refl, arith}
use ofgwrite.Base.Text.{lit, cut}
use ofgwrite.ProcEntry.{read_name, read_proc_entry, read_proc_entry-line}

read_proc_entry-line_example :
    read_proc_entry true (λ _. 65) true (some (lit "dm920" ++ 10 ∷ lit "x")) ≡ some (lit "dm920")
unfolding lit
read_proc_entry-line_example =
    read_proc_entry-line true (λ _. 65) (lit "dm920") (lit "x") (ground arith) (omega arith)

-- Without a newline a byte of the buffer is taken for the name's last one.
no_newline : read_proc_entry true (λ _. 65) true (some (lit "dm920")) ≡ some (lit "dm920A")
unfolding read_proc_entry read_name cut lit
no_newline = refl

-- Where `char` has no sign the end of the file is not seen, and the buffer is filled.
no_sign :
    read_proc_entry false (λ _. 0) true (some (lit "dm"))
    ≡ some (
        lit "dm"
        ++ 255 ∷ 255 ∷ 255 ∷ 255 ∷ 255 ∷ 255 ∷ 255 ∷ 255 ∷ 255 ∷ 255 ∷ 255 ∷ 255 ∷ 255 ∷ 255 ∷ 255
          ∷ 255 ∷ [])
unfolding read_proc_entry read_name cut lit
no_sign = refl
