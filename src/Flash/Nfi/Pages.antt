-- ===== src/Flash/Nfi/Pages.antt =====
-- The pages of the rootfs partition of an NFI image are written without their spare bytes.
use mathlib.Core.List.{append_assoc, append-nil}
use ofgwrite.Base.{ℕ, zero, suc, ◌+◌, ◌*◌, ◌/◌, ◌^◌, ◌<◌, ◌≤◌, true, false, List, [], ◌∷◌, ◌++◌}
use ofgwrite.Base.{◌≡◌, refl, arith, leb, length, take, drop, take-append}
use ofgwrite.Base.{drop-append, length-append, All, ◌∙◌, ap, sym}
use ofgwrite.Base.Calls.{Env, Call, Trace}
use ofgwrite.Base.Int.{pos, is_nonzero}
use ofgwrite.Base.Text.{Bytes}
use ofgwrite.Flash.Written.{written, written-tell, written-write}
use ofgwrite.Flash.Nfi.{copy_pages, copy_rootfs, page_size, short_read, u32}

-- A page and its spare bytes.
abbrev pub Page : Type 0
Page = Bytes × Bytes

abbrev pub IsPage : ℕ → Page → Type 0
IsPage writesize p = (length p.0 ≡ writesize) × (length p.1 ≡ writesize / 32)

-- The pages as the image has them, and as the flash is to have them.
abbrev pub raw : List Page → Bytes
raw [] = []
raw (p ∷ ps) = (p.0 ++ p.1) ++ raw ps

abbrev pub stripped : List Page → Bytes
stripped [] = []
stripped (p ∷ ps) = p.0 ++ stripped ps

written_page :
    (path page : Bytes) (t : Trace) (others : Bytes)
    → written path (Call.write_block path page ∷ t) ++ others ≡ written path t ++ (page ++ others)
written_page path page t others =
    ap (λ w. w ++ others) (written-write path page t) ∙ append_assoc (written path t) page others

length-raw :
    (writesize : ℕ) (ps : List Page)
    → All (IsPage writesize) ps
    → length (raw ps) ≡ length ps * page_size writesize
length-raw writesize [] hs = omega arith
length-raw writesize (p ∷ ps) hs = omega (
  arith,
  length-append (p.0 ++ p.1) (raw ps),
  length-append p.0 p.1,
  length-raw writesize ps hs.1,
)

length-le-raw :
    (writesize : ℕ) (ps : List Page)
    → 0 < writesize
    → All (IsPage writesize) ps
    → length ps ≤ length (raw ps)
length-le-raw writesize [] h hs = omega arith
length-le-raw writesize (p ∷ ps) h hs = omega (
  arith,
  length-append (p.0 ++ p.1) (raw ps),
  length-append p.0 p.1,
  length-le-raw writesize ps h hs.1,
)

module _ (env : Env) (path : Bytes) (writesize : ℕ) where
  abbrev pub Accepts : Type 0
  Accepts = (s : Trace) (page : Bytes) → env.answer s (Call.write_block path page) ≡ pos 1

  copy_page :
      (fuel at part_end : ℕ) (p : Page) (rest : Bytes) (t : Trace)
      → Accepts
      → 0 < page_size writesize
      → IsPage writesize p
      → at < part_end
      → copy_pages env path writesize (suc fuel) at part_end ((p.0 ++ p.1) ++ rest) t
        ≡ copy_pages env path writesize fuel
            (u32 (at + page_size writesize))
            part_end
            rest
            (Call.write_block path p.0 ∷ t)
  unfolding copy_pages
  copy_page fuel at part_end p rest t accepts some_bytes is_page more =
      let whole : length (p.0 ++ p.1) ≡ page_size writesize = length-append p.0 p.1 ∙ omega arith in
      let first : take writesize ((p.0 ++ p.1) ++ rest) ≡ p.0 =
        ap (take writesize) (append_assoc p.0 p.1 rest)
        ∙ ap (λ n. take n (p.0 ++ (p.1 ++ rest))) (sym is_page.0)
        ∙ take-append p.0 (p.1 ++ rest) in
      let others : drop (page_size writesize) ((p.0 ++ p.1) ++ rest) ≡ rest =
        ap (λ n. drop n ((p.0 ++ p.1) ++ rest)) (sym whole) ∙ drop-append (p.0 ++ p.1) rest in
      let enough : short_read (page_size writesize) ((p.0 ++ p.1) ++ rest) ≡ false =
        ground (arith, length-append (p.0 ++ p.1) rest) in
      let go_on : leb part_end at ≡ false = ground arith in
      rw (go_on, first, accepts, enough, others)

  copy_pages_end :
      (fuel at part_end : ℕ) (rest : Bytes) (t : Trace)
      → part_end ≤ at
      → ((copy_pages env path writesize (suc fuel) at part_end rest t).0 ≡ true)
        × (written path (copy_pages env path writesize (suc fuel) at part_end rest t).1
            ≡ written path t ++ [])
  unfolding copy_pages
  copy_pages_end fuel at part_end rest t h =
      let over : leb part_end at ≡ true = ground arith in
      rw over (refl, sym (append-nil (written path t)))

  copy_pages-written :
      (fuel at part_end : ℕ) (ps : List Page) (rest : Bytes) (t : Trace)
      → Accepts
      → 0 < page_size writesize
      → All (IsPage writesize) ps
      → length ps < fuel
      → part_end ≡ at + length ps * page_size writesize
      → part_end < 2 ^ 32
      → ((copy_pages env path writesize fuel at part_end (raw ps ++ rest) t).0 ≡ true)
        × (written path (copy_pages env path writesize fuel at part_end (raw ps ++ rest) t).1
            ≡ written path t ++ stripped ps)
  copy_pages-written zero at part_end ps rest t a h hs f e b = absurd (omega arith)
  copy_pages-written (suc fuel) at part_end [] rest t a h hs f e b =
      copy_pages_end fuel at part_end rest t (omega arith)
  copy_pages-written (suc fuel) at part_end (p ∷ ps) rest t a h hs f e b =
      let size = page_size writesize in
      let at' : u32 (at + size) ≡ at + size = omega arith in
      let step : copy_pages env path writesize (suc fuel) at part_end (raw (p ∷ ps) ++ rest) t
          ≡ copy_pages env path writesize fuel (at + size) part_end (raw ps ++ rest)
              (Call.write_block path p.0 ∷ t) =
        ap (λ r. copy_pages env path writesize (suc fuel) at part_end r t)
          (append_assoc (p.0 ++ p.1) (raw ps) rest)
        ∙ copy_page fuel at part_end p (raw ps ++ rest) t a h hs.0 (omega arith)
        ∙ ap
            (λ n.
              copy_pages env path writesize fuel n part_end (raw ps ++ rest)
                (Call.write_block path p.0 ∷ t))
            at' in
      let (good, out) =
        copy_pages-written fuel (at + size) part_end ps rest (Call.write_block path p.0 ∷ t) a h
          hs.1 (omega arith) (omega arith) b in
      (
        ap (λ r. r.0) step ∙ good,
        ap (λ r. written path r.1) step ∙ out ∙ written_page path p.0 t (stripped ps),
      )

  -- A rootfs partition of whole pages, each followed by its spare bytes, is copied to the file
  -- `path` without them, and in order, if the file can be opened and takes each page.
  pub copy_rootfs-written :
      (at : ℕ) (ps : List Page) (rest : Bytes) (t : Trace)
      → Accepts
      → is_nonzero (env.answer t (Call.open_to_write path)) ≡ true
      → 0 < writesize
      → All (IsPage writesize) ps
      → at + length ps * page_size writesize < 2 ^ 32
      → ((copy_rootfs env path writesize at (length (raw ps)) (raw ps ++ rest) t).0 ≡ true)
        × (written path (copy_rootfs env path writesize at (length (raw ps)) (raw ps ++ rest) t).1
            ≡ written path t ++ stripped ps)
  unfolding copy_rootfs
  copy_rootfs-written at ps rest t a opens h hs b =
      let size : length (raw ps) ≡ length ps * page_size writesize = length-raw writesize ps hs in
      let enough : length ps < length (raw ps ++ rest) + 1 =
        omega (arith, length-append (raw ps) rest, length-le-raw writesize ps h hs) in
      let part_end : u32 (at + length (raw ps)) ≡ at + length ps * page_size writesize =
        omega arith in
      let (good, out) =
        copy_pages-written (length (raw ps ++ rest) + 1) at (u32 (at + length (raw ps))) ps rest
          (Call.open_to_write path ∷ t) a (omega arith) hs enough part_end (omega arith) in
      rw opens (
        good,
        out ∙ ap (λ w. w ++ stripped ps) (written-tell path (Call.open_to_write path) t refl),
      )
