-- ===== src/Flash/Written.antt =====
-- The bytes that a trace writes to a device or a file.
use mathlib.Core.List.{append-nil}
use ofgwrite.Base.{true, [], ◌∷◌, ◌++◌, ◌≡◌, if◌then◌else◌, arith}
use ofgwrite.Base.Calls.{Call, Trace}
use ofgwrite.Base.Text.{Bytes, str_eq, str_eq_iff}

-- The bytes that a call writes to `path`.
abbrev pub written_block : Bytes → Call → Bytes
written_block path (Call.write_block to bytes) = if str_eq to path then bytes else []
written_block path _ = []

-- The bytes that were written to `path`, in the order of the writes.
unfoldable pub written : Bytes → Trace → Bytes
written path [] = []
written path (c ∷ t) = written path t ++ written_block path c

pub written-tell :
    (path : Bytes) (c : Call) (t : Trace)
    → written_block path c ≡ []
    → written path (c ∷ t) ≡ written path t
unfolding written
written-tell path c t h = rw h (append-nil (written path t))

str_eq_same : (s : Bytes) → str_eq s s ≡ true
str_eq_same s = ground (arith, str_eq_iff s s)

pub written-write :
    (path bytes : Bytes) (t : Trace)
    → written path (Call.write_block path bytes ∷ t) ≡ written path t ++ bytes
unfolding written
written-write path bytes t = rw (str_eq_same path)
