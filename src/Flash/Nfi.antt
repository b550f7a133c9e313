-- ===== src/Flash/Nfi.antt =====
-- flash_ubi_jffs2.c: `extract_rootfs_from_nfi`, which cuts the rootfs out of a Dreambox NFI image and
-- drops the spare bytes of each flash page. `unsigned long` has 32 bits, as on the boxes. A size from
-- 2^31 on, for which `fseek` is given a negative offset, is taken for an error of `fseek`. The bytes
-- of an incomplete page, whose write is followed by the error return, are those that the file has.
pub mod Pages
use ofgwrite.Base.{ℕ, zero, suc, ◌+◌, ◌*◌, ◌/◌, ◌%◌, ◌^◌, Bool, true, false, ◌&&◌, ◌||◌, not}
use ofgwrite.Base.{Option, none, some, List, [], ◌∷◌, ◌++◌, ltb, leb, ◌==◌, if◌then◌else◌}
use ofgwrite.Base.{length, take, drop}
use ofgwrite.Base.Calls.{M, Env, Call, call, pure, ◌>>=◌, read_file}
use ofgwrite.Base.Int.{ℤ, pos, int_eq, is_nonzero}
use ofgwrite.Base.Text.{Bytes, lit, starts_with}

abbrev pub u32 : ℕ → ℕ
u32 n = n % 2 ^ 32

-- (b0 << 24) + (b1 << 16) + (b2 << 8) + b3
unfoldable pub big_endian : Bytes → ℕ
big_endian (b0 ∷ b1 ∷ b2 ∷ b3 ∷ _) = u32 (b0 * 2 ^ 24 + b1 * 2 ^ 16 + b2 * 2 ^ 8 + b3)
big_endian _ = 0

-- `readbytes`: a page with its spare bytes.
abbrev pub page_size : ℕ → ℕ
page_size writesize = writesize / 32 + writesize

-- fread(buffer, n, 1, fp) != 1
abbrev pub short_read : ℕ → Bytes → Bool
short_read n rest = n == 0 || ltb (length rest) n

module _ (env : Env) (path : Bytes) (writesize : ℕ) where
  -- `while (pos < part_end)`. A round that goes on has read at least one byte, so a fuel above the
  -- length of the rest is enough.
  unfoldable pub copy_pages : ℕ → ℕ → ℕ → Bytes → M Bool
  copy_pages zero at part_end rest = pure false
  copy_pages (suc fuel) at part_end rest =
      let next =
        copy_pages fuel (u32 (at + page_size writesize)) part_end
          (drop (page_size writesize) rest) in
      if leb part_end at then pure true else do
        written ← call env (Call.write_block path (take writesize rest))
        if short_read (page_size writesize) rest || not (int_eq written (pos 1))
            then pure false
            else next

  -- The rootfs partition: `nfi_path` is opened, and the pages are copied to it.
  unfoldable pub copy_rootfs : ℕ → ℕ → Bytes → M Bool
  copy_rootfs at size rest = do
    opened ← call env (Call.open_to_write path)
    if is_nonzero opened then copy_pages (length rest + 1) at (u32 (at + size)) rest else pure false

  -- `while (pos < totalsize)`. Each round reads four bytes.
  unfoldable pub find_rootfs : ℕ → ℕ → ℕ → ℕ → Bytes → M Bool
  find_rootfs zero partition at totalsize rest = pure false
  find_rootfs (suc fuel) partition at totalsize rest =
      let size = big_endian rest in
      let next =
        find_rootfs fuel (partition + 1) (u32 (at + size + 4)) totalsize (drop (size + 4) rest) in
      if leb totalsize at || short_read 4 rest
      then pure false
      else if partition == 3
      then copy_rootfs (u32 (at + 4)) size (drop 4 rest)
      else if leb (2 ^ 31) size
      then pure false
      else next

-- The header: 32 bytes that begin with "NFI", and the size of what follows.
unfoldable pub extract_content : Env → Bytes → ℕ → Bytes → M Bool
extract_content env path writesize content =
    if short_read 32 content || not (starts_with content (lit "NFI"))
    then pure false
    else if short_read 4 (drop 32 content)
    then pure false
    else let rest = drop 32 content in
      find_rootfs env path writesize (length content) 0 36 (u32 (big_endian rest + 36))
        (drop 4 rest)

unfoldable pub extract_file : Env → Bytes → ℕ → Option Bytes → M (Option Bytes)
extract_file env path writesize none = pure none
extract_file env path writesize (some content) = do
  done ← extract_content env path writesize content
  pure (if done then some path else none)

-- Returns the new name of the image, which is `nfi_path` with the rootfs file's name behind it.
unfoldable pub extract_rootfs_from_nfi : Env → Bytes → Bytes → ℕ → M (Option Bytes)
extract_rootfs_from_nfi env nfi_path image writesize = if ltb 5000 writesize then pure none else do
  opened ← read_file env image
  extract_file env (nfi_path ++ lit "/ofg_nfi_rootfs.bin") writesize opened
