-- ===== src/BootImage.antt =====
-- ofgwrite.c: `write_padding` and `generate_boot_image`, which writes an Android boot image. Numbers
-- in the header are little endian, as on the boxes. `load_file` is the content of a file that can be
-- read. OpenSSL is the argument `digest`: the SHA-1 digest of the bytes that the code hands over, in
-- order, `none` where OpenSSL fails. `print_id` is not reached.
pub mod Strings
pub mod Layout
pub mod RoundTrip
use ofgwrite.Base.{ℕ, ◌+◌, ◌-◌, ◌/◌, ◌%◌, Bool, true, false, not, Option, none, some}
use ofgwrite.Base.{
  List, [], ◌∷◌, ◌++◌, if◌then◌else◌, leb, ltb, ◌==◌, length, take, drop, replicate,
}
use ofgwrite.Base.Calls.{M, Env, Call, call, tell, ask, pure, ◌>>=◌, ◌>>◌}
use ofgwrite.Base.Int.{pos, int_eq, is_nonzero, is_negative, minus_one}
use ofgwrite.Base.Text.{Bytes, lit}

-- uint32_t
abbrev pub le32 : ℕ → Bytes
le32 n = n % 256 ∷ n / 256 % 256 ∷ n / 65536 % 256 ∷ n / 16777216 % 256 ∷ []

abbrev pub zeros : ℕ → Bytes
zeros n = replicate n 0

-- A field of n bytes: strncpy(field, s, n), and strcpy into zeros where s is shorter.
unfoldable pub field : ℕ → Bytes → Bytes
field n s = take n s ++ zeros (n - length s)

abbrev pub pagesize : ℕ
pagesize = 2048

abbrev pub max_cmdline : ℕ
max_cmdline = 512 + 1024 - 2

-- "ANDROID!"
abbrev pub magic : Bytes
magic = b'A' ∷ b'N' ∷ b'D' ∷ b'R' ∷ b'O' ∷ b'I' ∷ b'D' ∷ b'!' ∷ []

-- `cmdline` from its byte 511 on, which `extra_cmdline` holds.
abbrev pub extra : Bytes → Bytes
extra cmdline = if leb 511 (length cmdline) then drop 511 cmdline else []

-- `struct boot_img_hdr` as it is written. The addresses are those of the constants in the code.
unfoldable pub boot_img_hdr : ℕ → ℕ → Bytes → Bytes → Bytes → Bytes
boot_img_hdr kernel_size second_size board cmdline hash =
    magic
    ++ (le32 kernel_size
        ++ (le32 0x1080000
            ++ (le32 0
                ++ (le32 0x1000000
                    ++ (le32 second_size
                        ++ (le32 0x1000000
                            ++ (le32 0x100
                                ++ (le32 pagesize
                                    ++ (zeros 8
                                        ++ (field 16 board
                                            ++ ((field 511 cmdline ++ zeros 1)
                                                ++ (field 32 (take 20 hash)
                                                    ++ field 1024 (extra cmdline)))))))))))))

-- What is hashed.
abbrev pub hashed : Bytes → Bytes → Bytes
hashed kernel second =
    kernel ++ (le32 (length kernel) ++ ([] ++ (le32 0 ++ (second ++ le32 (length second)))))

abbrev pub boot_cmdline : Bytes → Bytes
boot_cmdline rootfs_device =
    lit "console=ttyS0,1000000 root="
    ++ (rootfs_device ++ lit " rootwait rootfstype=ext4 no_console_suspend")

-- The bytes behind an item; the page size is a power of two, so `& (pagesize - 1)` is the remainder.
abbrev pub padding : ℕ → ℕ → Bytes
padding pagesize itemsize =
    if itemsize % pagesize == 0 then [] else zeros (pagesize - itemsize % pagesize)

-- The parts of the file.
abbrev pub boot_items : Bytes → Bytes → Bytes → Bytes → Bytes → List Bytes
boot_items board cmdline kernel second hash =
    boot_img_hdr (length kernel) (length second) board cmdline hash ∷ kernel ∷ [] ∷ second ∷ []

module _ (env : Env) where
  -- write(fd, data, n) == n
  unfoldable pub write_item : Bytes → Bytes → M Bool
  write_item path bytes = do
    ret ← call env (Call.write_file path bytes)
    pure (int_eq ret (pos (length bytes)))

  -- True if it returns 0.
  unfoldable pub write_padding : Bytes → ℕ → ℕ → M Bool
  unfolding write_item
  write_padding path pagesize itemsize =
      if itemsize % pagesize == 0
      then pure true
      else write_item path (zeros (pagesize - itemsize % pagesize))

  -- Each item with its padding; false at the first write that fails.
  unfoldable pub write_items : Bytes → List Bytes → M Bool
  write_items path [] = pure true
  write_items path (item ∷ items) = do
    written ← write_item path item
    if not written then pure false else do
      padded ← write_padding path pagesize (length item)
      if not padded then pure false else write_items path items

  -- The file is removed if it is there.
  unfoldable pub remove_old : Bytes → M Bool
  remove_old path = do
    found ← call env (Call.access path)
    if int_eq found minus_one
        then pure true
        else do removed ← call env (Call.remove path); pure (not (is_nonzero removed))

  -- From `access` on.
  unfoldable pub write_image : Bytes → List Bytes → M Bool
  write_image path items = do
    free ← remove_old path
    if not free then pure false else do
      fd ← call env (Call.create path)
      if is_negative fd then pure false else do
        done ← write_items path items
        if done then pure true else do tell (Call.unlink path); pure false

  -- Behind the hashing.
  abbrev pub write_hashed : Bytes → Bytes → Bytes → Bytes → Bytes → Option Bytes → M Bool
  write_hashed path board cmdline kernel second none = pure false
  write_hashed path board cmdline kernel second (some hash) =
      write_image path (boot_items board cmdline kernel second hash)

  abbrev pub write_loaded :
      (Bytes → Option Bytes) → Bytes → Bytes → Bytes → Option Bytes → Option Bytes → M Bool
  write_loaded digest path board cmdline none second = pure false
  write_loaded digest path board cmdline (some kernel) none = pure false
  write_loaded digest path board cmdline (some kernel) (some second) =
      write_hashed path board cmdline kernel second (digest (hashed kernel second))

  -- True if it returns 0.
  unfoldable pub generate_boot_image : (Bytes → Option Bytes) → Bytes → Bytes → Bytes → M Bool
  generate_boot_image digest boxname rootfs_device path =
      let cmdline = boot_cmdline rootfs_device in
      if leb 16 (length boxname)
      then pure false
      else if ltb max_cmdline (length cmdline)
      then pure false
      else do
        kernel ← ask (λ t. env.content t (lit "/oldroot_remount/boot/Image.gz-4.9"))
        second ←
            ask (λ t. env.content t (lit "/oldroot_remount/boot/dream" ++ (boxname ++ lit ".dtb")))
        write_loaded digest path boxname cmdline kernel second
