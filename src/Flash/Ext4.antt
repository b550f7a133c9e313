-- ===== src/Flash/Ext4.antt =====
-- flash_ext4.c: `flash_ext4_kernel` and `flash_unpack_rootfs`.
pub mod Copy
use ofgwrite.Base.{ℕ, ◌+◌, ◌*◌, ◌/◌, Bool, true, false, ◌&&◌, ◌||◌, not, Option, none, some, ◌++◌}
use ofgwrite.Base.{List, [], ◌∷◌, ltb, if◌then◌else◌, length}
use ofgwrite.Base.Calls.{M, Env, Call, Trace, call, tell, pure, ◌>>=◌, ◌>>◌, unless}
use ofgwrite.Base.Int.{ℤ, pos, int_eq, is_nonzero}
use ofgwrite.Base.Text.{Bytes, lit, is_empty}
use ofgwrite.State.{Options, Boot, Devices}
use ofgwrite.Flash.Tools.{rm_rootfs, untar_rootfs}

-- What the successive calls of `fread(buffer, 1, 512, kernel_file)` give: blocks, then the end of the
-- file or an error.
pub data Stream : Type 0 where
  end_of_file : Stream
  read_error : Stream
  block : Bytes → Stream → Stream

abbrev pub show_progress : ℕ → ℕ → M (Unit {0})
show_progress current new = if ltb current new then tell (Call.set_step_progress new) else pure tt

module _ (env : Env) (device : Bytes) (kernel_file_size : ℕ) where
  abbrev pub percent : ℕ → ℕ
  percent read_bytes = read_bytes * 100 / kernel_file_size

  -- `if (!no_write) fwrite(buffer, ret, 1, kernel_dev) == 1`
  abbrev pub write_unless : Bool → Bytes → M Bool
  write_unless true bytes = pure true
  write_unless false bytes = do
    ret ← call env (Call.write_block device bytes)
    pure (int_eq ret (pos 1))

  -- The loop, with `readBytes` and `current_percent`. The progress bar is moved only forward.
  unfoldable pub copy_kernel : Bool → ℕ → ℕ → Stream → M Bool
  copy_kernel no_write read_bytes current end_of_file = pure true
  copy_kernel no_write read_bytes current read_error = pure false
  copy_kernel no_write read_bytes current (block bytes rest) =
      let total = read_bytes + length bytes in
      let next =
        copy_kernel no_write total (if ltb current (percent total) then percent total else current)
          rest in
      do
        show_progress current (percent total)
        written ← write_unless no_write bytes
        if written then next else pure false

-- `kernel_file` is what `fopen(filename, "rb")` gives. The device is opened under `no_write` too.
unfoldable pub flash_ext4_kernel : Env → Bytes → Option Stream → ℕ → Bool → M Bool
flash_ext4_kernel env device none kernel_file_size no_write = pure false
flash_ext4_kernel env device (some kernel_file) kernel_file_size no_write = do
  kernel_dev ← call env (Call.open_to_write device)
  if not (is_nonzero kernel_dev) then pure false else do
    tell (Call.set_step (lit "Writing ext4 kernel"))
    copy_kernel env device kernel_file_size no_write 0 0 kernel_file

-- A box with the rootSubDir feature.
abbrev pub in_sub_dir : Options → Boot → Bool
in_sub_dir o b = not (is_empty b.current_rootfs_sub_dir) && not o.rootsubdir_check

unfoldable pub unpack_path : Options → Boot → Devices → Bytes
unpack_path o b d =
    if in_sub_dir o b
    then lit "/oldroot_remount/" ++ (d.rootfs_sub_dir ++ lit "/")
    else lit "/oldroot_remount/"

unfoldable pub flash_unpack_rootfs : Env → Options → Boot → Devices → Bytes → M Bool
unfolding rm_rootfs untar_rootfs
flash_unpack_rootfs env o b d filename = do
  tell (Call.set_step (lit "Deleting rootfs"))
  rm_rootfs env (unpack_path o b d) o.no_write
  tell (Call.set_step (lit "Extracting rootfs"))
  tell (Call.set_step_progress 0)
  unless (o.no_write || not (in_sub_dir o b)) (Call.mkdir (unpack_path o b d))
  unpacked ← untar_rootfs env filename (unpack_path o b d) o.no_write
  if not unpacked then pure false else do
    tell Call.sync
    tell Call.sync
    tell (Call.sleep 1)
    tell (Call.chdir (lit "/"))
    pure true
