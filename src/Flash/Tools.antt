-- ===== src/Flash/Tools.antt =====
-- The functions that build a command line and call a tool's main function. They return 1 (true)
-- without a call under `no_write`. `quiet` only suppresses messages and is left out, as are the
-- messages' other arguments (`context`).
use ofgwrite.Base.{ℕ, Bool, false, [], ◌∷◌, ◌++◌, if◌then◌else◌}
use ofgwrite.Base.Calls.{M, Env, Tool, run_unless, ◌>>=◌, ask}
use ofgwrite.Base.Text.{Bytes, lit, decimal}

module _ (env : Env) where
  unfoldable pub flash_erase : Bytes → Bool → M Bool
  flash_erase device no_write =
      run_unless env no_write Tool.flash_erase (device ∷ lit "0" ∷ lit "0" ∷ [])

  unfoldable pub flash_erase_jffs2 : Bytes → Bool → M Bool
  flash_erase_jffs2 device no_write =
      run_unless env no_write Tool.flash_erase (lit "-j" ∷ device ∷ lit "0" ∷ lit "0" ∷ [])

  unfoldable pub flash_write : Bytes → Bytes → Bool → M Bool
  flash_write device filename no_write =
      run_unless env no_write Tool.nandwrite (lit "-pm" ∷ device ∷ filename ∷ [])

  unfoldable pub ubi_write : Bytes → Bytes → Bool → M Bool
  ubi_write device filename no_write =
      run_unless env no_write Tool.ubiformat (device ∷ lit "-f" ∷ filename ∷ lit "-D" ∷ [])

  unfoldable pub ubi_detach_dev : ℕ → Bool → M Bool
  ubi_detach_dev mtd_device no_write =
      run_unless env no_write Tool.ubidetach
        (lit "-p" ∷ (lit "/dev/mtd" ++ decimal mtd_device) ∷ [])

  unfoldable pub ubi_attach_ofgwrite : ℕ → ℕ → Bool → M Bool
  ubi_attach_ofgwrite mtd_device vid_offset no_write =
      run_unless env no_write Tool.ubiattach
        (lit "-d" ∷ lit "10" ∷ lit "-m" ∷ decimal mtd_device ∷ lit "-O" ∷ decimal vid_offset ∷ [])

  unfoldable pub flashcp : Bytes → Bytes → Bool → Bool → M Bool
  flashcp device filename reboot no_write =
      run_unless env no_write Tool.flashcp
        ((if reboot then lit "-vr" else lit "-v") ∷ filename ∷ device ∷ [])

  unfoldable pub rm_rootfs : Bytes → Bool → M Bool
  rm_rootfs directory no_write =
      run_unless env no_write Tool.rm (lit "-r" ∷ lit "-f" ∷ directory ∷ [])

  unfoldable pub untar_rootfs : Bytes → Bytes → Bool → M Bool
  untar_rootfs filename directory no_write =
      run_unless env no_write Tool.tar (lit "-x" ∷ lit "-f" ∷ filename ∷ lit "-C" ∷ directory ∷ [])

  unfoldable pub cp_busybox : Bytes → Bytes → Bool → M Bool
  cp_busybox source target no_write =
      run_unless env no_write Tool.cp (lit "-a" ∷ source ∷ target ∷ [])

  -- losetup has no `no_write`: its callers return before.
  unfoldable pub setup_loop_device : Bytes → M Bool
  setup_loop_device image = run_unless env false Tool.losetup (lit "-r" ∷ lit "-f" ∷ image ∷ [])

  unfoldable pub release_loop_device : M Bool
  release_loop_device = do
    ubi_loop_device ← ask env.loop_device
    run_unless env false Tool.losetup (lit "-d" ∷ ubi_loop_device ∷ [])
