-- ===== src/Flash/Loop/Resources.antt =====
-- The resources that a UBI image needs: which of them a trace has taken and not given back.
use ofgwrite.Base.{
  Bool, true, false, ◌&&◌, not, Option, none, some, List, [], ◌∷◌, ◌++◌, ◌≡◌, refl, arith,
}
use ofgwrite.Base.{if◌then◌else◌, ◌∙◌}
use ofgwrite.Base.Calls.{
  M, Env, Call, Tool, Trace, call, tell, pure, ask, read_file, run_unless, ◌>>=◌, ◌>>◌,
}
use ofgwrite.Base.Int.{ℤ, is_nonzero, is_negative}
use ofgwrite.Base.Text.{Bytes, lit, str_eq}
use ofgwrite.Flash.Loop.{block2mtd_file}

-- The loop device and the device that block2mtd uses, the MTD device node that UBI uses, and the
-- directory that the image is mounted on.
pub record Held : Type 0 where
  pub loop : Option Bytes
  pub block2mtd : Option Bytes
  pub ubi : Option Bytes
  pub mounted : Option Bytes

abbrev pub holds : Option Bytes → Option Bytes → Option Bytes → Option Bytes → Held
holds l b u m = record { loop = l; block2mtd = b; ubi = u; mounted = m }

abbrev pub nothing_held : Held
nothing_held = holds none none none none

-- A resource is given back under the name that it was taken with.
abbrev pub without : Bytes → Option Bytes → Option Bytes
without name none = none
without name (some taken) = if str_eq name taken then none else some taken

-- What a call that answers `ret` does to the resources, with `device` what losetup has set
-- `ubi_loop_device` to. One that takes a resource takes it if it succeeds; one that gives it back, under
-- its name, counts whatever it answers: the code does not look at these answers.
abbrev pub after_losetup : ℤ → Bytes → List Bytes → Held → Held
after_losetup ret device (flag ∷ name ∷ []) h =
    if str_eq flag (lit "-d") then record h { loop = without name h.loop } else h
after_losetup ret device (read_only ∷ flag ∷ image ∷ []) h =
    if is_nonzero ret then h else record h { loop = some device }
after_losetup ret device _ h = h

abbrev pub after_attach : ℤ → List Bytes → Held → Held
after_attach ret (flag ∷ number ∷ flag2 ∷ mtd ∷ argv) h =
    if is_nonzero ret then h else record h { ubi = some (lit "/dev/mtd" ++ mtd) }
after_attach ret _ h = h

abbrev pub after_detach : List Bytes → Held → Held
after_detach (flag ∷ node ∷ []) h = record h { ubi = without node h.ubi }
after_detach _ h = h

unfoldable pub after_call : ℤ → Bytes → Call → Held → Held
after_call ret device (Call.run Tool.losetup argv) h = after_losetup ret device argv h
after_call ret device (Call.run Tool.ubiattach argv) h = after_attach ret argv h
after_call ret device (Call.run Tool.ubidetach argv) h = after_detach argv h
after_call ret device (Call.add_block2mtd loop erasesize writesize) h =
    if is_negative ret then h else record h { block2mtd = some loop }
after_call ret device (Call.remove_block2mtd loop) h = record h {
  block2mtd = without loop h.block2mtd;
}
after_call ret device (Call.mount_read_only source target type) h =
    if is_negative ret then h else record h { mounted = some target }
after_call ret device (Call.umount target) h = record h { mounted = without target h.mounted }
after_call ret device _ h = h

unfoldable pub held : Env → Trace → Held
unfolding after_call
held env [] = nothing_held
held env (c ∷ t) = after_call (env.answer t c) (env.loop_device (c ∷ t)) c (held env t)

-- A call that neither takes a resource nor gives one back.
unfoldable pub is_spare : Call → Bool
is_spare (Call.run Tool.losetup argv) = false
is_spare (Call.run Tool.ubiattach argv) = false
is_spare (Call.run Tool.ubidetach argv) = false
is_spare (Call.add_block2mtd loop erasesize writesize) = false
is_spare (Call.remove_block2mtd loop) = false
is_spare (Call.mount_read_only source target type) = false
is_spare (Call.umount target) = false
is_spare _ = true

abbrev pub is_losetup : Call → Bool
is_losetup (Call.run Tool.losetup argv) = true
is_losetup _ = false

-- Only busybox's losetup writes to `ubi_loop_device`, and block2mtd's parameter file can be opened.
pub record Works (env : Env) : Type 0 where
  pub opens :
      (t : Trace) → is_nonzero (env.answer t (Call.open_to_write (block2mtd_file env))) ≡ true
  pub remembers :
      (t : Trace) (c : Call) → is_losetup c ≡ false → env.loop_device (c ∷ t) ≡ env.loop_device t

-- The resources that are held, with `ubi_loop_device`.
abbrev pub At : Env → Bytes → Held → Trace → Type 0
At env device h t = (held env t ≡ h) × (env.loop_device t ≡ device)

-- What is done leaves them as they are.
unfoldable pub Spares : {A : Type 0} → Env → M A → Type 0
Spares env m = (t : Trace) → At env (env.loop_device t) (held env t) (m t).1

spare-losetup : (c : Call) → is_spare c ≡ true → is_losetup c ≡ false
unfolding is_spare
spare-losetup (Call.run Tool.losetup argv) h = cc
spare-losetup (Call.run Tool.flash_erase argv) h = refl
spare-losetup (Call.run Tool.nandwrite argv) h = refl
spare-losetup (Call.run Tool.ubiformat argv) h = refl
spare-losetup (Call.run Tool.ubidetach argv) h = refl
spare-losetup (Call.run Tool.ubiattach argv) h = refl
spare-losetup (Call.run Tool.flashcp argv) h = refl
spare-losetup (Call.run Tool.cp argv) h = refl
spare-losetup (Call.run Tool.rm argv) h = refl
spare-losetup (Call.run Tool.tar argv) h = refl
spare-losetup (Call.run Tool.fuser argv) h = refl
spare-losetup (Call.run Tool.ps argv) h = refl
spare-losetup _ h = refl

after_call-spare :
    (ret : ℤ) (device : Bytes) (c : Call) (h : Held)
    → is_spare c ≡ true
    → after_call ret device c h ≡ h
unfolding after_call is_spare
after_call-spare ret device (Call.run Tool.losetup argv) h s = cc
after_call-spare ret device (Call.run Tool.ubiattach argv) h s = cc
after_call-spare ret device (Call.run Tool.ubidetach argv) h s = cc
after_call-spare ret device (Call.run Tool.flash_erase argv) h s = refl
after_call-spare ret device (Call.run Tool.nandwrite argv) h s = refl
after_call-spare ret device (Call.run Tool.ubiformat argv) h s = refl
after_call-spare ret device (Call.run Tool.flashcp argv) h s = refl
after_call-spare ret device (Call.run Tool.cp argv) h s = refl
after_call-spare ret device (Call.run Tool.rm argv) h s = refl
after_call-spare ret device (Call.run Tool.tar argv) h s = refl
after_call-spare ret device (Call.run Tool.fuser argv) h s = refl
after_call-spare ret device (Call.run Tool.ps argv) h s = refl
after_call-spare ret device (Call.add_block2mtd loop erasesize writesize) h s = cc
after_call-spare ret device (Call.remove_block2mtd loop) h s = cc
after_call-spare ret device (Call.mount_read_only source target type) h s = cc
after_call-spare ret device (Call.umount target) h s = cc
after_call-spare ret device _ h s = refl

module _ (env : Env) where
  pub if-Spares :
      {A : Type 0} (b : Bool) (m k : M A)
      → Spares env m
      → Spares env k
      → Spares env (if b then m else k)
  if-Spares true m k hm hk = hm
  if-Spares false m k hm hk = hk

  pub bind-Spares :
      {A B : Type 0} (m : M A) (f : A → M B)
      → Spares env m
      → ((a : A) → Spares env (f a))
      → Spares env (m >>= f)
  unfolding Spares
  bind-Spares m f h k t = ((k (m t).0 (m t).1).0 ∙ (h t).0, (k (m t).0 (m t).1).1 ∙ (h t).1)

  pub then-Spares :
      {A B : Type 0} (m : M A) (k : M B) → Spares env m → Spares env k → Spares env (m >> k)
  unfolding Spares
  then-Spares m k h h' t = ((h' (m t).1).0 ∙ (h t).0, (h' (m t).1).1 ∙ (h t).1)

  pub pure-Spares : {A : Type 0} (a : A) → Spares env (pure a)
  unfolding Spares
  pure-Spares a t = (refl, refl)

  pub ask-Spares : {A : Type 0} (f : Trace → A) → Spares env (ask f)
  unfolding Spares
  ask-Spares f t = (refl, refl)

  pub read_file-Spares : (path : Bytes) → Spares env (read_file env path)
  unfolding Spares
  read_file-Spares path t = (refl, refl)

  pub call-Spares : (c : Call) → Works env → is_spare c ≡ true → Spares env (call env c)
  unfolding Spares held
  call-Spares c works h t = (
    after_call-spare (env.answer t c) (env.loop_device (c ∷ t)) c (held env t) h,
    works.remembers t c (spare-losetup c h),
  )

  pub tell-Spares : (c : Call) → Works env → is_spare c ≡ true → Spares env (tell c)
  unfolding Spares
  tell-Spares c works h t = unfold Spares in call-Spares c works h t

  pub run_unless-Spares :
      (no_write : Bool) (tool : Tool) (argv : List Bytes)
      → Works env
      → is_spare (Call.run tool argv) ≡ true
      → Spares env (run_unless env no_write tool argv)
  run_unless-Spares true tool argv works h = pure-Spares true
  run_unless-Spares false tool argv works h =
      bind-Spares (call env (Call.run tool argv)) _ (call-Spares (Call.run tool argv) works h)
        (λ ret. pure-Spares (if is_nonzero ret then false else true))

  pub At-Spares :
      {A : Type 0} (m : M A) (device : Bytes) (h : Held) (t : Trace)
      → Spares env m
      → At env device h t
      → At env device h (m t).1
  unfolding Spares
  At-Spares m device h t s a = ((s t).0 ∙ a.0, (s t).1 ∙ a.1)

pub ruleset spares = (
  if-Spares, bind-Spares, then-Spares, pure-Spares, ask-Spares, read_file-Spares, call-Spares,
  tell-Spares, run_unless-Spares, refl,
)
