-- ===== src/Base/Calls.antt =====
-- What the program asks of the system, of the tools' `*_main` functions and of the framebuffer: a
-- call is recorded in a trace, newest first, and the environment answers from the trace before it.
-- `my_printf` leaves no call.
use Prim.Native.Nat.{ℕ}
use mathlib.Core.Bool.{Bool, true, false}
use mathlib.Core.Option.{Option, none, some}
use mathlib.Core.List.{List, [], ◌∷◌}
use ofgwrite.Base.Int.{ℤ, is_nonzero, ◌+ℤ◌}
use ofgwrite.Base.Lists.{All}
use ofgwrite.Base.Tests.{if◌then◌else◌}
use ofgwrite.Base.Text.{Bytes}

pub data Tool : Type 0 where
  flash_erase nandwrite ubiformat ubidetach ubiattach flashcp losetup cp rm tar fuser ps : Tool

pub data Call : Type 0 where
  -- `<tool>_main(argc, argv)`, with argv behind the program's name.
  run : Tool → List Bytes → Call
  system : Bytes → Call
  -- mount(source, target, type, flags, NULL)
  mount : Bytes → Bytes → Bytes → Call
  mount_read_only : Bytes → Bytes → Bytes → Call
  mount_move : Bytes → Bytes → Call
  remount_read_only : Bytes → Call
  umount : Bytes → Call
  umount_detach : Bytes → Call
  mkdir : Bytes → Call
  rmdir : Bytes → Call
  make_directories : Bytes → Call
  symlink : Bytes → Bytes → Call
  chdir : Bytes → Call
  pivot_root : Bytes → Bytes → Call
  fork : Call
  setsid : Call
  sync : Call
  sleep : ℕ → Call
  reboot : Call
  -- fopen(path, "w") or "wb"
  open_to_write : Bytes → Call
  -- fprintf of "%s,0x%x,0x%x" and of "%s,remove" into block2mtd's parameter file
  add_block2mtd : Bytes → ℕ → ℕ → Call
  remove_block2mtd : Bytes → Call
  -- fwrite of a block to a device that is open
  write_block : Bytes → Bytes → Call
  -- libmtd's answer for a device: -1 on an error, the flash type else
  flash_type : Bytes → Call
  open_framebuffer : ℕ → Call
  close_framebuffer : Call
  set_step : Bytes → Call
  set_step_progress : ℕ → Call
  show_main_window : Bool → Call
  set_overall_text : Bytes → Call
  set_step_without_incr : Bytes → Call
  set_error_text : Bytes → Call
  set_error_text1 : Bytes → Call
  set_error_text2 : Bytes → Call
  -- access(path, F_OK), remove(path) and unlink(path)
  access : Bytes → Call
  remove : Bytes → Call
  unlink : Bytes → Call
  -- open(path, O_CREAT | O_TRUNC | O_WRONLY, 0644)
  create : Bytes → Call
  -- write(fd, bytes, length) to the file that was opened under the path
  write_file : Bytes → Bytes → Call

abbrev pub Trace : Type 0
Trace = List Call

pub record Env : Type 0 where
  pub answer : Trace → Call → ℤ
  -- The content of a file that can be opened.
  pub content : Trace → Bytes → Option Bytes
  -- The names in a directory that can be opened, as `readdir` gives them.
  pub entries : Trace → Bytes → Option (List Bytes)
  -- `ubi_loop_device`, which busybox's losetup sets.
  pub loop_device : Trace → Bytes
  -- libmtd's devices that are present, with their names where `mtd_get_dev_info1` gives them;
  -- `none` where libmtd cannot be opened or asked.
  pub mtd_devices : Trace → Option (List (ℕ × Option Bytes))
  -- errno behind a call.
  pub errno : Trace → ℕ
  -- The line that `fgets` reads from a command's output, with its newline.
  pub first_line : Trace → Bytes → Bytes
  -- What a variable holds that nothing was written to.
  pub garbage : ℕ

abbrev pub M : Type 0 → Type 0
M A = Trace → A × Trace

abbrev pub pure : {A : Type 0} → A → M A
pure a t = (a, t)

infixl 5 ◌>>=◌ ◌>>◌
abbrev pub ◌>>=◌ : {A B : Type 0} → M A → (A → M B) → M B
◌>>=◌ m f t = let (a, t') = m t in f a t'

abbrev pub ◌>>◌ : {A B : Type 0} → M A → M B → M B
◌>>◌ m k t = let (_, t') = m t in k t'

abbrev pub call : Env → Call → M ℤ
call env c t = (env.answer t c, c ∷ t)

-- A call whose answer is not used.
abbrev pub tell : Call → M (Unit {0})
tell c t = (tt, c ∷ t)

abbrev pub read_file : Env → Bytes → M (Option Bytes)
read_file env path t = (env.content t path, t)

abbrev pub ask : {A : Type 0} → (Trace → A) → M A
ask f t = (f t, t)

-- `if (!no_write) if (tool_main(argc, argv) != 0) return 0; return 1;`
abbrev pub run_unless : Env → Bool → Tool → List Bytes → M Bool
run_unless env true tool argv = pure true
run_unless env false tool argv = do
  ret ← call env (Call.run tool argv)
  pure (if is_nonzero ret then false else true)

-- `if (!no_write) call;`
abbrev pub unless : Bool → Call → M (Unit {0})
unless true c = pure tt
unless false c = tell c

-- The calls in their order; their answers are not used.
abbrev pub tell_all : List Call → M (Unit {0})
tell_all [] = pure tt
tell_all (c ∷ cs) = do tell c; tell_all cs

-- The sum of the calls' answers: `ret = call; ret += call; ...`
abbrev pub call_all : Env → List Call → M ℤ
call_all env [] = pure (ℤ.pos 0)
call_all env (c ∷ cs) = do ret ← call env c; rest ← call_all env cs; pure (ret +ℤ rest)

-- Steps in order, each of which may end the function with a result.
abbrev pub resume {ℓ} : {A : Type 0} {B : Type ℓ} → (A → B) → B → Option A → B
resume ended next none = next
resume ended next (some a) = ended a

unfoldable pub run_steps : {A : Type 0} → List (M (Option A)) → A → M A
run_steps [] final = pure final
run_steps (step ∷ steps) final = do r ← step; resume pure (run_steps steps final) r

-- Every call that `m` makes has the property.
abbrev pub Emits : {A : Type 0} → (Call → Type 0) → M A → Type 0
Emits P m = (t : Trace) → All P t → All P (m t).1
