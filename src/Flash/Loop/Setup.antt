-- ===== src/Flash/Loop/Setup.antt =====
-- What is set up for a UBI image is either held as a whole, or taken down again.
use ofgwrite.Base.{ℕ, Bool, true, false, Option, none, some, [], ◌∷◌, ◌++◌, ◌≡◌, refl}
use ofgwrite.Base.{if◌then◌else◌, Bool-cases, inl, inr, ◌∙◌, sym}
use mathlib.Core.Path.{subst}
use ofgwrite.Base.Calls.{Env, Call, Tool, Trace}
use ofgwrite.Base.Int.{is_nonzero, is_negative}
use ofgwrite.Base.Text.{Bytes, lit, decimal, str_eq_same}
use ofgwrite.Flash.Tools.{
  setup_loop_device, release_loop_device, ubi_attach_ofgwrite, ubi_detach_dev,
}
use ofgwrite.Flash.Loop.{setup_block2mtd, remove_block2mtd, undo_block2mtd, attach_and_mount}
use ofgwrite.Flash.Loop.{block2mtd_file, with_mtd, with_vid_offset, mount_loop, detect_mtd_device}
use ofgwrite.Flash.Vid.{detect_vid_offset}
use ofgwrite.Flash.Loop.Resources.{Held, holds, held, At, Works, nothing_held}

-- The device node of an MTD device.
abbrev pub mtd_node : ℕ → Bytes
mtd_node mtd = lit "/dev/mtd" ++ decimal mtd

abbrev pub image_held : Bytes → Held
image_held device = holds (some device) (some device) none none

abbrev pub all_held : Bytes → ℕ → Bytes → Held
all_held device mtd path = holds (some device) (some device) (some (mtd_node mtd)) (some path)

-- Either all is held, with the device numbers that are returned, or nothing.
abbrev pub Settled : Env → Bytes → Option ℕ × Trace → Type 0
Settled env path (none, t) = held env t ≡ nothing_held
Settled env path (some mtd, t) = held env t ≡ all_held (env.loop_device t) mtd path

module _ (env : Env) (works : Works env) where
  pub held-release :
      (device : Bytes) (b u m : Option Bytes) (t : Trace)
      → At env device (holds (some device) b u m) t
      → held env (release_loop_device env t).1 ≡ holds none b u m
  unfolding release_loop_device held
  held-release device b u m t a = rw (a.1, a.0, str_eq_same (lit "-d"), str_eq_same device) refl

  pub remove-At :
      (device : Bytes) (l u m : Option Bytes) (t : Trace)
      → At env device (holds l (some device) u m) t
      → At env device (holds l none u m) (remove_block2mtd env device t).1
  unfolding remove_block2mtd held
  remove-At device l u m t a =
      let c = Call.open_to_write (block2mtd_file env) in
      rw (works.opens t) (
        rw (a.0, str_eq_same device) refl,
        works.remembers (c ∷ t) (Call.remove_block2mtd device) refl
            ∙ works.remembers t c refl
            ∙ a.1,
      )

  setup_block2mtd-At :
      (device : Bytes) (erasesize writesize : ℕ) (t : Trace)
      → At env device (holds (some device) none none none) t
      → let r = setup_block2mtd env device erasesize writesize t in
        At env device (holds (some device) (if r.0 then some device else none) none none) r.1
  unfolding setup_block2mtd held
  setup_block2mtd-At device erasesize writesize t a =
      let c = Call.open_to_write (block2mtd_file env) in
      let add = Call.add_block2mtd device erasesize writesize in
      let keeps = works.remembers (c ∷ t) add refl ∙ works.remembers t c refl ∙ a.1 in
      rw (works.opens t) (elim (Bool-cases (is_negative (env.answer (c ∷ t) add))) [
        | inl failed ↦ rw (failed, a.0) (refl, keeps)
        | inr good ↦ rw (good, a.0) (refl, keeps)
      ])

  attach-At :
      (device : Bytes) (mtd vid : ℕ) (t : Trace)
      → At env device (image_held device) t
      → let r = ubi_attach_ofgwrite env mtd vid false t in
        At env device
          (holds (some device) (some device) (if r.0 then some (mtd_node mtd) else none) none)
          r.1
  unfolding ubi_attach_ofgwrite held
  attach-At device mtd vid t a =
      let c =
        Call.run Tool.ubiattach
          (lit "-d" ∷ lit "10" ∷ lit "-m" ∷ decimal mtd ∷ lit "-O" ∷ decimal vid ∷ []) in
      let keeps = works.remembers t c refl ∙ a.1 in
      elim (Bool-cases (is_nonzero (env.answer t c))) [
        | inl failed ↦ rw (failed, a.0) (refl, keeps)
        | inr good ↦ rw (good, a.0) (refl, keeps)
      ]

  pub detach-At :
      (device : Bytes) (l b m : Option Bytes) (mtd : ℕ) (t : Trace)
      → At env device (holds l b (some (mtd_node mtd)) m) t
      → At env device (holds l b none m) (ubi_detach_dev env mtd false t).1
  unfolding ubi_detach_dev held
  detach-At device l b m mtd t a = (
    rw (a.0, str_eq_same (mtd_node mtd)) refl,
    works.remembers t (Call.run Tool.ubidetach (lit "-p" ∷ mtd_node mtd ∷ [])) refl ∙ a.1,
  )

  mount-At :
      (device : Bytes) (l b u : Option Bytes) (path : Bytes) (t : Trace)
      → At env device (holds l b u none) t
      → let c = Call.mount_read_only (lit "/dev/ubi10_0") path (lit "ubifs") in
        At env device
          (holds l b u (if is_negative (env.answer t c) then none else some path))
          (c ∷ t)
  unfolding held
  mount-At device l b u path t a =
      let c = Call.mount_read_only (lit "/dev/ubi10_0") path (lit "ubifs") in
      let keeps = works.remembers t c refl ∙ a.1 in
      elim (Bool-cases (is_negative (env.answer t c))) [
        | inl failed ↦ rw (failed, a.0) (refl, keeps)
        | inr good ↦ rw (good, a.0) (refl, keeps)
      ]

  pub umount-At :
      (device : Bytes) (l b u : Option Bytes) (path : Bytes) (t : Trace)
      → At env device (holds l b u (some path)) t
      → At env device (holds l b u none) (Call.umount path ∷ t)
  unfolding held
  umount-At device l b u path t a =
      (rw (a.0, str_eq_same path) refl, works.remembers t (Call.umount path) refl ∙ a.1)

  -- block2mtd and then the loop device are given back.
  pub held-remove_release :
      (device : Bytes) (t : Trace)
      → At env device (image_held device) t
      → held env (release_loop_device env (remove_block2mtd env (env.loop_device t) t).1).1
        ≡ nothing_held
  held-remove_release device t a = held-release device none none none _ (
      subst (λ d. At env device (holds (some device) none none none) (remove_block2mtd env d t).1)
        (sym a.1) (remove-At device (some device) none none t a))

  held-undo :
      (device : Bytes) (t : Trace)
      → At env device (image_held device) t
      → held env (undo_block2mtd env t).1 ≡ nothing_held
  unfolding undo_block2mtd
  held-undo device t a = held-remove_release device t a

  -- An image that is attached and mounted, or taken down.
  abbrev Mounted : ℕ → Bytes → Bool × Trace → Type 0
  Mounted mtd path (true, t) = held env t ≡ all_held (env.loop_device t) mtd path
  Mounted mtd path (false, t) = held env t ≡ nothing_held

  undo-Mounted :
      (device : Bytes) (mtd : ℕ) (path : Bytes) (t : Trace)
      → At env device (image_held device) t
      → Mounted mtd path (undo_block2mtd env t)
  undo-Mounted device mtd path t a = let e = held-undo device t a in unfold undo_block2mtd in e

  attach_and_mount-Mounted :
      (device : Bytes) (mtd vid : ℕ) (path : Bytes) (t : Trace)
      → At env device (image_held device) t
      → Mounted mtd path (attach_and_mount env mtd vid path t)
  unfolding attach_and_mount
  attach_and_mount-Mounted device mtd vid path t a =
      let r = ubi_attach_ofgwrite env mtd vid false t in
      let c = Call.mount_read_only (lit "/dev/ubi10_0") path (lit "ubifs") in
      let attached = attach-At device mtd vid t a in
      elim (Bool-cases r.0) [
        | inl good ↦
            let node : At env device (holds (some device) (some device) (some (mtd_node mtd)) none)
                r.1 =
              rw good at attached in
            let mounted =
              mount-At device (some device) (some device) (some (mtd_node mtd)) path r.1 node in
            elim (Bool-cases (is_negative (env.answer r.1 c))) [
              | inl failed ↦
                  rw (good, failed)
                    (undo-Mounted device mtd path _ (
                      detach-At device (some device) (some device) none mtd (c ∷ r.1)
                        (rw failed at mounted)))
              | inr done ↦
                  let all : At env device (all_held device mtd path) (c ∷ r.1) =
                    rw done at mounted in
                  rw (good, done)
                    (subst (λ d. held env (c ∷ r.1) ≡ all_held d mtd path) (sym all.1) all.0)
            ]
        | inr bad ↦ rw bad (undo-Mounted device mtd path r.1 (rw bad at attached))
      ]

  Settled-of_Mounted :
      (mtd : ℕ) (path : Bytes) (r : Bool × Trace)
      → Mounted mtd path r
      → Settled env path ((if r.0 then some mtd else none), r.1)
  Settled-of_Mounted mtd path (true, t) h = h
  Settled-of_Mounted mtd path (false, t) h = h

  with_mtd-Settled :
      (device : Bytes) (mtd : Option ℕ) (vid : ℕ) (path : Bytes) (t : Trace)
      → At env device (image_held device) t
      → Settled env path (with_mtd env mtd vid path t)
  unfolding with_mtd
  with_mtd-Settled device none vid path t a = held-undo device t a
  with_mtd-Settled device (some mtd) vid path t a =
      Settled-of_Mounted mtd path (attach_and_mount env mtd vid path t)
        (attach_and_mount-Mounted device mtd vid path t a)

  with_vid_offset-Settled :
      (device : Bytes) (vid : Option ℕ) (path : Bytes) (t : Trace)
      → At env device (image_held device) t
      → Settled env path (with_vid_offset env vid path t)
  unfolding with_vid_offset detect_mtd_device
  with_vid_offset-Settled device none path t a = held-undo device t a
  with_vid_offset-Settled device (some vid) path t a = with_mtd-Settled device _ vid path t a

  setup_loop-held :
      (image : Bytes) (t : Trace)
      → held env t ≡ nothing_held
      → let r = setup_loop_device env image t in
        held env r.1 ≡ holds (if r.0 then some (env.loop_device r.1) else none) none none none
  unfolding setup_loop_device held
  setup_loop-held image t h =
      let c = Call.run Tool.losetup (lit "-r" ∷ lit "-f" ∷ image ∷ []) in
      elim (Bool-cases (is_nonzero (env.answer t c))) [
        | inl failed ↦ rw (failed, h) refl
        | inr good ↦ rw (good, h) refl
      ]

  pub mount_loop-Settled :
      (image : Bytes) (erasesize writesize : ℕ) (path : Bytes) (t : Trace)
      → held env t ≡ nothing_held
      → Settled env path (mount_loop env image erasesize writesize path t)
  unfolding mount_loop detect_vid_offset
  mount_loop-Settled image erasesize writesize path t h =
      let r = setup_loop_device env image t in
      let device = env.loop_device r.1 in
      let r' = setup_block2mtd env device erasesize writesize r.1 in
      let looped = setup_loop-held image t h in
      elim (Bool-cases r.0) [
        | inl good ↦
            let added =
              setup_block2mtd-At device erasesize writesize r.1 ((rw good at looped), refl) in
            elim (Bool-cases r'.0) [
              | inl done ↦
                  rw (good, done) (with_vid_offset-Settled device _ path r'.1 (rw done at added))
              | inr failed ↦
                  rw (good, failed) (held-release device none none none r'.1 (rw failed at added))
            ]
        | inr bad ↦ rw bad (rw bad at looped)
      ]
