-- ===== src/EnigmaStop.antt =====
-- ofgwrite.c: `exec_ps` and `check_e2_stopped`, which waits until Enigma2 has ended.
use ofgwrite.Base.{◌≡◌, ◌⊎◌, inl, inr, arith, refl, ap, Bool-cases, ◌≤◌, ◌<◌}
use ofgwrite.Base.{ℕ, zero, suc, ◌+◌, ◌*◌, ◌/◌, Bool, true, false, [], ◌∷◌}
use ofgwrite.Base.{leb, if◌then◌else◌, Option, none, some, ◌≢◌, ◌↔◌}
use ofgwrite.Base.Calls.{M, Env, Call, Tool, Trace, call, tell, pure, ◌>>=◌, ◌>>◌}
use ofgwrite.Base.Int.{ℤ, pos, int_eq}

module _ (env : Env) where
  -- busybox's ps returns 9999 if it has found Enigma2.
  unfoldable pub exec_ps : M Bool
  exec_ps = do ret ← call env (Call.run Tool.ps []); pure (int_eq ret (pos 9999))

  abbrev pub max_time : ℕ
  max_time = 70

  -- The loop; it returns `!e2_found`. `time` grows by 2 in each round that goes on.
  unfoldable pub wait_for_e2 : ℕ → ℕ → M Bool
  unfolding exec_ps
  wait_for_e2 zero time = pure false
  wait_for_e2 (suc fuel) time =
      let next = wait_for_e2 fuel (time + 2) in
      if leb 70 time then pure false else do
        e2_found ← exec_ps
        if e2_found
            then (do
              tell (Call.sleep 2)
              tell (Call.set_step_progress ((time + 2) * 100 / 70))
              next)
            else do tell (Call.set_step_progress (time * 100 / 70)); pure true

  -- 36 rounds are enough for the 35 that can be made.
  unfoldable pub check_e2_stopped : M Bool
  unfolding wait_for_e2
  check_e2_stopped = do tell (Call.set_step_progress 0); wait_for_e2 36 0

-- The seconds that a trace sleeps.
abbrev pub seconds : Call → ℕ
seconds (Call.sleep n) = n
seconds _ = 0

unfoldable pub slept : Trace → ℕ
slept [] = 0
slept (c ∷ t) = slept t + seconds c

abbrev pub is_ps : Call → Bool
is_ps (Call.run Tool.ps argv) = true
is_ps _ = false

-- What the newest run of ps has answered.
unfoldable pub last_ps : Env → Trace → Option ℤ
last_ps env [] = none
last_ps env (c ∷ t) = if is_ps c then some (env.answer t c) else last_ps env t

-- The newest run of ps has answered, and not with 9999: it has not found Enigma2.
abbrev pub IsGone : Env → Trace → Type 0
IsGone env t = (ret : ℤ) × (last_ps env t ≡ some ret) × (ret ≢ pos 9999)

-- It has answered 9999.
abbrev pub IsRunning : Env → Trace → Type 0
IsRunning env t = last_ps env t ≡ some (pos 9999)

-- The wait ends with Enigma2 gone after at most 68 seconds, or with Enigma2 still there after 70.
abbrev EndsInTime : Env → Bool → ℕ → ℕ → Trace → Type 0
EndsInTime env stopped before after t =
    (stopped ≡ true) × IsGone env t × (after ≤ before + 68)
    ⊎ (stopped ≡ false) × IsRunning env t × (after ≡ before + 70)

EndsInTime-later :
    (env : Env) (stopped : Bool) (before later after time : ℕ) (t : Trace)
    → later ≡ before + 2
    → EndsInTime env stopped later (after + (time + 2)) t
    → EndsInTime env stopped before (after + time) t
EndsInTime-later env stopped before later after time t e (inl (s, g, le)) = inl (s, g, omega arith)
EndsInTime-later env stopped before later after time t e (inr (s, r, eq)) = inr (s, r, omega arith)

EndsInTime-zero :
    (env : Env) (stopped : Bool) (before after : ℕ) (t : Trace)
    → EndsInTime env stopped (before + 0) (after + 0) t
    → EndsInTime env stopped before after t
EndsInTime-zero env stopped before after t (inl (s, g, le)) = inl (s, g, omega arith)
EndsInTime-zero env stopped before after t (inr (s, r, eq)) = inr (s, r, omega arith)

even_70 : (k time : ℕ) → time ≡ 2 * k → k ≤ 35 → leb 70 time ≡ true → (time ≡ 70) × (k ≢ 0)
even_70 k time e h over = (ground arith, ground arith)

even_68 : (k time : ℕ) → time ≡ 2 * k → leb 70 time ≡ false → (time ≤ 68) × (k + 1 ≤ 35)
even_68 k time e more = ground arith

≤-slept : (n time : ℕ) → time ≤ 68 → n + 0 + 0 + time ≤ n + 68
≤-slept n time h = omega arith

int_eq_9999 : (ret : ℤ) → (int_eq ret (pos 9999) ≡ true) ↔ (ret ≡ pos 9999)
int_eq_9999 ret = ground arith

module _ (env : Env) where
  -- `k` rounds have been made, each of which has found Enigma2.
  wait_for_e2-EndsInTime :
      (fuel k time : ℕ) (t : Trace)
      → time ≡ 2 * k
      → k ≤ 35
      → 35 < fuel + k
      → (k ≢ 0 → IsRunning env t)
      → let r = wait_for_e2 env fuel time t in EndsInTime env r.0 (slept t) (slept r.1 + time) r.1
  unfolding wait_for_e2 slept last_ps
  wait_for_e2-EndsInTime zero k time t e h f found = absurd (omega arith)
  wait_for_e2-EndsInTime (suc fuel) k time t e h f found =
      let ps = Call.run Tool.ps [] in
      let t' = Call.set_step_progress ((time + 2) * 100 / 70) ∷ Call.sleep 2 ∷ ps ∷ t in
      elim (Bool-cases (leb 70 time)) [
        | inl over ↦ rw over (
            inr (
              refl,
              found (even_70 k time e h over).1,
              ap (λ n. slept t + n) (even_70 k time e h over).0,
            ))
        | inr more ↦ elim (Bool-cases (int_eq (env.answer t ps) (pos 9999))) [
          | inl running ↦
              rw (more, running)
                (EndsInTime-later env _ (slept t) (slept t') _ time
                  (wait_for_e2 env fuel (time + 2) t').1 (omega arith)
                  (wait_for_e2-EndsInTime fuel (k + 1) (time + 2) t' (omega arith)
                    (even_68 k time e more).1 (omega arith)
                    (λ _. ap some ((int_eq_9999 (env.answer t ps)).0 running))))
          | inr stopped ↦
              rw (more, stopped)
                (inl (
                  refl,
                  (env.answer t ps, refl, ground (arith, int_eq_9999 (env.answer t ps))),
                  ≤-slept (slept t) time (even_68 k time e more).0,
                ))
        ]
      ]

  -- The wait ends, either with success when the newest run of ps has not answered 9999, which says that
  -- Enigma2 runs, and at most 68 seconds were slept; or with failure when the newest run of ps has
  -- answered 9999 and exactly 70 seconds were slept.
  pub check_e2_stopped-slept :
      (t : Trace)
      → let r = check_e2_stopped env t in
        (r.0 ≡ true) × IsGone env r.1 × (slept r.1 ≤ slept t + 68)
        ⊎ (r.0 ≡ false) × IsRunning env r.1 × (slept r.1 ≡ slept t + 70)
  unfolding check_e2_stopped slept
  check_e2_stopped-slept t = EndsInTime-zero env _ (slept t) _ _ (
      wait_for_e2-EndsInTime 36 0 0 (Call.set_step_progress 0 ∷ t) refl (omega arith) (omega arith)
        (λ n. absurd (n refl)))
