-- ===== src/Task/Retry.antt =====
-- The default loop of a task: it goes on until an attempt yields a value. An error of an attempt is
-- only logged by the code, against the doc of `repeatable_routine`, so it does not end the loop.
use meio.Prelude.{
  ℕ, zero, suc, ◌<◌, ◌≡◌, ◌≢◌, refl, not, Option, none, some, Result, ok, err, is_err, ◌∙◌, sym,
  ◌↔◌, arith, Option-cases, inl, inr,
}
use meio.Handlers.{Error}
use meio.Task.{LiteTask, repeat, interruptable_routine}

module _ {S A E : Type 0} (task : LiteTask S A E) where
  -- What the attempt in a state yields, and the state after the attempt and the wait.
  abbrev value_of : Result (Option A) (Error E) → Option A
  value_of (ok o) = o
  value_of (err e) = none

  abbrev pub attempt : S → Option A
  attempt s = value_of (task.repeatable_routine s).0

  abbrev pub next_round : S → S
  next_round s =
      task.routine_wait (not (is_err (task.repeatable_routine s).0)) (task.repeatable_routine s).1

  abbrev pub rounds : ℕ → S → S
  rounds zero s = s
  rounds (suc n) s = rounds n (next_round s)

  repeat-value :
      (fuel : ℕ) (s : S) (a : A) → attempt s ≡ some a → repeat task (suc fuel) s ≡ some (ok a)
  unfolding repeat
  repeat-value fuel s a e = ground arith

  repeat-again :
      (fuel : ℕ) (s : S)
      → attempt s ≡ none
      → repeat task (suc fuel) s ≡ repeat task fuel (next_round s)
  unfolding repeat
  repeat-again fuel s e = ground arith

  -- The loop comes back with the value of the first attempt that has one, after as many rounds as
  -- that takes, and failed attempts before it do not count.
  pub repeat_first :
      (n fuel : ℕ) (s : S) (a : A)
      → ((j : ℕ) → j < n → attempt (rounds j s) ≡ none)
      → attempt (rounds n s) ≡ some a
      → n < fuel
      → repeat task fuel s ≡ some (ok a)
  repeat_first n zero s a before here lt = absurd (omega arith)
  repeat_first zero (suc fuel) s a before here lt = repeat-value fuel s a here
  repeat_first (suc n) (suc fuel) s a before here lt =
      repeat-again fuel s (before 0 (omega arith))
      ∙ repeat_first n fuel (next_round s) a (λ j l. before (suc j) (omega arith)) here
          (omega arith)

  pub repeat_never :
      (fuel : ℕ) (s : S)
      → ((j : ℕ) → j < fuel → attempt (rounds j s) ≡ none)
      → repeat task fuel s ≡ none
  unfolding repeat
  repeat_never zero s h = refl
  repeat_never (suc fuel) s h =
      repeat-again fuel s (h 0 (omega arith))
      ∙ repeat_never fuel (next_round s) (λ j l. h (suc j) (omega arith))

  repeat-ne-err : (fuel : ℕ) (s : S) (e : Error E) → repeat task fuel s ≢ some (err e)
  unfolding repeat
  repeat-ne-err zero s e h = cc
  repeat-ne-err (suc fuel) s e h = elim (Option-cases (attempt s)) [
    | inl again ↦ repeat-ne-err fuel (next_round s) e (sym (repeat-again fuel s again) ∙ h)
    | inr (a, value) ↦ cc (repeat-value fuel s a value)
  ]

  -- The routine fails exactly if its preparation fails; no attempt, however it fails, ends it.
  pub interruptable_routine_fails_iff :
      (fuel : ℕ) (s : S) (e : Error E)
      → (interruptable_routine task fuel s ≡ some (err e))
        ↔ ((task.pre_repeatable_routine s).0 ≡ err e)
  unfolding interruptable_routine
  interruptable_routine_fails_iff fuel s e =
      ground (arith, repeat-ne-err fuel (task.pre_repeatable_routine s).1 e)
