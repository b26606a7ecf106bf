-- ===== src/Task/FnTask.antt =====
-- meio/src/tasks/fn_task.rs: a future of the application as a task.
use meio.Prelude.{◌≡◌, refl, none, Option, some, List, [], ◌∷◌, Result, ok, err}
use meio.Handlers.{Error}
use meio.Task.{or, routine, News, polls}

-- `FnTask`: its future, by what its polls give.
pub record FnTask (A E : Type 0) : Type 0 where
  pub future : List (Option (Result A (Error E)))

-- `self.0.await`: the first value that a poll gives.
unfoldable pub await : {A : Type 0} → List (Option A) → Option A
await [] = none
await (none ∷ ps) = await ps
await (some a ∷ ps) = some a

-- `FnTask::interruptable_routine`.
unfoldable pub interruptable_routine : {A E : Type 0} → FnTask A E → Option (Result A (Error E))
unfolding await
interruptable_routine t = await t.future

-- The polls of the task, at each of which the stop channel tells nothing new.
abbrev pub unstopped : {A : Type 0} → List (Option A) → List (News A)
unstopped [] = []
unstopped (o ∷ os) = record { told = []; output = o } ∷ unstopped os

polled_await :
    {A E : Type 0} (os : List (Option (Result A (Error E))))
    → routine (polls [] (unstopped os)) ≡ await os
unfolding routine polls or await
polled_await [] = refl
polled_await (none ∷ os) = polled_await os
polled_await (some (ok a) ∷ os) = refl
polled_await (some (err e) ∷ os) = refl

-- A task that is not stopped comes back exactly with what its future gives first.
pub routine-await :
    {A E : Type 0} (t : FnTask A E)
    → routine (polls [] (unstopped t.future)) ≡ interruptable_routine t
unfolding interruptable_routine
routine-await t = polled_await t.future
