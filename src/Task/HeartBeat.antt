-- ===== src/Task/HeartBeat.antt =====
-- meio/src/tasks/heartbeat.rs: the task that sends ticks.
use meio.Prelude.{
  ℕ, ◌+◌, ◌≡◌, Bool, Option, none, some, List, [], ◌∷◌, ◌++◌, ok, err, arith, if◌then◌else◌,
}
use meio.Handlers.{unsent}
use meio.Task.{LiteTask, interruptable_routine}
use meio.Task.Retry.{repeat_never, attempt, rounds}

-- What `timeout_at(instant, self.duration.changed())` comes back with: a new duration, an error once
-- the handle is gone, or that the time has elapsed.
pub data Waited : Type 0 where
  changed : ℕ → Waited
  closed elapsed : Waited

-- The loop of `routine_wait`, which began at `now`, with the duration that the channel holds: the
-- instant up to which it waits, or `none` while it goes on.
unfoldable pub wait_until : ℕ → ℕ → List Waited → Option ℕ
wait_until now duration [] = none
wait_until now duration (changed d ∷ ws) = wait_until now d ws
wait_until now duration (closed ∷ ws) = some (now + duration)
wait_until now duration (elapsed ∷ ws) = some (now + duration)

-- What the task meets: whether the actor takes each tick, and the instant at which it is sent, after
-- those that were sent before.
pub record Beats : Type 0 where
  pub takes : List ℕ → ℕ → Bool
  pub clock : List ℕ → ℕ

-- `HeartBeat` as a `LiteTask`. Its state are the ticks that it has sent; a wait adds none.
unfoldable pub heart_beat : {E : Type 0} → Beats → LiteTask (List ℕ) (Unit {0}) E
heart_beat b = record {
  pre_repeatable_routine = λ s. (ok tt, s);
  repeatable_routine = λ s.
      let tick = b.clock s in if b.takes s tick then (ok none, s ++ tick ∷ []) else (err unsent, s);
  routine_wait = λ succeed s. s;
}

-- The last of the durations that were set.
abbrev pub last : ℕ → List ℕ → ℕ
last d [] = d
last d (x ∷ xs) = last x xs

no_value : (E : Type 0) (b : Beats) (s : List ℕ) → attempt (heart_beat {E = E} b) s ≡ none
unfolding heart_beat
no_value E b s = ground arith

-- The task never ends by itself, after any number of rounds and whether or not the actor takes its
-- ticks: it runs until it is stopped, also when the actor is gone.
pub heart_beat_never_ends :
    {E : Type 0} (b : Beats) (fuel : ℕ) (s : List ℕ)
    → interruptable_routine (heart_beat {E = E} b) fuel s ≡ none
unfolding interruptable_routine heart_beat
heart_beat_never_ends {E} b fuel s =
    repeat_never (heart_beat {E = E} b) fuel s
      (λ j l. no_value E b (rounds (heart_beat {E = E} b) j s))
