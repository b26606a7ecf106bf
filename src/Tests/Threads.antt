-- ===== src/Tests/Threads.antt =====
-- The drop of a runtime in a thread of its own.
use meio.Prelude.{ℕ, ◌<◌, ◌≡◌, ◌≢◌, ◌⊎◌, refl, true, false, ok}
use meio.Thread.{
  State, at_state, spawn, lock, fail, notify, unsent, interrupt, refuse, join, acquire, Step,
  in_scope, in_drop, end_running, end_leaving, Reaches, here, then, starting, over, running, broken,
  held, locking, dropped,
}
use meio.Thread.Drop.{started, drop_waits, drop_proceeds, steps_left, CanGo, waiting_state}

abbrev notified : State
notified = at_state running locking true true false

notified-Reaches : Reaches started notified
notified-Reaches = then here (in_drop (notify (λ e. cc)))

abbrev ended : State
ended = at_state over dropped false true true

ended-Reaches : Reaches started ended
ended-Reaches =
    then (then (then (then notified-Reaches (in_scope interrupt)) end_leaving) (in_scope join))
      (in_drop acquire)

-- The actor ends by itself, and then the interruption is refused.
refused-Reaches : Reaches started ended
refused-Reaches =
    then (then (then notified-Reaches end_running) (in_scope refuse)) (in_drop acquire)

drop_waits_example : (ended.is_ended ≡ true) × (ended.scope ≡ over)
drop_waits_example = drop_waits ended-Reaches refl

still_locking : notified.handle ≢ dropped
still_locking e = cc

drop_proceeds_example :
    (CanGo notified ⊎ (notified ≡ waiting_state))
    × ((t : State) → Step notified t → steps_left t < steps_left notified)
drop_proceeds_example = drop_proceeds notified-Reaches still_locking

-- A handle that is dropped before the thread takes the lock does not wait for the actor.
abbrev spawned : State
spawned = at_state starting held false false false

spawn_ok : spawn {E = ℕ} (ok tt) ≡ ok spawned
unfolding spawn
spawn_ok = refl

early_drop : Reaches spawned (at_state running dropped true true false)
early_drop = then (then (then here (in_drop (notify (λ e. cc)))) (in_drop acquire)) (in_scope lock)

broken_drop : Reaches spawned (at_state broken dropped false false false)
broken_drop = then (then here (in_scope fail)) (in_drop unsent)
