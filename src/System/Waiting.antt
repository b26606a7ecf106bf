-- ===== src/System/Waiting.antt =====
-- How long the system of meio/src/system.rs waits for an actor.
use meio.Prelude.{
  Result, ◌≡◌, refl, Bool, true, false, none, some, List, [], ◌∷◌, ok, arith, if◌then◌else◌,
}
use meio.Task.{Watched, just_done}
use meio.Linkage.Recipients.{join}
use meio.System.{
  Wakeup, sigint, joined, stream, has_joined, Happening, sent_sigint, status, wakeups, wait_loop,
  wait_or_interrupt, spawn_and_wait,
}

-- What the status channel of the actor gives.
abbrev pub statuses : List Happening → List Watched
statuses [] = []
statuses (sent_sigint ∷ hs) = statuses hs
statuses (status w ∷ hs) = w ∷ statuses hs

joined-join : (hs : List Happening) → has_joined (wakeups hs) ≡ join (statuses hs)
unfolding wakeups join just_done
joined-join [] = refl
joined-join (sent_sigint ∷ hs) = joined-join hs
joined-join (status (Watched.changed s) ∷ hs) = ground (arith, joined-join hs)
joined-join (status Watched.closed ∷ hs) = refl

module _ {E : Type 0} where
  drained_waits :
      (first : Bool) (ws : List Wakeup)
      → wait_loop {E = E} true [] first ws ≡ (if has_joined ws then some (ok tt) else none)
  unfolding wait_loop
  drained_waits first [] = refl
  drained_waits first (joined ∷ ws) = refl
  drained_waits first (sigint ∷ ws) = drained_waits first ws

  -- The stream of a future yields its output and ends. If so, a second signal does not end the loop.
  pub wait_or_interrupt_waits :
      {F : Type 0} (res : Result (Unit {0}) F) (yields : List (Result (Unit {0}) F))
      (ws : List Wakeup)
      → yields ≡ res ∷ []
      → wait_or_interrupt {E = E} yields true ws ≡ (if has_joined ws then some (ok tt) else none)
  unfolding wait_or_interrupt wait_loop stream
  wait_or_interrupt_waits res yields [] e = refl
  wait_or_interrupt_waits res yields (joined ∷ ws) e = refl
  wait_or_interrupt_waits res yields (sigint ∷ ws) e =
      rw (e, stream, wait_loop) (drained_waits false ws)

  -- The stream of a future yields its output and ends. If so, and if the actor takes the
  -- interruption, `wait_or_interrupt` and `spawn_and_wait` come back exactly when the join of the
  -- address of the actor is done, without an error, however often the user sends SIGINT: a second
  -- signal does not end them.
  pub spawn_and_wait_joins :
      {F : Type 0} (res : Result (Unit {0}) F) (yields : List (Result (Unit {0}) F))
      (hs : List Happening)
      → yields ≡ res ∷ []
      → (wait_or_interrupt {E = E} yields true (wakeups hs)
          ≡ (if join (statuses hs) then some (ok tt) else none))
        × (spawn_and_wait {E = E} yields true hs ≡ (if join (statuses hs) then some [] else none))
  unfolding spawn_and_wait
  spawn_and_wait_joins res yields hs e =
      let waits = wait_or_interrupt_waits res yields (wakeups hs) e in
      ground (arith, waits, joined-join hs)
