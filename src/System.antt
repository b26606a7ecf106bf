-- ===== src/System.antt =====
-- meio/src/system.rs: how the system waits for an actor that it spawned, and interrupts it; with the
-- stream of meio/src/signal.rs.
pub mod Waiting
use meio.Prelude.{
  Result, ◌≡◌, refl, Bool, true, false, Option, none, some, List, [], ◌∷◌, ok, err, if◌then◌else◌,
}
use meio.Handlers.{Error, unsent, Outcome}
use meio.Linkage.{Address, Post, interrupt_by}
use meio.Task.{Watched}
use meio.Linkage.Recipients.{join}

-- What wakes `select!` up: the user sends SIGINT, or the actor is done.
pub data Wakeup : Type 0 where
  sigint joined : Wakeup

-- `CtrlC` of meio/src/signal.rs.
pub data CtrlC : Type 0 where
  ctrl_c : CtrlC

-- The `map` of `CtrlC::stream`, over what the stream of the `signal::ctrl_c` future yields; an error
-- is only logged.
unfoldable pub stream : {F : Type 0} → List (Result (Unit {0}) F) → List CtrlC
stream [] = []
stream (res ∷ rs) = ctrl_c ∷ stream rs

-- Whether the actor is ever done.
abbrev pub has_joined : List Wakeup → Bool
has_joined [] = false
has_joined (joined ∷ ws) = true
has_joined (sigint ∷ ws) = has_joined ws

-- What happens while it waits: the user sends SIGINT, or the status of the actor changes.
pub data Happening : Type 0 where
  sent_sigint : Happening
  status : Watched → Happening

-- The joiner, `Address::join`, is polled until it is done, and then no more.
unfoldable pub wakeups : List Happening → List Wakeup
unfolding join
wakeups [] = []
wakeups (sent_sigint ∷ hs) = sigint ∷ wakeups hs
wakeups (status w ∷ hs) = let rest = wakeups hs in if join (w ∷ []) then joined ∷ [] else rest

-- `System::interrupt`.
unfoldable pub interrupt : {I O E : Type 0} → Address → Post I O E
unfolding interrupt_by
interrupt address = interrupt_by address

module _ {E : Type 0} where
  -- The loop, with what is left in the stream of signals, and `first_attempt`: its result, or `none`
  -- while it goes on. The branch of a stream that has ended is never taken. `taken` says whether the
  -- actor takes the interruption.
  unfoldable pub wait_loop : Bool → List CtrlC → Bool → List Wakeup → Option (Outcome E)
  wait_loop taken signals first_attempt [] = none
  wait_loop taken signals first_attempt (joined ∷ ws) = some (ok tt)
  wait_loop taken [] first_attempt (sigint ∷ ws) = wait_loop taken [] first_attempt ws
  wait_loop taken (ctrl_c ∷ signals) true (sigint ∷ ws) =
      let rest = wait_loop taken signals false ws in if taken then rest else some (err unsent)
  wait_loop taken (ctrl_c ∷ signals) false (sigint ∷ ws) = some (ok tt)

  -- `wait_or_interrupt`, with what `into_stream` makes of the `signal::ctrl_c` future.
  unfoldable pub wait_or_interrupt :
      {F : Type 0} → List (Result (Unit {0}) F) → Bool → List Wakeup → Option (Outcome E)
  unfolding wait_loop stream
  wait_or_interrupt yields taken ws = wait_loop taken (stream yields) true ws

  -- `spawn_and_wait`, behind the spawn: the errors that it logs once it has come back.
  unfoldable pub spawn_and_wait :
      {F : Type 0} → List (Result (Unit {0}) F) → Bool → List Happening → Option (List (Error E))
  unfolding wait_or_interrupt wakeups
  spawn_and_wait yields taken hs = elim (wait_or_interrupt yields taken (wakeups hs)) [
    | none ↦ none
    | some result ↦ elim result [ ok u ↦ some [] | err e ↦ some (e ∷ []) ]
  ]
