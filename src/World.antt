-- ===== src/World.antt =====
-- The actors and tasks of a process together: meio/src/actor_runtime.rs and meio/src/lite_runtime.rs
-- as steps of one world. Each runtime is a coroutine of its own, so a step lets any one of them go
-- on; what the runtimes share are the heap of ids, the log of effects, and the `Done` parcels that
-- were sent to a supervisor and that its runtime has not yet read.
pub mod Spawns
pub mod Growth
pub mod Runs
pub mod Turns
pub mod Ends
pub mod Tidy
pub mod Onward
pub mod Told
pub mod Founded
pub mod Shutdown
pub mod Completion
use meio.Prelude.{
  ◌≡◌, Bool, true, false, Option, none, some, List, [], ◌∷◌, ◌++◌, ite, ℕ_discrete, ◌==◌, ◌&&◌,
  ◌||◌, if◌then◌else◌, Result,
}
use meio.Prelude.Set
use meio.Ids.{Ident, Heap, unique}
use meio.Lifecycle.{Send, parcel, stop_signal, Operation, forward, done, schedule, notify}
use meio.Handlers.{
  Error, Handlers, Message, child_done, task_done, awake, interruption, action, instant, interact,
  item, items_done, scheduled, terminate, tick, attach,
}
use meio.Context.{
  Effect, signal, spawned, task_spawned, response, notified, released, done_of, Environment,
  Process, new_context,
}
use meio.Runtime.{
  Poll, pending, ready, TimerQueue, Parcel, Inputs, ActorRuntime, turn, entrypoint, after_routine,
  spawn,
}
use meio.Task

-- Whether two optional supervisors are one.
abbrev pub same_supervisor : Option Ident → Option Ident → Bool
same_supervisor none none = true
same_supervisor none (some b) = false
same_supervisor (some a) none = false
same_supervisor (some a) (some b) = a == b

-- Whether an effect is the spawn of an actor, or of a task, under an id and a supervisor.
abbrev pub spawns : {O E : Type 0} → Bool → Option Ident → Ident → Effect O E → Bool
spawns false supervisor id (spawned i s) = i == id && same_supervisor s supervisor
spawns true supervisor id (task_spawned i s) = i == id && same_supervisor s supervisor
spawns false supervisor id (task_spawned i s) = false
spawns true supervisor id (spawned i s) = false
spawns is_task supervisor id (signal s) = false
spawns is_task supervisor id (response n r) = false
spawns is_task supervisor id (notified s) = false
spawns is_task supervisor id released = false

unfoldable pub is_spawned : {O E : Type 0} → Bool → Option Ident → Ident → List (Effect O E) → Bool
is_spawned is_task supervisor id [] = false
is_spawned is_task supervisor id (e ∷ es) =
    let rest = is_spawned is_task supervisor id es in spawns is_task supervisor id e || rest

-- Whether an envelope is that of the `Done` of a child: for an actor its `Eliminated`, for a task its
-- `TaskDone`, with any tag and result.
abbrev pub tells : {I O E : Type 0} → Ident → Ident → List (Effect O E) → Message I O E → Bool
tells s child log (child_done id) = id == child && is_spawned false (some s) child log
tells s child log (task_done kind id tag result) = id == child && is_spawned true (some s) child log
tells s child log awake = false
tells s child log interruption = false
tells s child log (action i) = false
tells s child log (instant i) = false
tells s child log (interact request responder) = false
tells s child log (item i) = false
tells s child log items_done = false
tells s child log (scheduled timestamp i) = false
tells s child log terminate = false
tells s child log (tick now) = false
tells s child log (attach tag) = false

-- A child that has ended, with the supervisor that is told so.
pub record Report : Type 0 where
  pub supervisor : Ident
  pub child : Ident

unfoldable pub reports_of : {P : Type 0} → List (Send P) → List Report
reports_of [] = []
reports_of (parcel a (done id) p ∷ ss) = record { supervisor = a; child = id } ∷ reports_of ss
reports_of (parcel a forward p ∷ ss) = reports_of ss
reports_of (parcel a (schedule deadline) p ∷ ss) = reports_of ss
reports_of (stop_signal a ∷ ss) = reports_of ss

unfoldable pub is_pending : Ident → Ident → List Report → Bool
is_pending s id [] = false
is_pending s id (r ∷ rs) =
    let rest = is_pending s id rs in (r.supervisor == s && r.child == id) || rest

-- The first report of a child to a supervisor is read.
unfoldable pub take_report : Ident → Ident → List Report → List Report
take_report s id [] = []
take_report s id (r ∷ rs) =
    let rest = take_report s id rs in if r.supervisor == s && r.child == id then rs else r ∷ rest

-- The handlers, the actors' types among them, are those of the whole application: `S` is the sum of
-- the types of its actors.
pub record World (S G I O E Q : Type 0) : Type 0 where
  pub heap : Heap
  pub log : List (Effect O E)
  pub runtimes : Ident → Option (ActorRuntime S G I O E Q)
  pub ended : List Ident
  pub unread : List Report

module _ {S G I O E Q : Type 0} where
  unfoldable pub put :
      Ident
      → ActorRuntime S G I O E Q
      → (Ident → Option (ActorRuntime S G I O E Q))
      → Ident
      → Option (ActorRuntime S G I O E Q)
  put id r runtimes k = ite (ℕ_discrete k id) (some r) (runtimes k)

  -- A runtime that goes on, with what the others have left of the shared state.
  unfoldable pub resume : World S G I O E Q → ActorRuntime S G I O E Q → ActorRuntime S G I O E Q
  resume w r = record r { process = record { ctx = r.process.ctx; heap = w.heap; log = w.log } }

  unfoldable pub settle : World S G I O E Q → Ident → ActorRuntime S G I O E Q → World S G I O E Q
  unfolding put
  settle w id r = record w {
    heap = r.process.heap;
    log = r.process.log;
    runtimes = put id r w.runtimes;
  }

  -- The end of an actor or a task, with the parcels by which it is told.
  unfoldable pub close :
      {P : Type 0} → World S G I O E Q → Ident → List (Send P) → World S G I O E Q
  unfolding reports_of
  close w id sends = record w { ended = id ∷ w.ended; unread = w.unread ++ reports_of sends }

  -- The world after a runtime went on; it may have come to its end.
  unfoldable pub arise :
      World S G I O E Q → Ident → Bool × ActorRuntime S G I O E Q → World S G I O E Q
  unfolding settle close
  arise w id (is_over, r) =
      let w' = settle w id r in
      if is_over then close w' id (notify r.done_notifier (done_of r.id)) else w'

-- Whether the inputs of a turn hold no `Done` parcel: these come from `unread` alone.
abbrev pub is_plain_operation : Operation → Bool
is_plain_operation (done id) = false
is_plain_operation forward = true
is_plain_operation (schedule deadline) = true

abbrev pub is_plain : {I O E : Type 0} → Poll (Option (Parcel I O E)) → Bool
is_plain pending = true
is_plain (ready none) = true
is_plain (ready (some p)) = is_plain_operation p.operation

module _ {S G I O E Q : Type 0} (env : Environment G O E) (timer : TimerQueue (Message I O E) Q)
    (handlers : Handlers S G I O E) where
  unfoldable pub empty : World S G I O E Q
  empty = record { heap = []; log = []; runtimes = λ id. none; ended = []; unread = [] }

  -- `System::spawn`: an actor without a supervisor, with the id of its new pair.
  unfoldable pub found : World S G I O E Q → World S G I O E Q
  found w =
      let (id, heap) = unique (env.uuid w.heap) w.heap in
      record w { heap = heap; log = w.log ++ spawned id none ∷ [] }

  -- The context that `spawn` replaces.
  unfoldable pub shared : World S G I O E Q → Ident → Process G O E
  shared w id = record { ctx = new_context id; heap = w.heap; log = w.log }

  pub data Step (w : World S G I O E Q) : World S G I O E Q → Type 0 where
    founded : Step w (found w)
    -- A spawned actor runs its first handler.
    awoken :
        (id : Ident) (supervisor : Option Ident) (actor : S) (sequence : List G) (joined : Bool)
        → is_spawned false supervisor id w.log ≡ true
        → w.runtimes id ≡ none
        → Set.contains ℕ_discrete id w.ended ≡ false
        → Step w (
            arise w id (
              entrypoint env timer handlers sequence [] joined
                (spawn env timer handlers actor supervisor id (shared w id))))
    -- A turn of the loop of an actor, with any other message than a `Done`.
    turned :
        (id : Ident) (r : ActorRuntime S G I O E Q) (i : Inputs I O E) (joined : Bool)
        → w.runtimes id ≡ some r
        → Set.contains ℕ_discrete id w.ended ≡ false
        → is_plain i.hp_msg_rx ≡ true
        → Step w (
            arise w id
              (after_routine env timer handlers joined (turn env timer handlers i (resume w r))))
    -- A turn at which a `Done` is read.
    told :
        (id child : Ident) (r : ActorRuntime S G I O E Q) (i : Inputs I O E) (joined : Bool)
        (m : Message I O E)
        → w.runtimes id ≡ some r
        → Set.contains ℕ_discrete id w.ended ≡ false
        → is_pending id child w.unread ≡ true
        → i.hp_msg_rx ≡ ready (some (record { operation = done child; envelope = m }))
        → tells id child w.log m ≡ true
        → Step w (
            arise
              (record w { unread = take_report id child w.unread })
              id
              (after_routine env timer handlers joined (turn env timer handlers i (resume w r))))
    -- A task ends.
    task_over :
        (id supervisor : Ident) (tag : I) (res : Result O (Error E))
        → is_spawned true (some supervisor) id w.log ≡ true
        → Set.contains ℕ_discrete id w.ended ≡ false
        → Step w (close w id (Task.entrypoint (Task.spawn id tag (some supervisor)) res))

  pub data Reaches : World S G I O E Q → Type 0 where
    here : Reaches empty
    then : {w w' : World S G I O E Q} → Reaches w → Step w w' → Reaches w'
