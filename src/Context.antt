-- ===== src/Context.antt =====
-- meio/src/actor_runtime.rs: the `Context` of an actor, `spawn`, and the run of a handler.
pub mod Laws
pub mod Fresh
use meio.Prelude.{
  ℕ, ◌≡◌, Bool, true, false, Option, none, some, List, [], ◌∷◌, ◌++◌, map, Result, ok, err,
  if◌then◌else◌,
}
use meio.Ids.{Ident, Heap, unique}
use meio.Lifecycle.{
  Send, parcel, Interrupt, LifecycleNotifier, ignore, once, done, forward, LifetimeTracker, Hashing,
}
use meio.Lifecycle
use meio.Handlers.{Error, Script, Outcome, is_closing}

pub record Context (G : Type 0) : Type 0 where
  pub alive : Bool
  pub address : Ident
  pub lifetime_tracker : LifetimeTracker G

-- `Done<T>`.
pub data Done : Type 0 where
  done_of : Ident → Done

-- What an actor does to the rest of the process: the sends of its tracker, the runtimes that it
-- spawns (a child with its supervisor), a response to an interaction, its `Done` notification, and
-- the release of those that wait for its end.
pub data Effect (O E : Type 0) : Type 0 where
  signal : Send Interrupt → Effect O E
  spawned : Ident → Option Ident → Effect O E
  task_spawned : Ident → Option Ident → Effect O E
  response : ℕ → Result O (Error E) → Effect O E
  notified : Send Done → Effect O E
  released : Effect O E

-- What is not code of the repository: the hash tables, `Uuid::new_v4` at each allocation, and
-- whether a channel takes what is sent, which may depend on all that happened before.
pub record Environment (G O E : Type 0) : Type 0 where
  pub hashing : Hashing G
  pub uuid : Heap → ℕ
  pub accepts : List (Effect O E) → Effect O E → Bool

-- The `done_notifier` that `spawn` makes, for actors and for tasks.
unfoldable pub done_notifier : Ident → Option Ident → LifecycleNotifier
done_notifier id none = ignore
done_notifier id (some supervisor) = once supervisor (done id)

module _ {G : Type 0} where
  -- The context that `spawn` makes.
  unfoldable pub new_context : Ident → Context G
  new_context address = record { alive = true; address = address; lifetime_tracker = Lifecycle.new }

  unfoldable pub stop : Context G → Context G
  stop c = record c { alive = false }

  unfoldable pub is_terminating : Context G → Bool
  is_terminating c = Lifecycle.is_terminating c.lifetime_tracker

  unfoldable pub not_terminating : {E : Type 0} → Context G → Outcome E
  unfolding is_terminating
  not_terminating c = if is_terminating c then err is_closing else ok tt

  unfoldable pub shutdown : Hashing G → Context G → Context G × List (Send Interrupt)
  unfolding stop
  shutdown h c =
      let (tracker, sends) = Lifecycle.start_termination h c.lifetime_tracker in
      let c' = record c { lifetime_tracker = tracker } in
      ((if Lifecycle.is_finished h tracker then stop c' else c'), sends)

-- What a handler works on: its context, and the process around it.
pub record Process (G O E : Type 0) : Type 0 where
  pub ctx : Context G
  pub heap : Heap
  pub log : List (Effect O E)

module _ {G O E : Type 0} where
  unfoldable pub emit : List (Effect O E) → Process G O E → Process G O E
  emit es p = record p { log = p.log ++ es }

module _ {G O E : Type 0} (env : Environment G O E) where
  open env use {hashing, uuid, accepts}

  -- `Context::spawn_actor_with_addr`, with the id of the pair.
  unfoldable pub spawn_actor_with_addr : Ident → G → Process G O E → Process G O E
  unfolding emit
  spawn_actor_with_addr address group p =
      let (tracker, sends) = Lifecycle.insert hashing p.ctx.lifetime_tracker address group in
      emit (spawned address (some p.ctx.address) ∷ map signal sends)
        (record p { ctx = record p.ctx { lifetime_tracker = tracker } })

  -- `Context::spawn_actor`: `AddressPair::new` makes the id.
  unfoldable pub spawn_actor : G → Process G O E → Ident × Process G O E
  unfolding spawn_actor_with_addr
  spawn_actor group p =
      let (id, heap) = unique (uuid p.heap) p.heap in
      (id, spawn_actor_with_addr id group (record p { heap = heap }))

  -- `Context::spawn_task`: `lite_runtime::spawn` makes the id.
  unfoldable pub spawn_task : G → Process G O E → Ident × Process G O E
  unfolding emit
  spawn_task group p =
      let (id, heap) = unique (uuid p.heap) p.heap in
      let (tracker, sends) = Lifecycle.insert_task hashing p.ctx.lifetime_tracker id group in
      (
        id,
        emit (task_spawned id (some p.ctx.address) ∷ map signal sends)
            (record p { ctx = record p.ctx { lifetime_tracker = tracker }; heap = heap }),
      )

  unfoldable pub shut : Process G O E → Process G O E
  unfolding emit shutdown
  shut p = let (c, sends) = shutdown hashing p.ctx in emit (map signal sends) (record p { ctx = c })

  unfoldable pub terminate_group : G → Process G O E → Process G O E
  unfolding emit
  terminate_group group p =
      emit (map signal (Lifecycle.terminate_group hashing p.ctx.lifetime_tracker group)) p

  -- A send with its result; a refused one leaves nothing behind.
  unfoldable pub send : Effect O E → Process G O E → Bool × Process G O E
  unfolding emit
  send e p = let taken = accepts p.log e in (taken, (if taken then emit (e ∷ []) p else p))

  -- The run of a handler.
  unfoldable pub run : {S R : Type 0} → Script S G O E R → Process G O E → S × R × Process G O E
  unfolding spawn_actor spawn_task shut terminate_group send
  run (Script.return s r) p = (s, r, p)
  run (Script.stop m) p = run m (record p { ctx = stop p.ctx })
  run (Script.shutdown m) p = run m (shut p)
  run (Script.terminate_group g m) p = run m (terminate_group g p)
  run (Script.spawn_actor g f) p = let (id, p') = spawn_actor g p in run (f id) p'
  run (Script.spawn_task g f) p = let (id, p') = spawn_task g p in run (f id) p'
  run (Script.interrupt a f) p =
      let (sent, p') = send (signal (parcel a forward Interrupt.interrupt)) p in run (f sent) p'
  run (Script.is_terminating f) p = run (f (is_terminating p.ctx)) p
  run (Script.respond n r f) p = let (sent, p') = send (response n r) p in run (f sent) p'
