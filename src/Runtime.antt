-- ===== src/Runtime.antt =====
-- meio/src/actor_runtime.rs: `ActorRuntime`, its loop and its entry point; with the `DelayQueue` of
-- meio/src/compat.rs.
pub mod Laws
pub mod Calm
pub mod Shutdown
pub mod Entrypoint
pub mod Deadlines
use meio.Prelude.{
  ℕ, ◌+◌, ◌≤◌, ◌<◌, ◌≡◌, Bool, true, false, Option, none, some, List, [], ◌∷◌, ◌++◌, map, Result,
  ok, err, if◌then◌else◌, ltb,
}
use meio.Ids.{Ident}
use meio.Lifecycle.{Operation, forward, done, schedule, LifecycleNotifier, notify}
use meio.Lifecycle
use meio.Handlers.{Handlers, Script, Message, Outcome, handle, awake}
use meio.Context.{
  Context, Done, done_of, Effect, signal, notified, released, Environment, Process, emit, stop, run,
  new_context, done_notifier,
}

pub data Poll {ℓ} (A : Type ℓ) : Type ℓ where
  pending : Poll A
  ready : A → Poll A

-- What `tokio_util::time::DelayQueue` promises: `len` counts the entries; a poll takes out one entry,
-- whose deadline is over, or nothing, and adds none; and it says that there will be no more only if it is empty.
pub record TimerQueue (A Q : Type 0) : Type 0 where
  pub create : Q
  pub put_at : A → ℕ → Q → Q
  pub size : Q → ℕ
  pub next : ℕ → Q → Poll (Option (Result A Unit)) × Q
  pub size-create : size create ≡ 0
  pub size-put_at : (a : A) (deadline : ℕ) (q : Q) → size (put_at a deadline q) ≡ size q + 1
  pub size-ready :
      (now : ℕ) (q : Q) (a : A)
      → (next now q).0 ≡ ready (some (ok a))
      → size (next now q).1 + 1 ≡ size q
  pub size-next : (now : ℕ) (q : Q) → size (next now q).1 ≤ size q
  pub closed_empty : (now : ℕ) (q : Q) → (next now q).0 ≡ ready none → size q ≡ 0

-- `Parcel`.
pub record Parcel (I O E : Type 0) : Type 0 where
  pub operation : Operation
  pub envelope : Message I O E

-- What the two channels answer at one turn of the loop, and the time of it.
pub record Inputs (I O E : Type 0) : Type 0 where
  pub hp_msg_rx : Poll (Option (Parcel I O E))
  pub msg_rx : Poll (Option (Message I O E))
  pub now : ℕ

-- The runtime, with the delay queue that is local to `routine`.
pub record ActorRuntime (S G I O E Q : Type 0) : Type 0 where
  pub id : Ident
  pub actor : S
  pub process : Process G O E
  pub done_notifier : LifecycleNotifier
  pub scheduled_queue : Q

-- The branch that `select_biased!` takes.
pub data Event (I O E : Type 0) : Type 0 where
  hp_envelope : Option (Parcel I O E) → Event I O E
  delayed_envelope : Option (Result (Message I O E) Unit) → Event I O E
  lp_envelope : Option (Message I O E) → Event I O E
  idle : Event I O E

module _ {S G I O E Q : Type 0} (env : Environment G O E) (timer : TimerQueue (Message I O E) Q)
    (handlers : Handlers S G I O E) where
  open env use {hashing}
  open timer use {create, put_at, size, next}

  -- `DelayQueue::poll_next`, or `pending()` while the queue is empty.
  unfoldable pub poll_maybe_queue : ℕ → Q → Poll (Option (Result (Message I O E) Unit)) × Q
  poll_maybe_queue now q = if ltb 0 (size q) then next now q else (pending, q)

  -- `select_biased!`: the branches are polled in the order of the text, up to the first that is
  -- ready; the delay queue changes only if it is polled.
  unfoldable pub select_lp : Poll (Option (Message I O E)) → Event I O E
  select_lp pending = idle
  select_lp (ready m) = lp_envelope m

  unfoldable pub select_delayed :
      Poll (Option (Result (Message I O E) Unit)) → Poll (Option (Message I O E)) → Event I O E
  unfolding select_lp
  select_delayed pending lp = select_lp lp
  select_delayed (ready d) lp = delayed_envelope d

  unfoldable pub select : Inputs I O E → Q → Event I O E × Q
  unfolding select_delayed poll_maybe_queue
  select i q = elim i.hp_msg_rx [
    | ready p ↦ (hp_envelope p, q)
    | pending ↦ let (polled, q') = poll_maybe_queue i.now q in (select_delayed polled i.msg_rx, q')
  ]

  -- `envelope.handle(&mut self.actor, &mut self.context).await`; an error is only logged.
  unfoldable pub handle_envelope :
      Message I O E → ActorRuntime S G I O E Q → ActorRuntime S G I O E Q
  handle_envelope m r =
      let (s, outcome, p) = run env (handle handlers m r.actor) r.process in
      record r { actor = s; process = p }

  -- `Operation::Done { id }`: the child is removed, and the last one of a shutdown stops the actor.
  unfoldable pub remove_child : Ident → Process G O E → Process G O E
  unfolding emit stop
  remove_child id p =
      let (tracker, sends) = Lifecycle.remove hashing p.ctx.lifetime_tracker id in
      let c = record p.ctx { lifetime_tracker = tracker } in
      emit (map signal sends)
        (record p { ctx = (if Lifecycle.is_finished hashing tracker then stop c else c) })

  unfoldable pub on_parcel :
      Operation → Message I O E → ActorRuntime S G I O E Q → ActorRuntime S G I O E Q
  unfolding handle_envelope remove_child
  on_parcel forward m r = handle_envelope m r
  on_parcel (done id) m r = handle_envelope m (record r { process = remove_child id r.process })
  on_parcel (schedule deadline) m r = record r {
    scheduled_queue = put_at m deadline r.scheduled_queue;
  }

  -- A hook of the actor for a drained queue.
  unfoldable pub handle_drained :
      (S → Script S G O E (Outcome E)) → ActorRuntime S G I O E Q → ActorRuntime S G I O E Q
  handle_drained hook r =
      let (s, outcome, p) = run env (hook r.actor) r.process in record r { actor = s; process = p }

  -- The body of the loop.
  unfoldable pub on_event : Event I O E → ActorRuntime S G I O E Q → ActorRuntime S G I O E Q
  unfolding on_parcel handle_drained
  on_event (hp_envelope (some p)) r = on_parcel p.operation p.envelope r
  on_event (hp_envelope none) r = handle_drained handlers.instant_queue_drained r
  on_event (delayed_envelope (some (ok m))) r = handle_envelope m r
  on_event (delayed_envelope (some (err e))) r = r
  on_event (delayed_envelope none) r = handle_drained handlers.instant_queue_drained r
  on_event (lp_envelope (some m)) r = handle_envelope m r
  on_event (lp_envelope none) r = handle_drained handlers.queue_drained r
  on_event idle r = r

  unfoldable pub turn : Inputs I O E → ActorRuntime S G I O E Q → ActorRuntime S G I O E Q
  unfolding select on_event
  turn i r =
      let (event, q) = select i r.scheduled_queue in
      on_event event (record r { scheduled_queue = q })

  -- `while self.context.alive`, over the inputs that come.
  unfoldable pub routine : List (Inputs I O E) → ActorRuntime S G I O E Q → ActorRuntime S G I O E Q
  routine [] r = r
  routine (i ∷ is) r = let rest = routine is (turn i r) in if r.process.ctx.alive then rest else r

  -- The end of `entrypoint`: the supervisor is told, then those that wait for the actor.
  unfoldable pub finish : Bool → ActorRuntime S G I O E Q → ActorRuntime S G I O E Q
  unfolding emit notify
  finish joined r =
      let p = emit (map notified (notify r.done_notifier (done_of r.id))) r.process in
      record r { process = (if joined then emit (released ∷ []) p else p) }

  -- The end of `entrypoint`, where the loop has ended; whether it has, with the runtime. Over a list
  -- of inputs the loop may still wait for more.
  unfoldable pub after_routine : Bool → ActorRuntime S G I O E Q → Bool × ActorRuntime S G I O E Q
  unfolding finish
  after_routine joined r = if r.process.ctx.alive then (false, r) else (true, finish joined r)

  -- `match awake_res`: the loop runs only if the first handler succeeded.
  unfoldable pub after_awake :
      Outcome E
      → List (Inputs I O E)
      → Bool
      → ActorRuntime S G I O E Q
      → Bool × ActorRuntime S G I O E Q
  unfolding finish after_routine routine
  after_awake (ok u) inputs joined r = after_routine joined (routine inputs r)
  after_awake (err e) inputs joined r = (true, finish joined r)

  -- `entrypoint`: whether it has come to its end, with the runtime. `joined` says that a receiver of
  -- the join channel is left, and `sequence` is the static `termination_sequence()` of the groups.
  unfoldable pub entrypoint :
      List G
      → List (Inputs I O E)
      → Bool
      → ActorRuntime S G I O E Q
      → Bool × ActorRuntime S G I O E Q
  unfolding after_awake
  entrypoint sequence inputs joined r =
      let tracker =
        Lifecycle.termination_sequence hashing r.process.ctx.lifetime_tracker sequence in
      let p = record r.process { ctx = record r.process.ctx { lifetime_tracker = tracker } } in
      let (s, outcome, p') = run env (handle handlers awake r.actor) p in
      after_awake outcome inputs joined (record r { actor = s; process = p' })

  -- `spawn`: the runtime of a new actor, whose address is already there.
  unfoldable pub spawn : S → Option Ident → Ident → Process G O E → ActorRuntime S G I O E Q
  unfolding new_context
  spawn actor supervisor id p = record {
    id = id;
    actor = actor;
    process = record p { ctx = new_context id };
    done_notifier = done_notifier id supervisor;
    scheduled_queue = create;
  }
