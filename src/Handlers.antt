-- ===== src/Handlers.antt =====
-- meio/src/handlers.rs: the messages of an actor and the blanket implementations that take each of
-- them to a handler of the actor; with the errors that the crate makes itself.
-- A handler is code of the application. It has the actor, and of the context the public methods
-- alone: so a handler is any `Script`, a sequence of calls of these methods in which each next call
-- may depend on the answers so far.
use meio.Prelude.{ℕ, Bool, true, false, Option, none, some, Result, ok, err}
use meio.Ids.{Ident}

-- `anyhow::Error`, with the values that the code itself makes and takes apart.
pub data Error (E : Type 0) : Type 0 where
  task_stopped : Error E
  is_closing : Error E
  unsent : Error E
  result_unsent : Error E
  canceled : Error E
  other : E → Error E

-- `TaskError` of meio/src/lite_runtime.rs.
pub data TaskError (E : Type 0) : Type 0 where
  interrupted : TaskError E
  failed : Error E → TaskError E

-- `TaskError::into_other`.
unfoldable pub into_other : {E : Type 0} → TaskError E → Option (Error E)
into_other interrupted = none
into_other (failed e) = some e

-- What a handler may do with its context, up to its result `R`. `S` is the actor, `G` its groups.
pub data Script (S G O E R : Type 0) : Type 0 where
  return : S → R → Script S G O E R
  stop : Script S G O E R → Script S G O E R
  shutdown : Script S G O E R → Script S G O E R
  terminate_group : G → Script S G O E R → Script S G O E R
  spawn_actor : G → (Ident → Script S G O E R) → Script S G O E R
  spawn_task : G → (Ident → Script S G O E R) → Script S G O E R
  interrupt : Ident → (Bool → Script S G O E R) → Script S G O E R
  is_terminating : (Bool → Script S G O E R) → Script S G O E R
  respond : ℕ → Result O (Error E) → (Bool → Script S G O E R) → Script S G O E R

-- `let r = m.await; k(r)`.
unfoldable pub bind :
    {S G O E Q R : Type 0} → Script S G O E Q → (S → Q → Script S G O E R) → Script S G O E R
bind (return s q) k = k s q
bind (stop m) k = stop (bind m k)
bind (shutdown m) k = shutdown (bind m k)
bind (terminate_group g m) k = terminate_group g (bind m k)
bind (spawn_actor g f) k = spawn_actor g (λ i. bind (f i) k)
bind (spawn_task g f) k = spawn_task g (λ i. bind (f i) k)
bind (interrupt a f) k = interrupt a (λ b. bind (f b) k)
bind (is_terminating f) k = is_terminating (λ b. bind (f b) k)
bind (respond n r f) k = respond n r (λ b. bind (f b) k)

-- The `LiteTask` types of the crate that have a blanket `TaskEliminated`, and all others.
pub data TaskKind : Type 0 where
  interaction_task stream_forwarder heart_beat fn_task custom_task : TaskKind

-- What an envelope carries. `I` are the inputs, requests, items and tags of the application, `O` the
-- results of its interactions and tasks.
pub data Message (I O E : Type 0) : Type 0 where
  awake : Message I O E
  interruption : Message I O E
  child_done : Ident → Message I O E
  task_done : TaskKind → Ident → I → Result O (TaskError E) → Message I O E
  action : I → Message I O E
  instant : I → Message I O E
  interact : I → ℕ → Message I O E
  item : I → Message I O E
  items_done : Message I O E
  scheduled : ℕ → I → Message I O E
  terminate : Message I O E
  tick : ℕ → Message I O E
  attach : I → Message I O E

-- `ScheduledItem`.
pub record ScheduledItem (I : Type 0) : Type 0 where
  pub timestamp : ℕ
  pub item : I

-- `Result<(), Error>`, the result of every handler.
abbrev pub Outcome : Type 0 → Type 0
Outcome E = Result (Unit {0}) (Error E)

-- What the traits do where the application does not say: the failure of an interaction is only logged,
-- and the hooks for a drained queue do nothing.
unfoldable pub default_failed :
    {S G I O E : Type 0} → I → TaskError E → S → Script S G O E (Outcome E)
default_failed tag e s = return s (ok tt)

unfoldable pub default_drained : {S G O E : Type 0} → S → Script S G O E (Outcome E)
default_drained s = return s (ok tt)

-- The handlers of an actor, each trait with its methods.
pub record Handlers (S G I O E : Type 0) : Type 0 where
  pub started_by : S → Script S G O E (Outcome E)
  pub interrupted_by : S → Script S G O E (Outcome E)
  pub terminated_by : S → Script S G O E (Outcome E)
  pub eliminated : Ident → S → Script S G O E (Outcome E)
  pub task_eliminated : Ident → I → Result O (TaskError E) → S → Script S G O E (Outcome E)
  pub fn_task_eliminated : Ident → I → Result O (TaskError E) → S → Script S G O E (Outcome E)
  pub on_action : I → S → Script S G O E (Outcome E)
  pub on_instant : I → S → Script S G O E (Outcome E)
  pub on_interaction : I → S → Script S G O E (Result O (Error E))
  pub interaction_done : I → O → S → Script S G O E (Outcome E)
  pub interaction_failed : I → TaskError E → S → Script S G O E (Outcome E)
  pub consume : I → S → Script S G O E (Outcome E)
  pub consumed : S → Script S G O E (Outcome E)
  pub stream_failed : TaskError E → S → Script S G O E (Outcome E)
  pub stream_finished : S → Script S G O E (Outcome E)
  pub on_schedule : ℕ → I → S → Script S G O E (Outcome E)
  pub on_tick : ℕ → S → Script S G O E (Outcome E)
  pub ticks_done : S → Script S G O E (Outcome E)
  pub queue_drained : S → Script S G O E (Outcome E)
  pub instant_queue_drained : S → Script S G O E (Outcome E)
  pub stream_group : S → G

module _ {S G I O E : Type 0} (a : Handlers S G I O E) where
  -- The result of sending a response: an unsent success is an error, an unsent error is that error.
  unfoldable pub response_outcome : Result O (Error E) → Bool → Outcome E
  response_outcome res true = ok tt
  response_outcome (ok o) false = err result_unsent
  response_outcome (err e) false = err e

  -- `ActionHandler<Interact<I>>` of an `InteractionHandler`.
  unfoldable pub on_interact : I → ℕ → S → Script S G O E (Outcome E)
  unfolding bind response_outcome
  on_interact request responder s =
      bind (a.on_interaction request s)
        (λ s' res. respond responder res (λ sent. return s' (response_outcome res sent)))

  -- `TaskEliminated<InteractionTask<I>, M>`.
  unfoldable pub interaction_eliminated :
      I → Result O (TaskError E) → S → Script S G O E (Outcome E)
  interaction_eliminated tag (ok output) s = a.interaction_done tag output s
  interaction_eliminated tag (err e) s = a.interaction_failed tag e s

  -- `TaskEliminated<StreamForwarder<S>, M>`.
  unfoldable pub forwarder_eliminated : Result O (TaskError E) → S → Script S G O E (Outcome E)
  forwarder_eliminated (ok output) s = a.stream_finished s
  forwarder_eliminated (err e) s = a.stream_failed e s

  -- `TaskEliminated<HeartBeat, ()>` and `ActionHandler<Tick>` of meio/src/tasks/heartbeat.rs.
  unfoldable pub heart_beat_eliminated : Result O (TaskError E) → S → Script S G O E (Outcome E)
  heart_beat_eliminated result s = a.ticks_done s

  unfoldable pub on_tick_action : ℕ → S → Script S G O E (Outcome E)
  on_tick_action now s = a.on_tick now s

  -- `TaskEliminated<FnTask<F>, M>` of meio/src/tasks/fn_task.rs.
  unfoldable pub fn_eliminated : Ident → I → Result O (TaskError E) → S → Script S G O E (Outcome E)
  fn_eliminated id tag result s = a.fn_task_eliminated id tag result s

  -- `InstantActionHandler<ScheduledItem<I>>`.
  unfoldable pub on_scheduled : ScheduledItem I → S → Script S G O E (Outcome E)
  on_scheduled msg s = a.on_schedule msg.timestamp msg.item s

  -- `InstantActionHandler<TaskDone<C, M>>`, with the implementation for the type of the task.
  unfoldable pub on_task_done :
      TaskKind → Ident → I → Result O (TaskError E) → S → Script S G O E (Outcome E)
  unfolding interaction_eliminated forwarder_eliminated heart_beat_eliminated fn_eliminated
  on_task_done interaction_task id tag result s = interaction_eliminated tag result s
  on_task_done stream_forwarder id tag result s = forwarder_eliminated result s
  on_task_done heart_beat id tag result s = heart_beat_eliminated result s
  on_task_done fn_task id tag result s = fn_eliminated id tag result s
  on_task_done custom_task id tag result s = a.task_eliminated id tag result s

  -- `InstantActionHandler<AttachStream<S, M>>` of meio/src/forwarders.rs, with `Context::attach`.
  unfoldable pub on_attach : I → S → Script S G O E (Outcome E)
  on_attach tag s = spawn_task (a.stream_group s) (λ forwarder. return s (ok tt))

  -- `Envelope::handle`.
  unfoldable pub handle : Message I O E → S → Script S G O E (Outcome E)
  unfolding on_interact on_task_done on_attach on_scheduled on_tick_action
  handle awake s = a.started_by s
  handle interruption s = a.interrupted_by s
  handle (child_done id) s = a.eliminated id s
  handle (task_done kind id tag result) s = on_task_done kind id tag result s
  handle (action i) s = a.on_action i s
  handle (instant i) s = a.on_instant i s
  handle (interact request responder) s = on_interact request responder s
  handle (item i) s = a.consume i s
  handle items_done s = a.consumed s
  handle (scheduled timestamp i) s = on_scheduled (record { timestamp = timestamp; item = i }) s
  handle terminate s = a.terminated_by s
  handle (tick now) s = on_tick_action now s
  handle (attach tag) s = on_attach tag s
