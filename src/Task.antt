-- ===== src/Task.antt =====
-- meio/src/lite_runtime.rs: a `LiteTask`, its stop signal, its default routine and its runtime.
-- The methods of a task are code of the application, and the `watch` channel is tokio's: what they
-- answer, one poll or one call after the other, is an argument.
pub mod Stopping
pub mod Life
pub mod FnTask
pub mod Retry
pub mod HeartBeat
pub mod Forwarder
pub mod Signals
use meio.Prelude.{
  ℕ, zero, suc, ◌≡◌, Bool, true, false, Option, none, some, List, [], ◌∷◌, ◌++◌, Result, ok, err,
  if◌then◌else◌,
}
use meio.Ids.{Ident}
use meio.Lifecycle.{Send, LifecycleNotifier, notify}
use meio.Handlers.{Error, task_stopped, TaskError, interrupted, failed}
use meio.Context.{done_notifier}

-- `Status` of meio/src/actor_runtime.rs.
pub data Status : Type 0 where
  alive stop : Status

unfoldable pub is_done : Status → Bool
is_done alive = false
is_done stop = true

-- What `status.changed().await` comes back with: a new value, or an error, once every sender is gone.
pub data Watched : Type 0 where
  changed : Status → Watched
  closed : Watched

-- The loop of `just_done`, which is also that of `Address::join`: whether it ends.
unfoldable pub just_done : List Watched → Bool
unfolding is_done
just_done [] = false
just_done (closed ∷ ws) = true
just_done (changed s ∷ ws) = let rest = just_done ws in if is_done s then true else rest

-- One poll of `select(stop, fut)`: whether the stop future is ready, and what the other gives.
pub record Polled (A : Type 0) : Type 0 where
  pub stopped : Bool
  pub output : Option A

-- `StopReceiver::or`. `select` polls the stop future first; `none` while both are pending.
unfoldable pub or : {A E : Type 0} → List (Polled A) → Option (Result A (Error E))
or [] = none
or (p ∷ ps) = elim p.stopped [
  | true ↦ some (err task_stopped)
  | false ↦ elim p.output [ some a ↦ some (ok a) | none ↦ or ps ]
]

-- `.and_then(identity)`.
unfoldable pub flatten : {A E : Type 0} → Result (Result A (Error E)) (Error E) → Result A (Error E)
flatten (ok r) = r
flatten (err e) = err e

-- `LiteTask::routine`, by default: `interruptable_routine` under the stop signal.
unfoldable pub routine :
    {A E : Type 0} → List (Polled (Result A (Error E))) → Option (Result A (Error E))
unfolding or flatten
routine ps = elim (or ps) [ none ↦ none | some r ↦ some (flatten r) ]

-- The methods of a task with state `S`.
pub record LiteTask (S A E : Type 0) : Type 0 where
  pub pre_repeatable_routine : S → Result (Unit {0}) (Error E) × S
  pub repeatable_routine : S → Result (Option A) (Error E) × S
  pub routine_wait : Bool → S → S

module _ {S A E : Type 0} (task : LiteTask S A E) where
  -- The loop of `interruptable_routine`, for as many rounds as `fuel` says: it goes on after an
  -- error.
  unfoldable pub repeat : ℕ → S → Option (Result A (Error E))
  repeat zero s = none
  repeat (suc fuel) s =
      let (attempt, s') = task.repeatable_routine s in
      elim attempt [
        | ok o ↦ elim o [
          | some output ↦ some (ok output)
          | none ↦ repeat fuel (task.routine_wait true s')
        ]
        | err e ↦ repeat fuel (task.routine_wait false s')
      ]

  unfoldable pub interruptable_routine : ℕ → S → Option (Result A (Error E))
  unfolding repeat
  interruptable_routine fuel s =
      let (prepared, s') = task.pre_repeatable_routine s in
      elim prepared [ ok u ↦ repeat fuel s' | err e ↦ some (err e) ]

-- `From<Error> for TaskError`: the downcast to `TaskStopped`.
unfoldable pub to_task_error : {E : Type 0} → Error E → TaskError E
to_task_error task_stopped = interrupted
to_task_error e = failed e

unfoldable pub is_interrupted : {E : Type 0} → TaskError E → Bool
is_interrupted interrupted = true
is_interrupted (failed e) = false

-- `TaskError::swap`.
unfoldable pub swap : {A E : Type 0} → Result A (TaskError E) → Result (Option A) (Error E)
swap (ok a) = ok (some a)
swap (err interrupted) = ok none
swap (err (failed e)) = err e

-- `TaskDone`.
pub record TaskDone (A M E : Type 0) : Type 0 where
  pub id : Ident
  pub tag : M
  pub result : Result A (TaskError E)

-- `.map_err(TaskError::from)`.
unfoldable pub task_result : {A E : Type 0} → Result A (Error E) → Result A (TaskError E)
unfolding to_task_error
task_result (ok a) = ok a
task_result (err e) = err (to_task_error e)

-- `LiteRuntime`, without the task and its stop receiver.
pub record LiteRuntime (M : Type 0) : Type 0 where
  pub id : Ident
  pub done_notifier : LifecycleNotifier
  pub tag : M

-- `spawn`, under the id that `Id::unique` made.
unfoldable pub spawn : {M : Type 0} → Ident → M → Option Ident → LiteRuntime M
spawn id tag supervisor = record { id = id; done_notifier = done_notifier id supervisor; tag = tag }

-- `LiteRuntime::entrypoint`, once the routine has come back with its result.
unfoldable pub entrypoint :
    {A M E : Type 0} → LiteRuntime M → Result A (Error E) → List (Send (TaskDone A M E))
unfolding task_result notify
entrypoint r res =
    notify r.done_notifier (record { id = r.id; tag = r.tag; result = task_result res })

-- `LiteRuntime::entrypoint` from its begin, with the default routine over the polls of the task: what
-- it sends, which is nothing while the routine goes on.
unfoldable pub run_task :
    {A M E : Type 0}
    → LiteRuntime M
    → List (Polled (Result A (Error E)))
    → List (Send (TaskDone A M E))
unfolding routine entrypoint
run_task r ps = elim (routine ps) [ none ↦ [] | some res ↦ entrypoint r res ]

-- What is new at a poll of the task: what its stop channel tells, and what the routine gives.
pub record News (A : Type 0) : Type 0 where
  pub told : List Watched
  pub output : Option A

-- The polls of the task: `StopReceiver::into_future` is ready once what it was told so far ends the
-- loop of `just_done`.
unfoldable pub polls : {A : Type 0} → List Watched → List (News A) → List (Polled A)
unfolding just_done
polls seen [] = []
polls seen (n ∷ ns) =
    record { stopped = just_done (seen ++ n.told); output = n.output } ∷ polls (seen ++ n.told) ns
