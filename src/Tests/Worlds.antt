-- ===== src/Tests/Worlds.antt =====
-- An actor with a child and a task: it shuts down, and they end.
use meio.Prelude.{
  ◌⊎◌, ℕ, zero, suc, ◌≡◌, refl, Bool, true, false, none, some, [], ℕ_discrete, Result, ok,
}
use meio.Prelude.Set
use meio.Prelude.Map
use meio.Context
use meio.Runtime
use meio.Handlers
use meio.Ids.{unique}
use meio.Ids.{Ident}
use meio.Lifecycle.{done, parcel}
use meio.Lifecycle
use meio.Context.{Effect, spawned, task_spawned, signal, notified, done_of}
use meio.Handlers.{Error, Handlers, Script, Message, child_done, custom_task}
use meio.Runtime.{
  pending, ready, Parcel, Inputs, ActorRuntime, turn, entrypoint, after_routine, spawn,
}
use meio.Task
use meio.World.{
  settle, put, reports_of, World, is_spawned, is_pending, close, arise, found, empty, shared,
  resume, Reaches, here, then, founded, awoken, turned, task_over,
}
use meio.World.Growth.{is_child}
use meio.World.Tidy.{IsTidy}
use meio.World.Shutdown.{Reaches-IsTidy, shutdown_awaits}
use meio.World.Onward.{arise_there}
use meio.Tests.Fixtures.{Timers, env, timer, handlers, quiet}

-- The actor that starts as 0 spawns a child and a task; its child spawns none.
abbrev pub pair : Handlers ℕ ℕ ℕ ℕ ℕ
pair = record handlers {
  started_by = λ s. elim s [
    | zero ↦ Script.spawn_actor 0 (λ i. Script.spawn_task 1 (λ j. quiet 0))
    | suc n ↦ quiet (suc n)
  ];
}

abbrev pub Place : Type 0
Place = World ℕ ℕ ℕ ℕ ℕ Timers

abbrev drained : Inputs ℕ ℕ ℕ
drained = record { hp_msg_rx = pending; msg_rx = ready none; now = 3 }

abbrev pub a_done : ℕ → Inputs ℕ ℕ ℕ
a_done id = record {
  hp_msg_rx = ready (some (record { operation = done id; envelope = child_done id }));
  msg_rx = pending;
  now = 4;
}

abbrev pub the_task_done : Message ℕ ℕ ℕ
the_task_done = Message.task_done custom_task 2 8 (ok 6)

abbrev pub a_task_done : Inputs ℕ ℕ ℕ
a_task_done = record {
  hp_msg_rx = ready (some (record { operation = done 2; envelope = the_task_done }));
  msg_rx = pending;
  now = 5;
}

-- The actor 0 is there.
abbrev founded_world : Place
founded_world = found env timer pair (empty env timer pair)

founded_reached : Reaches env timer pair founded_world
founded_reached = then here founded

abbrev rising : Bool × ActorRuntime ℕ ℕ ℕ ℕ ℕ Timers
rising =
    entrypoint env timer pair [] [] false
      (spawn env timer pair 0 none 0 (shared env timer pair founded_world 0))

-- It has spawned the actor 1 and the task 2.
abbrev risen_world : Place
risen_world = arise founded_world 0 rising

risen_reached : Reaches env timer pair risen_world
unfolding is_spawned found empty meio.Ids.unique Set.contains
risen_reached = then founded_reached (awoken 0 none 0 [] false refl refl refl)

abbrev pub leaving : Bool × ActorRuntime ℕ ℕ ℕ ℕ ℕ Timers
leaving =
    after_routine env timer pair false (turn env timer pair drained (resume risen_world rising.1))

-- Its queue is drained, so it shuts down.
abbrev leaving_world : Place
leaving_world = arise risen_world 0 leaving

leaving_reached : Reaches env timer pair leaving_world
unfolding Set.contains arise entrypoint meio.Context.run meio.Handlers.handle spawn found empty
leaving_reached =
    then risen_reached (
      turned 0 rising.1 drained false (arise_there env timer pair founded_world 0 rising) refl refl)

leaving_there : leaving_world.runtimes 0 ≡ some leaving.1
leaving_there = arise_there env timer pair risen_world 0 leaving

pub leaving_closing : leaving.1.process.ctx.lifetime_tracker.terminating ≡ true
unfolding Context.run Context.new_context Lifecycle.is_finished Map.all Map.values
    Lifecycle.start_termination Lifecycle.stage_sequence Lifecycle.insert_task Lifecycle.insert
    Lifecycle.new Lifecycle.difference Map.keys Map.insert ℕ_discrete Set.contains Map.lookup
    Lifecycle.termination_sequence Context.done_notifier Lifecycle.stage_is_finished Set.insert
    after_routine turn resume entrypoint Handlers.handle spawn shared found empty arise unique
    is_spawned Runtime.routine
leaving_closing = refl

pub leaving_on : leaving.1.process.ctx.alive ≡ true
unfolding Context.run Context.new_context Lifecycle.is_finished Map.all Map.values
    Lifecycle.start_termination Lifecycle.stage_sequence Lifecycle.insert_task Lifecycle.insert
    Lifecycle.new Lifecycle.difference Map.keys Map.insert ℕ_discrete Set.contains Map.lookup
    Lifecycle.termination_sequence Context.done_notifier Lifecycle.stage_is_finished Set.insert
    after_routine turn resume entrypoint Handlers.handle spawn shared found empty arise unique
    is_spawned Runtime.routine
leaving_on = refl

shutdown_awaits_example :
    (id : Ident) × (is_child 0 id leaving_world.log ≡ true)
    × ((Set.contains ℕ_discrete id leaving_world.ended ≡ false)
        ⊎ (is_pending 0 id leaving_world.unread ≡ true))
shutdown_awaits_example =
    shutdown_awaits env timer pair leaving_reached 0 leaving.1 leaving_there leaving_closing
      leaving_on

Reaches-IsTidy_example : IsTidy env leaving_world
Reaches-IsTidy_example = Reaches-IsTidy env timer pair leaving_reached

-- The child starts, and its queue is drained too: it ends at once.
abbrev child_rising : Bool × ActorRuntime ℕ ℕ ℕ ℕ ℕ Timers
child_rising =
    entrypoint env timer pair [] [] false
      (spawn env timer pair 1 (some 0) 1 (shared env timer pair leaving_world 1))

abbrev child_world : Place
child_world = arise leaving_world 1 child_rising

child_reached : Reaches env timer pair child_world
unfolding close settle put is_pending reports_of Task.spawn Task.entrypoint Context.run
    Context.new_context Lifecycle.is_finished Map.all Map.values Lifecycle.start_termination
    Lifecycle.stage_sequence Lifecycle.insert_task Lifecycle.insert Lifecycle.new
    Lifecycle.difference Map.keys Map.insert ℕ_discrete Set.contains Map.lookup
    Lifecycle.termination_sequence Context.done_notifier Lifecycle.stage_is_finished Set.insert
    after_routine turn resume entrypoint Handlers.handle spawn shared found empty arise unique
    is_spawned Runtime.routine
child_reached = then leaving_reached (awoken 1 (some 0) 1 [] false refl refl refl)

abbrev child_leaving : Bool × ActorRuntime ℕ ℕ ℕ ℕ ℕ Timers
child_leaving =
    after_routine env timer pair false
      (turn env timer pair drained (resume child_world child_rising.1))

abbrev childless_world : Place
childless_world = arise child_world 1 child_leaving

childless_reached : Reaches env timer pair childless_world
unfolding close settle put is_pending reports_of Task.spawn Task.entrypoint Context.run
    Context.new_context Lifecycle.is_finished Map.all Map.values Lifecycle.start_termination
    Lifecycle.stage_sequence Lifecycle.insert_task Lifecycle.insert Lifecycle.new
    Lifecycle.difference Map.keys Map.insert ℕ_discrete Set.contains Map.lookup
    Lifecycle.termination_sequence Context.done_notifier Lifecycle.stage_is_finished Set.insert
    after_routine turn resume entrypoint Handlers.handle spawn shared found empty arise unique
    is_spawned Runtime.routine
childless_reached = then child_reached (
    turned 1 child_rising.1 drained false (arise_there env timer pair leaving_world 1 child_rising)
      refl refl)

-- The task ends.
abbrev outcome : Result ℕ (Error ℕ)
outcome = ok 6

abbrev pub taskless_world : Place
taskless_world = close childless_world 2 (Task.entrypoint (Task.spawn {M = ℕ} 2 8 (some 0)) outcome)

pub taskless_reached : Reaches env timer pair taskless_world
unfolding close settle put is_pending reports_of Task.spawn Task.entrypoint Context.run
    Context.new_context Lifecycle.is_finished Map.all Map.values Lifecycle.start_termination
    Lifecycle.stage_sequence Lifecycle.insert_task Lifecycle.insert Lifecycle.new
    Lifecycle.difference Map.keys Map.insert ℕ_discrete Set.contains Map.lookup
    Lifecycle.termination_sequence Context.done_notifier Lifecycle.stage_is_finished Set.insert
    after_routine turn resume entrypoint Handlers.handle spawn shared found empty arise unique
    is_spawned Runtime.routine
taskless_reached = then childless_reached (task_over 2 0 8 outcome refl refl)
