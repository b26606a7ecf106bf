-- ===== src/Tests/Endings.antt =====
-- The supervisor of the other file hears of the ends of its children, and ends.
use meio.Prelude.{◌∷◌, List, ℕ, ◌≡◌, refl, Bool, true, false, none, some, [], ℕ_discrete}
use meio.Prelude.Set
use meio.Prelude.Map
use meio.Context
use meio.Runtime
use meio.Handlers
use meio.Ids.{unique}
use meio.Lifecycle.{done, parcel}
use meio.Lifecycle
use meio.Context.{Effect, spawned, task_spawned, signal, notified, done_of}
use meio.Handlers.{Error, Handlers, Script, Message, child_done, custom_task}
use meio.Runtime.{
  pending, ready, Parcel, Inputs, ActorRuntime, turn, entrypoint, after_routine, spawn,
}
use meio.Task
use meio.World.{
  settle, put, reports_of, is_spawned, is_pending, take_report, close, arise, found, empty, shared,
  resume, Reaches, then, told,
}
use meio.World.Growth.{is_child}
use meio.World.Shutdown.{finished_alone}
use meio.World.Onward.{arise_there}
use meio.Tests.Fixtures.{hashing, Timers, env, timer}
use meio.Tests.Worlds.{
  pair, Place, a_done, the_task_done, a_task_done, leaving, taskless_world, taskless_reached,
}

-- The supervisor hears of both.
abbrev told_once : Bool × ActorRuntime ℕ ℕ ℕ ℕ ℕ Timers
told_once =
    after_routine env timer pair false
      (turn env timer pair (a_done 1) (resume taskless_world leaving.1))

abbrev told_world : Place
told_world =
    arise (record taskless_world { unread = take_report 0 1 taskless_world.unread }) 0 told_once

told_there : taskless_world.runtimes 0 ≡ some leaving.1
unfolding close settle put is_pending reports_of Task.spawn Task.entrypoint Context.run
    Context.new_context Lifecycle.is_finished Map.all Map.values Lifecycle.start_termination
    Lifecycle.stage_sequence Lifecycle.insert_task Lifecycle.insert Lifecycle.new
    Lifecycle.difference Map.keys Map.insert ℕ_discrete Set.contains Map.lookup
    Lifecycle.termination_sequence Context.done_notifier Lifecycle.stage_is_finished Set.insert
    after_routine turn resume entrypoint Handlers.handle spawn shared found empty arise unique
    is_spawned Runtime.routine
told_there = refl

told_reached : Reaches env timer pair told_world
unfolding close settle put is_pending reports_of Task.spawn Task.entrypoint Context.run
    Context.new_context Lifecycle.is_finished Map.all Map.values Lifecycle.start_termination
    Lifecycle.stage_sequence Lifecycle.insert_task Lifecycle.insert Lifecycle.new
    Lifecycle.difference Map.keys Map.insert ℕ_discrete Set.contains Map.lookup
    Lifecycle.termination_sequence Context.done_notifier Lifecycle.stage_is_finished Set.insert
    after_routine turn resume entrypoint Handlers.handle spawn shared found empty arise unique
    is_spawned Runtime.routine
told_reached =
    then taskless_reached
      (told 0 1 leaving.1 (a_done 1) false (child_done 1) told_there refl refl refl refl)

abbrev told_twice : Bool × ActorRuntime ℕ ℕ ℕ ℕ ℕ Timers
told_twice =
    after_routine env timer pair false
      (turn env timer pair a_task_done (resume told_world told_once.1))

abbrev over_world : Place
over_world = arise (record told_world { unread = take_report 0 2 told_world.unread }) 0 told_twice

told_there_again : told_world.runtimes 0 ≡ some told_once.1
told_there_again =
    arise_there env timer pair
      (record taskless_world { unread = take_report 0 1 taskless_world.unread }) 0 told_once

over_reached : Reaches env timer pair over_world
unfolding take_report Lifecycle.remove Lifecycle.forget Map.remove Set.remove close settle put
    is_pending reports_of Task.spawn Task.entrypoint Context.run Context.new_context
    Lifecycle.is_finished Map.all Map.values Lifecycle.start_termination Lifecycle.stage_sequence
    Lifecycle.insert_task Lifecycle.insert Lifecycle.new Lifecycle.difference Map.keys Map.insert
    ℕ_discrete Set.contains Map.lookup Lifecycle.termination_sequence Context.done_notifier
    Lifecycle.stage_is_finished Set.insert after_routine turn resume entrypoint Handlers.handle
    spawn shared found empty arise unique is_spawned Runtime.routine
over_reached =
    then told_reached
      (told 0 2 told_once.1 a_task_done false the_task_done told_there_again refl refl refl refl)

over_there : over_world.runtimes 0 ≡ some told_twice.1
over_there =
    arise_there env timer pair (record told_world { unread = take_report 0 2 told_world.unread }) 0
      told_twice

over_finished : Lifecycle.is_finished hashing told_twice.1.process.ctx.lifetime_tracker ≡ true
unfolding take_report Lifecycle.remove Lifecycle.forget Map.remove Set.remove close settle put
    is_pending reports_of Task.spawn Task.entrypoint Context.run Context.new_context
    Lifecycle.is_finished Map.all Map.values Lifecycle.start_termination Lifecycle.stage_sequence
    Lifecycle.insert_task Lifecycle.insert Lifecycle.new Lifecycle.difference Map.keys Map.insert
    ℕ_discrete Set.contains Map.lookup Lifecycle.termination_sequence Context.done_notifier
    Lifecycle.stage_is_finished Set.insert after_routine turn resume entrypoint Handlers.handle
    spawn shared found empty arise unique is_spawned Runtime.routine
over_finished = refl

over_child : is_child 0 1 over_world.log ≡ true
unfolding take_report Lifecycle.remove Lifecycle.forget Map.remove Set.remove close settle put
    is_pending reports_of Task.spawn Task.entrypoint Context.run Context.new_context
    Lifecycle.is_finished Map.all Map.values Lifecycle.start_termination Lifecycle.stage_sequence
    Lifecycle.insert_task Lifecycle.insert Lifecycle.new Lifecycle.difference Map.keys Map.insert
    ℕ_discrete Set.contains Map.lookup Lifecycle.termination_sequence Context.done_notifier
    Lifecycle.stage_is_finished Set.insert after_routine turn resume entrypoint Handlers.handle
    spawn shared found empty arise unique is_spawned Runtime.routine
over_child = refl

finished_alone_example : Set.contains ℕ_discrete 1 over_world.ended ≡ true
finished_alone_example =
    finished_alone env timer pair over_reached 0 told_twice.1 1 over_there over_finished over_child

abbrev taskless_log : List (Effect ℕ ℕ)
taskless_log =
    spawned 0 none
    ∷ spawned 1 (some 0)
    ∷ task_spawned 2 (some 0)
    ∷ signal (parcel 1 Lifecycle.forward Lifecycle.interrupt)
    ∷ notified (parcel 0 (done 1) (done_of 1))
    ∷ []
