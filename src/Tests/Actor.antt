-- ===== src/Tests/Actor.antt =====
-- An actor that starts a child and a task, shuts down, and stops once both have answered.
use meio.Prelude.{
  ok, Result, ◌⊎◌, ℕ, ◌+◌, ◌≤◌, ◌≡◌, ap, ◌∙◌, ◌≢◌, refl, true, false, none, some, err, List, [],
  ◌∷◌, ◌++◌, arith, ℕ_discrete, if◌then◌else◌, ◌↔◌,
}
use meio.Prelude.Set
use meio.Prelude.Map
use meio.Ids.{Ident, unique}
use meio.Lifecycle.{parcel, done, LifetimeTracker}
use meio.Lifecycle
use meio.Lifecycle.Invariant.{group_in}
use meio.Lifecycle.Interrupts.History.{created, History-IsGood}
use meio.Handlers.{
  Error, interaction_task, on_interact, handle, Script, Message, interruption, Outcome, custom_task,
}
use meio.Linkage.{recv}
use meio.Linkage.Recipients.{action_recipient, interaction_routine}
use meio.Linkage.Tracked.{heard, interaction_is_tracked}
use meio.Task.{run_task, News, polls, changed, alive, task_result, just_done}
use meio.Task.{spawn as spawn_task}
use meio.Task.Life.{reported}
use meio.Linkage.Interactions.{answer_in, interaction_answers}
use meio.Context.{
  send, emit, response, notified, released, done_of, Process, new_context, run, shut, stop,
}
use meio.Context.Laws.{IsSound, run-IsSound, shut_stops_iff}
use meio.Runtime.{
  pending, ready, Parcel, Inputs, ActorRuntime, remove_child, routine, entrypoint, spawn, select,
  turn,
}
use meio.Runtime
use meio.Handlers
use meio.Runtime.Laws.{remove_child_stops_iff}
use meio.Runtime.Deadlines.{delivered, all_asked, routine_deadlines}
use meio.Runtime.Shutdown.{routine_stops}
use meio.Runtime.Calm.{AllCalm}
use meio.Runtime.Entrypoint.{ends, entrypoint_reports_once}
use meio.Tests.Fixtures.{Timers, env, timer, handlers, hashing, quiet}

-- A process in which the actor 0 has just been allocated.
abbrev fresh : Process ℕ ℕ ℕ
fresh = record { ctx = new_context 0; heap = 7 ∷ []; log = [] }

fresh-IsSound : IsSound env fresh
unfolding new_context Lifecycle.new group_in Map.lookup
fresh-IsSound = record {
  consistent = (History-IsGood hashing created).consistent;
  own = (History-IsGood hashing created).own;
  allocated = λ id b. refl;
}

-- What the actor does at its start.
abbrev start : Script ℕ ℕ ℕ ℕ (Outcome ℕ)
start = Script.spawn_actor 0 (λ i. Script.spawn_task 1 (λ j. quiet 5))

abbrev started : Process ℕ ℕ ℕ
started = (run env start fresh).2

started-IsSound : IsSound env started
started-IsSound = run-IsSound env start fresh fresh-IsSound

started_on : started.ctx.alive ≡ true
unfolding run new_context
started_on = refl

abbrev halted : Process ℕ ℕ ℕ
halted = record started { ctx = stop started.ctx }

halted_off : halted.ctx.alive ≡ false
unfolding stop
halted_off = refl

shut_stops_iff_example :
    ((shut env started).ctx.lifetime_tracker.terminating ≡ true)
    × (((shut env started).ctx.alive ≡ false)
        ↔ ((id : Ident) → group_in started.ctx.lifetime_tracker.records id ≡ none))
shut_stops_iff_example = shut_stops_iff env started started-IsSound started_on

-- The actor after the interruption, with its child and its task still there.
abbrev shutdown_script : Script ℕ ℕ ℕ ℕ (Outcome ℕ)
shutdown_script = Script.shutdown (quiet 5)

abbrev leaving : Process ℕ ℕ ℕ
leaving = (run env shutdown_script started).2

leaving-IsSound : IsSound env leaving
leaving-IsSound = run-IsSound env shutdown_script started started-IsSound

leaving_on : leaving.ctx.alive ≡ true
unfolding run new_context Lifecycle.is_finished Map.all Map.values Lifecycle.start_termination
    Lifecycle.stage_sequence Lifecycle.insert_task Lifecycle.insert Lifecycle.new
    Lifecycle.difference Map.keys Map.insert ℕ_discrete Set.contains Map.lookup
    Lifecycle.stage_is_finished Set.insert
leaving_on = refl

leaving_closing : leaving.ctx.lifetime_tracker.terminating ≡ true
unfolding run new_context Lifecycle.is_finished Map.all Map.values Lifecycle.start_termination
    Lifecycle.stage_sequence Lifecycle.insert_task Lifecycle.insert Lifecycle.new
    Lifecycle.difference Map.keys Map.insert ℕ_discrete Set.contains Map.lookup
    Lifecycle.stage_is_finished Set.insert
leaving_closing = refl

remove_child_stops_iff_example :
    ((remove_child env timer handlers 1 leaving).ctx.alive ≡ false)
    ↔ ((k : Ident) → k ≢ 1 → group_in leaving.ctx.lifetime_tracker.records k ≡ none)
remove_child_stops_iff_example =
    remove_child_stops_iff env timer handlers 1 leaving leaving-IsSound leaving_on leaving_closing

abbrev runtime : ActorRuntime ℕ ℕ ℕ ℕ ℕ Timers
runtime = record {
  id = 0;
  actor = 5;
  process = leaving;
  done_notifier = Lifecycle.once 9 (done 0);
  scheduled_queue = [];
}

-- Turns at which nothing, or an action, is in the normal queue.
abbrev nothing : Inputs ℕ ℕ ℕ
nothing = record { hp_msg_rx = pending; msg_rx = pending; now = 3 }

abbrev an_action : Inputs ℕ ℕ ℕ
an_action = record { hp_msg_rx = pending; msg_rx = ready (some (Message.action 4)); now = 4 }

abbrev leaving_list : List (Ident × Lifecycle.Record ℕ)
leaving_list =
    (1, record { group = 0; notifier = Lifecycle.once 1 Lifecycle.forward })
    ∷ (2, record { group = 1; notifier = Lifecycle.stop 2 })
    ∷ []

leaving_records : leaving.ctx.lifetime_tracker.records ≡ leaving_list
unfolding run new_context Lifecycle.is_finished Map.all Map.values Lifecycle.start_termination
    Lifecycle.stage_sequence Lifecycle.insert_task Lifecycle.insert Lifecycle.new
    Lifecycle.difference Map.keys Map.insert ℕ_discrete Set.contains Map.lookup
    Lifecycle.stage_is_finished Set.insert unique
leaving_records = refl

listed_covers :
    (k : Ident) → Set.contains ℕ_discrete k (2 ∷ 1 ∷ []) ≡ false → group_in leaving_list k ≡ none
unfolding group_in Map.lookup Set.contains
listed_covers k out = ground arith

leaving_covers :
    (k : Ident)
    → Set.contains ℕ_discrete k (2 ∷ 1 ∷ []) ≡ false
    → group_in runtime.process.ctx.lifetime_tracker.records k ≡ none
leaving_covers k out = ap (λ l. group_in l k) leaving_records ∙ listed_covers k out

-- A parcel of the high-priority queue, with an action in the normal queue.
abbrev brings : Lifecycle.Operation → Message ℕ ℕ ℕ → Inputs ℕ ℕ ℕ
brings o m = record an_action { hp_msg_rx = ready (some (record { operation = o; envelope = m })) }

-- The end of the task, an action, a parcel that is scheduled, and the end of the actor.
abbrev goodbyes : List (Inputs ℕ ℕ ℕ)
goodbyes =
    brings (done 2) (Message.task_done custom_task 2 0 (err Handlers.interrupted))
    ∷ an_action
    ∷ brings (Lifecycle.schedule 30) (Message.scheduled 30 4)
    ∷ brings (done 1) (Message.child_done 1)
    ∷ []

goodbyes-AllCalm : AllCalm env timer handlers goodbyes runtime
unfolding select turn Runtime.select_delayed Runtime.poll_maybe_queue Runtime.on_event
    Runtime.on_parcel Runtime.handle_envelope handle run
goodbyes-AllCalm = ((λ p. refl), ((λ p. refl), (tt, ((λ p. refl), tt))))

routine_stops_example : (routine env timer handlers goodbyes runtime).process.ctx.alive ≡ false
routine_stops_example =
    routine_stops env timer handlers goodbyes runtime leaving-IsSound leaving_closing
      goodbyes-AllCalm (λ e. cc) leaving_covers

abbrev the_interruption : Parcel ℕ ℕ ℕ
the_interruption = record { operation = Lifecycle.forward; envelope = interruption }

abbrev urgent : Inputs ℕ ℕ ℕ
urgent = record an_action { hp_msg_rx = ready (some the_interruption) }

entrypoint_reports_once_example :
    let (is_over, r) =
      entrypoint env timer handlers
        (0 ∷ 1 ∷ [])
        (an_action ∷ [])
        true
        (spawn env timer handlers 5 (some 9) 0 fresh) in
    (ends r.process.log
      ≡ ends fresh.log
        ++ (if is_over
            then notified (parcel 9 (done 0) (done_of 0)) ∷ (if true then released ∷ [] else [])
            else []))
    × ((is_over ≡ true) ⊎ (r.process.ctx.alive ≡ true))
entrypoint_reports_once_example =
    entrypoint_reports_once env timer handlers (0 ∷ 1 ∷ []) (an_action ∷ []) true 5 9 0 fresh

-- A parcel for later, which is handed out at the next turn.
abbrev later : Inputs ℕ ℕ ℕ
later = record {
  hp_msg_rx =
      ready (some (record { operation = Lifecycle.schedule 2; envelope = Message.scheduled 2 7 }));
  msg_rx = pending;
  now = 1;
}

routine_deadlines_example :
    timer.size (routine env timer handlers (later ∷ nothing ∷ []) runtime).scheduled_queue
      + delivered env timer handlers (later ∷ nothing ∷ []) runtime
    ≤ timer.size runtime.scheduled_queue + all_asked (later ∷ nothing ∷ [])
routine_deadlines_example = routine_deadlines env timer handlers (later ∷ nothing ∷ []) runtime

interaction_answers_example :
    let (s', res, q) = run env (handlers.on_interaction 3 5) fresh in
    let (s'', outcome, q') = run env (handle handlers (Message.interact 3 1) 5) fresh in
    (s'' ≡ s')
    × (env.accepts q.log (response 1 res) ≡ true
        → (recv true (answer_in 1 q'.log) ≡ res) × (outcome ≡ ok tt))
    × (env.accepts q.log (response 1 res) ≡ false → (q' ≡ q) × (outcome ≢ ok tt))
interaction_answers_example = interaction_answers env handlers 3 1 5 fresh

-- The actor answers 8 to the request 3, and the task 6 of the actor 2 receives it.
abbrev answer : Result ℕ (Error ℕ)
answer = ok 8

abbrev receipt : News (Result ℕ (Error ℕ))
receipt = record { told = changed alive ∷ []; output = some answer }

interaction_is_tracked_example :
    (run_task {M = ℕ} (spawn_task 6 5 (some 2)) (polls [] (receipt ∷ []))
      ≡ reported 6 2 5 (task_result answer))
    × (handle handlers (Message.task_done interaction_task 6 5 (task_result answer)) 1
        ≡ heard handlers 5 answer 1)
unfolding interaction_routine answer_in handle on_interact run send emit recv just_done
interaction_is_tracked_example =
    interaction_is_tracked env handlers handlers
      (record { recipient = action_recipient (record { id = 0 }); request = 3 }) 1 5 fresh 6 2 5 1
      [] [] (changed alive ∷ []) tt refl refl
