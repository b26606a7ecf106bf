-- ===== src/World/Runs.antt =====
-- What any handler adds to the shared state.
use meio.Prelude.{refl, some, [], ◌∷◌, map, length, length-append}
use meio.Ids.{unique}
use meio.Lifecycle.{LifecycleNotifier, once, forward, parcel, Interrupt}
use meio.Lifecycle
use meio.Handlers.{Script}
use meio.Context.{
  signal, spawned, task_spawned, response, Environment, Process, stop, spawn_actor, spawn_task,
  shut, is_terminating, terminate_group, send, run,
}
use meio.Context.Laws.{
  IsSound, spawn_actor-IsSound, spawn_task-IsSound, shut-IsSound, send-IsSound,
  terminate_group-IsSound, same-IsSound,
}
use meio.World.Spawns.{
  signals-IsSilent, signal-IsSilent, response-IsSilent, spawned_only, task_spawned_only,
  spawned_there, task_spawned_there,
}
use meio.World.Growth.{
  is_child_of_task, Grows, Grows-refl, Grows-trans, stop-Grows, shut-Grows, terminate_group-Grows,
  send-Grows, spawn-Grows,
}

module _ {G O E : Type 0} (env : Environment G O E) where
  open env use {hashing}

  spawn_actor-Grows :
      (p : Process G O E) (group : G) → IsSound env p → Grows env p (spawn_actor env group p).1
  unfolding spawn_actor unique Lifecycle.insert
  spawn_actor-Grows p group sound =
      let sends = (Lifecycle.insert hashing p.ctx.lifetime_tracker (length p.heap) group).1 in
      spawn-Grows env p _ (once (length p.heap) forward) group
        (spawned (length p.heap) (some p.ctx.address) ∷ map signal sends) sound refl refl
        (length-append p.heap (env.uuid p.heap ∷ [])) refl
        (λ b s id e.
          spawned_only (length p.heap) p.ctx.address (map signal sends) b s id
            (signals-IsSilent O E sends) e)
        (rw (spawned_there (length p.heap) p.ctx.address (map signal sends)))

  spawn_task-Grows :
      (p : Process G O E) (group : G) → IsSound env p → Grows env p (spawn_task env group p).1
  unfolding spawn_task unique Lifecycle.insert_task
  spawn_task-Grows p group sound =
      let sends = (Lifecycle.insert_task hashing p.ctx.lifetime_tracker (length p.heap) group).1 in
      spawn-Grows env p _ (LifecycleNotifier.stop (length p.heap)) group
        (task_spawned (length p.heap) (some p.ctx.address) ∷ map signal sends) sound refl refl
        (length-append p.heap (env.uuid p.heap ∷ [])) refl
        (λ b s id e.
          task_spawned_only (length p.heap) p.ctx.address (map signal sends) b s id
            (signals-IsSilent O E sends) e)
        (is_child_of_task p.ctx.address (length p.heap) _
          (task_spawned_there (length p.heap) p.ctx.address (map signal sends)))

  -- Whatever a handler does, what it adds are the children of its actor.
  pub run-Grows :
      {S R : Type 0} (m : Script S G O E R) (p : Process G O E)
      → IsSound env p
      → Grows env p (run env m p).2
  unfolding run
  run-Grows (Script.return s r) p h = Grows-refl env p
  run-Grows (Script.stop m) p h =
      let q = record p { ctx = stop p.ctx } in
      Grows-trans env (stop-Grows env p)
        (run-Grows m q (unfold stop in same-IsSound env p q refl refl h))
  run-Grows (Script.shutdown m) p h =
      Grows-trans env (shut-Grows env p h) (run-Grows m (shut env p) (shut-IsSound env p h))
  run-Grows (Script.terminate_group g m) p h =
      Grows-trans env (terminate_group-Grows env g p)
        (run-Grows m (terminate_group env g p) (terminate_group-IsSound env g p h))
  run-Grows (Script.spawn_actor g f) p h = Grows-trans env (spawn_actor-Grows p g h) (
      run-Grows (f (spawn_actor env g p).0) (spawn_actor env g p).1 (spawn_actor-IsSound env p g h))
  run-Grows (Script.spawn_task g f) p h =
      Grows-trans env (spawn_task-Grows p g h)
        (run-Grows (f (spawn_task env g p).0) (spawn_task env g p).1 (spawn_task-IsSound env p g h))
  run-Grows (Script.interrupt a f) p h =
      let e = signal (parcel a forward Interrupt.interrupt) in
      Grows-trans env
        (send-Grows env e p (signal-IsSilent O E (parcel a forward Interrupt.interrupt)))
        (run-Grows (f (send env e p).0) (send env e p).1 (send-IsSound env e p h))
  run-Grows (Script.is_terminating f) p h = run-Grows (f (is_terminating p.ctx)) p h
  run-Grows (Script.respond n r f) p h =
      let e = response n r in
      Grows-trans env (send-Grows env e p (response-IsSilent O E n r))
        (run-Grows (f (send env e p).0) (send env e p).1 (send-IsSound env e p h))
