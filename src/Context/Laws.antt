-- ===== src/Context/Laws.antt =====
-- What every handler keeps, whatever it does with its context.
use meio.Prelude.{
  not, ◌↔◌, ◌+◌, ◌≤◌, ◌≡◌, refl, true, false, none, [], ◌∷◌, ap, arith, length, length-append,
}
use meio.Ids.{Ident, unique}
use meio.Lifecycle.{
  parcel, Interrupt, LifecycleNotifier, once, forward, LifetimeTracker, Hashing, insert_record,
}
use meio.Lifecycle
use meio.Lifecycle.Invariant.{IsConsistent, insert_record-IsConsistent, group_in, group_in-insert}
use meio.Lifecycle.Kept.{try_terminate_next-IsConsistent}
use meio.Lifecycle.Drain.{is_finished-childless, start_termination-finished}
use meio.Lifecycle.Interrupts.{IsOwn, AreOwn, insert_record-AreOwn}
use meio.Handlers.{Script}
use meio.Context.{
  Effect, signal, Environment, Process, stop, spawn_actor, spawn_task, shut, is_terminating,
  response, terminate_group, send, run,
}

module _ {G O E : Type 0} (env : Environment G O E) where
  open env use {hashing, accepts}

  -- The tracker is consistent, each notifier speaks to its child, and every child was allocated.
  pub record IsSound (p : Process G O E) : Type 0 where
    pub consistent : IsConsistent hashing p.ctx.lifetime_tracker
    pub own : AreOwn p.ctx.lifetime_tracker.records
    pub allocated :
        (id : Ident) → length p.heap ≤ id → group_in p.ctx.lifetime_tracker.records id ≡ none

  -- A new child under the next id.
  grown-IsSound :
      (p q : Process G O E) (n : LifecycleNotifier) (group : G)
      → IsOwn (length p.heap) n
      → q.ctx.lifetime_tracker
        ≡ (insert_record hashing p.ctx.lifetime_tracker (length p.heap) n group).0
      → length q.heap ≡ length p.heap + 1
      → IsSound p
      → IsSound q
  grown-IsSound p q n group o e grown s = record {
    consistent = rw e (
        insert_record-IsConsistent hashing p.ctx.lifetime_tracker (length p.heap) n group
          (s.allocated (length p.heap) (omega arith)) s.consistent);
    own =
        rw e (insert_record-AreOwn hashing p.ctx.lifetime_tracker (length p.heap) n group o s.own);
    allocated = λ id b. rw e (
        unfold insert_record in
        ground (
          arith,
          group_in-insert (length p.heap) id (record { group = group; notifier = n })
              p.ctx.lifetime_tracker.records,
          s.allocated id,
        ));
  }

  pub spawn_actor-IsSound :
      (p : Process G O E) (group : G) → IsSound p → IsSound (spawn_actor env group p).1
  unfolding spawn_actor unique Lifecycle.insert
  spawn_actor-IsSound p group s =
      grown-IsSound p _ (once (length p.heap) forward) group refl refl
        (length-append p.heap (env.uuid p.heap ∷ [])) s

  pub spawn_task-IsSound :
      (p : Process G O E) (group : G) → IsSound p → IsSound (spawn_task env group p).1
  unfolding spawn_task unique Lifecycle.insert_task
  spawn_task-IsSound p group s =
      grown-IsSound p _ (LifecycleNotifier.stop (length p.heap)) group refl refl
        (length-append p.heap (env.uuid p.heap ∷ [])) s

  -- A process with the same children under the same ids.
  pub same-IsSound :
      (p q : Process G O E)
      → q.ctx.lifetime_tracker ≡ p.ctx.lifetime_tracker
      → q.heap ≡ p.heap
      → IsSound p
      → IsSound q
  same-IsSound p q e f s = record {
    consistent = rw e s.consistent;
    own = rw e s.own;
    allocated = λ id b. rw e (s.allocated id (ground (arith, ap length f)));
  }

  shut-tracker :
      (p : Process G O E)
      → (shut env p).ctx.lifetime_tracker
        ≡ (Lifecycle.try_terminate_next hashing p.ctx.lifetime_tracker).0
  unfolding shut Lifecycle.start_termination
  shut-tracker p = ground arith

  shut-heap : (p : Process G O E) → (shut env p).heap ≡ p.heap
  unfolding shut
  shut-heap p = refl

  -- A process whose tracker went through a termination.
  pub terminated-IsSound :
      (p q : Process G O E)
      → q.ctx.lifetime_tracker ≡ (Lifecycle.try_terminate_next hashing p.ctx.lifetime_tracker).0
      → q.heap ≡ p.heap
      → IsSound p
      → IsSound q
  terminated-IsSound p q e f s = record {
    consistent = rw e (try_terminate_next-IsConsistent hashing p.ctx.lifetime_tracker s.consistent);
    own = rw e (unfold Lifecycle.try_terminate_next in s.own);
    allocated = λ id b.
        rw e (unfold Lifecycle.try_terminate_next in s.allocated id (ground (arith, ap length f)));
  }

  pub shut-IsSound : (p : Process G O E) → IsSound p → IsSound (shut env p)
  shut-IsSound p s = terminated-IsSound p (shut env p) (shut-tracker p) (shut-heap p) s

  pub send-IsSound : (e : Effect O E) (p : Process G O E) → IsSound p → IsSound (send env e p).1
  unfolding send
  send-IsSound e p s = same-IsSound p _ (ground arith) (ground arith) s

  pub terminate_group-IsSound :
      (g : G) (p : Process G O E) → IsSound p → IsSound (terminate_group env g p)
  unfolding terminate_group
  terminate_group-IsSound g p s = same-IsSound p _ refl refl s

  -- If the tracker is consistent, its notifiers are those of their children, and its children have
  -- allocated ids, then so it is after any handler.
  pub run-IsSound :
      {S R : Type 0} (m : Script S G O E R) (p : Process G O E)
      → IsSound p
      → IsSound (run env m p).2
  unfolding run
  run-IsSound (Script.return s r) p h = h
  run-IsSound (Script.stop m) p h =
      run-IsSound m (record p { ctx = stop p.ctx })
        (unfold stop in same-IsSound p (record p { ctx = stop p.ctx }) refl refl h)
  run-IsSound (Script.shutdown m) p h = run-IsSound m (shut env p) (shut-IsSound p h)
  run-IsSound (Script.terminate_group g m) p h =
      run-IsSound m (terminate_group env g p) (terminate_group-IsSound g p h)
  run-IsSound (Script.spawn_actor g f) p h =
      run-IsSound (f (spawn_actor env g p).0) (spawn_actor env g p).1 (spawn_actor-IsSound p g h)
  run-IsSound (Script.spawn_task g f) p h =
      run-IsSound (f (spawn_task env g p).0) (spawn_task env g p).1 (spawn_task-IsSound p g h)
  run-IsSound (Script.interrupt a f) p h =
      let e = signal (parcel a forward Interrupt.interrupt) in
      run-IsSound (f (send env e p).0) (send env e p).1 (send-IsSound e p h)
  run-IsSound (Script.is_terminating f) p h = run-IsSound (f (is_terminating p.ctx)) p h
  run-IsSound (Script.respond n r f) p h =
      let e = response n r in run-IsSound (f (send env e p).0) (send env e p).1 (send-IsSound e p h)

  shut_stopped : (p : Process G O E) → p.ctx.alive ≡ false → (shut env p).ctx.alive ≡ false
  unfolding shut
  shut_stopped p e = ground arith

  send_stopped :
      (e : Effect O E) (p : Process G O E)
      → p.ctx.alive ≡ false
      → (send env e p).1.ctx.alive ≡ false
  unfolding send
  send_stopped e p h = ground arith

  -- No handler makes an actor alive that is stopped.
  pub run_stopped :
      {S R : Type 0} (m : Script S G O E R) (p : Process G O E)
      → p.ctx.alive ≡ false
      → (run env m p).2.ctx.alive ≡ false
  unfolding run
  run_stopped (Script.return s r) p h = h
  run_stopped (Script.stop m) p h =
      run_stopped m (record p { ctx = stop p.ctx }) (unfold stop in refl)
  run_stopped (Script.shutdown m) p h = run_stopped m (shut env p) (shut_stopped p h)
  run_stopped (Script.terminate_group g m) p h =
      run_stopped m (terminate_group env g p) (unfold terminate_group in h)
  run_stopped (Script.spawn_actor g f) p h =
      run_stopped (f (spawn_actor env g p).0) (spawn_actor env g p).1 (unfold spawn_actor in h)
  run_stopped (Script.spawn_task g f) p h =
      run_stopped (f (spawn_task env g p).0) (spawn_task env g p).1 (unfold spawn_task in h)
  run_stopped (Script.interrupt a f) p h =
      let e = signal (parcel a forward Interrupt.interrupt) in
      run_stopped (f (send env e p).0) (send env e p).1 (send_stopped e p h)
  run_stopped (Script.is_terminating f) p h = run_stopped (f (is_terminating p.ctx)) p h
  run_stopped (Script.respond n r f) p h =
      let e = response n r in run_stopped (f (send env e p).0) (send env e p).1 (send_stopped e p h)

  shut-alive :
      (p : Process G O E)
      → p.ctx.alive ≡ true
      → (shut env p).ctx.alive
        ≡ not (
            Lifecycle.is_finished hashing
              (Lifecycle.try_terminate_next hashing p.ctx.lifetime_tracker).0)
  unfolding shut Lifecycle.start_termination
  shut-alive p on = ground arith

  -- Where the process is sound and the actor is alive, `shutdown` puts it into termination, and
  -- stops it at once exactly if it has no child.
  pub shut_stops_iff :
      (p : Process G O E)
      → IsSound p
      → p.ctx.alive ≡ true
      → ((shut env p).ctx.lifetime_tracker.terminating ≡ true)
        × (((shut env p).ctx.alive ≡ false)
            ↔ ((id : Ident) → group_in p.ctx.lifetime_tracker.records id ≡ none))
  shut_stops_iff p s on = (
    rw (shut-tracker p) (unfold Lifecycle.try_terminate_next in refl),
    (
      λ off.
          unfold Lifecycle.try_terminate_next in
          is_finished-childless hashing (Lifecycle.try_terminate_next hashing t).0
            (try_terminate_next-IsConsistent hashing t s.consistent)
            (ground (arith, shut-alive p on)),
      λ gone.
          let f : Lifecycle.is_finished hashing (Lifecycle.try_terminate_next hashing t).0 ≡ true =
            unfold Lifecycle.start_termination in
            start_termination-finished hashing t s.consistent gone in
          ground (arith, shut-alive p on),
    ),
  )
    where
      open p.ctx use {lifetime_tracker as t}
