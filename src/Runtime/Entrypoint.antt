-- ===== src/Runtime/Entrypoint.antt =====
-- What an actor leaves behind, however its life went.
use meio.Prelude.{
  ◌≡◌, refl, Bool, true, false, none, some, List, [], ◌∷◌, ◌++◌, map, arith, ok, err, if◌then◌else◌,
  ◌∙◌, ap, sym, ◌⊎◌, inl, inr,
}
use mathlib.Core.List.{append-nil, append_assoc}
use meio.Ids.{Ident, unique}
use meio.Lifecycle.{Operation, forward, done, schedule, Send, parcel, Interrupt, notify}
use meio.Lifecycle
use meio.Handlers.{Handlers, Script, Message, Outcome, handle, awake}
use meio.Context.{
  Effect, signal, spawned, task_spawned, response, notified, released, done_of, done_notifier,
  Environment, Process, stop, shut, terminate_group, spawn_actor, spawn_task, send, is_terminating,
  run,
}
use meio.Runtime.{
  TimerQueue, Inputs, ActorRuntime, Event, hp_envelope, delayed_envelope, lp_envelope, idle, select,
  handle_envelope, handle_drained, remove_child, on_parcel, on_event, turn, routine, finish,
  after_routine, after_awake, entrypoint, spawn,
}

-- The notifications of an end among the effects.
unfoldable pub ends : {O E : Type 0} → List (Effect O E) → List (Effect O E)
ends [] = []
ends (notified s ∷ es) = notified s ∷ ends es
ends (released ∷ es) = released ∷ ends es
ends (signal s ∷ es) = ends es
ends (spawned i s ∷ es) = ends es
ends (task_spawned i s ∷ es) = ends es
ends (response n r ∷ es) = ends es

module _ {O E : Type 0} where
  ends-append : (xs ys : List (Effect O E)) → ends (xs ++ ys) ≡ ends xs ++ ends ys
  unfolding ends
  ends-append [] ys = refl
  ends-append (notified s ∷ es) ys = rw (ends-append es ys)
  ends-append (released ∷ es) ys = rw (ends-append es ys)
  ends-append (signal s ∷ es) ys = ends-append es ys
  ends-append (spawned i s ∷ es) ys = ends-append es ys
  ends-append (task_spawned i s ∷ es) ys = ends-append es ys
  ends-append (response n r ∷ es) ys = ends-append es ys

  ends-signals : (ss : List (Send Interrupt)) → ends {O = O} {E = E} (map signal ss) ≡ []
  unfolding ends
  ends-signals [] = refl
  ends-signals (s ∷ ss) = ends-signals ss

  -- Effects that are no ends leave the ends as they were.
  ends_same : (log es : List (Effect O E)) → ends es ≡ [] → ends (log ++ es) ≡ ends log
  ends_same log es e = rw (ends-append log es, e, append-nil)

module _ {G O E : Type 0} (env : Environment G O E) where
  spawn_actor-ends : (g : G) (p : Process G O E) → ends (spawn_actor env g p).1.log ≡ ends p.log
  unfolding spawn_actor ends
  spawn_actor-ends g p =
      let sends =
        (Lifecycle.insert env.hashing p.ctx.lifetime_tracker (unique (env.uuid p.heap) p.heap).0
          g).1 in
      ends_same p.log _ (ends-signals sends)

  spawn_task-ends : (g : G) (p : Process G O E) → ends (spawn_task env g p).1.log ≡ ends p.log
  unfolding spawn_task ends
  spawn_task-ends g p =
      let sends =
        (Lifecycle.insert_task env.hashing p.ctx.lifetime_tracker
          (unique (env.uuid p.heap) p.heap).0 g).1 in
      ends_same p.log _ (ends-signals sends)

  shut-ends : (p : Process G O E) → ends (shut env p).log ≡ ends p.log
  unfolding shut
  shut-ends p = ends_same p.log _ (ends-signals _)

  terminate_group-ends :
      (g : G) (p : Process G O E) → ends (terminate_group env g p).log ≡ ends p.log
  unfolding terminate_group
  terminate_group-ends g p = ends_same p.log _ (ends-signals _)

  send-ends :
      (e : Effect O E) (p : Process G O E)
      → ends (e ∷ []) ≡ []
      → ends (send env e p).1.log ≡ ends p.log
  unfolding send
  send-ends e p h = ground (arith, ends_same p.log (e ∷ []) h)

  -- No handler reports the end of its actor.
  run-ends :
      {S R : Type 0} (m : Script S G O E R) (p : Process G O E)
      → ends (run env m p).2.log ≡ ends p.log
  unfolding run ends
  run-ends (Script.return s r) p = refl
  run-ends (Script.stop m) p = run-ends m (record p { ctx = stop p.ctx })
  run-ends (Script.shutdown m) p = run-ends m (shut env p) ∙ shut-ends p
  run-ends (Script.terminate_group g m) p =
      run-ends m (terminate_group env g p) ∙ terminate_group-ends g p
  run-ends (Script.spawn_actor g f) p =
      run-ends (f (spawn_actor env g p).0) (spawn_actor env g p).1 ∙ spawn_actor-ends g p
  run-ends (Script.spawn_task g f) p =
      run-ends (f (spawn_task env g p).0) (spawn_task env g p).1 ∙ spawn_task-ends g p
  run-ends (Script.interrupt a f) p =
      let e = signal (parcel a forward Interrupt.interrupt) in
      run-ends (f (send env e p).0) (send env e p).1 ∙ send-ends e p refl
  run-ends (Script.is_terminating f) p = run-ends (f (is_terminating p.ctx)) p
  run-ends (Script.respond n r f) p =
      let e = response n r in run-ends (f (send env e p).0) (send env e p).1 ∙ send-ends e p refl

module _ {S G I O E Q : Type 0} (env : Environment G O E) (timer : TimerQueue (Message I O E) Q)
    (handlers : Handlers S G I O E) where
  -- What the loop leaves alone: who is told of the end, and that nobody was told yet.
  record IsQuietly (r r' : ActorRuntime S G I O E Q) : Type 0 where
    id : r'.id ≡ r.id
    notifier : r'.done_notifier ≡ r.done_notifier
    unsaid : ends r'.process.log ≡ ends r.process.log

  handle_envelope-IsQuietly :
      (m : Message I O E) (r : ActorRuntime S G I O E Q)
      → IsQuietly r (handle_envelope env timer handlers m r)
  unfolding handle_envelope
  handle_envelope-IsQuietly m r = record {
    id = refl;
    notifier = refl;
    unsaid = run-ends env (handle handlers m r.actor) r.process;
  }

  handle_drained-IsQuietly :
      (hook : S → Script S G O E (Outcome E)) (r : ActorRuntime S G I O E Q)
      → IsQuietly r (handle_drained env timer handlers hook r)
  unfolding handle_drained
  handle_drained-IsQuietly hook r = record {
    id = refl;
    notifier = refl;
    unsaid = run-ends env (hook r.actor) r.process;
  }

  remove_child-ends :
      (id : Ident) (p : Process G O E)
      → ends (remove_child env timer handlers id p).log ≡ ends p.log
  unfolding remove_child
  remove_child-ends id p = ends_same p.log _ (ends-signals _)

  on_parcel-IsQuietly :
      (o : Operation) (m : Message I O E) (r : ActorRuntime S G I O E Q)
      → IsQuietly r (on_parcel env timer handlers o m r)
  unfolding on_parcel
  on_parcel-IsQuietly forward m r = handle_envelope-IsQuietly m r
  on_parcel-IsQuietly (done id) m r =
      let q =
        handle_envelope-IsQuietly m
          (record r { process = remove_child env timer handlers id r.process }) in
      record {
        id = q.id;
        notifier = q.notifier;
        unsaid = q.unsaid ∙ remove_child-ends id r.process;
      }
  on_parcel-IsQuietly (schedule deadline) m r = record { id = refl; notifier = refl; unsaid = refl }

  on_event-IsQuietly :
      (e : Event I O E) (r : ActorRuntime S G I O E Q)
      → IsQuietly r (on_event env timer handlers e r)
  unfolding on_event
  on_event-IsQuietly (hp_envelope (some p)) r = on_parcel-IsQuietly p.operation p.envelope r
  on_event-IsQuietly (hp_envelope none) r =
      handle_drained-IsQuietly handlers.instant_queue_drained r
  on_event-IsQuietly (delayed_envelope (some (ok m))) r = handle_envelope-IsQuietly m r
  on_event-IsQuietly (delayed_envelope (some (err e))) r = record {
    id = refl;
    notifier = refl;
    unsaid = refl;
  }
  on_event-IsQuietly (delayed_envelope none) r =
      handle_drained-IsQuietly handlers.instant_queue_drained r
  on_event-IsQuietly (lp_envelope (some m)) r = handle_envelope-IsQuietly m r
  on_event-IsQuietly (lp_envelope none) r = handle_drained-IsQuietly handlers.queue_drained r
  on_event-IsQuietly idle r = record { id = refl; notifier = refl; unsaid = refl }

  routine-IsQuietly :
      (is : List (Inputs I O E)) (r : ActorRuntime S G I O E Q)
      → IsQuietly r (routine env timer handlers is r)
  unfolding routine turn
  routine-IsQuietly [] r = record { id = refl; notifier = refl; unsaid = refl }
  routine-IsQuietly (i ∷ is) r =
      let (event, q) = select env timer handlers i r.scheduled_queue in
      let here = on_event-IsQuietly event (record r { scheduled_queue = q }) in
      let rest = routine-IsQuietly is (turn env timer handlers i r) in
      record {
        id = ground (arith, here.id, rest.id);
        notifier = ground (arith, here.notifier, rest.notifier);
        unsaid = ground (arith, here.unsaid, rest.unsaid);
      }

  module _ (supervisor id : Ident) where
    abbrev report : Bool → List (Effect O E)
    report joined =
        notified (parcel supervisor (done id) (done_of id)) ∷ (if joined then released ∷ [] else [])

    finish-ends :
        (joined : Bool) (r : ActorRuntime S G I O E Q)
        → r.id ≡ id
        → r.done_notifier ≡ done_notifier id (some supervisor)
        → ends (finish env timer handlers joined r).process.log
          ≡ ends r.process.log ++ report joined
    unfolding finish done_notifier notify ends
    finish-ends true r e f =
        rw (e, f, notify)
          (ends-append (r.process.log ++ _ ∷ []) (released ∷ [])
            ∙ rw
                (ends-append r.process.log
                  (notified (parcel supervisor (done id) (done_of id)) ∷ []))
                (append_assoc (ends r.process.log) _ _))
    finish-ends false r e f = rw (e, f, notify) (ends-append r.process.log _)

    -- What is said of a runtime after `r`: it has reported the end exactly if it is over, which it
    -- is unless the actor is alive.
    abbrev Reports : Bool → ActorRuntime S G I O E Q → Bool × ActorRuntime S G I O E Q → Type 0
    Reports joined r (is_over, r') =
        (ends r'.process.log ≡ ends r.process.log ++ (if is_over then report joined else []))
        × ((is_over ≡ true) ⊎ (r'.process.ctx.alive ≡ true))

    either_way :
        (b joined : Bool) (r : ActorRuntime S G I O E Q)
        → ends (finish env timer handlers joined r).process.log
          ≡ ends r.process.log ++ report joined
        → r.process.ctx.alive ≡ b
        → Reports joined r (
            if◌then◌else◌ {A = Bool × ActorRuntime S G I O E Q} b
              (false, r)
              (true, finish env timer handlers joined r))
    either_way true joined r reported on = (sym (append-nil (ends r.process.log)), inr on)
    either_way false joined r reported off = (reported, inl refl)

    Reports-ends :
        (joined : Bool) (r q : ActorRuntime S G I O E Q) (x : Bool × ActorRuntime S G I O E Q)
        → ends r.process.log ≡ ends q.process.log
        → Reports joined r x
        → Reports joined q x
    Reports-ends joined r q x same reports =
        (reports.0 ∙ ap (λ l. l ++ (if x.0 then report joined else [])) same, reports.1)

    after_routine-Reports :
        (joined : Bool) (r : ActorRuntime S G I O E Q)
        → r.id ≡ id
        → r.done_notifier ≡ done_notifier id (some supervisor)
        → Reports joined r (after_routine env timer handlers joined r)
    unfolding after_routine
    after_routine-Reports joined r e f =
        either_way r.process.ctx.alive joined r (finish-ends joined r e f) refl

    after_awake-Reports :
        (outcome : Outcome E) (inputs : List (Inputs I O E)) (joined : Bool)
        (r : ActorRuntime S G I O E Q)
        → r.id ≡ id
        → r.done_notifier ≡ done_notifier id (some supervisor)
        → Reports joined r (after_awake env timer handlers outcome inputs joined r)
    unfolding after_awake
    after_awake-Reports (ok u) inputs joined r e f =
        let q = routine-IsQuietly inputs r in
        Reports-ends joined (routine env timer handlers inputs r) r
          (after_routine env timer handlers joined (routine env timer handlers inputs r)) q.unsaid
          (after_routine-Reports joined (routine env timer handlers inputs r) (q.id ∙ e)
            (q.notifier ∙ f))
    after_awake-Reports (err u) inputs joined r e f = (finish-ends joined r e f, inl refl)

  -- The entry point of an actor that was spawned with a supervisor reports the end of the actor once,
  -- to that supervisor and under the id of the actor, and then releases those that wait for it, if
  -- there are any: it does so when it comes to its end, whether or not the first handler fails, and
  -- not before; and it has come to its end unless the actor is alive.
  pub entrypoint_reports_once :
      (sequence : List G) (inputs : List (Inputs I O E)) (joined : Bool) (actor : S)
      (supervisor id : Ident) (p : Process G O E)
      → let (is_over, r) =
          entrypoint env timer handlers sequence inputs joined
            (spawn env timer handlers actor (some supervisor) id p) in
        (ends r.process.log
          ≡ ends p.log
            ++ (if is_over
                then notified (parcel supervisor (done id) (done_of id))
                  ∷ (if joined then released ∷ [] else [])
                else []))
        × ((is_over ≡ true) ⊎ (r.process.ctx.alive ≡ true))
  unfolding entrypoint spawn
  entrypoint_reports_once sequence inputs joined actor supervisor id p =
      let r : ActorRuntime S G I O E Q = spawn env timer handlers actor (some supervisor) id p in
      let ready : Process G O E = record r.process {
        ctx = record r.process.ctx {
          lifetime_tracker =
              Lifecycle.termination_sequence env.hashing r.process.ctx.lifetime_tracker sequence;
        };
      } in
      let ran = run env (handle handlers awake actor) ready in
      let woken : ActorRuntime S G I O E Q = record r { actor = ran.0; process = ran.2 } in
      Reports-ends supervisor id joined woken r
        (entrypoint env timer handlers sequence inputs joined r)
        (run-ends env (handle handlers awake actor) ready)
        (after_awake-Reports supervisor id ran.1 inputs joined woken refl refl)
