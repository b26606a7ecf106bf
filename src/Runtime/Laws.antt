-- ===== src/Runtime/Laws.antt =====
-- What the loop of an actor keeps, and in which order it takes its events.
use meio.Prelude.{
  ℕ, ◌≡◌, ◌≢◌, true, false, Option, none, some, List, [], ◌∷◌, ℕ_discrete, arith, ok, err, not, ◌↔◌,
}
use meio.Prelude.Set
use meio.Ids.{Ident}
use meio.Lifecycle.{Operation, forward, done, schedule, LifetimeTracker}
use meio.Lifecycle
use meio.Lifecycle.Invariant.{group_in}
use meio.Lifecycle.Kept.{remove-IsConsistent}
use meio.Lifecycle.Drain.{
  is_finished-childless, remove_all-finished, remove_all, group_in-remove_child,
}
use meio.Lifecycle.Interrupts.{remove-AreOwn}
use meio.Handlers.{Handlers, Script, Message, Outcome, handle}
use meio.Context.{Environment, Process}
use meio.Context.Laws.{IsSound, run-IsSound}
use meio.Runtime.{
  Poll, ready, TimerQueue, Parcel, Inputs, ActorRuntime, Event, hp_envelope, delayed_envelope,
  lp_envelope, idle, select, handle_envelope, handle_drained, remove_child, on_parcel, on_event,
  turn, routine,
}

not_contained : (k id : Ident) → Set.contains ℕ_discrete k (id ∷ []) ≡ false → k ≢ id
unfolding Set.contains
not_contained k id e = ground arith

module _ {S G I O E Q : Type 0} (env : Environment G O E) (timer : TimerQueue (Message I O E) Q)
    (handlers : Handlers S G I O E) where
  open env use {hashing}
  open timer use {size, put_at, next, closed_empty, size-put_at}

  -- If a high-priority parcel is there, a turn handles it, and is the same whatever the normal
  -- queue holds and whatever the time is.
  pub hp_first :
      (i : Inputs I O E) (p : Parcel I O E) (lp : Poll (Option (Message I O E))) (now : ℕ)
      (r : ActorRuntime S G I O E Q)
      → i.hp_msg_rx ≡ ready (some p)
      → (turn env timer handlers i r ≡ on_parcel env timer handlers p.operation p.envelope r)
        × (turn env timer handlers (record i { msg_rx = lp; now = now }) r
            ≡ turn env timer handlers i r)
  unfolding turn select on_event
  hp_first i p lp now r e = (rw (e, select, turn), rw (e, select, turn))

  -- The branch of the loop for a closed delay queue is never selected.
  pub delayed_never_closed :
      (i : Inputs I O E) (q : Q) → (select env timer handlers i q).0 ≢ delayed_envelope none
  unfolding select
  delayed_never_closed i q e = ground (arith, closed_empty i.now q)

  pub remove_child-tracker :
      (id : Ident) (p : Process G O E)
      → (remove_child env timer handlers id p).ctx.lifetime_tracker
        ≡ (Lifecycle.remove hashing p.ctx.lifetime_tracker id).0
  unfolding remove_child
  remove_child-tracker id p = ground arith

  pub remove_child-IsSound :
      (id : Ident) (p : Process G O E)
      → IsSound env p
      → IsSound env (remove_child env timer handlers id p)
  remove_child-IsSound id p s = record {
    consistent =
        rw (remove_child-tracker id p)
          (remove-IsConsistent hashing p.ctx.lifetime_tracker id s.consistent);
    own = rw (remove_child-tracker id p) (remove-AreOwn hashing p.ctx.lifetime_tracker id s.own);
    allocated = λ k b. rw (remove_child-tracker id p) (
        ground (
          arith,
          group_in-remove_child hashing p.ctx.lifetime_tracker id k,
          s.allocated k (unfold remove_child in b),
        ));
  }

  pub remove_child-alive :
      (id : Ident) (p : Process G O E)
      → p.ctx.alive ≡ true
      → (remove_child env timer handlers id p).ctx.alive
        ≡ not (Lifecycle.is_finished hashing (Lifecycle.remove hashing p.ctx.lifetime_tracker id).0)
  unfolding remove_child
  remove_child-alive id p on = ground arith

  pub remove_child_stopped :
      (id : Ident) (p : Process G O E)
      → p.ctx.alive ≡ false
      → (remove_child env timer handlers id p).ctx.alive ≡ false
  unfolding remove_child
  remove_child_stopped id p off = ground arith

  -- Where a sound process is in termination and the actor is alive, the `Done` of a child stops
  -- the actor exactly if no other child is left.
  pub remove_child_stops_iff :
      (id : Ident) (p : Process G O E)
      → IsSound env p
      → p.ctx.alive ≡ true
      → p.ctx.lifetime_tracker.terminating ≡ true
      → ((remove_child env timer handlers id p).ctx.alive ≡ false)
        ↔ ((k : Ident) → k ≢ id → group_in p.ctx.lifetime_tracker.records k ≡ none)
  remove_child_stops_iff id p s on closing = (
    λ off k other.
        let gone : group_in (Lifecycle.remove hashing t id).0.records k ≡ none =
          is_finished-childless hashing (Lifecycle.remove hashing t id).0
            (remove-IsConsistent hashing t id s.consistent)
            (ground (arith, remove_child-alive id p on)) k in
        ground (arith, group_in-remove_child hashing t id k),
    λ alone.
        let finished : Lifecycle.is_finished hashing (Lifecycle.remove hashing t id).0 ≡ true =
          unfold remove_all in
          remove_all-finished hashing t id [] s.consistent closing
            (λ k out. alone k (λ same. ground (arith, not_contained k id out))) in
        ground (arith, remove_child-alive id p on),
  )
    where
      open p.ctx use {lifetime_tracker as t}

  pub handle_envelope-IsSound :
      (m : Message I O E) (r : ActorRuntime S G I O E Q)
      → IsSound env r.process
      → IsSound env (handle_envelope env timer handlers m r).process
  unfolding handle_envelope
  handle_envelope-IsSound m r s = run-IsSound env (handle handlers m r.actor) r.process s

  handle_drained-IsSound :
      (hook : S → Script S G O E (Outcome E)) (r : ActorRuntime S G I O E Q)
      → IsSound env r.process
      → IsSound env (handle_drained env timer handlers hook r).process
  unfolding handle_drained
  handle_drained-IsSound hook r s = run-IsSound env (hook r.actor) r.process s

  on_parcel-IsSound :
      (o : Operation) (m : Message I O E) (r : ActorRuntime S G I O E Q)
      → IsSound env r.process
      → IsSound env (on_parcel env timer handlers o m r).process
  unfolding on_parcel
  on_parcel-IsSound forward m r s = handle_envelope-IsSound m r s
  on_parcel-IsSound (done id) m r s =
      handle_envelope-IsSound m
        (record r { process = remove_child env timer handlers id r.process })
        (remove_child-IsSound id r.process s)
  on_parcel-IsSound (schedule deadline) m r s = s

  pub on_event-IsSound :
      (e : Event I O E) (r : ActorRuntime S G I O E Q)
      → IsSound env r.process
      → IsSound env (on_event env timer handlers e r).process
  unfolding on_event
  on_event-IsSound (hp_envelope (some p)) r s = on_parcel-IsSound p.operation p.envelope r s
  on_event-IsSound (hp_envelope none) r s =
      handle_drained-IsSound handlers.instant_queue_drained r s
  on_event-IsSound (delayed_envelope (some (ok m))) r s = handle_envelope-IsSound m r s
  on_event-IsSound (delayed_envelope (some (err e))) r s = s
  on_event-IsSound (delayed_envelope none) r s =
      handle_drained-IsSound handlers.instant_queue_drained r s
  on_event-IsSound (lp_envelope (some m)) r s = handle_envelope-IsSound m r s
  on_event-IsSound (lp_envelope none) r s = handle_drained-IsSound handlers.queue_drained r s
  on_event-IsSound idle r s = s

  -- Over every sequence of parcels, deadlines and messages, and with any handlers, the process of
  -- an actor stays sound, if it is so at first.
  pub routine-IsSound :
      (is : List (Inputs I O E)) (r : ActorRuntime S G I O E Q)
      → IsSound env r.process
      → IsSound env (routine env timer handlers is r).process
  unfolding routine turn
  routine-IsSound [] r s = s
  routine-IsSound (i ∷ is) r s =
      let (event, q) = select env timer handlers i r.scheduled_queue in
      ground (
        arith,
        routine-IsSound is (turn env timer handlers i r)
            (on_event-IsSound event (record r { scheduled_queue = q }) s),
      )
