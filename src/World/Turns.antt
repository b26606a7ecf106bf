-- ===== src/World/Turns.antt =====
-- What a turn of the loop adds to the shared state.
use meio.Prelude.{Result, ◌≡◌, refl, Bool, true, Option, none, some, arith, ok, err}
use meio.Ids.{Ident}
use meio.Lifecycle.{Operation, forward, done, schedule}
use meio.Handlers.{Handlers, Script, Message, Outcome, handle}
use meio.Context.{Environment}
use meio.Context.Laws.{IsSound}
use meio.Runtime.{
  Poll, pending, ready, TimerQueue, Inputs, ActorRuntime, Event, hp_envelope, delayed_envelope,
  lp_envelope, idle, select, select_delayed, select_lp, poll_maybe_queue, handle_envelope,
  handle_drained, remove_child, on_parcel, on_event, turn,
}
use meio.Runtime.Laws.{on_event-IsSound, hp_first}
use meio.World.{is_plain, is_plain_operation}
use meio.World.Growth.{Grows, Grows-refl}
use meio.World.Runs.{run-Grows}

-- The runtimes before and after, with what stays: the notifier, a sound process.
module _ {S G I O E Q : Type 0} (env : Environment G O E) (timer : TimerQueue (Message I O E) Q)
    (handlers : Handlers S G I O E) where
  pub record Advances (r r' : ActorRuntime S G I O E Q) : Type 0 where
    pub grows : Grows env r.process r'.process
    pub notifier : r'.done_notifier ≡ r.done_notifier

  same-Advances :
      (r r' : ActorRuntime S G I O E Q)
      → r'.process ≡ r.process
      → r'.done_notifier ≡ r.done_notifier
      → Advances r r'
  same-Advances r r' e f = record { grows = rw e (Grows-refl env r.process); notifier = f }

  pub handle_envelope-Advances :
      (m : Message I O E) (r : ActorRuntime S G I O E Q)
      → IsSound env r.process
      → Advances r (handle_envelope env timer handlers m r)
  unfolding handle_envelope
  handle_envelope-Advances m r s = record {
    grows = run-Grows env (handle handlers m r.actor) r.process s;
    notifier = refl;
  }

  handle_drained-Advances :
      (hook : S → Script S G O E (Outcome E)) (r : ActorRuntime S G I O E Q)
      → IsSound env r.process
      → Advances r (handle_drained env timer handlers hook r)
  unfolding handle_drained
  handle_drained-Advances hook r s = record {
    grows = run-Grows env (hook r.actor) r.process s;
    notifier = refl;
  }

  abbrev is_plain_event : Event I O E → Bool
  is_plain_event (hp_envelope p) = is_plain (ready p)
  is_plain_event (delayed_envelope m) = true
  is_plain_event (lp_envelope m) = true
  is_plain_event idle = true

  on_parcel-Advances :
      (o : Operation) (m : Message I O E) (r : ActorRuntime S G I O E Q)
      → IsSound env r.process
      → is_plain_operation o ≡ true
      → Advances r (on_parcel env timer handlers o m r)
  unfolding on_parcel
  on_parcel-Advances forward m r s plain = handle_envelope-Advances m r s
  on_parcel-Advances (done id) m r s plain = cc
  on_parcel-Advances (schedule deadline) m r s plain = same-Advances r _ refl refl

  on_event-Advances :
      (e : Event I O E) (r : ActorRuntime S G I O E Q)
      → IsSound env r.process
      → is_plain_event e ≡ true
      → Advances r (on_event env timer handlers e r)
  unfolding on_event
  on_event-Advances (hp_envelope (some p)) r s plain =
      on_parcel-Advances p.operation p.envelope r s plain
  on_event-Advances (hp_envelope none) r s plain =
      handle_drained-Advances handlers.instant_queue_drained r s
  on_event-Advances (delayed_envelope (some (ok m))) r s plain = handle_envelope-Advances m r s
  on_event-Advances (delayed_envelope (some (err e))) r s plain = same-Advances r r refl refl
  on_event-Advances (delayed_envelope none) r s plain =
      handle_drained-Advances handlers.instant_queue_drained r s
  on_event-Advances (lp_envelope (some m)) r s plain = handle_envelope-Advances m r s
  on_event-Advances (lp_envelope none) r s plain =
      handle_drained-Advances handlers.queue_drained r s
  on_event-Advances idle r s plain = same-Advances r r refl refl

  select_delayed_plain :
      (d : Poll (Option (Result (Message I O E) Unit))) (lp : Poll (Option (Message I O E)))
      → is_plain_event (select_delayed env timer handlers d lp) ≡ true
  unfolding select_delayed select_lp
  select_delayed_plain (ready d) lp = refl
  select_delayed_plain pending (ready m) = refl
  select_delayed_plain pending pending = refl

  select_plain :
      (i : Inputs I O E) (q : Q)
      → is_plain i.hp_msg_rx ≡ true
      → is_plain_event (select env timer handlers i q).0 ≡ true
  unfolding select
  select_plain i q h =
      ground (arith, select_delayed_plain (poll_maybe_queue env timer handlers i.now q).0 i.msg_rx)

  -- A turn without a `Done`.
  pub turn-Advances :
      (i : Inputs I O E) (r : ActorRuntime S G I O E Q)
      → IsSound env r.process
      → is_plain i.hp_msg_rx ≡ true
      → Advances r (turn env timer handlers i r)
  unfolding turn
  turn-Advances i r s plain =
      let (event, q) = select env timer handlers i r.scheduled_queue in
      let a =
        on_event-Advances event (record r { scheduled_queue = q }) s
          (select_plain i r.scheduled_queue plain) in
      record { grows = a.grows; notifier = a.notifier }

  pub turn-IsSound :
      (i : Inputs I O E) (r : ActorRuntime S G I O E Q)
      → IsSound env r.process
      → IsSound env (turn env timer handlers i r).process
  unfolding turn
  turn-IsSound i r s =
      let (event, q) = select env timer handlers i r.scheduled_queue in
      on_event-IsSound env timer handlers event (record r { scheduled_queue = q }) s

  -- A turn at which a `Done` is read goes on from the tracker without the child.
  pub turn_told :
      (i : Inputs I O E) (child : Ident) (m : Message I O E) (r : ActorRuntime S G I O E Q)
      → i.hp_msg_rx ≡ ready (some (record { operation = done child; envelope = m }))
      → turn env timer handlers i r
        ≡ handle_envelope env timer handlers m
            (record r { process = remove_child env timer handlers child r.process })
  unfolding on_parcel
  turn_told i child m r e = (hp_first env timer handlers i _ pending 0 r e).0
