-- ===== src/Runtime/Deadlines.antt =====
-- How many entries the delay queue of meio/src/actor_runtime.rs holds.
use meio.Prelude.{
  ℕ, ◌+◌, ◌≤◌, ◌≡◌, refl, inl, inr, Option, none, some, List, [], ◌∷◌, Result, ok, err, arith,
  if◌then◌else◌, ltb, Bool-cases,
}
use meio.Lifecycle.{Operation, forward, done, schedule}
use meio.Handlers.{Handlers, Message}
use meio.Context.{Environment}
use meio.Runtime.{
  Poll, pending, ready, TimerQueue, Parcel, Inputs, ActorRuntime, Event, hp_envelope,
  delayed_envelope, lp_envelope, idle, poll_maybe_queue, select_lp, select_delayed, select,
  handle_envelope, handle_drained, on_parcel, on_event, turn, routine,
}

-- Whether a parcel asks for a deadline, and whether a deadline is handed out.
abbrev asks_deadline : Operation → ℕ
asks_deadline forward = 0
asks_deadline (done id) = 0
asks_deadline (schedule deadline) = 1

module _ {I O E : Type 0} where
  abbrev pub asked : Poll (Option (Parcel I O E)) → ℕ
  asked pending = 0
  asked (ready none) = 0
  asked (ready (some p)) = asks_deadline p.operation

  abbrev polled : Poll (Option (Result (Message I O E) Unit)) → ℕ
  polled pending = 0
  polled (ready none) = 0
  polled (ready (some (ok m))) = 1
  polled (ready (some (err e))) = 0

  abbrev event_asked : Event I O E → ℕ
  event_asked (hp_envelope p) = asked (ready p)
  event_asked (delayed_envelope m) = 0
  event_asked (lp_envelope m) = 0
  event_asked idle = 0

  abbrev event_polled : Event I O E → ℕ
  event_polled (hp_envelope p) = 0
  event_polled (delayed_envelope m) = polled (ready m)
  event_polled (lp_envelope m) = 0
  event_polled idle = 0

  -- The `Schedule` parcels among the inputs.
  unfoldable pub all_asked : List (Inputs I O E) → ℕ
  all_asked [] = 0
  all_asked (i ∷ is) = asked i.hp_msg_rx + all_asked is

module _ {S G I O E Q : Type 0} (env : Environment G O E) (timer : TimerQueue (Message I O E) Q)
    (handlers : Handlers S G I O E) where
  open timer use {size, next}

  -- The deadlines that the loop hands to a handler.
  unfoldable pub delivered : List (Inputs I O E) → ActorRuntime S G I O E Q → ℕ
  delivered [] r = 0
  delivered (i ∷ is) r =
      let rest = delivered is (turn env timer handlers i r) in
      if r.process.ctx.alive
      then event_polled (select env timer handlers i r.scheduled_queue).0 + rest
      else 0

  on_event_size :
      (e : Event I O E) (r : ActorRuntime S G I O E Q)
      → size (on_event env timer handlers e r).scheduled_queue
        ≡ size r.scheduled_queue + event_asked e
  unfolding on_event on_parcel handle_envelope handle_drained
  on_event_size (hp_envelope (some p)) r = parcel_size p.operation p.envelope
    where
      parcel_size :
          (o : Operation) (m : Message I O E)
          → size (on_parcel env timer handlers o m r).scheduled_queue
            ≡ size r.scheduled_queue + asks_deadline o
      parcel_size forward m = omega arith
      parcel_size (done id) m = omega arith
      parcel_size (schedule deadline) m = timer.size-put_at m deadline r.scheduled_queue
  on_event_size (hp_envelope none) r = omega arith
  on_event_size (delayed_envelope (some (ok m))) r = omega arith
  on_event_size (delayed_envelope (some (err e))) r = omega arith
  on_event_size (delayed_envelope none) r = omega arith
  on_event_size (lp_envelope (some m)) r = omega arith
  on_event_size (lp_envelope none) r = omega arith
  on_event_size idle r = omega arith

  next_size :
      (now : ℕ) (q : Q) (x : Poll (Option (Result (Message I O E) Unit)))
      → (next now q).0 ≡ x
      → size (next now q).1 + polled x ≤ size q
  next_size now q pending e = omega (arith, timer.size-next now q)
  next_size now q (ready none) e = omega (arith, timer.size-next now q)
  next_size now q (ready (some (ok m))) e = omega (arith, timer.size-ready now q m e)
  next_size now q (ready (some (err u))) e = omega (arith, timer.size-next now q)

  delayed_polled :
      (x : Poll (Option (Result (Message I O E) Unit))) (lp : Poll (Option (Message I O E)))
      → event_polled (select_delayed env timer handlers x lp) ≡ polled x
  unfolding select_delayed select_lp
  delayed_polled pending pending = refl
  delayed_polled pending (ready m) = refl
  delayed_polled (ready x) lp = refl

  maybe_size :
      (now : ℕ) (q : Q)
      → size (poll_maybe_queue env timer handlers now q).1
          + polled (poll_maybe_queue env timer handlers now q).0
        ≤ size q
  unfolding poll_maybe_queue
  maybe_size now q = elim (Bool-cases (ltb 0 (size q))) [
    | inl some_left ↦ rw some_left (next_size now q (next now q).0 refl)
    | inr none_left ↦ rw none_left (omega arith)
  ]

  select_size :
      (hp : Poll (Option (Parcel I O E))) (lp : Poll (Option (Message I O E))) (now : ℕ) (q : Q)
      → let (event, q') =
          select env timer handlers (record { hp_msg_rx = hp; msg_rx = lp; now = now }) q in
        (size q' + event_polled event ≤ size q) × (event_asked event ≡ asked hp)
  unfolding select select_delayed select_lp
  select_size (ready p) lp now q = (omega arith, refl)
  select_size pending lp now q =
      let x = poll_maybe_queue env timer handlers now q in
      (omega (arith, maybe_size now q, delayed_polled x.0 lp), not_asked x.0 lp)
    where
      not_asked :
          (x : Poll (Option (Result (Message I O E) Unit))) (lp : Poll (Option (Message I O E)))
          → event_asked (select_delayed env timer handlers x lp) ≡ 0
      not_asked pending pending = refl
      not_asked pending (ready m) = refl
      not_asked (ready x) lp = refl

  turn_size :
      (i : Inputs I O E) (r : ActorRuntime S G I O E Q)
      → size (turn env timer handlers i r).scheduled_queue
          + event_polled (select env timer handlers i r.scheduled_queue).0
        ≤ size r.scheduled_queue + asked i.hp_msg_rx
  unfolding turn
  turn_size i r =
      let (event, q) = select env timer handlers i r.scheduled_queue in
      let (fits, same) = select_size i.hp_msg_rx i.msg_rx i.now r.scheduled_queue in
      omega (arith, fits, same, on_event_size event (record r { scheduled_queue = q }))

  -- Over every sequence of inputs, and with any handlers, the loop hands out no more deadlines than
  -- the delay queue held at first and `Schedule` parcels came, and the entries that are left in the
  -- queue are at most those that were not handed out.
  pub routine_deadlines :
      (is : List (Inputs I O E)) (r : ActorRuntime S G I O E Q)
      → size (routine env timer handlers is r).scheduled_queue + delivered is r
        ≤ size r.scheduled_queue + all_asked is
  unfolding routine delivered all_asked
  routine_deadlines [] r = omega arith
  routine_deadlines (i ∷ is) r =
      ground (arith, turn_size i r, routine_deadlines is (turn env timer handlers i r))
