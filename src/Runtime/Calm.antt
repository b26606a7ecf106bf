-- ===== src/Runtime/Calm.antt =====
-- Turns of the loop at which no handler asks anything of its context.
use meio.Prelude.{
  ◌≡◌, refl, Option, none, some, List, [], ◌∷◌, ◌++◌, ◌⊎◌, Result, ok, err, inl, inr, ◌∙◌, ap,
}
use meio.Ids.{Ident}
use meio.Lifecycle.{Operation, done, forward, schedule}
use meio.Handlers.{Handlers, Script, Message, handle, Outcome}
use meio.Context.{Environment, Process, run}
use meio.Runtime.{
  Poll, pending, ready, Parcel, TimerQueue, Inputs, ActorRuntime, Event, hp_envelope,
  delayed_envelope, lp_envelope, idle, remove_child, select, select_delayed, select_lp,
  poll_maybe_queue, on_event, on_parcel, handle_envelope, handle_drained, turn,
}

-- The child whose end the high-priority queue reports.
abbrev ended_by : Operation → List Ident
ended_by forward = []
ended_by (done id) = id ∷ []
ended_by (schedule deadline) = []

abbrev pub ended_in : {I O E : Type 0} → Poll (Option (Parcel I O E)) → List Ident
ended_in pending = []
ended_in (ready none) = []
ended_in (ready (some p)) = ended_by p.operation

abbrev pub all_ended : {I O E : Type 0} → List (Inputs I O E) → List Ident
all_ended [] = []
all_ended (i ∷ is) = ended_in i.hp_msg_rx ++ all_ended is

pub ended-cases :
    {I O E : Type 0} (x : Poll (Option (Parcel I O E)))
    → (ended_in x ≡ []) ⊎ ((id : Ident) × (ended_in x ≡ id ∷ []))
ended-cases pending = inl refl
ended-cases (ready none) = inl refl
ended-cases (ready (some p)) = parcel-cases p.operation
  where
    parcel-cases : (o : Operation) → (ended_by o ≡ []) ⊎ ((id : Ident) × (ended_by o ≡ id ∷ []))
    parcel-cases forward = inl refl
    parcel-cases (done id) = inr (id, refl)
    parcel-cases (schedule deadline) = inl refl

module _ {S G I O E Q : Type 0} (env : Environment G O E) (timer : TimerQueue (Message I O E) Q)
    (handlers : Handlers S G I O E) where
  -- A handler that asks nothing of the context.
  abbrev pub IsStill : Script S G O E (Outcome E) → Type 0
  IsStill x = (p : Process G O E) → (run env x p).2 ≡ p

  abbrev pub IsCalmParcel : Operation → Message I O E → S → Type 0
  IsCalmParcel forward m s = IsStill (handle handlers m s)
  IsCalmParcel (done id) m s = IsStill (handle handlers m s)
  IsCalmParcel (schedule deadline) m s = Unit {0}

  -- The handler that runs for an event, if there is one, asks nothing of the context.
  abbrev pub IsCalm : Event I O E → S → Type 0
  IsCalm (hp_envelope (some p)) s = IsCalmParcel p.operation p.envelope s
  IsCalm (hp_envelope none) s = IsStill (handlers.instant_queue_drained s)
  IsCalm (delayed_envelope (some (ok m))) s = IsStill (handle handlers m s)
  IsCalm (delayed_envelope (some (err e))) s = Unit {0}
  IsCalm (delayed_envelope none) s = IsStill (handlers.instant_queue_drained s)
  IsCalm (lp_envelope (some m)) s = IsStill (handle handlers m s)
  IsCalm (lp_envelope none) s = IsStill (handlers.queue_drained s)
  IsCalm idle s = Unit {0}

  -- No handler that runs over the inputs asks anything of the context.
  abbrev pub AllCalm : List (Inputs I O E) → ActorRuntime S G I O E Q → Type 0
  AllCalm [] r = Unit {0}
  AllCalm (i ∷ is) r =
      IsCalm (select env timer handlers i r.scheduled_queue).0 r.actor
      × AllCalm is (turn env timer handlers i r)

  unfoldable removed_all : List Ident → Process G O E → Process G O E
  removed_all [] p = p
  removed_all (id ∷ ids) p = removed_all ids (remove_child env timer handlers id p)

  on_parcel-calm :
      (o : Operation) (m : Message I O E) (r : ActorRuntime S G I O E Q)
      → IsCalmParcel o m r.actor
      → (on_parcel env timer handlers o m r).process ≡ removed_all (ended_by o) r.process
  unfolding on_parcel handle_envelope removed_all
  on_parcel-calm forward m r calm = calm r.process
  on_parcel-calm (done id) m r calm = calm (remove_child env timer handlers id r.process)
  on_parcel-calm (schedule deadline) m r calm = refl

  -- Whose end an event reports.
  abbrev ended_at : Event I O E → List Ident
  ended_at (hp_envelope p) = ended_in (ready p)
  ended_at (delayed_envelope m) = []
  ended_at (lp_envelope m) = []
  ended_at idle = []

  on_event-calm :
      (e : Event I O E) (r : ActorRuntime S G I O E Q)
      → IsCalm e r.actor
      → (on_event env timer handlers e r).process ≡ removed_all (ended_at e) r.process
  unfolding on_event handle_envelope handle_drained removed_all
  on_event-calm (hp_envelope (some p)) r calm = on_parcel-calm p.operation p.envelope r calm
  on_event-calm (hp_envelope none) r calm = calm r.process
  on_event-calm (delayed_envelope (some (ok m))) r calm = calm r.process
  on_event-calm (delayed_envelope (some (err e))) r calm = refl
  on_event-calm (delayed_envelope none) r calm = calm r.process
  on_event-calm (lp_envelope (some m)) r calm = calm r.process
  on_event-calm (lp_envelope none) r calm = calm r.process
  on_event-calm idle r calm = refl

  delayed-ended_at :
      (d : Poll (Option (Result (Message I O E) Unit))) (lp : Poll (Option (Message I O E)))
      → ended_at (select_delayed env timer handlers d lp) ≡ []
  unfolding select_delayed select_lp
  delayed-ended_at (ready d) lp = refl
  delayed-ended_at pending (ready m) = refl
  delayed-ended_at pending pending = refl

  select-ended_at :
      (i : Inputs I O E) (q : Q) (x : Poll (Option (Parcel I O E)))
      → i.hp_msg_rx ≡ x
      → ended_at (select env timer handlers i q).0 ≡ ended_in x
  unfolding select
  select-ended_at i q (ready p) e = rw (e, select) refl
  select-ended_at i q pending e =
      rw (e, select) (delayed-ended_at (poll_maybe_queue env timer handlers i.now q).0 i.msg_rx)

  -- A calm turn takes the child out whose end it reads, and leaves the rest as it is.
  turn-calm :
      (i : Inputs I O E) (r : ActorRuntime S G I O E Q)
      → IsCalm (select env timer handlers i r.scheduled_queue).0 r.actor
      → (turn env timer handlers i r).process ≡ removed_all (ended_in i.hp_msg_rx) r.process
  unfolding turn
  turn-calm i r calm =
      let (event, q) = select env timer handlers i r.scheduled_queue in
      on_event-calm event (record r { scheduled_queue = q }) calm
      ∙ ap (λ l. removed_all l r.process) (select-ended_at i r.scheduled_queue i.hp_msg_rx refl)

  pub turn-kept :
      (i : Inputs I O E) (r : ActorRuntime S G I O E Q)
      → IsCalm (select env timer handlers i r.scheduled_queue).0 r.actor
      → ended_in i.hp_msg_rx ≡ []
      → (turn env timer handlers i r).process ≡ r.process
  unfolding removed_all
  turn-kept i r calm nobody = turn-calm i r calm ∙ ap (λ l. removed_all l r.process) nobody

  pub turn-removed :
      (i : Inputs I O E) (r : ActorRuntime S G I O E Q) (id : Ident)
      → IsCalm (select env timer handlers i r.scheduled_queue).0 r.actor
      → ended_in i.hp_msg_rx ≡ id ∷ []
      → (turn env timer handlers i r).process ≡ remove_child env timer handlers id r.process
  unfolding removed_all
  turn-removed i r id calm one = turn-calm i r calm ∙ ap (λ l. removed_all l r.process) one
