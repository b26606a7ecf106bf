-- ===== src/Samples/MyActor/Ending.antt =====
-- When `MyActor` of meio/src/lib.rs ends.
use meio.Prelude.{
  ℕ, ◌≡◌, refl, Bool, true, false, not, ◌||◌, none, some, List, ok, err, [], ◌∷◌, map, arith, ◌∙◌,
  ap, Bool-cases, inl, inr, All,
}
use meio.Ids.{Ident}
use meio.Lifecycle.{forward}
use meio.Lifecycle.Invariant.{group_in}
use meio.Handlers.{
  Message, handle, awake, interruption, child_done, task_done, action, instant, interact, item,
  items_done, scheduled, terminate, tick, attach, interaction_task, stream_forwarder, heart_beat,
  fn_task, custom_task,
}
use meio.Context.{Environment, Process, run, send, shut}
use meio.Context.Laws.{IsSound, run-IsSound, shut_stops_iff}
use meio.Runtime.{
  ready, TimerQueue, Inputs, ActorRuntime, turn, routine, select, on_event, on_parcel,
  handle_envelope,
}
use meio.Runtime.Shutdown.{stopped, alive_step}
use meio.Samples.MyActor.{Input, msg_one, msg_two, link_signal, ctrl_c, scheduled_stop, my_actor}

-- The messages at which the actor shuts down: an interruption, the end of a stream, and a
-- `ScheduledStop` that says so.
abbrev pub stops_at : {O E : Type 0} → Message Input O E → Bool
stops_at interruption = true
stops_at items_done = true
stops_at (scheduled timestamp (scheduled_stop b)) = b
stops_at _ = false

-- A message that starts a child.
abbrev pub is_attach : {O E : Type 0} → Message Input O E → Bool
is_attach (attach tag) = true
is_attach _ = false

abbrev pub any_stop : {O E : Type 0} → List (Message Input O E) → Bool
any_stop [] = false
any_stop (m ∷ ms) = stops_at m || any_stop ms

module _ {E : Type 0} (env : Environment (Unit {0}) ℕ E) where
  after : Message Input ℕ E → Process (Unit {0}) ℕ E → Process (Unit {0}) ℕ E
  after m p = (run env (handle my_actor m tt) p).2

  kept_context :
      (m : Message Input ℕ E) (p : Process (Unit {0}) ℕ E)
      → stops_at m ≡ false
      → is_attach m ≡ false
      → (after m p).ctx ≡ p.ctx
  unfolding after handle my_actor run send
  kept_context awake p e f = refl
  kept_context interruption p e f = absurd cc
  kept_context (child_done id) p e f = refl
  kept_context (task_done interaction_task id tag (ok o)) p e f = refl
  kept_context (task_done interaction_task id tag (err x)) p e f = refl
  kept_context (task_done stream_forwarder id tag (ok o)) p e f = refl
  kept_context (task_done stream_forwarder id tag (err x)) p e f = refl
  kept_context (task_done heart_beat id tag res) p e f = refl
  kept_context (task_done fn_task id tag res) p e f = refl
  kept_context (task_done custom_task id tag res) p e f = refl
  kept_context (action i) p e f = refl
  kept_context (instant i) p e f = refl
  kept_context (interact request responder) p e f = ground arith
  kept_context (item i) p e f = refl
  kept_context items_done p e f = absurd cc
  kept_context (scheduled timestamp (scheduled_stop true)) p e f = absurd cc
  kept_context (scheduled timestamp (scheduled_stop false)) p e f = refl
  kept_context (scheduled timestamp msg_one) p e f = refl
  kept_context (scheduled timestamp msg_two) p e f = refl
  kept_context (scheduled timestamp link_signal) p e f = refl
  kept_context (scheduled timestamp ctrl_c) p e f = refl
  kept_context terminate p e f = refl
  kept_context (tick now) p e f = refl
  kept_context (attach tag) p e f = absurd cc

  -- The actor has no child.
  abbrev pub IsChildless : Process (Unit {0}) ℕ E → Type 0
  IsChildless p = (k : Ident) → group_in p.ctx.lifetime_tracker.records k ≡ none

  shut_alone :
      (p : Process (Unit {0}) ℕ E)
      → IsSound env p
      → IsChildless p
      → p.ctx.alive ≡ true
      → (shut env p).ctx.alive ≡ false
  shut_alone p sound alone on = (shut_stops_iff env p sound on).1.1 alone

  stops_alone :
      (m : Message Input ℕ E) (p : Process (Unit {0}) ℕ E)
      → stops_at m ≡ true
      → IsSound env p
      → IsChildless p
      → p.ctx.alive ≡ true
      → (after m p).ctx.alive ≡ false
  unfolding after handle my_actor run
  stops_alone interruption p e = shut_alone p
  stops_alone items_done p e = shut_alone p
  stops_alone (scheduled timestamp (scheduled_stop true)) p e = shut_alone p
  stops_alone (scheduled timestamp (scheduled_stop false)) p e = absurd cc
  stops_alone m p e = absurd cc

  module _ {Q : Type 0} (timer : TimerQueue (Message Input ℕ E) Q) where
    -- A message in the high-priority queue, whatever else is there to be read.
    abbrev pub forward_input : Message Input ℕ E × Inputs Input ℕ E → Inputs Input ℕ E
    forward_input (m, i) = record i {
      hp_msg_rx = ready (some (record { operation = forward; envelope = m }));
    }

    abbrev pub messages : List (Message Input ℕ E × Inputs Input ℕ E) → List (Message Input ℕ E)
    messages [] = []
    messages ((m, i) ∷ ms) = m ∷ messages ms

    turn-after :
        (m : Message Input ℕ E) (i : Inputs Input ℕ E)
        (r : ActorRuntime (Unit {0}) (Unit {0}) Input ℕ E Q)
        → (turn env timer my_actor (forward_input (m, i)) r).process ≡ after m r.process
    unfolding turn select on_event on_parcel handle_envelope after
    turn-after m i r = refl

    -- `MyActor`, alive and without a child, handles the messages that come, other than those that
    -- attach a stream, and is alive after them exactly if none of them was an interruption, the end
    -- of its stream, or a `ScheduledStop` that says so. Its process is sound.
    pub my_actor_goes_on :
        (ms : List (Message Input ℕ E × Inputs Input ℕ E))
        (r : ActorRuntime (Unit {0}) (Unit {0}) Input ℕ E Q)
        → All (λ m. is_attach m ≡ false) (messages ms)
        → IsSound env r.process
        → IsChildless r.process
        → r.process.ctx.alive ≡ true
        → (routine env timer my_actor (map forward_input ms) r).process.ctx.alive
          ≡ not (any_stop (messages ms))
    my_actor_goes_on [] r h sound alone on = unfold routine in on
    my_actor_goes_on ((m, i) ∷ ms) r h sound alone on =
        let q = turn env timer my_actor (forward_input (m, i)) r in
        alive_step env timer my_actor (forward_input (m, i)) (map forward_input ms) r on
        ∙ elim (Bool-cases (stops_at m)) [
          | inl e ↦
              stopped env timer my_actor (map forward_input ms) q (
                ap (λ p. p.ctx.alive) (turn-after m i r) ∙ stops_alone m r.process e sound alone on)
              ∙ rw e refl
          | inr e ↦
              let same : q.process.ctx ≡ r.process.ctx =
                ap (λ p. p.ctx) (turn-after m i r) ∙ kept_context m r.process e h.0 in
              my_actor_goes_on ms q h.1
                (rw (turn-after m i r)
                  (unfold after in run-IsSound env (handle my_actor m tt) r.process sound))
                (λ k. ap (λ c. group_in c.lifetime_tracker.records k) same ∙ alone k)
                (ap (λ c. c.alive) same ∙ on)
              ∙ rw e refl
        ]
