-- ===== src/World/Completion.antt =====
-- The end of a shutdown, once the children have ended.
use meio.Prelude.{◌≡◌, Bool, true, false, some, err, ℕ_discrete}
use meio.Prelude.Set
use meio.Ids.{Ident}
use meio.Lifecycle.{Operation}
use meio.Lifecycle
use meio.Handlers.{Handlers, Message, child_done, task_done, custom_task, interrupted, handle}
use meio.Context.{Environment, Process, run}
use meio.Runtime.{TimerQueue, ActorRuntime, Inputs, pending, ready, turn}
use meio.World.{World, take_report, resume, Step}

module _ {S G I O E Q : Type 0} (env : Environment G O E) (timer : TimerQueue (Message I O E) Q)
    (handlers : Handlers S G I O E) (tag : I) where
  -- The envelope of the `Done` of a child.
  abbrev end_of : Bool → Ident → Message I O E
  end_of false id = child_done id
  end_of true id = task_done custom_task id tag (err interrupted)

  -- The handlers of these envelopes do nothing with the context of the actor.
  abbrev pub IsIdle : Type 0
  IsIdle =
      (b : Bool) (id : Ident) (s : S) (p : Process G O E)
      → (run env (handle handlers (end_of b id) s) p).2 ≡ p

  module _ (idle : IsIdle) (w : World S G I O E Q) (s child : Ident) (r : ActorRuntime S G I O E Q)
      (b : Bool) where
    abbrev input : Inputs I O E
    input = record {
      hp_msg_rx =
          ready (some (record { operation = Operation.done child; envelope = end_of b child }));
      msg_rx = pending;
      now = 0;
    }

    abbrev heard : World S G I O E Q
    heard = record w { unread = take_report s child w.unread }

    abbrev next : ActorRuntime S G I O E Q
    next = turn env timer handlers input (resume w r)

  -- The worlds to which steps lead from a world.
  pub data Leads : World S G I O E Q → World S G I O E Q → Type 0 where
    already : {a : World S G I O E Q} → Leads a a
    after : {a b c : World S G I O E Q} → Step env timer handlers a b → Leads b c → Leads a c

  -- From this world, steps lead to one in which the actor has ended.
  abbrev pub CanEnd : World S G I O E Q → Ident → Type 0
  CanEnd w s = (w' : World S G I O E Q) × Leads w w' × (Set.contains ℕ_discrete s w'.ended ≡ true)
