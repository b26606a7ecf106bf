-- ===== src/Samples/MyActor.antt =====
-- `MyActor` of the tests in meio/src/lib.rs, with its messages.
pub mod Ending
use meio.Prelude.{ℕ, Bool, true, false, ok, err, if◌then◌else◌}
use meio.Handlers.{Handlers, Script, Outcome, Error, unsent, result_unsent}
use meio.Linkage.{Address, Post, act, interrupt_by}

-- What is sent to the actor: `MsgOne`, `MsgTwo`, `LinkSignal`, `CtrlC`, `ScheduledStop`.
pub data Input : Type 0 where
  msg_one msg_two link_signal ctrl_c : Input
  scheduled_stop : Bool → Input

abbrev pub Reply : Type 0 → Type 0
Reply E = Script (Unit {0}) (Unit {0}) ℕ E (Outcome E)

module _ {E : Type 0} where
  abbrev pub quiet : Unit {0} → Reply E
  quiet s = Script.return s (ok tt)

  -- `InterruptedBy<System>`, behind its sleep, and `Consumer::finished`.
  unfoldable pub shuts_down : Unit {0} → Reply E
  shuts_down s = Script.shutdown (quiet s)

  -- `Scheduled<ScheduledStop>`.
  unfoldable pub on_scheduled : Input → Unit {0} → Reply E
  unfolding shuts_down
  on_scheduled (scheduled_stop true) s = shuts_down s
  on_scheduled (scheduled_stop false) s = quiet s
  on_scheduled msg_one s = quiet s
  on_scheduled msg_two s = quiet s
  on_scheduled link_signal s = quiet s
  on_scheduled ctrl_c s = quiet s

  -- The actor; the streams that it consumes are of `MsgOne`. Where it has no implementation of a trait, no message of that kind can be sent to it,
  -- and the model has an empty one.
  unfoldable pub my_actor : Handlers (Unit {0}) (Unit {0}) Input ℕ E
  unfolding shuts_down on_scheduled
  my_actor = record {
    started_by = quiet;
    interrupted_by = shuts_down;
    terminated_by = quiet;
    eliminated = λ id s. quiet s;
    task_eliminated = λ id tag result s. quiet s;
    fn_task_eliminated = λ id tag result s. quiet s;
    on_action = λ i s. quiet s;
    on_instant = λ i s. quiet s;
    on_interaction = λ i s. Script.return s (ok 1);
    interaction_done = λ tag output s. quiet s;
    interaction_failed = λ tag e s. quiet s;
    consume = λ i s. quiet s;
    consumed = shuts_down;
    stream_failed = λ e s. quiet s;
    stream_finished = quiet;
    on_schedule = λ timestamp i s. on_scheduled i s;
    on_tick = λ now s. quiet s;
    ticks_done = quiet;
    queue_drained = quiet;
    instant_queue_drained = quiet;
    stream_group = λ s. tt;
  }

  -- `ActionHandler<Interact<MsgThree>>`: the actor answers by itself.
  unfoldable pub on_msg_three : E → ℕ → Unit {0} → Reply E
  on_msg_three why responder s =
      Script.respond responder (ok 123)
        (λ sent. Script.return s (if sent then ok tt else err (Error.other why)))

-- `MyLink::send_signal`, on the address in the link.
unfoldable pub send_signal : {O E : Type 0} → Address → Post Input O E
unfolding act
send_signal link = act link link_signal
