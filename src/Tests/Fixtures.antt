-- ===== src/Tests/Fixtures.antt =====
-- Concrete hash tables, channels, timers and handlers, over numbers.
use meio.Prelude.{
  ℕ, suc, ◌+◌, ◌≤◌, ◌≡◌, refl, true, false, Option, none, some, List, [], ◌∷◌, Result, ok, length,
  ltb, arith, ℕ_discrete,
}
use meio.Lifecycle.{Hashing}
use meio.Handlers.{Handlers, Script, Message, Outcome}
use meio.Context.{Environment}
use meio.Runtime.{Poll, pending, ready, TimerQueue}

-- Tables that list their elements as they are held.
abbrev pub hashing : Hashing ℕ
hashing = record {
  group_eq = ℕ_discrete;
  group_order = λ gs. gs;
  group_order_lem = λ g gs. refl;
  id_order = λ ids. ids;
  id_order_lem = λ id ids. refl;
}

-- Every channel takes what is sent, and uuids count up.
abbrev pub env : Environment ℕ ℕ ℕ
env = record { hashing = hashing; uuid = length; accepts = λ log e. true }

abbrev pub Timers : Type 0
Timers = List (Message ℕ ℕ ℕ × ℕ)

module _ {M : Type 0} where
  -- The first entry, when its time has come.
  abbrev pub next_of : ℕ → List (M × ℕ) → Poll (Option (Result M Unit)) × List (M × ℕ)
  next_of now [] = (ready none, [])
  next_of now ((m, deadline) ∷ q) = elim (ltb now deadline) [
    | true ↦ (pending, (m, deadline) ∷ q)
    | false ↦ (ready (some (ok m)), q)
  ]

  pub next_of-ready :
      (now : ℕ) (q : List (M × ℕ)) (m : M)
      → (next_of now q).0 ≡ ready (some (ok m))
      → length (next_of now q).1 + 1 ≡ length q
  next_of-ready now [] m e = cc
  next_of-ready now ((x, deadline) ∷ q) m e = ground arith

  pub next_of-none : (now : ℕ) (q : List (M × ℕ)) → (next_of now q).0 ≡ ready none → length q ≡ 0
  next_of-none now [] e = refl
  next_of-none now ((x, deadline) ∷ q) e = ground arith

  pub next_of_shrinks : (now : ℕ) (q : List (M × ℕ)) → length (next_of now q).1 ≤ length q
  next_of_shrinks now [] = omega arith
  next_of_shrinks now ((x, deadline) ∷ q) = ground arith

  abbrev pub timer_of : TimerQueue M (List (M × ℕ))
  timer_of = record {
    create = [];
    put_at = λ m deadline q. (m, deadline) ∷ q;
    size = length;
    next = next_of;
    size-create = refl;
    size-put_at = λ m deadline q. omega arith;
    size-ready = next_of-ready;
    size-next = next_of_shrinks;
    closed_empty = next_of-none;
  }

abbrev pub timer : TimerQueue (Message ℕ ℕ ℕ) Timers
timer = timer_of

-- Tables of the single group of an actor whose `GroupBy` is the unit type.
abbrev pub unit_discrete : Discrete (Unit {0})
unit_discrete a b = yes refl

abbrev pub unit_env : Environment (Unit {0}) ℕ ℕ
unit_env = record {
  hashing = record {
    group_eq = unit_discrete;
    group_order = λ gs. gs;
    group_order_lem = λ g gs. refl;
    id_order = λ ids. ids;
    id_order_lem = λ id ids. refl;
  };
  uuid = length;
  accepts = λ log e. true;
}

abbrev pub quiet : ℕ → Script ℕ ℕ ℕ ℕ (Outcome ℕ)
quiet s = Script.return s (ok tt)

-- The actor starts a child and a task, and shuts down when it is interrupted; it counts the items
-- that it consumes.
abbrev pub handlers : Handlers ℕ ℕ ℕ ℕ ℕ
handlers = record {
  started_by = λ s. Script.spawn_actor 0 (λ i. Script.spawn_task 1 (λ j. quiet s));
  interrupted_by = λ s. Script.shutdown (quiet s);
  terminated_by = quiet;
  eliminated = λ id s. quiet s;
  task_eliminated = λ id i r s. quiet s;
  fn_task_eliminated = λ id i r s. quiet s;
  on_action = λ i s. quiet (s + i);
  on_instant = λ i s. quiet s;
  on_interaction = λ i s. Script.return s (ok (s + i));
  interaction_done = λ i o s. quiet s;
  interaction_failed = λ i e s. quiet s;
  consume = λ i s. quiet (suc s);
  consumed = quiet;
  stream_failed = λ e s. quiet s;
  stream_finished = quiet;
  on_schedule = λ n i s. quiet s;
  on_tick = λ n s. quiet s;
  ticks_done = quiet;
  queue_drained = λ s. Script.shutdown (quiet s);
  instant_queue_drained = quiet;
  stream_group = λ s. 1;
}
