-- ===== src/Tests/Samples.antt =====
-- The actors of the tests of the crate.
use meio.Prelude.{ℕ, ◌≡◌, refl, true, none, List, [], ◌∷◌, map, ok}
use meio.Ids.{Ident}
use meio.Handlers.{Handlers, Script, Outcome}
use meio.Context.{Process, new_context}
use meio.Runtime.{pending, Inputs, entrypoint, spawn}
use meio.Runtime.Shutdown.{done_input}
use meio.Samples.Many.{is_empty, many_started, many_eliminated}
use meio.Samples.Many.Ending.{left, children, many_ends_with_last}
use meio.Tests.Fixtures.{unit_env, timer}

abbrev idle : List Ident → Script (List Ident) (Unit {0}) ℕ ℕ (Outcome ℕ)
idle s = Script.return s (ok tt)

-- `ActorMany` with three children.
abbrev many : Handlers (List Ident) (Unit {0}) ℕ ℕ ℕ
many = record {
  started_by = many_started 3;
  interrupted_by = idle;
  terminated_by = idle;
  eliminated = many_eliminated;
  task_eliminated = λ id i r. idle;
  fn_task_eliminated = λ id i r. idle;
  on_action = λ i. idle;
  on_instant = λ i. idle;
  on_interaction = λ i s. Script.return s (ok i);
  interaction_done = λ i o. idle;
  interaction_failed = λ i e. idle;
  consume = λ i. idle;
  consumed = idle;
  stream_failed = λ e. idle;
  stream_finished = idle;
  on_schedule = λ n i. idle;
  on_tick = λ n. idle;
  ticks_done = idle;
  queue_drained = idle;
  instant_queue_drained = idle;
  stream_group = λ s. tt;
}

-- The actor itself has the id 0, and its children have the next ones.
abbrev start : Process (Unit {0}) ℕ ℕ
start = record { ctx = new_context 0; heap = 50 ∷ []; log = [] }

abbrev nothing : {I : Type 0} → Inputs I ℕ ℕ
nothing = record { hp_msg_rx = pending; msg_rx = pending; now = 0 }

abbrev ends_of : List Ident → List (Ident × Inputs ℕ ℕ ℕ)
ends_of [] = []
ends_of (id ∷ ids) = (id, nothing) ∷ ends_of ids

many_ends_with_last_example :
    (entrypoint unit_env timer many
      (tt ∷ [])
      (map (done_input unit_env timer many) (ends_of (2 ∷ 3 ∷ 1 ∷ [])))
      true
      (spawn unit_env timer many [] none 0 start)).0
    ≡ is_empty
        (left (2 ∷ 3 ∷ 1 ∷ []) (children unit_env timer many (λ id s. refl) 2 (λ s. refl) 0 start))
many_ends_with_last_example =
    many_ends_with_last unit_env timer many (λ id s. refl) 2 (λ s. refl) 0 start
      (ends_of (2 ∷ 3 ∷ 1 ∷ [])) true
