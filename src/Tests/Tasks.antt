-- ===== src/Tests/Tasks.antt =====
-- Tasks, addresses and distributors.
use meio.Prelude.{
  List, map, ltb, length, ℕ, suc, zero, ◌+◌, ◌<◌, ◌≡◌, refl, Bool, true, false, Option, none, some,
  [], ◌∷◌, ◌++◌, Result, ok, err, All, arith, ◌↔◌, not, ◌==◌,
}
use meio.Prelude.Map
use meio.Lifecycle.{parcel, done}
use meio.Handlers.{Error, interrupted, unsent}
use meio.Task.{
  changed, closed, alive, stop, just_done, run_task, News, polls, LiteTask, repeat,
  interruptable_routine, spawn,
}
use meio.Task.Stopping.{IsWaiting, just_done-pending_iff}
use meio.Task.Life.{task_reports}
use meio.Task.Retry.{repeat_first, interruptable_routine_fails_iff, attempt, rounds}
use meio.Task.HeartBeat.{heart_beat_never_ends}
use meio.Task.HeartBeat
use meio.Task.Forwarder.{StreamItem, item, finished, forward_all, forward_all_in_order}
use meio.System.{Happening, sent_sigint, status, wakeups, wait_or_interrupt, spawn_and_wait}
use meio.System.Waiting.{spawn_and_wait_joins}
use meio.Linkage.Recipients.{join}
use meio.Linkage.{Address}
use meio.Linkage.Distributor.{Distributor, act_all, act_all_stops_at_error}

-- The first poll tells nothing; at the second the task is stopped, and its routine is ready too.
abbrev quiet_poll : News (Result ℕ (Error ℕ))
quiet_poll = record { told = changed alive ∷ []; output = none }

abbrev late_poll : News (Result ℕ (Error ℕ))
late_poll = record { told = changed stop ∷ []; output = some (ok 3) }

task_reports_example :
    run_task {M = ℕ} (spawn 4 8 (some 2)) (polls [] (quiet_poll ∷ late_poll ∷ []))
    ≡ parcel 2 (done 4) (record { id = 4; tag = 8; result = err interrupted }) ∷ []
unfolding just_done
task_reports_example =
    (task_reports 4 2 8 (quiet_poll ∷ []) late_poll [] (((tt, tt), refl), tt)).1 refl

just_done-pending_iff_example :
    (just_done (changed alive ∷ closed ∷ []) ≡ false) ↔ All IsWaiting (changed alive ∷ closed ∷ [])
just_done-pending_iff_example = just_done-pending_iff (changed alive ∷ closed ∷ [])

-- A task that counts its attempts: the first fails, the second has no value, the third has one.
abbrev attempts : ℕ → Result (Option ℕ) (Error ℕ)
attempts zero = err unsent
attempts (suc zero) = ok none
attempts (suc (suc n)) = ok (some 7)

abbrev counting : LiteTask ℕ ℕ ℕ
counting = record {
  pre_repeatable_routine = λ s. (ok tt, s);
  repeatable_routine = λ s. (attempts s, s);
  routine_wait = λ succeed s. s + 1;
}

counting_before : (j : ℕ) → j < 2 → attempt counting (rounds counting j 0) ≡ none
counting_before zero lt = refl
counting_before (suc zero) lt = refl
counting_before (suc (suc j)) lt = absurd (omega arith)

repeat_first_example : repeat counting 5 0 ≡ some (ok 7)
repeat_first_example = repeat_first counting 2 5 0 7 counting_before refl (omega arith)

interruptable_routine_fails_iff_example :
    (interruptable_routine counting 5 0 ≡ some (err unsent))
    ↔ ((counting.pre_repeatable_routine 0).0 ≡ err unsent)
interruptable_routine_fails_iff_example = interruptable_routine_fails_iff counting 5 0 unsent

abbrev ada : Address
ada = record { id = 1 }

abbrev bob : Address
bob = record { id = 2 }

abbrev pair : Distributor
pair = record { recipients = (1, ada) ∷ (2, bob) ∷ [] }

pair_values : Map.values pair.recipients ≡ ada ∷ bob ∷ []
unfolding Map.values
pair_values = refl

pair_accepts : All (λ a. true ≡ true) (Map.values pair.recipients)
unfolding Map.values
pair_accepts = (refl, (refl, tt))

abbrev not_ada : Address → Bool
not_ada a = not (a.id == 1)

act_all_stops_at_error_example :
    act_all {E = ℕ} (λ l. l) not_ada pair ≡ (err unsent, [] ++ ada ∷ [])
act_all_stops_at_error_example =
    act_all_stops_at_error (λ l. l) not_ada pair [] (bob ∷ []) ada pair_values tt refl

-- The actor is gone after two ticks.
abbrev two_beats : HeartBeat.Beats
two_beats = record { takes = λ s tick. ltb (length s) 2; clock = λ s. length s }

heart_beat_never_ends_example :
    interruptable_routine (HeartBeat.heart_beat {E = ℕ} two_beats) 6 [] ≡ none
heart_beat_never_ends_example = heart_beat_never_ends {E = ℕ} two_beats 6 []

-- An actor that takes the end of a stream and all its items but 7.
abbrev not_seven : StreamItem ℕ → Bool
not_seven (item n) = not (n == 7)
not_seven finished = true

forward_all_in_order_example :
    forward_all {E = ℕ} not_seven (map some (1 ∷ 2 ∷ []) ++ none ∷ [])
    ≡ (some (ok tt), map item (1 ∷ 2 ∷ []) ++ finished ∷ [])
forward_all_in_order_example =
    forward_all_in_order not_seven (1 ∷ 2 ∷ []) [] (refl, (refl, tt)) refl

abbrev one_signal : List (Result (Unit {0}) ℕ)
one_signal = ok tt ∷ []

-- The user sends SIGINT three times, and then the actor is done.
abbrev impatient : List Happening
impatient = sent_sigint ∷ sent_sigint ∷ sent_sigint ∷ status (changed stop) ∷ []

spawn_and_wait_joins_example :
    (wait_or_interrupt {E = ℕ} one_signal true (wakeups impatient) ≡ some (ok tt))
    × (spawn_and_wait {E = ℕ} one_signal true impatient ≡ some [])
unfolding join just_done
spawn_and_wait_joins_example = spawn_and_wait_joins (ok tt) one_signal impatient refl
