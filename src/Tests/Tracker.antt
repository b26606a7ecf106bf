-- ===== src/Tests/Tracker.antt =====
-- Trackers and ids.
use meio.Prelude.{
  ℕ, ◌+◌, ◌≡◌, ◌≢◌, refl, true, false, none, some, List, [], ◌∷◌, ◌++◌, arith, ℕ_discrete,
  if◌then◌else◌,
}
use meio.Prelude.Set
use meio.Prelude.Map
use meio.Ids.{Ident, eq}
use meio.Lifecycle.{
  LifetimeTracker, Send, Interrupt, Record, once, stop, forward, new, entry, insert, insert_task,
  start_termination, try_terminate_next, terminate_group, difference, stage_sequence,
  stage_is_finished, is_finished, remove,
}
use meio.Lifecycle.Invariant.{group_in}
use meio.Lifecycle.Sequence.{try_terminate_next_in_order}
use meio.Lifecycle.Drain.{remove_all, remove_all-finished}
use meio.Lifecycle.Interrupts.{sends_to}
use meio.Lifecycle.Interrupts.History.{
  History, created, inserted, task_inserted, terminated, removed, History-IsGood,
  History-interrupts, group_terminated,
}
use meio.Lifecycle.Interrupts.Group.{asks}
use meio.Tests.Fixtures.{hashing}

eq_self : (a : Ident) → eq a a ≡ true
unfolding eq
eq_self a = ground arith

-- A tracker with the actor 0 in the group 0 and the task 1 in the group 1.
abbrev one : LifetimeTracker ℕ × List (Send Interrupt)
one = insert hashing new 0 0

abbrev two : LifetimeTracker ℕ
two = (insert_task hashing one.0 1 1).0

abbrev nobody_asked : Ident → ℕ
nobody_asked k = 0

abbrev two_log : List (Send Interrupt)
two_log = ([] ++ one.1) ++ (insert_task hashing one.0 1 1).1

two-History : History hashing two two_log nobody_asked
unfolding insert insert_task new sends_to group_in Map.lookup Map.insert ℕ_discrete
two-History = task_inserted 1 1 (inserted 0 0 created (refl, refl)) (refl, refl)

abbrev closing : LifetimeTracker ℕ
closing = (start_termination hashing two).0

closing-History :
    History hashing closing (two_log ++ (start_termination hashing two).1) nobody_asked
closing-History = terminated two-History

abbrev actor_record : Record ℕ
actor_record = record { group = 0; notifier = once 0 forward }

closing_holds : Map.lookup ℕ_discrete 0 closing.records ≡ some actor_record
unfolding insert insert_task new start_termination Map.lookup Map.insert ℕ_discrete
closing_holds = refl

-- The actor asks for the end of the group 0 besides.
abbrev asked_log : List (Send Interrupt)
asked_log = (two_log ++ (start_termination hashing two).1) ++ terminate_group hashing closing 0

asked-History : History hashing closing asked_log (λ k. nobody_asked k + asks hashing closing 0 k)
asked-History = group_terminated 0 closing-History

History-interrupts_example :
    sends_to 0 asked_log
    ≡ (if (entry hashing 0 closing.stages).terminating then 1 else 0)
      + (nobody_asked 0 + asks hashing closing 0 0)
History-interrupts_example = History-interrupts hashing 0 actor_record asked-History closing_holds

two_holds : Map.lookup ℕ_discrete 0 two.records ≡ some actor_record
unfolding insert insert_task new Map.lookup Map.insert ℕ_discrete
two_holds = refl

closing_on : closing.terminating ≡ true
unfolding start_termination
closing_on = refl

closing_covers :
    (k : Ident) → Set.contains ℕ_discrete k (1 ∷ 0 ∷ []) ≡ false → group_in closing.records k ≡ none
unfolding insert insert_task new start_termination Map.lookup Map.insert group_in Set.contains
closing_covers k out = ground arith

-- The task ends before the actor.
remove_all-finished_example : is_finished hashing (remove_all hashing closing (1 ∷ 0 ∷ [])) ≡ true
remove_all-finished_example =
    remove_all-finished hashing closing 1 (0 ∷ [])
      (History-IsGood hashing closing-History).consistent closing_on closing_covers

abbrev drained : LifetimeTracker ℕ
drained = record {
  terminating = false;
  prioritized = 0 ∷ 1 ∷ [];
  stages =
      (0, record { terminating = true; ids = [] })
      ∷ (1, record { terminating = false; ids = 7 ∷ [] })
      ∷ [];
  records = (7, record { group = 1; notifier = stop 7 }) ∷ [];
}

drained_sequence : stage_sequence hashing drained ≡ (0 ∷ []) ++ 1 ∷ []
unfolding stage_sequence Set.contains Map.keys difference ℕ_discrete
drained_sequence = refl

drained_new : Set.contains ℕ_discrete 1 (0 ∷ []) ≡ false
unfolding Set.contains ℕ_discrete
drained_new = refl

drained_off : (entry hashing 1 drained.stages).terminating ≡ false
unfolding entry Map.lookup ℕ_discrete
drained_off = refl

drained_on : (entry hashing 1 (try_terminate_next hashing drained).0.stages).terminating ≡ true
unfolding entry Map.lookup Map.insert try_terminate_next stage_sequence Set.contains Map.keys
    stage_is_finished ℕ_discrete
drained_on = refl

drained_before : Set.contains ℕ_discrete 0 (0 ∷ []) ≡ true
unfolding Set.contains ℕ_discrete
drained_before = refl

drained_there : Map.lookup ℕ_discrete 0 drained.stages ≢ none
unfolding Map.lookup
drained_there e = ground arith

try_terminate_next_in_order_example :
    stage_is_finished (entry hashing 0 (try_terminate_next hashing drained).0.stages) ≡ true
try_terminate_next_in_order_example =
    try_terminate_next_in_order hashing drained (0 ∷ []) [] 1 0 drained_sequence drained_new
      drained_off drained_on drained_before drained_there

drained_stage :
    Map.lookup ℕ_discrete 1 drained.stages ≡ some (record { terminating = false; ids = 7 ∷ [] })
unfolding Map.lookup ℕ_discrete
drained_stage = refl

new_childless : (id : Ident) → group_in {G = ℕ} new.records id ≡ none
unfolding new group_in Map.lookup
new_childless id = refl

abbrev finished : LifetimeTracker ℕ
finished = (remove hashing (remove hashing closing 1).0 0).0

abbrev removed_log : List (Send Interrupt)
removed_log = (two_log ++ (start_termination hashing two).1) ++ (remove hashing closing 1).1

finished-History :
    History hashing finished
      (removed_log ++ (remove hashing (remove hashing closing 1).0 0).1)
      nobody_asked
finished-History = removed 0 (removed 1 closing-History)

finished_at_last : is_finished hashing finished ≡ true
unfolding insert insert_task new start_termination remove is_finished stage_is_finished
    stage_sequence entry Map.lookup Map.insert Map.remove Map.keys Map.values Map.all Set.contains
    Set.insert Set.remove ℕ_discrete difference
finished_at_last = refl
