-- ===== src/Tests/Family.antt =====
-- A tracker under hash tables that list their elements in another order, and its abstract view.
use meio.Prelude.{ℕ, ◌≡◌, refl, some, List, [], ◌∷◌, ◌++◌, arith, ℕ_discrete}
use meio.Prelude.Set
use meio.Prelude.Map
use meio.Ids.{Ident}
use meio.Lifecycle.{Record, LifetimeTracker, insert, new, termination_sequence, try_terminate_next}
use meio.Lifecycle.Invariant.{group_in}
use meio.Lifecycle.Interrupts.{sends_to}
use meio.Lifecycle.Interrupts.History.{History, created, inserted, sequenced, History-IsGood}
use meio.Lifecycle.Orders.{other, IsPrioritized, try_terminate_next_any_order}
use meio.Lifecycle.Replay.{
  Call, insert_call, insert_task_call, remove_call, start_call, perform_all, promised, promised_all,
  nobody, AreFresh, IsFamily, perform_all-IsFamily,
}
use meio.Tests.Fixtures.{hashing}

-- The first two elements come in the other order.
abbrev swapped : List ℕ → List ℕ
swapped [] = []
swapped (a ∷ []) = a ∷ []
swapped (a ∷ b ∷ xs) = b ∷ a ∷ xs

swapped_lem :
    (a : ℕ) (xs : List ℕ) → Set.count ℕ_discrete a (swapped xs) ≡ Set.count ℕ_discrete a xs
unfolding Set.count
swapped_lem a [] = refl
swapped_lem a (x ∷ []) = refl
swapped_lem a (x ∷ y ∷ xs) = ground arith

-- Two actors of one group, with a sequence for the groups.
abbrev pair : LifetimeTracker ℕ
pair = termination_sequence hashing (insert hashing (insert hashing new 0 4).0 1 4).0 (4 ∷ 5 ∷ [])

pair-History :
    History hashing pair
      (([] ++ (insert hashing new 0 4).1) ++ (insert hashing (insert hashing new 0 4).0 1 4).1)
      (λ k. 0)
unfolding insert new sends_to group_in Map.lookup Map.insert ℕ_discrete
pair-History =
    sequenced (4 ∷ 5 ∷ []) (inserted 1 4 (inserted 0 4 created (refl, refl)) (refl, refl))

pair-IsPrioritized : IsPrioritized hashing pair
unfolding insert new termination_sequence Map.keys Map.insert Set.contains Map.lookup
pair-IsPrioritized g there = ground arith

try_terminate_next_any_order_example :
    let k = other hashing swapped swapped_lem swapped swapped_lem in
    ((try_terminate_next k pair).0 ≡ (try_terminate_next hashing pair).0)
    × ((id : Ident) (r : Record ℕ)
        → Map.lookup ℕ_discrete id pair.records ≡ some r
        → sends_to id (try_terminate_next k pair).1
          ≡ sends_to id (try_terminate_next hashing pair).1)
try_terminate_next_any_order_example =
    try_terminate_next_any_order hashing swapped swapped_lem swapped swapped_lem pair
      (History-IsGood hashing pair-History).consistent (History-IsGood hashing pair-History).own
      pair-IsPrioritized

abbrev calls : List (Call ℕ)
calls = insert_call 3 0 ∷ insert_task_call 4 1 ∷ start_call ∷ remove_call 3 ∷ []

calls-AreFresh : AreFresh calls nobody
unfolding promised nobody
calls-AreFresh = (refl, (ground arith, tt))

perform_all-IsFamily_example :
    let t = perform_all hashing calls new in IsFamily hashing t (promised_all calls nobody)
perform_all-IsFamily_example = perform_all-IsFamily hashing calls calls-AreFresh
