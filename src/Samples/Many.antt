-- ===== src/Samples/Many.antt =====
-- `ActorSingle` and `ActorMany` of the tests in meio/src/lib.rs: an actor that spawns many children and
-- shuts down when the last of them has ended.
pub mod Agreement
pub mod Ending
use meio.Prelude.{ℕ, zero, suc, Bool, true, false, List, [], ◌∷◌, ok, ℕ_discrete, if◌then◌else◌}
use meio.Prelude.Set
use meio.Ids.{Ident}
use meio.Handlers.{Script, Outcome}

-- `actors.is_empty()`.
abbrev pub is_empty : List Ident → Bool
is_empty [] = true
is_empty (x ∷ xs) = false

module _ {O E : Type 0} where
  -- `StartedBy<ActorMany> for ActorSingle`, behind its sleep, and its `InterruptedBy`.
  unfoldable pub single_started : {S : Type 0} → S → Script S (Unit {0}) O E (Outcome E)
  single_started s = Script.shutdown (Script.return s (ok tt))

  unfoldable pub single_interrupted : {S : Type 0} → S → Script S (Unit {0}) O E (Outcome E)
  single_interrupted s = Script.return s (ok tt)

  -- `StartedBy<System> for ActorMany`, with the number of children; its state are their ids.
  unfoldable pub many_started : ℕ → List Ident → Script (List Ident) (Unit {0}) O E (Outcome E)
  many_started zero actors = Script.return actors (ok tt)
  many_started (suc n) actors =
      Script.spawn_actor tt (λ id. many_started n (Set.insert ℕ_discrete id actors))

  -- `Eliminated<ActorSingle> for ActorMany`.
  unfoldable pub many_eliminated :
      Ident → List Ident → Script (List Ident) (Unit {0}) O E (Outcome E)
  many_eliminated id actors =
      let rest = Set.remove ℕ_discrete id actors in
      let over : Script (List Ident) (Unit {0}) O E (Outcome E) = Script.return rest (ok tt) in
      if is_empty rest then Script.shutdown over else over
