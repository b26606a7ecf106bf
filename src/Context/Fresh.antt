-- ===== src/Context/Fresh.antt =====
-- The context that `spawn` of meio/src/actor_runtime.rs gives to a new actor.
use meio.Prelude.{refl}
use meio.Prelude.Map
use meio.Ids.{Ident}
use meio.Lifecycle
use meio.Lifecycle.Invariant.{group_in, new-IsConsistent}
use meio.Context.{Environment, Process, new_context}
use meio.Context.Laws.{IsSound}

module _ {G O E : Type 0} (env : Environment G O E) where
  pub new_context-IsSound :
      (address : Ident) (p : Process G O E) → IsSound env (record p { ctx = new_context address })
  unfolding new_context Lifecycle.new
  new_context-IsSound address p = record {
    consistent = new-IsConsistent env.hashing;
    own = λ id r e. absurd (unfold Map.lookup in cc);
    allocated = λ id b. unfold group_in Map.lookup in refl;
  }
