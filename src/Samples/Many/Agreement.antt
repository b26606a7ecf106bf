-- ===== src/Samples/Many/Agreement.antt =====
-- The set of `ActorMany` in meio/src/lib.rs agrees with the tracker of its children.
use meio.Prelude.{
  ℕ, zero, suc, ◌≡◌, refl, Bool, true, false, none, some, List, [], ◌∷◌, ok, ℕ_discrete,
  if◌then◌else◌, arith, ite, ap, sym, ◌∙◌, Bool-cases, inl, inr,
}
use meio.Prelude.Set
use meio.Prelude.Map
use meio.Ids.{Ident, unique}
use meio.Lifecycle.{Record, LifetimeTracker, Hashing}
use meio.Lifecycle
use meio.Lifecycle.Invariant.{group_in, group_in-insert}
use meio.Lifecycle.Drain.{group_in-remove_child, is_finished-childless}
use meio.Handlers.{Script, Outcome}
use meio.Context.{shut, Environment, Process, run, spawn_actor, spawn_actor_with_addr}
use meio.Context.Laws.{IsSound, run_stopped, shut_stops_iff}
use meio.Samples.Many.{is_empty, many_started, many_eliminated}

abbrev pub has_record : {G : Type 0} → List (Ident × Record G) → Ident → Bool
has_record records k = elim (group_in records k) [ none ↦ false | some g ↦ true ]

has_record-insert :
    {G : Type 0} (records : List (Ident × Record G)) (id k : Ident) (r : Record G)
    → has_record (Map.insert ℕ_discrete id r records) k
      ≡ ite (ℕ_discrete k id) true (has_record records k)
has_record-insert records id k r = ground (arith, group_in-insert id k r records)

pub has_record-remove :
    {G : Type 0} (h : Hashing G) (t : LifetimeTracker G) (id k : Ident)
    → has_record (Lifecycle.remove h t id).0.records k
      ≡ ite (ℕ_discrete k id) false (has_record t.records k)
has_record-remove h t id k = ground (arith, group_in-remove_child h t id k)

childless :
    {G : Type 0} (records : List (Ident × Record G))
    → ((k : Ident) → has_record records k ≡ false)
    → (k : Ident) → group_in records k ≡ none
childless records h k = ground (arith, h k)

is_empty-insert : (id : Ident) (s : List Ident) → is_empty (Set.insert ℕ_discrete id s) ≡ false
unfolding Set.insert Set.contains
is_empty-insert id [] = refl
is_empty-insert id (x ∷ s) = ground arith

module _ {O E : Type 0} (env : Environment (Unit {0}) O E) where
  -- The set holds the ids of the children in the tracker.
  abbrev pub Agrees : List Ident → Process (Unit {0}) O E → Type 0
  Agrees s p =
      (k : Ident) → Set.contains ℕ_discrete k s ≡ has_record p.ctx.lifetime_tracker.records k

  spawn_actor-Agrees :
      (s : List Ident) (p : Process (Unit {0}) O E)
      → Agrees s p
      → let (id, q) = spawn_actor env tt p in Agrees (Set.insert ℕ_discrete id s) q
  unfolding spawn_actor spawn_actor_with_addr Lifecycle.insert Lifecycle.insert_record
  spawn_actor-Agrees s p h k =
      let (id, heap) = unique (env.uuid p.heap) p.heap in
      Set.contains-insert ℕ_discrete k id s
      ∙ ap (ite (ℕ_discrete k id) true) (h k)
      ∙ sym (has_record-insert p.ctx.lifetime_tracker.records id k _)

  -- `started_by` succeeds, spawns the children, and keeps the actor alive.
  pub many_started-Agrees :
      (n : ℕ) (s : List Ident) (p : Process (Unit {0}) O E)
      → Agrees s p
      → let (s', outcome, q) = run env (many_started n s) p in
        Agrees s' q
        × (q.ctx.alive ≡ p.ctx.alive)
        × (outcome ≡ ok tt)
        × (is_empty s ≡ false → is_empty s' ≡ false)
  unfolding many_started run
  many_started-Agrees zero s p h = (h, refl, refl, λ e. e)
  many_started-Agrees (suc n) s p h =
      let (id, q) = spawn_actor env tt p in
      let (agrees, alive, done, some_left) =
        many_started-Agrees n (Set.insert ℕ_discrete id s) q (spawn_actor-Agrees s p h) in
      (agrees, alive, done, λ e. some_left (is_empty-insert id s))

  -- The first child leaves the set with an element.
  pub many_started-is_empty :
      (n : ℕ) (s : List Ident) (p : Process (Unit {0}) O E)
      → Agrees s p
      → is_empty (run env (many_started (suc n) s) p).0 ≡ false
  unfolding many_started run
  many_started-is_empty n s p h =
      let (id, q) = spawn_actor env tt p in
      let (agrees, alive, done, some_left) =
        many_started-Agrees n (Set.insert ℕ_discrete id s) q (spawn_actor-Agrees s p h) in
      some_left (is_empty-insert id s)

  pub eliminated_run :
      (id : Ident) (s : List Ident) (p : Process (Unit {0}) O E)
      → let rest = Set.remove ℕ_discrete id s in
        run env (many_eliminated id s) p ≡ (rest, ok tt, if is_empty rest then shut env p else p)
  unfolding many_eliminated run
  eliminated_run id s p = by_case (Set.remove ℕ_discrete id s)
    where
      by_case :
          (rest : List Ident)
          → let over : Script (List Ident) (Unit {0}) O E (Outcome E) =
              Script.return rest (ok tt) in
            run env (if is_empty rest then Script.shutdown over else over) p
            ≡ (rest, ok tt, if is_empty rest then shut env p else p)
      by_case [] = refl
      by_case (x ∷ rest) = refl

  none_left :
      (s : List Ident) (p : Process (Unit {0}) O E)
      → Agrees s p
      → is_empty s ≡ true
      → (k : Ident) → group_in p.ctx.lifetime_tracker.records k ≡ none
  unfolding Set.contains
  none_left [] p h e = childless p.ctx.lifetime_tracker.records (λ k. sym (h k))
  none_left (x ∷ s) p h e = absurd cc

  pub finished_empty :
      (s : List Ident) (p : Process (Unit {0}) O E)
      → Agrees s p
      → IsSound env p
      → Lifecycle.is_finished env.hashing p.ctx.lifetime_tracker ≡ true
      → is_empty s ≡ true
  finished_empty s p h sound f =
      let gone = is_finished-childless env.hashing p.ctx.lifetime_tracker sound.consistent f in
      ap is_empty (Set.eq-nil_of_contains ℕ_discrete s (λ k. h k ∙ ground (arith, gone k)))

  pub shut_last :
      (s : List Ident) (p : Process (Unit {0}) O E)
      → Agrees s p
      → IsSound env p
      → is_empty s ≡ true
      → (shut env p).ctx.alive ≡ false
  unfolding run
  shut_last s p h sound e = elim (Bool-cases p.ctx.alive) [
    | inl on ↦ (shut_stops_iff env p sound on).1.1 (none_left s p h e)
    | inr off ↦ run_stopped env (Script.shutdown (Script.return s tt)) p off
  ]
