-- ===== src/Runtime/Shutdown.antt =====
-- A shutdown of an actor ends once its children have answered.
use meio.Prelude.{
  ◌≡◌, ◌≢◌, refl, true, false, none, some, List, [], ◌∷◌, ◌++◌, ◌⊎◌, ℕ_discrete, arith, Bool-cases,
  inl, inr, ◌∙◌, sym, ap, subst,
}
use meio.Prelude.Set
use meio.Ids.{Ident}
use meio.Lifecycle.{done}
use meio.Lifecycle.Invariant.{group_in}
use meio.Lifecycle.Drain.{remove_all, remove_all-finished, group_in-remove_child, remove_keeps}
use meio.Handlers.{Handlers, Message, child_done}
use meio.Context.{Environment, Process}
use meio.Context.Laws.{IsSound}
use meio.Runtime.{ready, TimerQueue, Inputs, ActorRuntime, remove_child, turn, routine}
use meio.Runtime.Calm.{AllCalm, all_ended, ended-cases, turn-kept, turn-removed}
use meio.Runtime.Laws.{remove_child-alive, remove_child-IsSound, remove_child-tracker}

ids-cases : (ids : List Ident) → (ids ≡ []) ⊎ (ids ≢ [])
ids-cases [] = inl refl
ids-cases (id ∷ ids) = inr (λ e. cc)

module _ {S G I O E Q : Type 0} (env : Environment G O E) (timer : TimerQueue (Message I O E) Q)
    (handlers : Handlers S G I O E) where
  open env use {hashing}

  -- The parcel by which the runtime of a child reports its end, whatever else is there to be read.
  abbrev pub done_input : Ident × Inputs I O E → Inputs I O E
  done_input (id, i) = record i {
    hp_msg_rx = ready (some (record { operation = done id; envelope = child_done id }));
  }

  abbrev pub done_ids : List (Ident × Inputs I O E) → List Ident
  done_ids [] = []
  done_ids ((id, i) ∷ ds) = id ∷ done_ids ds

  pub stopped :
      (is : List (Inputs I O E)) (r : ActorRuntime S G I O E Q)
      → r.process.ctx.alive ≡ false
      → (routine env timer handlers is r).process.ctx.alive ≡ false
  unfolding routine
  stopped [] r off = off
  stopped (i ∷ is) r off = ground arith

  pub alive_step :
      (i : Inputs I O E) (is : List (Inputs I O E)) (r : ActorRuntime S G I O E Q)
      → r.process.ctx.alive ≡ true
      → (routine env timer handlers (i ∷ is) r).process.ctx.alive
        ≡ (routine env timer handlers is (turn env timer handlers i r)).process.ctx.alive
  unfolding routine
  alive_step i is r on = ground arith

  last_stops :
      (id : Ident) (p : Process G O E)
      → IsSound env p
      → p.ctx.alive ≡ true
      → p.ctx.lifetime_tracker.terminating ≡ true
      → ((k : Ident)
          → Set.contains ℕ_discrete k (id ∷ []) ≡ false
          → group_in p.ctx.lifetime_tracker.records k ≡ none)
      → (remove_child env timer handlers id p).ctx.alive ≡ false
  unfolding remove_all
  last_stops id p s on closing covers = ground (
    arith,
    remove_child-alive env timer handlers id p on,
    remove_all-finished hashing p.ctx.lifetime_tracker id [] s.consistent closing covers,
  )

  -- Every child that the process holds is one of these.
  abbrev pub AreListed : List Ident → Process G O E → Type 0
  AreListed ids p =
      (k : Ident)
      → Set.contains ℕ_discrete k ids ≡ false
      → group_in p.ctx.lifetime_tracker.records k ≡ none

  after_removal :
      (id : Ident) (ids : List Ident) (p : Process G O E)
      → AreListed (id ∷ ids) p
      → AreListed ids (remove_child env timer handlers id p)
  unfolding Set.contains
  after_removal id ids p covers k out =
      rw (remove_child-tracker env timer handlers id p)
        (ground (arith, group_in-remove_child hashing p.ctx.lifetime_tracker id k, covers k))

  removal_closing :
      (id : Ident) (p : Process G O E)
      → p.ctx.lifetime_tracker.terminating ≡ true
      → (remove_child env timer handlers id p).ctx.lifetime_tracker.terminating ≡ true
  removal_closing id p closing =
      rw (remove_child-tracker env timer handlers id p)
        (remove_keeps hashing p.ctx.lifetime_tracker id ∙ closing)

  -- An actor in termination, with a sound process, stops over any inputs of its queues in which there
  -- is a `Done`, and a `Done` for each of its children: in any order, from actors and from tasks, and
  -- between whatever other messages and deadlines; if no handler that runs meanwhile asks anything of
  -- the context.
  pub routine_stops :
      (is : List (Inputs I O E)) (r : ActorRuntime S G I O E Q)
      → IsSound env r.process
      → r.process.ctx.lifetime_tracker.terminating ≡ true
      → AllCalm env timer handlers is r
      → all_ended is ≢ []
      → AreListed (all_ended is) r.process
      → (routine env timer handlers is r).process.ctx.alive ≡ false
  routine_stops [] r s closing calm some_end covers = absurd (some_end refl)
  routine_stops (i ∷ is) r s closing calm some_end covers = elim (Bool-cases r.process.ctx.alive) [
    | inr off ↦ stopped (i ∷ is) r off
    | inl on ↦ elim (ended-cases i.hp_msg_rx) [
      | inl nobody ↦
          let same = turn-kept env timer handlers i r calm.0 nobody in
          alive_step i is r on
          ∙ routine_stops is (turn env timer handlers i r) (subst (IsSound env) (sym same) s)
              (ap (λ p. p.ctx.lifetime_tracker.terminating) same ∙ closing) calm.1
              (λ x. some_end (ap (λ l. l ++ all_ended is) nobody ∙ x))
              (subst (AreListed (all_ended is)) (sym same)
                (subst (λ l. AreListed (l ++ all_ended is) r.process) nobody covers))
      | inr (id, one) ↦
          let gone = turn-removed env timer handlers i r id calm.0 one in
          let covers' = subst (λ l. AreListed (l ++ all_ended is) r.process) one covers in
          alive_step i is r on ∙ elim (ids-cases (all_ended is)) [
            | inl last ↦ stopped is (turn env timer handlers i r) (
                ap (λ p. p.ctx.alive) gone
                ∙ last_stops id r.process s on closing
                    (subst (λ l. AreListed (id ∷ l) r.process) last covers'))
            | inr more ↦
                routine_stops is (turn env timer handlers i r)
                  (subst (IsSound env) (sym gone)
                    (remove_child-IsSound env timer handlers id r.process s))
                  (ap (λ p. p.ctx.lifetime_tracker.terminating) gone
                    ∙ removal_closing id r.process closing)
                  calm.1 more
                  (subst (AreListed (all_ended is)) (sym gone)
                    (after_removal id (all_ended is) r.process covers'))
          ]
    ]
  ]
