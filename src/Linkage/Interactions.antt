-- ===== src/Linkage/Interactions.antt =====
-- An interaction, from the request to the answer: `InteractionTask::recv` and the blanket handler of
-- meio/src/handlers.rs.
use meio.Prelude.{
  ℕ, ◌≡◌, ◌≢◌, refl, ap, Bool, true, false, Option, none, some, List, [], ◌∷◌, ◌++◌, Result, ok,
  err, arith, ◌==◌, if◌then◌else◌,
}
use meio.Lifecycle.{parcel, forward, Interrupt}
use meio.Handlers.{Error, Script, bind, Handlers, interact, handle, response_outcome, on_interact}
use meio.Context.{
  emit, Effect, signal, spawned, task_spawned, response, notified, released, Environment, Process,
  run, send, spawn_actor, spawn_task, is_terminating,
}
use meio.Linkage.{recv}

-- What the oneshot channel of a responder holds after a log.
unfoldable pub answer_in : {O E : Type 0} → ℕ → List (Effect O E) → Option (Result O (Error E))
answer_in n [] = none
answer_in n (response m r ∷ es) = elim (answer_in n es) [
  | some later ↦ some later
  | none ↦ if m == n then some r else none
]
answer_in n (signal s ∷ es) = answer_in n es
answer_in n (spawned i s ∷ es) = answer_in n es
answer_in n (task_spawned i s ∷ es) = answer_in n es
answer_in n (notified s ∷ es) = answer_in n es
answer_in n (released ∷ es) = answer_in n es

answer_in-last :
    {O E : Type 0} (n : ℕ) (r : Result O (Error E)) (es : List (Effect O E))
    → answer_in n (es ++ response n r ∷ []) ≡ some r
unfolding answer_in
answer_in-last n r [] = ground arith
answer_in-last n r (response m q ∷ es) = rw (answer_in-last n r es)
answer_in-last n r (signal s ∷ es) = answer_in-last n r es
answer_in-last n r (spawned i s ∷ es) = answer_in-last n r es
answer_in-last n r (task_spawned i s ∷ es) = answer_in-last n r es
answer_in-last n r (notified s ∷ es) = answer_in-last n r es
answer_in-last n r (released ∷ es) = answer_in-last n r es

module _ {G O E : Type 0} (env : Environment G O E) where
  -- A handler that awaits another runs it first.
  pub run-bind :
      {S Q R : Type 0} (m : Script S G O E Q) (k : S → Q → Script S G O E R) (p : Process G O E)
      → run env (bind m k) p ≡ (let (s, q, p') = run env m p in run env (k s q) p')
  unfolding run bind
  run-bind (Script.return s q) k p = refl
  run-bind (Script.stop m) k p = run-bind m k _
  run-bind (Script.shutdown m) k p = run-bind m k _
  run-bind (Script.terminate_group g m) k p = run-bind m k _
  run-bind (Script.spawn_actor g f) k p = run-bind (f (spawn_actor env g p).0) k _
  run-bind (Script.spawn_task g f) k p = run-bind (f (spawn_task env g p).0) k _
  run-bind (Script.interrupt a f) k p =
      run-bind (f (send env (signal (parcel a forward Interrupt.interrupt)) p).0) k _
  run-bind (Script.is_terminating f) k p = run-bind (f (is_terminating p.ctx)) k _
  run-bind (Script.respond n r f) k p = run-bind (f (send env (response n r) p).0) k _

  answered :
      {S I : Type 0} (handlers : Handlers S G I O E) (request : I) (n : ℕ) (s : S)
      (p : Process G O E)
      → run env (handle handlers (interact request n) s) p ≡ (
          let (s', res, q) = run env (handlers.on_interaction request s) p in
          let (taken, q') = send env (response n res) q in
          (s', response_outcome handlers res taken, q'))
  unfolding handle on_interact run
  answered handlers request n s p = run-bind (handlers.on_interaction request s) _ p

  outcome_of :
      {S I : Type 0} (handlers : Handlers S G I O E) (n : ℕ) (res : Result O (Error E))
      (q : Process G O E) (b : Bool)
      → (b ≡ true
          → (recv true (answer_in n (if b then emit (response n res ∷ []) q else q).log) ≡ res)
            × (response_outcome handlers res b ≡ ok tt))
        × (b ≡ false
            → ((if b then emit (response n res ∷ []) q else q) ≡ q)
              × (response_outcome handlers res b ≢ ok tt))
  unfolding response_outcome emit recv
  outcome_of handlers n res q true =
      (λ e. (ap (recv true) (answer_in-last n res q.log), refl), λ e. absurd (ground arith))
  outcome_of handlers n (ok o) q false =
      (λ e. absurd (ground arith), λ e. (refl, λ f. ground arith))
  outcome_of handlers n (err x) q false =
      (λ e. absurd (ground arith), λ e. (refl, λ f. ground arith))

  -- The request of an interaction, handled by an actor that implements it, whatever the
  -- implementation does with its context: the state of the actor is that of the implementation. If
  -- the channel of the responder takes the result, it is what the requester receives, and the
  -- handler succeeds; and if not, nothing more is sent, and the handler fails.
  pub interaction_answers :
      {S I : Type 0} (handlers : Handlers S G I O E) (request : I) (n : ℕ) (s : S)
      (p : Process G O E)
      → let (s', res, q) = run env (handlers.on_interaction request s) p in
        let (s'', outcome, q') = run env (handle handlers (interact request n) s) p in
        (s'' ≡ s')
        × (env.accepts q.log (response n res) ≡ true
            → (recv true (answer_in n q'.log) ≡ res) × (outcome ≡ ok tt))
        × (env.accepts q.log (response n res) ≡ false → (q' ≡ q) × (outcome ≢ ok tt))
  unfolding send
  interaction_answers handlers request n s p =
      let (s', res, q) = run env (handlers.on_interaction request s) p in
      let (delivered, kept) = outcome_of handlers n res q (env.accepts q.log (response n res)) in
      rw (answered handlers request n s p) (refl, delivered, kept)
