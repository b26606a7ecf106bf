-- ===== src/Linkage/Tracked.antt =====
-- An interaction that is tracked by a task: from the request of one actor, through the handler of the
-- other, back to the handler of the first for the end of the task.
use meio.Prelude.{
  ℕ, ◌≡◌, refl, ap, ◌∙◌, true, false, some, List, [], ◌∷◌, ◌++◌, Result, ok, err, All,
}
use meio.Ids.{Ident}
use meio.Handlers.{
  Error, Script, Outcome, Handlers, interact, handle, task_done, interaction_task,
  interaction_eliminated, on_task_done,
}
use meio.Context.{Environment, Process, run, response}
use meio.Task.{Watched, just_done, task_result, to_task_error, spawn, run_task, News, polls}
use meio.Task.Life.{IsUneventful, reported, task_reports}
use meio.Linkage.{recv}
use meio.Linkage.Recipients.{InteractionTask, interaction_routine}
use meio.Linkage.Interactions.{answer_in, interaction_answers}

-- Which handler the requester runs for a result.
abbrev pub heard :
    {S G I O E : Type 0}
    → Handlers S G I O E
    → I
    → Result O (Error E)
    → S
    → Script S G O E (Outcome E)
heard requester tag (ok output) s = requester.interaction_done tag output s
heard requester tag (err e) s = requester.interaction_failed tag (to_task_error e) s

heard_lem :
    {S G I O E : Type 0} (requester : Handlers S G I O E) (id : Ident) (tag : I)
    (res : Result O (Error E)) (s : S)
    → handle requester (task_done interaction_task id tag (task_result res)) s
      ≡ heard requester tag res s
unfolding handle on_task_done interaction_eliminated task_result
heard_lem requester id tag (ok output) s = refl
heard_lem requester id tag (err e) s = refl

-- An actor handles the request of an interaction, its responder takes the result, and the task of the
-- requester, which was not told to stop, comes back at a later poll with what the responder holds.
-- Then the requester is sent one parcel, the `Done` of that task, and at its handling it runs
-- `interaction_done` with the output of the other actor, or `interaction_failed` with its error,
-- under the tag that it gave.
pub interaction_is_tracked :
    {S G I O E S' G' : Type 0} (env : Environment G O E) (responder : Handlers S G I O E)
    (requester : Handlers S' G' I O E) (t : InteractionTask I) (n : ℕ) (s : S) (p : Process G O E)
    (id supervisor : Ident) (tag : I) (s' : S') (before after : List (News (Result O (Error E))))
    (told : List Watched)
    → All IsUneventful before
    → just_done told ≡ false
    → let (end, res, q) = run env (responder.on_interaction t.request s) p in
      let (end', outcome, q') = run env (handle responder (interact t.request n) s) p in
      let back : News (Result O (Error E)) = record {
        told = told;
        output = some (interaction_routine {E = E} t n true (answer_in n q'.log)).1;
      } in
      env.accepts q.log (response n res) ≡ true
      → (run_task (spawn id tag (some supervisor)) (polls [] (before ++ back ∷ after))
          ≡ reported id supervisor tag (task_result res))
        × (handle requester (task_done interaction_task id tag (task_result res)) s'
            ≡ heard requester tag res s')
unfolding interaction_routine
interaction_is_tracked {O} {E} env responder requester t n s p id supervisor tag s' before after
      told alone quiet taken =
    let (end, res, q) = run env (responder.on_interaction t.request s) p in
    let (end', outcome, q') = run env (handle responder (interact t.request n) s) p in
    let (same, delivered, kept) = interaction_answers env responder t.request n s p in
    let back : News (Result O (Error E)) = record {
      told = told;
      output = some (recv true (answer_in n q'.log));
    } in
    let (nothing, stopped, ends) =
      task_reports {A = O} {E = E} id supervisor tag before back after alone in
    (
      ends (recv true (answer_in n q'.log)) quiet refl
          ∙ ap (λ r. reported id supervisor tag (task_result r)) (delivered taken).0,
      heard_lem requester id tag res s',
    )
