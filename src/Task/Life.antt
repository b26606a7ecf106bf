-- ===== src/Task/Life.antt =====
-- The life of a supervised task, from its first poll to what its supervisor is told.
use meio.Prelude.{
  ◌≡◌, refl, true, false, none, some, List, [], ◌∷◌, ◌++◌, Result, ok, err, arith, All, All-append,
}
use meio.Ids.{Ident}
use meio.Lifecycle.{Send, parcel, done}
use meio.Handlers.{Error, TaskError, interrupted, task_stopped}
use meio.Context.{done_notifier}
use meio.Task.{
  alive, stop, Watched, changed, closed, just_done, or, routine, TaskDone, task_result, spawn,
  entrypoint, run_task, News, polls,
}
use meio.Task.Stopping.{IsWaiting, just_done-pending_iff}

-- The task was not told to stop, and its routine goes on.
abbrev pub IsUneventful : {A : Type 0} → News A → Type 0
IsUneventful n = All IsWaiting n.told × (n.output ≡ none)

just_done-append : (ws vs : List Watched) → All IsWaiting ws → just_done (ws ++ vs) ≡ just_done vs
unfolding just_done
just_done-append [] vs h = refl
just_done-append (closed ∷ ws) vs h = absurd h.0
just_done-append (changed alive ∷ ws) vs h = just_done-append ws vs h.1
just_done-append (changed stop ∷ ws) vs h = absurd h.0

All-told : (ws vs : List Watched) → All IsWaiting ws → All IsWaiting vs → All IsWaiting (ws ++ vs)
All-told ws vs hw hv = All-append IsWaiting ws vs hw hv

waiting : (ws : List Watched) → All IsWaiting ws → just_done ws ≡ false
waiting ws h = (just_done-pending_iff ws).1 h

or-polls :
    {A E : Type 0} (seen : List Watched) (before ns : List (News A))
    → All IsWaiting seen
    → All IsUneventful before
    → (seen' : List Watched) × All IsWaiting seen'
      × (or {E = E} (polls seen (before ++ ns)) ≡ or (polls seen' ns))
unfolding polls or
or-polls seen [] ns hs h = (seen, hs, refl)
or-polls {E} seen (n ∷ before) ns hs h =
    let now = All-told seen n.told hs h.0.0 in
    let (seen', hs', e) = or-polls {E = E} (seen ++ n.told) before ns now h.1 in
    (seen', hs', rw (waiting (seen ++ n.told) now, h.0.1) e)

or_uneventful :
    {A E : Type 0} (seen : List Watched) (before : List (News A))
    → All IsWaiting seen
    → All IsUneventful before
    → or {E = E} (polls seen before) ≡ none
unfolding polls or
or_uneventful seen [] hs h = refl
or_uneventful seen (n ∷ before) hs h =
    let now = All-told seen n.told hs h.0.0 in
    rw (waiting (seen ++ n.told) now, h.0.1) (or_uneventful (seen ++ n.told) before now h.1)

module _ {A M E : Type 0} (id supervisor : Ident) (tag : M) where
  -- What the supervisor is sent.
  abbrev pub reported : Result A (TaskError E) → List (Send (TaskDone A M E))
  reported result =
      parcel supervisor (done id) (record { id = id; tag = tag; result = result }) ∷ []

  -- What a task does at the first poll that is not uneventful.
  told_at :
      (seen : List Watched) (n : News (Result A (Error E)))
      (after : List (News (Result A (Error E))))
      → All IsWaiting seen
      → (just_done n.told ≡ true → or {E = E} (polls seen (n ∷ after)) ≡ some (err task_stopped))
        × ((r : Result A (Error E))
            → just_done n.told ≡ false
            → n.output ≡ some r
            → or {E = E} (polls seen (n ∷ after)) ≡ some (ok r))
  unfolding polls or
  told_at seen n after h =
      let e = just_done-append seen n.told h in (λ f. ground (arith, e), λ r f g. ground (arith, e))

  -- A supervised task with the default routine reports nothing while it was not told to stop and its
  -- routine goes on. Then, if it was told to stop, it reports `Interrupted`, whether or not its
  -- routine is ready too; and if it was not told so and the routine is ready, it reports the result of
  -- the routine, with a `TaskStopped` turned into `Interrupted`. It reports by one parcel, which
  -- carries `Operation::Done` with its id, and its tag.
  pub task_reports :
      (before : List (News (Result A (Error E)))) (n : News (Result A (Error E)))
      (after : List (News (Result A (Error E))))
      → All IsUneventful before
      → let task = spawn id tag (some supervisor) in
        (run_task {A = A} {E = E} task (polls [] before) ≡ [])
        × (just_done n.told ≡ true
            → run_task task (polls [] (before ++ n ∷ after)) ≡ reported (err interrupted))
        × ((r : Result A (Error E))
            → just_done n.told ≡ false
            → n.output ≡ some r
            → run_task task (polls [] (before ++ n ∷ after)) ≡ reported (task_result r))
  unfolding run_task routine entrypoint spawn done_notifier
  task_reports before n after h =
      let (seen, hs, e) = or-polls {E = E} [] before (n ∷ after) tt h in
      let (stops, ends) = told_at seen n after hs in
      (
        rw (or_uneventful [] before tt h, run_task, routine) refl,
        λ f. rw (e, stops f, run_task, routine) refl,
        λ r f g. rw (e, ends r f g, run_task, routine) refl,
      )
