-- ===== src/World/Shutdown.antt =====
-- What holds of every world that the actors and tasks of a process reach.
use meio.Prelude.{
  ◌≡◌, ◌≢◌, refl, Bool, true, false, Option, none, some, List, [], ◌∷◌, ◌⊎◌, inl, inr, ℕ_discrete,
  arith, Result, subst,
}
use meio.Prelude.Set
use meio.Prelude.Map
use meio.Ids.{Ident}
use meio.Lifecycle.{Record}
use meio.Lifecycle
use meio.Lifecycle.Invariant.{group_in}
use meio.Lifecycle.Drain.{is_finished-childless}
use meio.Handlers.{Handlers, Message, Error}
use meio.Context.{Environment}
use meio.Runtime.{TimerQueue, ActorRuntime, Inputs, ready, turn, entrypoint, spawn, after_routine}
use meio.Runtime.Laws.{handle_envelope-IsSound}
use meio.World.{
  World, is_spawned, is_pending, take_report, resume, settle, close, arise, shared, is_plain, Step,
  founded, awoken, turned, told, task_over, Reaches, here, then, put,
}
use meio.World.Growth.{is_child}
use meio.World.Ends.{after_routine-Keeps, entrypoint-Keeps}
use meio.World.Turns.{turn-Advances, turn-IsSound, turn_told, handle_envelope-Advances}
use meio.World.Tidy.{IsTidy, close-IsTidy}
use meio.World.Onward.{arise-IsTidy, arise-settle, reports_own, reports_there}
use meio.World.Told.{heard, bereft, bereft-IsTidy}
use meio.World.Founded.{empty-IsTidy, found-IsTidy, fresh, fresh-IsSound, fresh-IsTidy}
use meio.Task

held_or_none :
    {G : Type 0} (records : List (Ident × Record G))
    → ((id : Ident) → group_in records id ≡ none) ⊎ ((id : Ident) × (group_in records id ≢ none))
unfolding group_in Map.lookup
held_or_none [] = inl (λ id. refl)
held_or_none ((id, r) ∷ records) = inr (id, ground arith)

module _ {S G I O E Q : Type 0} (env : Environment G O E) (timer : TimerQueue (Message I O E) Q)
    (handlers : Handlers S G I O E) where
  awoken-IsTidy :
      (w : World S G I O E Q) (s : Ident) (supervisor : Option Ident) (actor : S)
      (sequence : List G) (joined : Bool)
      → IsTidy env w
      → is_spawned false supervisor s w.log ≡ true
      → w.runtimes s ≡ none
      → Set.contains ℕ_discrete s w.ended ≡ false
      → IsTidy env (
          arise w s (
            entrypoint env timer handlers sequence [] joined
              (spawn env timer handlers actor supervisor s (shared env timer handlers w s))))
  unfolding settle put resume spawn shared
  awoken-IsTidy w s supervisor actor sequence joined tidy born absent alive =
      let r = fresh env timer handlers w tidy s supervisor actor born absent in
      subst (λ v. IsTidy env v) (arise-settle env timer handlers w s r _)
        (arise-IsTidy env timer handlers (settle w s r) s r _
          (fresh-IsTidy env timer handlers w tidy s supervisor actor born absent) (ground arith)
          alive
          (entrypoint-Keeps env timer handlers sequence joined r
            (fresh-IsSound env timer handlers w tidy s supervisor actor born absent)))

  turned-IsTidy :
      (w : World S G I O E Q) (id : Ident) (r : ActorRuntime S G I O E Q) (i : Inputs I O E)
      (joined : Bool)
      → IsTidy env w
      → w.runtimes id ≡ some r
      → Set.contains ℕ_discrete id w.ended ≡ false
      → is_plain i.hp_msg_rx ≡ true
      → IsTidy env (
          arise w id
            (after_routine env timer handlers joined (turn env timer handlers i (resume w r))))
  turned-IsTidy w id r i joined tidy there alive plain =
      let sound = (tidy.members id r there).sound in
      arise-IsTidy env timer handlers w id r _ tidy there alive (
        after_routine-Keeps env timer handlers joined (record {
          advances = turn-Advances env timer handlers i (resume w r) sound plain;
          sound = turn-IsSound env timer handlers i (resume w r) sound;
        }))

  told-IsTidy :
      (w : World S G I O E Q) (id child : Ident) (r : ActorRuntime S G I O E Q) (i : Inputs I O E)
      (joined : Bool) (m : Message I O E)
      → IsTidy env w
      → w.runtimes id ≡ some r
      → Set.contains ℕ_discrete id w.ended ≡ false
      → is_pending id child w.unread ≡ true
      → i.hp_msg_rx
        ≡ ready (some (record { operation = Lifecycle.Operation.done child; envelope = m }))
      → IsTidy env (
          arise
            (record w { unread = take_report id child w.unread })
            id
            (after_routine env timer handlers joined (turn env timer handlers i (resume w r))))
  unfolding settle put resume
  told-IsTidy w id child r i joined m tidy there alive unread reads =
      let b = bereft env timer handlers w id child r tidy there unread in
      let heard_world = settle (heard env timer handlers w id child r tidy there unread) id b in
      let sound =
        (bereft-IsTidy env timer handlers w id child r tidy there unread).members id b
          (ground arith) in
      rw (turn_told env timer handlers i child m (resume w r) reads) (
        subst (λ v. IsTidy env v)
          (arise-settle env timer handlers (heard env timer handlers w id child r tidy there unread)
            id b _)
          (arise-IsTidy env timer handlers heard_world id b _
            (bereft-IsTidy env timer handlers w id child r tidy there unread) (ground arith) alive
            (after_routine-Keeps env timer handlers joined (record {
              advances = handle_envelope-Advances env timer handlers m b sound.sound;
              sound = handle_envelope-IsSound env timer handlers m b sound.sound;
            }))))

  task_over-IsTidy :
      (w : World S G I O E Q) (id supervisor : Ident) (tag : I) (res : Result O (Error E))
      → IsTidy env w
      → is_spawned true (some supervisor) id w.log ≡ true
      → Set.contains ℕ_discrete id w.ended ≡ false
      → IsTidy env (close w id (Task.entrypoint (Task.spawn id tag (some supervisor)) res))
  unfolding Task.entrypoint Task.spawn
  task_over-IsTidy w id supervisor tag res tidy born alive =
      close-IsTidy env w id (some supervisor) true _ tidy born alive
        (λ s k. reports_own env timer handlers id (some supervisor) _ s k)
        (λ s. reports_there env timer handlers id (some supervisor) _ s)

  Step-IsTidy :
      {w w' : World S G I O E Q} → IsTidy env w → Step env timer handlers w w' → IsTidy env w'
  Step-IsTidy {w} tidy founded = found-IsTidy env timer handlers w tidy
  Step-IsTidy {w} tidy (awoken id supervisor actor sequence joined born absent alive) =
      awoken-IsTidy w id supervisor actor sequence joined tidy born absent alive
  Step-IsTidy {w} tidy (turned id r i joined there alive plain) =
      turned-IsTidy w id r i joined tidy there alive plain
  Step-IsTidy {w} tidy (told id child r i joined m there alive unread reads tells_end) =
      told-IsTidy w id child r i joined m tidy there alive unread reads
  Step-IsTidy {w} tidy (task_over id supervisor tag res born alive) =
      task_over-IsTidy w id supervisor tag res tidy born alive

  -- In every world that is reached, the trackers agree with what has been spawned, what has ended
  -- and what is still unread: each child of a running actor that has not ended stands in the
  -- tracker of that actor, and each child that stands there was spawned by that actor, and has not
  -- ended or has its `Done` unread.
  pub Reaches-IsTidy : {w : World S G I O E Q} → Reaches env timer handlers w → IsTidy env w
  Reaches-IsTidy here = empty-IsTidy env timer handlers
  Reaches-IsTidy (then reached step) = Step-IsTidy (Reaches-IsTidy reached) step

  -- In every world that is reached, once the tracker of a running actor is finished, all the
  -- children that this actor ever spawned have ended.
  pub finished_alone :
      {w : World S G I O E Q}
      → Reaches env timer handlers w
      → (s : Ident) (r : ActorRuntime S G I O E Q) (id : Ident) → w.runtimes s ≡ some r
      → Lifecycle.is_finished env.hashing r.process.ctx.lifetime_tracker ≡ true
      → is_child s id w.log ≡ true
      → Set.contains ℕ_discrete id w.ended ≡ true
  unfolding resume
  finished_alone {w} reached s r id there finished child =
      let m = (Reaches-IsTidy reached).members s r there in
      let gone =
        is_finished-childless env.hashing r.process.ctx.lifetime_tracker m.sound.consistent finished
          id in
      ground (arith, m.registered false id, m.registered true id)

  -- In every world that is reached, an actor in termination that has not stopped is never left
  -- without a cause to wait: one of the children that it spawned has not ended, or the `Done` of one
  -- of them is still to be read.
  pub shutdown_awaits :
      {w : World S G I O E Q}
      → Reaches env timer handlers w
      → (s : Ident) (r : ActorRuntime S G I O E Q) → w.runtimes s ≡ some r
      → r.process.ctx.lifetime_tracker.terminating ≡ true
      → r.process.ctx.alive ≡ true
      → (id : Ident) × (is_child s id w.log ≡ true)
        × ((Set.contains ℕ_discrete id w.ended ≡ false) ⊎ (is_pending s id w.unread ≡ true))
  shutdown_awaits {w} reached s r there closing on =
      let m = (Reaches-IsTidy reached).members s r there in
      elim (held_or_none r.process.ctx.lifetime_tracker.records) [
        | inl gone ↦ absurd (m.waiting closing on gone)
        | inr (id, held) ↦ let (child, way) = m.known id held in (id, child, way)
      ]
