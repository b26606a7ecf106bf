-- ===== src/Samples/Many/Ending.antt =====
-- When `ActorMany` of meio/src/lib.rs ends.
use meio.Prelude.{
  ℕ, suc, ◌≡◌, refl, Bool, true, false, not, none, List, [], ◌∷◌, ℕ_discrete, if◌then◌else◌, arith,
  ite, ap, sym, ◌∙◌, Bool-cases, inl, inr, map,
}
use meio.Prelude.Set
use meio.Ids.{Ident}
use meio.Prelude.Map
use meio.Lifecycle
use meio.Lifecycle.Invariant.{group_in}
use meio.Handlers.{Handlers, Message, handle}
use meio.Context.{shut, Environment, Process, run, new_context}
use meio.Context.Laws.{IsSound, run-IsSound}
use meio.Context.Fresh.{new_context-IsSound}
use meio.Runtime.{
  TimerQueue, Inputs, ActorRuntime, turn, select, on_event, on_parcel, handle_envelope,
  remove_child, routine, after_routine, after_awake, entrypoint, spawn,
}
use meio.Runtime.Laws.{remove_child-alive, remove_child-IsSound, remove_child-tracker}
use meio.Runtime.Shutdown.{done_input, done_ids, stopped, alive_step}
use meio.World.Ends.{sequenced, sequenced-IsSound}
use meio.Samples.Many.{is_empty, many_started, many_eliminated}
use meio.Samples.Many.Agreement.{
  has_record, Agrees, has_record-remove, eliminated_run, finished_empty, shut_last,
  many_started-Agrees, many_started-is_empty,
}

-- The ids that are left once the children of a list have ended.
abbrev pub left : List Ident → List Ident → List Ident
left [] s = s
left (id ∷ ids) s = left ids (Set.remove ℕ_discrete id s)

left_none : (ids : List Ident) → left ids [] ≡ []
unfolding Set.remove
left_none [] = refl
left_none (id ∷ ids) = left_none ids

left_empty : (ids s : List Ident) → is_empty s ≡ true → is_empty (left ids s) ≡ true
left_empty ids [] e = ap is_empty (left_none ids)
left_empty ids (x ∷ s) e = absurd cc

module _ {I O E Q : Type 0} (env : Environment (Unit {0}) O E)
    (timer : TimerQueue (Message I O E) Q) (handlers : Handlers (List Ident) (Unit {0}) I O E)
    (many : (id : Ident) (s : List Ident) → handlers.eliminated id s ≡ many_eliminated id s) where
  after_done :
      (d : Ident × Inputs I O E) (r : ActorRuntime (List Ident) (Unit {0}) I O E Q)
      → let q = turn env timer handlers (done_input env timer handlers d) r in
        let rest = Set.remove ℕ_discrete d.0 r.actor in
        let p = remove_child env timer handlers d.0 r.process in
        (q.actor ≡ rest) × (q.process ≡ (if is_empty rest then shut env p else p))
  unfolding turn select on_event on_parcel handle_envelope handle
  after_done d r =
      rw
        (
          many d.0 r.actor,
          eliminated_run env d.0 r.actor (remove_child env timer handlers d.0 r.process),
        )
        (refl, refl)

  -- The turn at which a child tells its end.
  module _ (d : Ident × Inputs I O E) (r : ActorRuntime (List Ident) (Unit {0}) I O E Q)
      (sound : IsSound env r.process) (agrees : Agrees env r.actor r.process)
      (on : r.process.ctx.alive ≡ true) where
    p : Process (Unit {0}) O E
    p = remove_child env timer handlers d.0 r.process

    rest : List Ident
    rest = Set.remove ℕ_discrete d.0 r.actor

    rest-Agrees : Agrees env rest p
    unfolding p rest
    rest-Agrees k =
        Set.contains-remove ℕ_discrete k d.0 r.actor
        ∙ ap (ite (ℕ_discrete k d.0) false) (agrees k)
        ∙ sym (
            ap (λ t. has_record t.records k) (remove_child-tracker env timer handlers d.0 r.process)
            ∙ has_record-remove env.hashing r.process.ctx.lifetime_tracker d.0 k)

    p-IsSound : IsSound env p
    unfolding p
    p-IsSound = remove_child-IsSound env timer handlers d.0 r.process sound

    goes_on : is_empty rest ≡ false → p.ctx.alive ≡ true
    unfolding p
    goes_on e = elim (Bool-cases p.ctx.alive) [
      | inl on' ↦ on'
      | inr off ↦ absurd (
          ground (
            arith,
            remove_child-alive env timer handlers d.0 r.process on,
            remove_child-tracker env timer handlers d.0 r.process,
            finished_empty env rest p rest-Agrees p-IsSound,
          ))
    ]

    next : ActorRuntime (List Ident) (Unit {0}) I O E Q
    next = turn env timer handlers (done_input env timer handlers d) r

    next_actor : next.actor ≡ rest
    unfolding next rest
    next_actor = (after_done d r).0

    next_more : is_empty rest ≡ false → next.process ≡ p
    unfolding next rest p
    next_more e = let (a, b) = after_done d r in b ∙ rw e refl

    next_last : is_empty rest ≡ true → next.process.ctx.alive ≡ false
    unfolding next rest p
    next_last e =
        let (a, b) = after_done d r in
        let shuts : next.process ≡ shut env p = b ∙ rw e refl in
        ap (λ q. q.ctx.alive) shuts ∙ shut_last env rest p rest-Agrees p-IsSound e

  many_goes :
      (ds : List (Ident × Inputs I O E)) (r : ActorRuntime (List Ident) (Unit {0}) I O E Q)
      → IsSound env r.process
      → Agrees env r.actor r.process
      → r.process.ctx.alive ≡ true
      → is_empty r.actor ≡ false
      → (routine env timer handlers (map (done_input env timer handlers) ds) r).process.ctx.alive
        ≡ not (is_empty (left (done_ids env timer handlers ds) r.actor))
  unfolding next rest p
  many_goes [] r sound agrees on some_left = unfold routine in on ∙ rw some_left refl
  many_goes (d ∷ ds) r sound agrees on some_left =
      alive_step env timer handlers (done_input env timer handlers d)
        (map (done_input env timer handlers) ds) r on
      ∙ elim (Bool-cases (is_empty (Set.remove ℕ_discrete d.0 r.actor))) [
        | inl last ↦
            stopped env timer handlers (map (done_input env timer handlers) ds)
              (next d r sound agrees on) (next_last d r sound agrees on last)
            ∙ ground (arith, left_empty (done_ids env timer handlers ds) _ last)
        | inr more ↦
            many_goes ds (next d r sound agrees on)
              (rw (next_more d r sound agrees on more) (p-IsSound d r sound agrees on))
              (rw (next_more d r sound agrees on more, next_actor d r sound agrees on)
                (rest-Agrees d r sound agrees on))
              (rw (next_more d r sound agrees on more) (goes_on d r sound agrees on more))
              (rw (next_actor d r sound agrees on) more)
            ∙ rw (next_actor d r sound agrees on) refl
      ]

  -- What `started_by` makes of a fresh actor.
  module _ (n : ℕ) (starts : (s : List Ident) → handlers.started_by s ≡ many_started (suc n) s)
      (id : Ident) (p : Process (Unit {0}) O E) where
    fresh : Process (Unit {0}) O E
    fresh = sequenced env timer handlers (tt ∷ []) (record p { ctx = new_context id })

    fresh-IsSound : IsSound env fresh
    unfolding fresh
    fresh-IsSound =
        sequenced-IsSound env timer handlers (tt ∷ []) (record p { ctx = new_context id })
          (new_context-IsSound env id p)

    fresh-Agrees : Agrees env [] fresh
    unfolding fresh new_context Lifecycle.new Lifecycle.termination_sequence Set.contains group_in
        Map.lookup
    fresh-Agrees k = refl

    -- The ids of the children that it spawns.
    unfoldable pub children : List Ident
    unfolding fresh
    children = (run env (many_started (suc n) []) fresh).0

    begun : ActorRuntime (List Ident) (Unit {0}) I O E Q
    begun = record (spawn env timer handlers [] none id p) {
      actor = (run env (many_started (suc n) []) fresh).0;
      process = (run env (many_started (suc n) []) fresh).2;
    }

    begun_goes :
        (ds : List (Ident × Inputs I O E))
        → (routine env timer handlers
            (map (done_input env timer handlers) ds)
            begun).process.ctx.alive
          ≡ not (is_empty (left (done_ids env timer handlers ds) children))
    unfolding begun children fresh
    begun_goes ds =
        let (agrees, alive, done, kept) = many_started-Agrees env (suc n) [] fresh fresh-Agrees in
        many_goes ds begun (run-IsSound env (many_started (suc n) []) fresh fresh-IsSound) agrees
          (alive ∙ unfold new_context in refl) (many_started-is_empty env n [] fresh fresh-Agrees)

    -- `ActorMany`, spawned with one child at least, comes to its end exactly when the last of the
    -- children that it has spawned has told its end, in whatever order they do.
    pub many_ends_with_last :
        (ds : List (Ident × Inputs I O E)) (joined : Bool)
        → (entrypoint env timer handlers
            (tt ∷ [])
            (map (done_input env timer handlers) ds)
            joined
            (spawn env timer handlers [] none id p)).0
          ≡ is_empty (left (done_ids env timer handlers ds) children)
    unfolding entrypoint after_awake after_routine spawn handle begun fresh
    many_ends_with_last ds joined =
        let (agrees, alive, done, kept) = many_started-Agrees env (suc n) [] fresh fresh-Agrees in
        rw (starts [], done) (ground (arith, begun_goes ds))
