-- ===== src/World/Tidy.antt =====
-- The trackers of the actors agree with the world: every child that has not ended stands in the
-- tracker of its supervisor, and every child that stands there has not ended, or its `Done` is on
-- the way.
use meio.Prelude.{
  ◌≤◌, ◌<◌, ◌≡◌, ◌≢◌, Bool, true, false, Option, none, some, List, ◌∷◌, ◌++◌, arith, ◌⊎◌, inl, inr,
  ◌∙◌, sym, subst, ℕ_discrete, length, Bool-cases,
}
use meio.Prelude.Set
use meio.Ids.{Ident}
use meio.Lifecycle.{Send}
use meio.Context.{Environment, done_notifier}
use meio.Context.Laws.{IsSound}
use meio.Runtime.{ActorRuntime}
use meio.World.{World, is_spawned, is_pending, put, resume, settle, close, reports_of}
use meio.World.Spawns.{is_pending-append}
use meio.World.Growth.{Grows, IsWaiting, holds, is_child}

module _ {S G I O E Q : Type 0} (env : Environment G O E) where
  -- A runtime in the world, under its id.
  pub record IsMember (w : World S G I O E Q) (s : Ident) (r : ActorRuntime S G I O E Q)
      : Type 0 where
    pub sound : IsSound env (resume w r).process
    pub address : r.process.ctx.address ≡ s
    pub waiting : IsWaiting env r.process
    pub reporting :
        (supervisor : Option Ident) × (r.done_notifier ≡ done_notifier s supervisor)
        × (is_spawned false supervisor s w.log ≡ true)
    pub registered :
        (b : Bool) (id : Ident)
        → is_spawned b (some s) id w.log ≡ true
        → Set.contains ℕ_discrete id w.ended ≡ false
        → holds env r.process id ≢ none
    pub known :
        (id : Ident)
        → holds env r.process id ≢ none
        → (is_child s id w.log ≡ true)
          × ((Set.contains ℕ_discrete id w.ended ≡ false) ⊎ (is_pending s id w.unread ≡ true))

  pub record IsTidy (w : World S G I O E Q) : Type 0 where
    pub members :
        (s : Ident) (r : ActorRuntime S G I O E Q) → w.runtimes s ≡ some r → IsMember w s r
    pub told :
        (s id : Ident) → is_pending s id w.unread ≡ true → Set.contains ℕ_discrete id w.ended ≡ true
    pub born :
        (b : Bool) (s : Option Ident) (id : Ident)
        → is_spawned b s id w.log ≡ true
        → id < length w.heap
    pub past : (id : Ident) → Set.contains ℕ_discrete id w.ended ≡ true → id < length w.heap
    pub parents :
        (b : Bool) (s id : Ident) → is_spawned b (some s) id w.log ≡ true → w.runtimes s ≢ none
    pub sole :
        (b c : Bool) (s t : Option Ident) (id : Ident)
        → is_spawned b s id w.log ≡ true
        → is_spawned c t id w.log ≡ true
        → s ≡ t

  -- A runtime of the world goes on.
  module _ (w : World S G I O E Q) (s : Ident) (r r' : ActorRuntime S G I O E Q) (tidy : IsTidy w)
      (there : w.runtimes s ≡ some r) (grows : Grows env (resume w r).process r'.process)
      (sound : IsSound env r'.process) (notifier : r'.done_notifier ≡ r.done_notifier) where
    me : IsMember w s r
    me = tidy.members s r there

    noted_child : (t id : Ident) → is_child t id w.log ≡ true → is_child t id r'.process.log ≡ true
    unfolding resume
    noted_child t id e = ground (arith, grows.noted false (some t) id, grows.noted true (some t) id)

    not_past : (id : Ident) → length w.heap ≤ id → Set.contains ℕ_discrete id w.ended ≡ false
    not_past id low = elim (Bool-cases (Set.contains ℕ_discrete id w.ended)) [
      | inl over ↦ absurd (omega (arith, tidy.past id over))
      | inr alive ↦ alive
    ]

    settled_self : IsMember (settle w s r') s r'
    unfolding settle resume
    settled_self = record {
      sound = sound;
      address = ground (arith, grows.address, me.address);
      waiting = grows.waiting me.waiting;
      reporting = (
        me.reporting.0,
        notifier ∙ me.reporting.1,
        grows.noted false me.reporting.0 s me.reporting.2,
      );
      registered = λ b id e alive. elim (grows.registered b (some s) id e) [
        | inl old ↦ grows.kept id (me.registered b id old alive)
        | inr (mine, held, low, high) ↦ held
      ];
      known = λ id held. elim (grows.known id held) [
        | inl old ↦ let (child, way) = me.known id old in (noted_child s id child, way)
        | inr (child, low) ↦ (
          subst (λ k. is_child k id r'.process.log ≡ true) me.address child,
          inl (not_past id low),
        )
      ];
    }

    settled_other :
        (t : Ident) (q : ActorRuntime S G I O E Q)
        → t ≢ s
        → w.runtimes t ≡ some q
        → IsMember (settle w s r') t q
    unfolding settle resume
    settled_other t q ne e = record {
      sound = record {
        consistent = m.sound.consistent;
        own = m.sound.own;
        allocated = λ id b. m.sound.allocated id (omega (arith, grows.heap));
      };
      address = m.address;
      waiting = m.waiting;
      reporting = (m.reporting.0, m.reporting.1, grows.noted false m.reporting.0 t m.reporting.2);
      registered = λ b id new alive. elim (grows.registered b (some t) id new) [
        | inl old ↦ m.registered b id old alive
        | inr (mine, held, low, high) ↦ absurd (ground (arith, me.address))
      ];
      known = λ id held. (noted_child t id (m.known id held).0, (m.known id held).1);
    }
      where
        m : IsMember w t q
        m = tidy.members t q e

    pub settle-IsTidy : IsTidy (settle w s r')
    unfolding settle resume put
    settle-IsTidy = record {
      members = λ t q e. elim (ℕ_discrete t s) [
        | yes same ↦
            let here : r' ≡ q = ground arith in
            subst (λ x. IsMember (settle w s r') t x) here
              (subst (λ k. IsMember (settle w s r') k r') (sym same) settled_self)
        | no ne ↦ settled_other t q ne (ground arith)
      ];
      told = tidy.told;
      born = λ b t id e. elim (grows.registered b t id e) [
        | inl old ↦ omega (arith, tidy.born b t id old, grows.heap)
        | inr (mine, held, low, high) ↦ high
      ];
      past = λ id over. omega (arith, tidy.past id over, grows.heap);
      parents = λ b t id e. elim (grows.registered b (some t) id e) [
        | inl old ↦ ground (arith, tidy.parents b t id old)
        | inr (mine, held, low, high) ↦ ground (arith, me.address)
      ];
      sole = λ b c t u id e f. elim (grows.registered b t id e) [
        | inl old ↦ elim (grows.registered c u id f) [
          | inl old' ↦ tidy.sole b c t u id old old'
          | inr (mine, held, low, high) ↦ absurd (omega (arith, tidy.born b t id old))
        ]
        | inr (mine, held, low, high) ↦ elim (grows.registered c u id f) [
          | inl old ↦ absurd (omega (arith, tidy.born c u id old))
          | inr (mine', held', low', high') ↦ mine ∙ sym mine'
        ]
      ];
    }

  -- An actor or a task of the world ends, and its supervisor is told.
  module _ {P : Type 0} (w : World S G I O E Q) (id : Ident) (supervisor : Option Ident) (b : Bool)
      (sends : List (Send P)) (tidy : IsTidy w) (spawned : is_spawned b supervisor id w.log ≡ true)
      (alive : Set.contains ℕ_discrete id w.ended ≡ false)
      (reported : (s k : Ident) → is_pending s k (reports_of sends) ≡ true → k ≡ id)
      (told_all : (s : Ident)
        → supervisor ≡ some s
        → is_pending s id (reports_of sends) ≡ true) where
    parent_of : (t : Ident) → is_child t id w.log ≡ true → supervisor ≡ some t
    parent_of t child = elim (Bool-cases (is_spawned false (some t) id w.log)) [
      | inl actor ↦ tidy.sole b false supervisor (some t) id spawned actor
      | inr other ↦ tidy.sole b true supervisor (some t) id spawned (ground arith)
    ]

    closed-IsMember :
        (t : Ident) (q : ActorRuntime S G I O E Q)
        → w.runtimes t ≡ some q
        → IsMember (close w id sends) t q
    unfolding close resume Set.contains
    closed-IsMember t q e = record {
      sound = m.sound;
      address = m.address;
      waiting = m.waiting;
      reporting = m.reporting;
      registered = λ c k f open_ended. m.registered c k f (ground arith);
      known = λ k held. ((m.known k held).0, way_of k (m.known k held).0 (m.known k held).1);
    }
      where
        m : IsMember w t q
        m = tidy.members t q e

        way_of :
            (k : Ident)
            → is_child t k w.log ≡ true
            → (Set.contains ℕ_discrete k w.ended ≡ false) ⊎ (is_pending t k w.unread ≡ true)
            → (Set.contains ℕ_discrete k (id ∷ w.ended) ≡ false)
              ⊎ (is_pending t k (w.unread ++ reports_of sends) ≡ true)
        way_of k child way = elim (ℕ_discrete k id) [
          | yes same ↦ inr (
              ground (
                arith,
                is_pending-append t k w.unread (reports_of sends),
                told_all t (parent_of t (subst (λ x. is_child t x w.log ≡ true) same child)),
              ))
          | no ne ↦ elim way [
            | inl running ↦ inl (ground arith)
            | inr pending ↦ inr (ground (arith, is_pending-append t k w.unread (reports_of sends)))
          ]
        ]

    pub close-IsTidy : IsTidy (close w id sends)
    unfolding close Set.contains
    close-IsTidy = record {
      members = closed-IsMember;
      told = λ s k e.
          ground
            (arith, is_pending-append s k w.unread (reports_of sends), tidy.told s k, reported s k);
      born = tidy.born;
      past = λ k e. ground (arith, tidy.past k, tidy.born b supervisor id spawned);
      parents = tidy.parents;
      sole = tidy.sole;
    }
