-- ===== src/World/Founded.antt =====
-- New runtimes: an actor without a supervisor is spawned, and a spawned actor starts to run.
use meio.Prelude.{
  ◌≡◌, refl, Bool, true, false, Option, none, some, List, [], ◌∷◌, ◌++◌, arith, ◌⊎◌, inl, inr,
  ℕ_discrete, length, length-append, Bool-cases, ◌∙◌, sym, subst,
}
use meio.Prelude.Set
use meio.Prelude.Map
use meio.Ids.{Ident, unique}
use meio.Lifecycle
use meio.Lifecycle.Invariant.{group_in}
use meio.Handlers.{Handlers, Message}
use meio.Context.{Environment, spawned, new_context, Effect}
use meio.Context.Laws.{IsSound}
use meio.Context.Fresh.{new_context-IsSound}
use meio.Runtime.{TimerQueue, ActorRuntime, spawn}
use meio.World.{World, is_pending, is_spawned, put, resume, settle, found, shared, empty}
use meio.World.Spawns.{is_spawned-append}
use meio.World.Tidy.{IsMember, IsTidy}

module _ {S G I O E Q : Type 0} (env : Environment G O E) (timer : TimerQueue (Message I O E) Q)
    (handlers : Handlers S G I O E) where
  pub empty-IsTidy : IsTidy env (empty env timer handlers)
  unfolding empty is_spawned Set.contains is_pending
  empty-IsTidy = record {
    members = λ s r e. cc;
    told = λ s id e. cc;
    born = λ b s id e. cc;
    past = λ id e. cc;
    parents = λ b s id e. cc;
    sole = λ b c s t id e f. cc;
  }

  module _ (w : World S G I O E Q) (tidy : IsTidy env w) where
    abbrev founding : List (Effect O E)
    founding = spawned (length w.heap) none ∷ []

    founding_only :
        (b : Bool) (s : Option Ident) (id : Ident)
        → is_spawned b s id founding ≡ true
        → (s ≡ none) × (id ≡ length w.heap)
    unfolding is_spawned
    founding_only false none id e = ground arith
    founding_only false (some s) id e = ground arith
    founding_only true s id e = ground arith

    found_old :
        (b : Bool) (s : Option Ident) (id : Ident)
        → is_spawned b s id (w.log ++ founding) ≡ true
        → (is_spawned b s id w.log ≡ true) ⊎ ((s ≡ none) × (id ≡ length w.heap))
    found_old b s id e = elim (Bool-cases (is_spawned b s id w.log)) [
      | inl old ↦ inl old
      | inr fresh ↦
          inr (founding_only b s id (ground (arith, is_spawned-append b s id w.log founding)))
    ]

    found_noted :
        (b : Bool) (s : Option Ident) (id : Ident)
        → is_spawned b s id w.log ≡ true
        → is_spawned b s id (w.log ++ founding) ≡ true
    found_noted b s id e = rw (is_spawned-append b s id w.log founding, e)

    found-IsMember :
        (t : Ident) (q : ActorRuntime S G I O E Q)
        → w.runtimes t ≡ some q
        → IsMember env (found env timer handlers w) t q
    unfolding found resume unique
    found-IsMember t q e = record {
      sound = record {
        consistent = m.sound.consistent;
        own = m.sound.own;
        allocated = λ id b.
            m.sound.allocated id (omega (arith, length-append w.heap (env.uuid w.heap ∷ [])));
      };
      address = m.address;
      waiting = m.waiting;
      reporting = (m.reporting.0, m.reporting.1, found_noted false m.reporting.0 t m.reporting.2);
      registered = λ b id f alive. elim (found_old b (some t) id f) [
        | inl old ↦ m.registered b id old alive
        | inr (mine, same) ↦ cc
      ];
      known = λ id held.
          let (child, way) = m.known id held in
          (ground (arith, found_noted false (some t) id, found_noted true (some t) id), way);
    }
      where
        m : IsMember env w t q
        m = tidy.members t q e

    pub found-IsTidy : IsTidy env (found env timer handlers w)
    unfolding found unique
    found-IsTidy = record {
      members = found-IsMember;
      told = tidy.told;
      born = λ b s id e. elim (found_old b s id e) [
        | inl old ↦ omega (arith, tidy.born b s id old, length-append w.heap (env.uuid w.heap ∷ []))
        | inr (mine, same) ↦ omega (arith, same, length-append w.heap (env.uuid w.heap ∷ []))
      ];
      past = λ id e. omega (arith, tidy.past id e, length-append w.heap (env.uuid w.heap ∷ []));
      parents = λ b s id e. elim (found_old b (some s) id e) [
        | inl old ↦ tidy.parents b s id old
        | inr (mine, same) ↦ cc
      ];
      sole = λ b c s t id e f. elim (found_old b s id e) [
        | inl old ↦ elim (found_old c t id f) [
          | inl old' ↦ tidy.sole b c s t id old old'
          | inr (mine, same) ↦ absurd (omega (arith, tidy.born b s id old))
        ]
        | inr (mine, same) ↦ elim (found_old c t id f) [
          | inl old ↦ absurd (omega (arith, tidy.born c t id old))
          | inr (mine', same') ↦ mine ∙ sym mine'
        ]
      ];
    }

    module _ (s : Ident) (supervisor : Option Ident) (actor : S)
        (born : is_spawned false supervisor s w.log ≡ true) (absent : w.runtimes s ≡ none) where
      abbrev pub fresh : ActorRuntime S G I O E Q
      fresh = spawn env timer handlers actor supervisor s (shared env timer handlers w s)

      pub fresh-IsSound : IsSound env fresh.process
      unfolding spawn shared
      fresh-IsSound = new_context-IsSound env s (shared env timer handlers w s)

      fresh_self : IsMember env (settle w s fresh) s fresh
      unfolding settle resume spawn shared new_context Lifecycle.new
      fresh_self = record {
        sound = fresh-IsSound;
        address = refl;
        waiting = λ closing on gone. cc;
        reporting = (supervisor, refl, born);
        registered = λ b id e alive. absurd (tidy.parents b s id e absent);
        known = λ id held. absurd (held (unfold group_in Map.lookup in refl));
      }

      fresh_other :
          (t : Ident) (q : ActorRuntime S G I O E Q)
          → w.runtimes t ≡ some q
          → IsMember env (settle w s fresh) t q
      unfolding settle resume spawn shared
      fresh_other t q e = record {
        sound = m.sound;
        address = m.address;
        waiting = m.waiting;
        reporting = m.reporting;
        registered = m.registered;
        known = m.known;
      }
        where
          m : IsMember env w t q
          m = tidy.members t q e

      pub fresh-IsTidy : IsTidy env (settle w s fresh)
      unfolding settle put spawn shared
      fresh-IsTidy = record {
        members = λ t q e. elim (ℕ_discrete t s) [
          | yes same ↦
              let here : fresh ≡ q = ground arith in
              subst (λ x. IsMember env (settle w s fresh) t x) here
                (subst (λ k. IsMember env (settle w s fresh) k fresh) (sym same) fresh_self)
          | no ne ↦ fresh_other t q (ground arith)
        ];
        told = tidy.told;
        born = tidy.born;
        past = tidy.past;
        parents = λ b t id e. ground (arith, tidy.parents b t id e);
        sole = tidy.sole;
      }
