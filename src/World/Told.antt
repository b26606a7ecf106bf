-- ===== src/World/Told.antt =====
-- The `Done` of a child is read: the tracker of its supervisor loses the child, and no other.
use meio.Prelude.{
  ◌≡◌, ◌≢◌, Bool, true, false, Option, none, some, arith, inl, inr, ite, ℕ_discrete, Bool-cases,
  ◌∙◌, sym, subst, ap,
}
use meio.Prelude.Set
use meio.Ids.{Ident}
use meio.Lifecycle.{Send, Interrupt}
use meio.Lifecycle
use meio.Lifecycle.Invariant.{group_in}
use meio.Lifecycle.Drain.{group_in-remove_child, remove_keeps, remove_last}
use meio.Handlers.{Handlers, Message}
use meio.Context.{Environment, Process}
use meio.Runtime.{TimerQueue, ActorRuntime, remove_child}
use meio.Runtime.Laws.{
  remove_child-IsSound, remove_child-tracker, remove_child-alive, remove_child_stopped,
}
use meio.World.{World, is_spawned, is_pending, take_report, put, resume, settle}
use meio.World.Spawns.{is_pending-take, is_pending-take_other, is_spawned-silent, signals-IsSilent}
use meio.World.Growth.{IsWaiting, holds}
use meio.World.Tidy.{IsMember, IsTidy}

module _ {S G I O E Q : Type 0} (env : Environment G O E) (timer : TimerQueue (Message I O E) Q)
    (handlers : Handlers S G I O E) (w : World S G I O E Q) (s child : Ident)
    (r : ActorRuntime S G I O E Q) (tidy : IsTidy env w) (there : w.runtimes s ≡ some r)
    (unread : is_pending s child w.unread ≡ true) where
  open env use {hashing}

  me : IsMember env w s r
  me = tidy.members s r there

  -- The world that is left by the report, and the runtime without the child.
  abbrev pub heard : World S G I O E Q
  heard = record w { unread = take_report s child w.unread }

  abbrev pub p : Process G O E
  p = remove_child env timer handlers child (resume w r).process

  abbrev pub bereft : ActorRuntime S G I O E Q
  bereft = record (resume w r) { process = p }

  ended : Set.contains ℕ_discrete child w.ended ≡ true
  ended = tidy.told s child unread

  p-holds : (k : Ident) → holds env p k ≡ ite (ℕ_discrete k child) none (holds env r.process k)
  unfolding resume
  p-holds k =
      ap (λ t. group_in (Lifecycle.LifetimeTracker.records t) k)
        (remove_child-tracker env timer handlers child (resume w r).process)
      ∙ group_in-remove_child hashing r.process.ctx.lifetime_tracker child k

  noted :
      (b : Bool) (t : Option Ident) (k : Ident) → is_spawned b t k p.log ≡ is_spawned b t k w.log
  unfolding remove_child resume
  noted b t k = is_spawned-silent b t k w.log _ (signals-IsSilent O E _)

  finished :
      p.ctx.lifetime_tracker.terminating ≡ true
      → ((k : Ident) → holds env p k ≡ none)
      → Lifecycle.is_finished hashing
          (Lifecycle.remove hashing r.process.ctx.lifetime_tracker child).0
        ≡ true
  unfolding resume
  finished closing gone =
      remove_last hashing r.process.ctx.lifetime_tracker child me.sound.consistent
        (sym (remove_keeps hashing r.process.ctx.lifetime_tracker child)
          ∙ sym (ap Lifecycle.LifetimeTracker.terminating same)
          ∙ closing)
        (λ k. sym (ap (λ t. group_in (Lifecycle.LifetimeTracker.records t) k) same) ∙ gone k)
    where
      same :
          p.ctx.lifetime_tracker ≡ (Lifecycle.remove hashing r.process.ctx.lifetime_tracker child).0
      same = remove_child-tracker env timer handlers child (resume w r).process

  waiting : IsWaiting env p
  unfolding resume
  waiting closing on gone = elim (Bool-cases r.process.ctx.alive) [
    | inl was ↦ ground (
      arith,
      finished closing gone,
      remove_child-alive env timer handlers child (resume w r).process was,
    )
    | inr off ↦
        ground (arith, remove_child_stopped env timer handlers child (resume w r).process off)
  ]

  bereft_self : IsMember env (settle heard s bereft) s bereft
  unfolding settle resume remove_child
  bereft_self = record {
    sound = remove_child-IsSound env timer handlers child (resume w r).process me.sound;
    address = ground (arith, me.address);
    waiting = waiting;
    reporting = (me.reporting.0, me.reporting.1, rw noted me.reporting.2);
    registered =
        λ b k e alive. ground (arith, p-holds k, me.registered b k (rw noted at e) alive, ended);
    known = λ k held.
        let (born, way) = me.known k (ground (arith, p-holds k)) in
        (
          ground (arith, noted false (some s) k, noted true (some s) k),
          elim way [
            | inl running ↦ inl running
            | inr pending ↦ inr (
                is_pending-take_other s child s k w.unread (inl (ground (arith, p-holds k)))
                  pending)
          ],
        );
  }

  bereft_other :
      (t : Ident) (q : ActorRuntime S G I O E Q)
      → t ≢ s
      → w.runtimes t ≡ some q
      → IsMember env (settle heard s bereft) t q
  unfolding settle resume remove_child
  bereft_other t q ne e = record {
    sound = record {
      consistent = m.sound.consistent;
      own = m.sound.own;
      allocated = m.sound.allocated;
    };
    address = m.address;
    waiting = m.waiting;
    reporting = (m.reporting.0, m.reporting.1, rw noted m.reporting.2);
    registered = λ b k new alive. m.registered b k (rw noted at new) alive;
    known = λ k held.
        let (born, way) = m.known k held in
        (
          ground (arith, noted false (some t) k, noted true (some t) k),
          elim way [
            | inl running ↦ inl running
            | inr pending ↦ inr (is_pending-take_other s child t k w.unread (inr ne) pending)
          ],
        );
  }
    where
      m : IsMember env w t q
      m = tidy.members t q e

  pub bereft-IsTidy : IsTidy env (settle heard s bereft)
  unfolding settle resume put
  bereft-IsTidy = record {
    members = λ t q e. elim (ℕ_discrete t s) [
      | yes same ↦
          let here : bereft ≡ q = ground arith in
          subst (λ x. IsMember env (settle heard s bereft) t x) here
            (subst (λ k. IsMember env (settle heard s bereft) k bereft) (sym same) bereft_self)
      | no ne ↦ bereft_other t q ne (ground arith)
    ];
    told = λ t k e. tidy.told t k (is_pending-take s child t k w.unread e);
    born = λ b t k e. unfold remove_child in tidy.born b t k (rw noted at e);
    past = unfold remove_child in tidy.past;
    parents = λ b t k e. ground (arith, tidy.parents b t k (rw noted at e));
    sole = λ b c t u k e f. tidy.sole b c t u k (rw noted at e) (rw noted at f);
  }
