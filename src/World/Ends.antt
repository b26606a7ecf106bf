-- ===== src/World/Ends.antt =====
-- What the first handler and the end of a runtime add to the shared state.
use meio.Prelude.{
  ◌∙◌, refl, Bool, true, false, List, [], ◌∷◌, map, arith, ok, err, inl, if◌then◌else◌,
}
use meio.Lifecycle.{Operation, forward, done, schedule, notify, Send}
use meio.Lifecycle
use meio.Lifecycle.Interrupts.History.{sequenced-IsConsistent}
use meio.Handlers.{Handlers, Message, Outcome, handle, awake}
use meio.Context.{notified, released, Done, Environment, Process, run}
use meio.Context.Laws.{IsSound, run-IsSound, same-IsSound}
use meio.Runtime.{TimerQueue, ActorRuntime, finish, after_routine, after_awake, entrypoint, routine}
use meio.World.{is_spawned}
use meio.World.Spawns.{IsSilent}
use meio.World.Growth.{Grows, Grows-trans, silent-Grows}
use meio.World.Turns.{Advances}
use meio.World.Runs.{run-Grows}

module _ {S G I O E Q : Type 0} (env : Environment G O E) (timer : TimerQueue (Message I O E) Q)
    (handlers : Handlers S G I O E) where
  notified-IsSilent : (ss : List (Send Done)) → IsSilent {O = O} {E = E} (map notified ss)
  unfolding is_spawned
  notified-IsSilent [] b s id = refl
  notified-IsSilent (x ∷ ss) false s id = notified-IsSilent ss false s id
  notified-IsSilent (x ∷ ss) true s id = notified-IsSilent ss true s id

  released-IsSilent : IsSilent {O = O} {E = E} (released ∷ [])
  unfolding is_spawned
  released-IsSilent false s id = refl
  released-IsSilent true s id = refl

  -- The end is only told of.
  finish-Advances :
      (joined : Bool) (r : ActorRuntime S G I O E Q)
      → Advances env timer handlers r (finish env timer handlers joined r)
  unfolding finish
  finish-Advances false r = record {
    grows = silent-Grows env r.process _ _ refl refl refl refl (notified-IsSilent _) (λ w. w);
    notifier = refl;
  }
  finish-Advances true r = record {
    grows =
        Grows-trans env
          (silent-Grows env r.process (finish env timer handlers false r).process _ refl refl refl
            refl (notified-IsSilent _) (λ w. w))
          (silent-Grows env (finish env timer handlers false r).process _ (released ∷ []) refl refl
            refl refl released-IsSilent (λ w. w));
    notifier = refl;
  }

  finish-IsSound :
      (joined : Bool) (r : ActorRuntime S G I O E Q)
      → IsSound env r.process
      → IsSound env (finish env timer handlers joined r).process
  unfolding finish
  finish-IsSound false r s = same-IsSound env r.process _ refl refl s
  finish-IsSound true r s = same-IsSound env r.process _ refl refl s

  Advances-trans :
      {q r t : ActorRuntime S G I O E Q}
      → Advances env timer handlers q r
      → Advances env timer handlers r t
      → Advances env timer handlers q t
  Advances-trans f g = record {
    grows = Grows-trans env f.grows g.grows;
    notifier = g.notifier ∙ f.notifier;
  }

  -- What a step keeps of a runtime.
  pub record Keeps (r r' : ActorRuntime S G I O E Q) : Type 0 where
    pub advances : Advances env timer handlers r r'
    pub sound : IsSound env r'.process

  finish-Keeps :
      (joined : Bool) {q r : ActorRuntime S G I O E Q}
      → Keeps q r
      → Keeps q (finish env timer handlers joined r)
  finish-Keeps joined {q} {r} k = record {
    advances = Advances-trans k.advances (finish-Advances joined r);
    sound = finish-IsSound joined r k.sound;
  }

  either-Keeps :
      (b joined : Bool) {q r : ActorRuntime S G I O E Q}
      → Keeps q r
      → Keeps q
          (if◌then◌else◌ {A = Bool × ActorRuntime S G I O E Q} b
            (false, r)
            (true, finish env timer handlers joined r)).1
  either-Keeps true joined k = k
  either-Keeps false joined {q} {r} k = finish-Keeps joined k

  pub after_routine-Keeps :
      (joined : Bool) {q r : ActorRuntime S G I O E Q}
      → Keeps q r
      → Keeps q (after_routine env timer handlers joined r).1
  unfolding after_routine
  after_routine-Keeps joined {q} {r} k = either-Keeps r.process.ctx.alive joined k

  after_awake-Keeps :
      (outcome : Outcome E) (joined : Bool) {q r : ActorRuntime S G I O E Q}
      → Keeps q r
      → Keeps q (after_awake env timer handlers outcome [] joined r).1
  unfolding after_awake routine
  after_awake-Keeps (ok u) joined k = after_routine-Keeps joined k
  after_awake-Keeps (err e) joined k = finish-Keeps joined k

  -- With the static sequence of its groups.
  abbrev pub sequenced : List G → Process G O E → Process G O E
  sequenced sequence p = record p {
    ctx = record p.ctx {
      lifetime_tracker = Lifecycle.termination_sequence env.hashing p.ctx.lifetime_tracker sequence;
    };
  }

  sequenced-Grows : (sequence : List G) (p : Process G O E) → Grows env p (sequenced sequence p)
  unfolding Lifecycle.termination_sequence Lifecycle.is_finished
  sequenced-Grows sequence p = record {
    address = refl;
    heap = omega arith;
    kept = λ id h. h;
    noted = λ b s id h. h;
    registered = λ b s id h. inl h;
    known = λ id h. inl h;
    waiting = λ w. w;
  }

  pub sequenced-IsSound :
      (sequence : List G) (p : Process G O E) → IsSound env p → IsSound env (sequenced sequence p)
  unfolding Lifecycle.termination_sequence
  sequenced-IsSound sequence p s = record {
    consistent = sequenced-IsConsistent env.hashing p.ctx.lifetime_tracker sequence s.consistent;
    own = s.own;
    allocated = s.allocated;
  }

  -- The first handler, up to the first turn.
  pub entrypoint-Keeps :
      (sequence : List G) (joined : Bool) (r : ActorRuntime S G I O E Q)
      → IsSound env r.process
      → Keeps r (entrypoint env timer handlers sequence [] joined r).1
  unfolding entrypoint
  entrypoint-Keeps sequence joined r s =
      let p = sequenced sequence r.process in
      let sound = sequenced-IsSound sequence r.process s in
      let ran = run env (handle handlers awake r.actor) p in
      after_awake-Keeps ran.1 joined {q = r} {r = record r { actor = ran.0; process = ran.2 }}
        (record {
          advances = record {
            grows =
                Grows-trans env (sequenced-Grows sequence r.process)
                  (run-Grows env (handle handlers awake r.actor) p sound);
            notifier = refl;
          };
          sound = run-IsSound env (handle handlers awake r.actor) p sound;
        })
