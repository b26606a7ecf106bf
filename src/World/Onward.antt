-- ===== src/World/Onward.antt =====
-- A runtime of the world goes on, perhaps to its end: the trackers still agree with the world.
use meio.Prelude.{
  ap, ◌≡◌, refl, Bool, true, false, Option, none, some, arith, ℕ_discrete, if◌then◌else◌,
}
use meio.Prelude.Set
use meio.Ids.{Ident}
use meio.Lifecycle.{notify}
use meio.Handlers.{Handlers, Message}
use meio.Context.{Environment, done_notifier, done_of}
use meio.Runtime.{TimerQueue, ActorRuntime}
use meio.World.{World, is_pending, reports_of, put, resume, settle, close, arise}
use meio.World.Ends.{Keeps}
use meio.World.Tidy.{IsTidy, settle-IsTidy, close-IsTidy}

module _ {S G I O E Q : Type 0} (env : Environment G O E) (timer : TimerQueue (Message I O E) Q)
    (handlers : Handlers S G I O E) where
  -- The reports of an actor that was spawned with a supervisor, or without.
  pub reports_own :
      {P : Type 0} (id : Ident) (supervisor : Option Ident) (p : P) (s k : Ident)
      → is_pending s k (reports_of (notify (done_notifier id supervisor) p)) ≡ true
      → k ≡ id
  unfolding is_pending reports_of notify done_notifier
  reports_own id none p s k e = cc
  reports_own id (some t) p s k e = ground arith

  pub reports_there :
      {P : Type 0} (id : Ident) (supervisor : Option Ident) (p : P) (s : Ident)
      → supervisor ≡ some s
      → is_pending s id (reports_of (notify (done_notifier id supervisor) p)) ≡ true
  unfolding is_pending reports_of notify done_notifier
  reports_there id none p s e = cc
  reports_there id (some t) p s e = ground arith

  -- The end of a runtime of the world.
  over-IsTidy :
      {P : Type 0} (w : World S G I O E Q) (id : Ident) (r : ActorRuntime S G I O E Q) (p : P)
      → IsTidy env w
      → w.runtimes id ≡ some r
      → Set.contains ℕ_discrete id w.ended ≡ false
      → IsTidy env (close w id (notify r.done_notifier p))
  over-IsTidy w id r p tidy there alive =
      let (supervisor, notifier, born) = (tidy.members id r there).reporting in
      rw notifier (
        close-IsTidy env w id supervisor false (notify (done_notifier id supervisor) p) tidy born
          alive (λ s k. reports_own id supervisor p s k) (λ s. reports_there id supervisor p s))

  if-IsTidy :
      (b : Bool) (w w' : World S G I O E Q)
      → (b ≡ true → IsTidy env w)
      → IsTidy env w'
      → IsTidy env (if b then w else w')
  if-IsTidy true w w' f g = f refl
  if-IsTidy false w w' f g = g

  -- A runtime goes on, and perhaps to its end.
  pub arise-IsTidy :
      (w : World S G I O E Q) (id : Ident) (r : ActorRuntime S G I O E Q)
      (x : Bool × ActorRuntime S G I O E Q)
      → IsTidy env w
      → w.runtimes id ≡ some r
      → Set.contains ℕ_discrete id w.ended ≡ false
      → Keeps env timer handlers (resume w r) x.1
      → IsTidy env (arise w id x)
  unfolding arise resume settle put
  arise-IsTidy w id r x tidy there alive k =
      let next =
        settle-IsTidy env w id r x.1 tidy there k.advances.grows k.sound k.advances.notifier in
      if-IsTidy x.0 _ _
        (λ _. over-IsTidy (settle w id x.1) id x.1 (done_of x.1.id) next (ground arith) alive) next

  put-put :
      (id : Ident) (x r : ActorRuntime S G I O E Q) (f : Ident → Option (ActorRuntime S G I O E Q))
      → put id x (put id r f) ≡ put id x f
  unfolding put
  put-put id x r f = λ i k. at k i
    where
      at : (k : Ident) → put id x (put id r f) k ≡ put id x f k
      at k = ground arith

  -- A runtime that is put into the world before it goes on.
  pub arise-settle :
      (w : World S G I O E Q) (id : Ident) (r : ActorRuntime S G I O E Q)
      (x : Bool × ActorRuntime S G I O E Q)
      → arise (settle w id r) id x ≡ arise w id x
  unfolding arise settle close
  arise-settle w id r (is_over, x) =
      ap
        (λ f.
          let w' = record w { heap = x.process.heap; log = x.process.log; runtimes = f } in
          if is_over then close w' id (notify x.done_notifier (done_of x.id)) else w')
        (put-put id x r w.runtimes)

  pub arise_there :
      (w : World S G I O E Q) (id : Ident) (x : Bool × ActorRuntime S G I O E Q)
      → (arise w id x).runtimes id ≡ some x.1
  unfolding arise settle close put
  arise_there w id (true, r) = ground arith
  arise_there w id (false, r) = ground arith
