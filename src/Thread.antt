-- ===== src/Thread.antt =====
-- meio/src/thread.rs: an actor in a thread of its own, and the drop of its `ScopedRuntime`. The two
-- threads share the notifier, a oneshot channel, and the blocker, a mutex: a step is what one of them
-- does up to its next use of these, or the end of the actor.
pub mod Drop
use meio.Prelude.{◌≡◌, ◌≢◌, Bool, true, false, Result, ok, err}

-- Where `entrypoint` is: before the lock of the blocker, at the notifier with the actor spawned, at
-- the join of the interrupted actor, behind the drop of the guard; or its thread has failed before.
pub data Scope : Type 0 where
  starting running leaving over broken : Scope

-- Where `ScopedRuntime` is: not dropped, at the lock of the blocker, behind the drop.
pub data Handle : Type 0 where
  held locking dropped : Handle

-- `term`: what the two threads share.
pub record Term : Type 0 where
  pub is_locked : Bool
  pub is_notified : Bool

unfoldable pub channel : Term
channel = record { is_locked = false; is_notified = false }

-- The two threads, with whether the actor has released its joiners.
pub record State : Type 0 where
  pub scope : Scope
  pub handle : Handle
  pub term : Term
  pub is_ended : Bool

-- `spawn`, with what the spawn of the thread gives.
unfoldable pub spawn : {E : Type 0} → Result (Unit {0}) E → Result State E
unfolding channel
spawn (ok u) = ok (record { scope = starting; handle = held; term = channel; is_ended = false })
spawn (err e) = err e

abbrev pub at_state : Scope → Handle → Bool → Bool → Bool → State
at_state s h l n e = record {
  scope = s;
  handle = h;
  term = record { is_locked = l; is_notified = n };
  is_ended = e;
}

-- A step of the thread of the actor: the failure of its runtime, then `entrypoint`. The interruption
-- is refused only when the actor has ended, and then the guard is dropped with the error.
pub data ScopeStep : State → State → Type 0 where
  fail :
      {h : Handle} {l n e : Bool} → ScopeStep (at_state starting h l n e) (at_state broken h l n e)
  lock :
      {h : Handle} {n e : Bool}
      → ScopeStep (at_state starting h false n e) (at_state running h true n e)
  interrupt :
      {h : Handle} {l e : Bool}
      → ScopeStep (at_state running h l true e) (at_state leaving h l true e)
  refuse :
      {h : Handle} {l : Bool}
      → ScopeStep (at_state running h l true true) (at_state over h false true true)
  join :
      {h : Handle} {l n : Bool}
      → ScopeStep (at_state leaving h l n true) (at_state over h false n true)

-- A step of `drop`.
pub data DropStep : State → State → Type 0 where
  notify :
      {s : Scope} {l n e : Bool}
      → s ≢ broken
      → DropStep (at_state s held l n e) (at_state s locking l true e)
  unsent : {l n e : Bool} → DropStep (at_state broken held l n e) (at_state broken dropped l n e)
  acquire :
      {s : Scope} {n e : Bool}
      → DropStep (at_state s locking false n e) (at_state s dropped false n e)

-- A step of the two threads, or the end of the actor once it is spawned: when, and whether, an actor
-- ends is up to its handlers.
pub data Step : State → State → Type 0 where
  in_scope : {a b : State} → ScopeStep a b → Step a b
  in_drop : {a b : State} → DropStep a b → Step a b
  end_running :
      {h : Handle} {l n : Bool} → Step (at_state running h l n false) (at_state running h l n true)
  end_leaving :
      {h : Handle} {l n : Bool} → Step (at_state leaving h l n false) (at_state leaving h l n true)

pub data Reaches (a : State) : State → Type 0 where
  here : Reaches a a
  then : {b c : State} → Reaches a b → Step b c → Reaches a c
