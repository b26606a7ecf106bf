-- ===== src/Thread/Drop.antt =====
-- The drop of a `ScopedRuntime` of meio/src/thread.rs, in every interleaving of the two threads.
use meio.Prelude.{ℕ, ◌+◌, ◌<◌, ◌≡◌, ◌≢◌, refl, Bool, true, false, ◌⊎◌, inl, inr, arith}
use meio.Thread.{
  Scope, starting, running, leaving, over, broken, Handle, held, locking, dropped, State, at_state,
  ScopeStep, fail, lock, interrupt, refuse, join, DropStep, notify, unsent, acquire, Step, in_scope,
  in_drop, end_running, end_leaving, Reaches, here, then,
}

-- The actor was spawned, and the blocker is locked.
abbrev IsLive : Scope → Type 0
IsLive s = (s ≡ running) ⊎ (s ≡ leaving)

-- The scope is over and the actor has ended, or it is there, the blocker is locked, and the handle is
-- not behind its drop.
abbrev Guarded : State → Type 0
Guarded s =
    ((s.scope ≡ over) × (s.term.is_locked ≡ false) × (s.is_ended ≡ true))
    ⊎ (IsLive s.scope × (s.term.is_locked ≡ true) × (s.handle ≢ dropped))

scope-Guarded : {a b : State} → ScopeStep a b → Guarded a → Guarded b
scope-Guarded fail g = ground arith
scope-Guarded lock g = ground arith
scope-Guarded interrupt g = ground arith
scope-Guarded refuse g = inl (refl, refl, refl)
scope-Guarded join g = inl (refl, refl, refl)

drop-Guarded : {a b : State} → DropStep a b → Guarded a → Guarded b
drop-Guarded (notify ne) g = ground arith
drop-Guarded unsent g = ground arith
drop-Guarded acquire g = ground arith

step-Guarded : {a b : State} → Step a b → Guarded a → Guarded b
step-Guarded (in_scope s) g = scope-Guarded s g
step-Guarded (in_drop s) g = drop-Guarded s g
step-Guarded end_running g = ground arith
step-Guarded end_leaving g = ground arith

-- The state of a runtime whose actor was spawned before the handle is dropped.
abbrev pub started : State
started = at_state running held true false false

Reaches-Guarded : {s : State} → Reaches started s → Guarded s
Reaches-Guarded here = ground arith
Reaches-Guarded (then past step) = step-Guarded step (Reaches-Guarded past)

-- If the handle is dropped after the actor was spawned, the drop returns only when the actor has
-- ended and the scope is over, in every interleaving of the two threads.
pub drop_waits :
    {s : State} → Reaches started s → s.handle ≡ dropped → (s.is_ended ≡ true) × (s.scope ≡ over)
drop_waits past e = ground (arith, Reaches-Guarded past)

-- A drop that has begun has sent the notification.
abbrev Notified : State → Type 0
Notified s = (s.handle ≡ held) ⊎ (s.term.is_notified ≡ true)

step-Notified : {a b : State} → Step a b → Guarded a → Notified a → Notified b
step-Notified (in_scope fail) g h = ground arith
step-Notified (in_scope lock) g h = ground arith
step-Notified (in_scope interrupt) g h = inr refl
step-Notified (in_scope refuse) g h = inr refl
step-Notified (in_scope join) g h = ground arith
step-Notified (in_drop (notify ne)) g h = inr refl
step-Notified (in_drop unsent) g h = ground arith
step-Notified (in_drop acquire) g h = ground arith
step-Notified end_running g h = ground arith
step-Notified end_leaving g h = ground arith

Reaches-Notified : {s : State} → Reaches started s → Notified s
Reaches-Notified here = inl refl
Reaches-Notified (then past step) =
    step-Notified step (Reaches-Guarded past) (Reaches-Notified past)

-- How many steps are left at most.
abbrev scope_left : Scope → ℕ
scope_left starting = 3
scope_left running = 2
scope_left leaving = 1
scope_left over = 0
scope_left broken = 0

abbrev handle_left : Handle → ℕ
handle_left held = 2
handle_left locking = 1
handle_left dropped = 0

abbrev actor_left : Bool → ℕ
actor_left true = 0
actor_left false = 1

abbrev pub steps_left : State → ℕ
steps_left s = scope_left s.scope + handle_left s.handle + actor_left s.is_ended

step-steps_left : {a b : State} → Step a b → steps_left b < steps_left a
step-steps_left (in_scope fail) = omega arith
step-steps_left (in_scope lock) = omega arith
step-steps_left (in_scope interrupt) = omega arith
step-steps_left (in_scope refuse) = omega arith
step-steps_left (in_scope join) = omega arith
step-steps_left (in_drop (notify ne)) = omega arith
step-steps_left (in_drop unsent) = omega arith
step-steps_left (in_drop acquire) = omega arith
step-steps_left end_running = omega arith
step-steps_left end_leaving = omega arith

-- A step that the two threads take themselves, whatever the actor does.
abbrev pub CanGo : State → Type 0
CanGo a = ((b : State) × ScopeStep a b) ⊎ ((b : State) × DropStep a b)

-- The actor was interrupted, and both threads wait until it has ended.
abbrev pub waiting_state : State
waiting_state = at_state leaving locking true true false

next_step :
    (s : Scope) (h : Handle) (l n e : Bool)
    → Guarded (at_state s h l n e)
    → Notified (at_state s h l n e)
    → h ≢ dropped
    → CanGo (at_state s h l n e) ⊎ (at_state s h l n e ≡ waiting_state)
next_step starting h l n e g m ne = absurd (ground arith)
next_step broken h l n e g m ne = absurd (ground arith)
next_step running held l n e g m ne = inl (inr (_, notify (λ p. cc)))
next_step leaving held l n e g m ne = inl (inr (_, notify (λ p. cc)))
next_step over held l n e g m ne = inl (inr (_, notify (λ p. cc)))
next_step running locking l true e g m ne = inl (inl (_, interrupt))
next_step running locking l false e g m ne = absurd (ground arith)
next_step leaving locking l n true g m ne = inl (inl (_, join))
next_step leaving locking true true false g m ne = inr refl
next_step leaving locking false n false g m ne = absurd (ground arith)
next_step leaving locking true false false g m ne = absurd (ground arith)
next_step over locking false n e g m ne = inl (inr (_, acquire))
next_step over locking true n e g m ne = absurd (ground arith)
next_step s dropped l n e g m ne = absurd (ne refl)

-- The two threads do not block each other, and do not go on for ever: after the actor was spawned,
-- as long as the drop of the handle has not returned, one of the threads can take a step, unless both
-- wait for the end of an actor that was interrupted; and every step that is taken leaves fewer.
pub drop_proceeds :
    {s : State}
    → Reaches started s
    → s.handle ≢ dropped
    → (CanGo s ⊎ (s ≡ waiting_state)) × ((t : State) → Step s t → steps_left t < steps_left s)
drop_proceeds {s} past ne = (
  next_step s.scope s.handle s.term.is_locked s.term.is_notified s.is_ended (Reaches-Guarded past)
      (Reaches-Notified past) ne,
  λ t step. step-steps_left step,
)
