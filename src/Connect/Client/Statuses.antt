-- ===== src/Connect/Client/Statuses.antt =====
-- What the actor of a web socket client gets to see.
use meio.Prelude.{
  ℕ, ◌≡◌, Bool, true, false, Option, none, some, List, [], ◌∷◌, ◌++◌, ok, err, arith, ◌⊎◌, inl, inr,
  Result-cases, if◌then◌else◌,
}
use meio.Handlers.{Error, task_stopped, unsent, Outcome}
use meio.Connect.Client.{
  WsFailReason, Cause, WsClientStatus, connected, failed, Round, Connected, returns, fails,
  after_talk, connect, pause, Progress, resume, settle, connection_routine,
}

-- A connection is reported only while there is none, and every failed one is reported before the
-- next: the flag says whether there is a connection.
abbrev pub IsAlternating : Bool → List WsClientStatus → Type 0
IsAlternating on [] = Unit {0}
IsAlternating false (connected ∷ ss) = IsAlternating true ss
IsAlternating true (connected ∷ ss) = ⊥
IsAlternating on (failed reason ∷ ss) = IsAlternating false ss

-- The statuses of one round, before its failure.
data IsOpening : List WsClientStatus → Type 0 where
  nothing : IsOpening []
  opened : IsOpening (connected ∷ [])

IsOpening-alone : {ss : List WsClientStatus} → IsOpening ss → IsAlternating false ss
IsOpening-alone nothing = tt
IsOpening-alone opened = tt

IsOpening-failed :
    {ss : List WsClientStatus} (reason : WsFailReason) (more : List WsClientStatus)
    → IsOpening ss
    → IsAlternating false more
    → IsAlternating false (ss ++ failed reason ∷ more)
IsOpening-failed reason more nothing a = a
IsOpening-failed reason more opened a = a

module _ {E : Type 0} where
  opening_if :
      (taken : Bool) (a b : Connected E)
      → IsOpening
          (if◌then◌else◌ {A = Connected E × List WsClientStatus} taken
            (a, connected ∷ [])
            (b, [])).1
  opening_if true a b = opened
  opening_if false a b = nothing

  connect-IsOpening : (r : Round E) → IsOpening (connect r).1
  unfolding connect
  connect-IsOpening r = elim (Result-cases r.connection) [
    | inl (u, e) ↦
        rw (e, connect) (opening_if r.takes_connected (after_talk r.talk) (returns (err unsent)))
    | inr (x, e) ↦ rw (e, connect) nothing
  ]

  resume-IsAlternating :
      (reason : WsFailReason) (ss : List WsClientStatus) (p : Option (Outcome (Cause E)))
      (next : Progress E)
      → IsOpening ss
      → IsAlternating false next.1
      → IsAlternating false (resume reason ss p next).1
  unfolding resume
  resume-IsAlternating reason ss (some out) next o a = IsOpening-failed reason [] o tt
  resume-IsAlternating reason ss none next o a = IsOpening-failed reason next.1 o a

  settle-IsAlternating :
      (c : Connected E) (ss : List WsClientStatus) (taken : Bool)
      (paused : Error (Cause E) → Option (Outcome (Cause E))) (next : Progress E)
      → IsOpening ss
      → IsAlternating false next.1
      → IsAlternating false (settle c ss taken paused next).1
  unfolding settle
  settle-IsAlternating (returns out) ss taken paused next o a = IsOpening-alone o
  settle-IsAlternating (fails reason original) ss false paused next o a = IsOpening-alone o
  settle-IsAlternating (fails reason original) ss true paused next o a =
      resume-IsAlternating reason ss (paused original) next o a

  alive-IsAlternating :
      (alive : Bool) (body : Progress E)
      → IsAlternating false body.1
      → IsAlternating false (if◌then◌else◌ {A = Progress E} alive body (some (ok tt), [])).1
  alive-IsAlternating true body a = a
  alive-IsAlternating false body a = tt

  -- Over any rounds, the actor sees connections and failures in turn: never two connections without
  -- the failure of the first between them.
  pub connection_routine-IsAlternating :
      (repeat_interval : Option ℕ) (rs : List (Round E))
      → IsAlternating false (connection_routine repeat_interval rs).1
  unfolding connection_routine
  connection_routine-IsAlternating interval [] = tt
  connection_routine-IsAlternating interval (r ∷ rs) =
      alive-IsAlternating r.is_alive
        (settle (connect r).0 (connect r).1 r.takes_failed (λ e. pause interval e r)
          (connection_routine interval rs))
        (settle-IsAlternating (connect r).0 (connect r).1 r.takes_failed (λ e. pause interval e r)
          (connection_routine interval rs) (connect-IsOpening r)
          (connection_routine-IsAlternating interval rs))

  -- With a repeat interval, a failed connection never ends the loop: it ends with an error only if
  -- the actor is gone, or if the task is stopped while it waits.
  pub connection_routine_errors :
      (dur : ℕ) (rs : List (Round E)) (e : Error (Cause E))
      → (connection_routine (some dur) rs).0 ≡ some (err e)
      → ((e ≡ unsent) ⊎ (e ≡ task_stopped))
  unfolding connection_routine
  connection_routine_errors dur [] e h = cc
  connection_routine_errors dur (r ∷ rs) e h = ground (arith, connection_routine_errors dur rs e)
