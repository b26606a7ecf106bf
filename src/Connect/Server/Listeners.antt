-- ===== src/Connect/Server/Listeners.antt =====
-- The listener task of the server, with its restarts.
use meio.Prelude.{
  ℕ, suc, ◌+◌, ◌≤◌, ◌≡◌, refl, Bool, true, false, Option, none, some, List, [], ◌∷◌, Result, ok,
  err, arith, ◌||◌, ◌&&◌, ◌==◌, not, if◌then◌else◌,
}
use meio.Handlers.{TaskError}
use meio.Connect.Bind.{BindMessage, restart_at}
use meio.Connect.Server.{
  Slab, HttpServer, Action, spawn_listener, schedule_restart, answer, shutdown, ServerMessage,
  started, interrupted, restart_listener, add_route, about_address, task_over, new, on_server,
  restart, start_http_listener, insert_route,
}

-- How many listeners, and how many restarts, the actions of a handler ask for.
abbrev listeners_of : {A : Type 0} → List (Action A) → ℕ
listeners_of [] = 0
listeners_of (spawn_listener a ∷ as') = suc (listeners_of as')
listeners_of (schedule_restart n ∷ as') = listeners_of as'
listeners_of (answer x ∷ as') = listeners_of as'
listeners_of (shutdown ∷ as') = listeners_of as'

abbrev restarts_of : {A : Type 0} → List (Action A) → ℕ
restarts_of [] = 0
restarts_of (spawn_listener a ∷ as') = restarts_of as'
restarts_of (schedule_restart n ∷ as') = suc (restarts_of as')
restarts_of (answer x ∷ as') = restarts_of as'
restarts_of (shutdown ∷ as') = restarts_of as'

-- Whether a handler calls `ctx.shutdown()`.
abbrev shuts : {A : Type 0} → List (Action A) → Bool
shuts [] = false
shuts (spawn_listener a ∷ as') = shuts as'
shuts (schedule_restart n ∷ as') = shuts as'
shuts (answer x ∷ as') = shuts as'
shuts (shutdown ∷ as') = true

-- The server with its listener tasks that run, and its `RestartListener` messages that wait in its
-- delay queue, with what its context and its tracker say.
pub record Site (A Q : Type 0) : Type 0 where
  pub server : HttpServer A Q
  pub running : ℕ
  pub waiting : ℕ
  pub is_terminating : Bool
  pub alive : Bool

module _ {A R Q : Type 0} (O E : Type 0) (slab : Slab R Q) where
  -- A handler runs, with the listeners and the restarts that are left when its message has been
  -- taken, and with whether the actor is in termination. In termination, the actor stops when it has
  -- no listener, and its delay queue is dropped.
  unfoldable pub handled : ServerMessage A R O E → ℕ → ℕ → Bool → HttpServer A Q → Site A Q
  handled m running waiting is_terminating s =
      let (s', actions) = on_server slab m s in
      let running' = running + listeners_of actions in
      let closing = is_terminating || shuts actions in
      let stops = closing && (running' == 0) in
      record {
        server = s';
        running = running';
        waiting = (if stops then 0 else waiting + restarts_of actions);
        is_terminating = closing;
        alive = not stops;
      }

  -- What happens after the server was spawned and while it is not stopped: a listener that runs ends,
  -- a restart that waits is due, or another message comes.
  pub data Happens (s : Site A Q) : Site A Q → Type 0 where
    listener_over :
        (n : ℕ) (result : Result O (TaskError E)) (now : ℕ)
        → s.alive ≡ true
        → s.running ≡ suc n
        → Happens s
            (handled (task_over s.is_terminating result now) n s.waiting s.is_terminating s.server)
    restart_due :
        (n : ℕ)
        → s.alive ≡ true
        → s.waiting ≡ suc n
        → Happens s (handled restart_listener s.running n s.is_terminating s.server)
    interrupt_comes :
        s.alive ≡ true
        → Happens s (handled interrupted s.running s.waiting s.is_terminating s.server)
    route_comes :
        (r : R)
        → s.alive ≡ true
        → Happens s (handled (add_route r) s.running s.waiting s.is_terminating s.server)
    address_comes :
        (m : BindMessage A)
        → s.alive ≡ true
        → Happens s (handled (about_address m) s.running s.waiting s.is_terminating s.server)

  pub data Reaches (addr : A) (interval : Option ℕ) : Site A Q → Type 0 where
    start : Reaches addr interval (handled started 0 0 false (new slab addr interval))
    followed : {s t : Site A Q} → Reaches addr interval s → Happens s t → Reaches addr interval t

  over_counts :
      (addr : A) (is_terminating : Bool) (interval : Option ℕ) (result : Result O (TaskError E))
      (now : ℕ)
      → let actions = restart {A = A} slab (restart_at is_terminating interval result now) in
        (listeners_of actions ≡ 0) × (restarts_of actions ≤ 1)
  unfolding restart restart_at
  over_counts addr is_terminating interval (ok res) now = (refl, omega arith)
  over_counts addr is_terminating none (err e) now = (refl, omega arith)
  over_counts addr true (some n) (err e) now = (refl, omega arith)
  over_counts addr false (some n) (err e) now = (refl, omega arith)

  -- A handler leaves at most what was left and what its actions ask for, and a stopped actor has
  -- neither listeners nor restarts.
  handled_counts :
      (m : ServerMessage A R O E) (running waiting : ℕ) (b : Bool) (s : HttpServer A Q)
      → let t = handled m running waiting b s in
        let actions = (on_server slab m s).1 in
        (t.running ≡ running + listeners_of actions)
        × (t.waiting ≤ waiting + restarts_of actions)
        × (t.alive ≡ false → t.running + t.waiting ≡ 0)
  unfolding handled
  handled_counts m running waiting b s = (refl, ground arith, ground arith)

  -- What a site has after a step.
  abbrev Bounded : ℕ → Site A Q → Type 0
  Bounded n t = (t.running + t.waiting ≤ n) × (t.alive ≡ false → t.running + t.waiting ≡ 0)

  step_counts : {s t : Site A Q} → Happens s t → Bounded (s.running + s.waiting) t
  unfolding on_server start_http_listener
  step_counts {s} (listener_over n result now on e) =
      let (no_listener, one_restart) =
        over_counts s.server.addr s.is_terminating s.server.retry_interval result now in
      let (same, less, over) =
        handled_counts (task_over s.is_terminating result now) n s.waiting s.is_terminating
          s.server in
      (omega (arith, no_listener, one_restart, same, less, e), over)
  step_counts {s} (restart_due n on e) =
      let (same, less, over) =
        handled_counts restart_listener s.running n s.is_terminating s.server in
      (omega (arith, same, less, e), over)
  step_counts {s} (interrupt_comes on) =
      let (same, less, over) =
        handled_counts interrupted s.running s.waiting s.is_terminating s.server in
      (omega (arith, same, less), over)
  step_counts {s} (route_comes r on) =
      let (same, less, over) =
        handled_counts (add_route r) s.running s.waiting s.is_terminating s.server in
      (omega (arith, same, less), over)
  step_counts {s} (address_comes m on) =
      let (same, less, over) =
        handled_counts (about_address m) s.running s.waiting s.is_terminating s.server in
      (omega (arith, same, less), over)

  counted : {addr : A} {interval : Option ℕ} {s : Site A Q} → Reaches addr interval s → Bounded 1 s
  unfolding handled on_server start_http_listener
  counted start = (omega arith, λ e. cc)
  counted (followed reached step) =
      let (less, over) = step_counts step in (omega (arith, (counted reached).0, less), over)

  -- A listener that ends has failed, and the server is not interrupted.
  abbrev pub Fails : {s t : Site A Q} → Happens s t → Type 0
  Fails (listener_over n (err e) now on h) = Unit {0}
  Fails (listener_over n (ok res) now on h) = ⊥
  Fails (restart_due n on h) = Unit {0}
  Fails (interrupt_comes on) = ⊥
  Fails (route_comes r on) = Unit {0}
  Fails (address_comes m on) = Unit {0}

  abbrev pub AllFail :
      {addr : A} {interval : Option ℕ} {s : Site A Q} → Reaches addr interval s → Type 0
  AllFail start = Unit {0}
  AllFail (followed reached step) = AllFail reached × Fails step

  -- A server that was not interrupted, with its retry interval.
  abbrev Goes : ℕ → Site A Q → Type 0
  Goes n s =
      (s.server.retry_interval ≡ some n) × (s.is_terminating ≡ false) × (s.running + s.waiting ≡ 1)

  step_Goes : {s t : Site A Q} (n : ℕ) (step : Happens s t) → Goes n s → Fails step → Goes n t
  unfolding handled on_server insert_route start_http_listener restart restart_at
  step_Goes n (listener_over k (err e) now on h) (i, b, c) f =
      (i, rw (b, i) refl, rw (b, i) (omega (arith, h, c)))
  step_Goes n (listener_over k (ok res) now on h) g f = absurd f
  step_Goes n (restart_due k on h) (i, b, c) f = (i, rw b refl, rw b (omega (arith, h, c)))
  step_Goes n (interrupt_comes on) g f = absurd f
  step_Goes n (route_comes r on) (i, b, c) f = (i, rw b refl, rw b (omega (arith, c)))
  step_Goes n (address_comes m on) (i, b, c) f = (i, rw b refl, rw b (omega (arith, c)))

  kept :
      {addr : A} {interval : Option ℕ} {s : Site A Q} (reached : Reaches addr interval s) (n : ℕ)
      → interval ≡ some n
      → AllFail reached
      → Goes n s
  unfolding handled on_server start_http_listener new
  kept start n i f = (i, refl, refl)
  kept (followed reached step) n i f = step_Goes n step (kept reached n i f.0) f.1

  -- Whatever happens to a server after it was spawned, at most one listener task runs or waits for its
  -- restart, so no two listeners contend for the address of the server, and none does either once the
  -- server has stopped. If there is a retry interval, then, as long as the server was not interrupted
  -- and listeners ended only by a failure, exactly one runs or waits.
  pub one_listener :
      {addr : A} {interval : Option ℕ} {s : Site A Q} (reached : Reaches addr interval s)
      → (s.running + s.waiting ≤ 1)
        × (s.alive ≡ false → s.running + s.waiting ≡ 0)
        × ((n : ℕ) → interval ≡ some n → AllFail reached → s.running + s.waiting ≡ 1)
  one_listener reached = ((counted reached).0, (counted reached).1, λ n i f. (kept reached n i f).2)
