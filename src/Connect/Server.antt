-- ===== src/Connect/Server.antt =====
-- meio-connect/src/server/mod.rs, routine.rs and link.rs, with the table of route.rs: the actor
-- `HttpServer` and the listener task that it starts. The handlers about its address are those of
-- `Bind`. `Slab` is a crate's; the sockets and the connections are hyper's, and what they answer is an
-- argument.
pub mod Listeners
pub mod Tables
use meio.Prelude.{
  ℕ, ◌≡◌, Bool, true, false, Option, none, some, List, [], ◌∷◌, ◌++◌, Result, ok, err,
  if◌then◌else◌,
}
use meio.Handlers.{TaskError}
use meio.Connect.Bind.{
  AddrState, default, BindMessage, wait_for_address, addr_ready, Answers, on_message, restart_at,
}
use meio.Connect.Route.{Http, Request, Response, Route, call}

-- What the table relies on in `Slab`, from which nothing is removed: an iteration lists the entries
-- in the order in which they were inserted.
pub record Slab (R Q : Type 0) : Type 0 where
  pub new_slab : Q
  pub insert : R → Q → Q
  pub iter : Q → List R
  pub iter-new_slab : iter new_slab ≡ []
  pub iter-insert : (r : R) (q : Q) → iter (insert r q) ≡ iter q ++ r ∷ []

-- `HttpServer`, with what the `Arc` of its `RoutingTable` holds: the listeners and the services have
-- clones of it, so they read this table. `A` is `SocketAddr`, `Q` the table.
pub record HttpServer (A Q : Type 0) : Type 0 where
  pub addr : A
  pub addr_state : AddrState A
  pub routing_table : Q
  pub retry_interval : Option ℕ

-- What the handlers do besides: a listener task is spawned for an address, a `RestartListener` is
-- scheduled, responders are sent the address, the actor shuts down.
pub data Action (A : Type 0) : Type 0 where
  spawn_listener : A → Action A
  schedule_restart : ℕ → Action A
  answer : Answers A → Action A
  shutdown : Action A

-- The messages of the server. For `task_over` there are the result of the listener, whether the
-- actor is in termination, and the time.
pub data ServerMessage (A R O E : Type 0) : Type 0 where
  started interrupted restart_listener : ServerMessage A R O E
  add_route : R → ServerMessage A R O E
  about_address : BindMessage A → ServerMessage A R O E
  task_over : Bool → Result O (TaskError E) → ℕ → ServerMessage A R O E

module _ {A R Q : Type 0} (slab : Slab R Q) where
  -- `HttpServer::new`.
  unfoldable pub new : A → Option ℕ → HttpServer A Q
  new addr retry_interval = record {
    addr = addr;
    addr_state = default;
    routing_table = slab.new_slab;
    retry_interval = retry_interval;
  }

  unfoldable pub insert_route : R → HttpServer A Q → HttpServer A Q
  insert_route route s = record s { routing_table = slab.insert route s.routing_table }

  unfoldable pub start_http_listener : HttpServer A Q → List (Action A)
  start_http_listener s = spawn_listener s.addr ∷ []

  -- `ctx.address().schedule(RestartListener, when)`, if there is such a time.
  unfoldable pub restart : Option ℕ → List (Action A)
  restart none = []
  restart (some when) = schedule_restart when ∷ []

  -- `Scheduled<RestartListener>`.
  unfoldable pub on_restart_listener : HttpServer A Q → List (Action A)
  unfolding start_http_listener
  on_restart_listener s = start_http_listener s

  -- The handler of each message.
  unfoldable pub on_server :
      {O E : Type 0} → ServerMessage A R O E → HttpServer A Q → HttpServer A Q × List (Action A)
  unfolding insert_route start_http_listener on_restart_listener restart
  on_server started s = (s, start_http_listener s)
  on_server interrupted s = (s, shutdown ∷ [])
  on_server restart_listener s = (s, on_restart_listener s)
  on_server (add_route route) s = (insert_route route s, [])
  on_server (about_address m) s =
      let (state, answers) = on_message m s.addr_state in
      (record s { addr_state = state }, answer answers ∷ [])
  on_server (task_over is_terminating result now) s =
      (s, restart (restart_at is_terminating s.retry_interval result now))

  -- The messages in turn.
  unfoldable pub serve_all :
      {O E : Type 0} → List (ServerMessage A R O E) → HttpServer A Q → HttpServer A Q
  unfolding on_server
  serve_all [] s = s
  serve_all (m ∷ ms) s = serve_all ms (on_server m s).0

-- `Svc`, with the address of the client.
pub record Svc (A : Type 0) : Type 0 where
  pub addr : A

-- `MakeSvc::call`, for a connection of the address.
unfoldable pub make_svc : {A : Type 0} → A → Svc A
make_svc remote_addr = record { addr = remote_addr }

-- `Svc::call` with the routes that the shared table has at that time.
unfoldable pub serve_request :
    {P F T E A Q : Type 0}
    → Http P F T E
    → Slab (Route A P T E) Q
    → Svc A
    → HttpServer A Q
    → Request P
    → Response P
unfolding call
serve_request h slab svc s req = call h svc.addr (slab.iter s.routing_table) req

-- One poll of `future::select(delayed_stop, server_fut)`: whether the five seconds after the stop
-- signal are over, and what the server gives.
pub record Served (E : Type 0) : Type 0 where
  pub stopped : Bool
  pub served : Option (Result (Unit {0}) E)

-- The select; `none` while both are pending.
unfoldable pub select_server : {E : Type 0} → List (Served E) → Option (Result (Unit {0}) E)
select_server [] = none
select_server (p ∷ ps) = elim p.stopped [
  | true ↦ some (ok tt)
  | false ↦ elim p.served [ some r ↦ some r | none ↦ select_server ps ]
]

-- `HyperRoutine::routine`, from what `try_bind` gives, the address of the socket or an error, and
-- whether the owner takes the `AddrReady`: the addresses that are sent, and the result. `unsent` is
-- the error of a send.
unfoldable pub hyper_routine :
    {A E : Type 0} → E → Result A E → Bool → List (Served E) → List A × Option (Result (Unit {0}) E)
unfolding select_server
hyper_routine unsent (err e) taken ps = ([], some (err e))
hyper_routine unsent (ok addr) false ps = (addr ∷ [], some (err unsent))
hyper_routine unsent (ok addr) true ps = (addr ∷ [], select_server ps)
