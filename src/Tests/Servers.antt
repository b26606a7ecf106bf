-- ===== src/Tests/Servers.antt =====
-- A server with two routes and a listener that fails, and the handler of a web socket.
use meio.Prelude.{
  ℕ, suc, ◌+◌, ◌≤◌, ◌≡◌, refl, true, false, none, some, List, [], ◌∷◌, ◌++◌, Result, ok, err, ◌==◌,
}
use meio.Handlers.{TaskError, failed, other}
use meio.Connect.Route.{Request, Response, Route, web, ws, Http, Reply, scan, respond}
use meio.Connect.Server.{
  Slab, HttpServer, ServerMessage, started, interrupted, restart_listener, add_route, task_over,
  new, make_svc, serve_request, serve_all,
}
use meio.Connect.Server.Tables.{serve_request_stable}
use meio.Connect.Server.Listeners.{
  Site, handled, Reaches, start, followed, listener_over, restart_due, AllFail, one_listener,
}
use meio.Connect.Sockets.{ask_worker, worker_over, send_message, Use, WsHandler}
use meio.Connect.Sockets

abbrev slab : Slab (Route ℕ ℕ ℕ ℕ) (List (Route ℕ ℕ ℕ ℕ))
slab = record {
  new_slab = [];
  insert = λ r q. q ++ r ∷ [];
  iter = λ q. q;
  iter-new_slab = refl;
  iter-insert = λ r q. refl;
}

abbrev http : Http ℕ ℕ ℕ ℕ
http = record {
  same = λ a b. a == b;
  empty = 0;
  parse = λ q. ok q;
  accept_of = λ key. key + 100;
  show = λ e. 500;
}

-- An answer that tells the client its address.
abbrev greeting : ℕ → Response ℕ
greeting addr = record { status = 200; is_upgrade = false; accept = none; body = some addr }

abbrev first : Route ℕ ℕ ℕ ℕ
first = web (1 ∷ []) (λ req. ok (greeting req.addr))

-- A second route for the same path, and the end of the listener.
abbrev later : List (ServerMessage ℕ (Route ℕ ℕ ℕ ℕ) ℕ ℕ)
later = add_route (ws (1 ∷ [])) ∷ task_over false (err (failed (other 3))) 7 ∷ []

abbrev server : HttpServer ℕ (List (Route ℕ ℕ ℕ ℕ))
server = record (new slab 80 (some 5)) { routing_table = first ∷ [] }

abbrev visit : Request ℕ
visit = record { path = 1; query = none; has_upgrade = false; ws_key = none; body = 0 }

abbrev reply : Reply ℕ ℕ ℕ ℕ ℕ
reply = record { response = ok (greeting 4); upgrading = none }

taken : scan http 4 (slab.iter server.routing_table) (some visit) ≡ some reply
unfolding scan
taken = refl

serve_request_stable_example :
    (serve_request http slab (make_svc 4) (serve_all slab later server) visit
      ≡ serve_request http slab (make_svc 4) server visit)
    × (serve_request http slab (make_svc 4) (serve_all slab later server) visit
        ≡ respond http (some (ok (greeting 4))))
unfolding make_svc
serve_request_stable_example =
    serve_request_stable http slab later server (make_svc 4) visit reply taken

-- The listener fails, and is started again.
abbrev Table : Type 0
Table = List (Route ℕ ℕ ℕ ℕ)

abbrev problem : Result ℕ (TaskError ℕ)
problem = err (failed (other 3))

abbrev begun : Site ℕ Table
begun = handled ℕ ℕ slab started 0 0 false (new slab 80 (some 5))

begun_runs : begun.running ≡ suc 0
unfolding handled meio.Connect.Server.on_server
begun_runs = refl

begun_on : begun.alive ≡ true
unfolding handled meio.Connect.Server.on_server
begun_on = refl

abbrev broken : Site ℕ Table
broken =
    handled ℕ ℕ slab (task_over begun.is_terminating problem 7) 0 begun.waiting begun.is_terminating
      begun.server

broken_waits : broken.waiting ≡ suc 0
unfolding handled meio.Connect.Server.on_server meio.Connect.Bind.restart_at new
broken_waits = refl

broken_on : broken.alive ≡ true
unfolding handled meio.Connect.Server.on_server meio.Connect.Bind.restart_at new
broken_on = refl

abbrev again : Site ℕ Table
again = handled ℕ ℕ slab restart_listener broken.running 0 broken.is_terminating broken.server

broken-Reaches : Reaches ℕ ℕ slab 80 (some 5) broken
broken-Reaches = followed start (listener_over 0 problem 7 begun_on begun_runs)

again-Reaches : Reaches ℕ ℕ slab 80 (some 5) again
again-Reaches = followed broken-Reaches (restart_due 0 broken_on broken_waits)

one_listener_example :
    (again.running + again.waiting ≤ 1)
    × (again.alive ≡ false → again.running + again.waiting ≡ 0)
    × ((n : ℕ)
        → some 5 ≡ some n
        → AllFail ℕ ℕ slab again-Reaches
        → again.running + again.waiting ≡ 1)
one_listener_example = one_listener ℕ ℕ slab again-Reaches

-- An interrupt while the restart waits stops the server, and nothing is left.
abbrev cut : Site ℕ Table
cut = handled ℕ ℕ slab interrupted broken.running broken.waiting broken.is_terminating broken.server

cut_stops : (cut.alive ≡ false) × (cut.running + cut.waiting ≡ 0)
unfolding handled meio.Connect.Server.on_server meio.Connect.Bind.restart_at new
cut_stops = (refl, refl)

abbrev client : ℕ
client = 2

abbrev socket : ℕ
socket = 9

abbrev uses : List (Use ℕ)
uses = send_message 4 ∷ ask_worker ∷ send_message 6 ∷ worker_over ∷ send_message 8 ∷ []
