-- ===== src/Tests/Web.antt =====
-- Talkers, clients, routes and the address of a server.
use meio.Prelude.{
  ℕ, suc, zero, ◌+◌, ◌≡◌, refl, true, false, none, some, List, [], ◌∷◌, ◌++◌, Result, ok, err, ◌==◌,
  ℕ_discrete, if◌then◌else◌,
}
use meio.Prelude.Set
use meio.Handlers.{task_stopped, other}
use meio.Connect.Talker.{
  TermReason, interrupted, closed, text, Ready, request, response, Output, to_actor, to_socket,
  close_socket, Talker, Peers, new, routine,
}
use meio.Connect.Talker
use meio.Connect.Talker.Steps.{all_passed, any, is_end, is_drain, is_stop}
use meio.Connect.Talker.Exchange.{routine_exchanges}
use meio.Connect.Client.{Cause, Round, connection_routine}
use meio.Connect.Client.Statuses.{IsAlternating, connection_routine-IsAlternating}
use meio.Connect.Route.{Request, Response, Route, web, ws, Http, call, scan}
use meio.Connect.Route.Selection.{
  call-first_match, expected, first_match, with_upgrade, ws_ignores_upgrade,
}
use meio.Connect.Bind.{BindMessage, wait_for_address, addr_ready, serve, default}
use meio.Connect.Bind.Answers.{asking, told, serve_answers}

-- A codec of one number per message, and an actor and a socket that take all.
abbrev peers : Peers ℕ ℕ ℕ ℕ
peers = record { decode = λ b. ok (b + 1); encode = λ n. ok (n + 2); send_error = λ o. none }

abbrev exchange : List (Ready ℕ ℕ ℕ)
exchange =
    request (some (ok (text 4)))
    ∷ response (some 5)
    ∷ Ready.stop
    ∷ response none
    ∷ request none
    ∷ []

abbrev ended : Talker ℕ ℕ
ended = record {
  rx_closed = true;
  rx_drained = true;
  connection_drained = true;
  interrupted = true;
  outputs = to_actor 5 ∷ to_socket 7 ∷ close_socket ∷ [];
}

exchange_ends : routine peers exchange (new peers) ≡ (some (ok interrupted), ended)
unfolding routine new
exchange_ends = refl

routine_exchanges_example :
    (used : List (Ready ℕ ℕ ℕ)) × (rest : List (Ready ℕ ℕ ℕ)) × (exchange ≡ used ++ rest)
    × (ended.outputs ≡ all_passed peers used)
    × (any peers (is_end peers) used ≡ true)
    × (any peers (is_drain peers) used ≡ true)
    × (interrupted ≡ (if any peers (is_stop peers) used then interrupted else closed))
routine_exchanges_example = routine_exchanges peers exchange ended interrupted exchange_ends

-- A round whose talker is stopped as above.
abbrev open_round : Round ℕ
open_round = record {
  is_alive = true;
  connection = ok tt;
  takes_connected = true;
  talk = ok closed;
  takes_failed = true;
  elapsed = 9;
  stopped_in_sleep = false;
}

-- A connection that is closed by the server; and a round at whose sleep the task is stopped.
abbrev lost : Round ℕ
lost = record {
  is_alive = true;
  connection = ok tt;
  takes_connected = true;
  talk = ok closed;
  takes_failed = true;
  elapsed = 9;
  stopped_in_sleep = false;
}

abbrev last : Round ℕ
last = record lost {
  connection = err (other (Cause.socket_error 3));
  elapsed = 1;
  stopped_in_sleep = true;
}

connection_routine-IsAlternating_example :
    IsAlternating false (connection_routine (some 5) (lost ∷ lost ∷ last ∷ [])).1
connection_routine-IsAlternating_example =
    connection_routine-IsAlternating (some 5) (lost ∷ lost ∷ last ∷ [])

last_stops : (connection_routine (some 5) (lost ∷ last ∷ [])).0 ≡ some (err task_stopped)
unfolding connection_routine Talker.is_interrupted
last_stops = refl

-- Texts are numbers, and 0 is the empty text, which does not parse.
abbrev parse_of : ℕ → Result ℕ ℕ
parse_of zero = err 13
parse_of (suc n) = ok n

abbrev http : Http ℕ ℕ ℕ ℕ
http = record {
  same = λ a b. a == b;
  empty = 0;
  parse = parse_of;
  accept_of = λ key. key + 100;
  show = λ e. 500;
}

abbrev page : Response ℕ
page = record { status = 200; is_upgrade = false; accept = none; body = some 1 }

abbrev routes : List (Route ℕ ℕ ℕ ℕ)
routes = web (1 ∷ 2 ∷ []) (λ req. ok page) ∷ ws (2 ∷ 3 ∷ []) ∷ []

abbrev plain : Request ℕ
plain = record { path = 3; query = some 8; has_upgrade = false; ws_key = some 6; body = 0 }

call-first_match_example :
    call http 7 routes plain ≡ expected http 7 (first_match http 7 routes plain.path) plain
call-first_match_example = call-first_match http 7 routes plain

ws_ignores_upgrade_example :
    scan http {D = ℕ} 7 (ws (2 ∷ 3 ∷ []) ∷ []) (some (with_upgrade {D = ℕ} http 7 true plain))
    ≡ scan http {D = ℕ} 7 (ws (2 ∷ 3 ∷ []) ∷ []) (some plain)
ws_ignores_upgrade_example = ws_ignores_upgrade http 7 (2 ∷ 3 ∷ []) plain true

abbrev waits : List (BindMessage ℕ)
waits = wait_for_address 4 ∷ wait_for_address 6 ∷ addr_ready 80 ∷ wait_for_address 4 ∷ []

serve_answers_example :
    Set.count ℕ_discrete 4 (told (serve waits default).1) ≡ Set.count ℕ_discrete 4 (asking waits)
serve_answers_example = serve_answers waits 4 refl
