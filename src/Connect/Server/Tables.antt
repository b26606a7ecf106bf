-- ===== src/Connect/Server/Tables.antt =====
-- The routing table that the server shares with its services.
use meio.Prelude.{◌≡◌, sym, ap, ◌∙◌, some, List, [], ◌∷◌, ◌++◌, arith, inl, inr, Result-cases}
use mathlib.Core.List.{append-nil, append_assoc}
use meio.Connect.Route.{Http, Request, Reply, Route, try_route, scan, respond, outcome, call}
use meio.Connect.Server.{
  Slab, HttpServer, ServerMessage, started, interrupted, restart_listener, add_route, about_address,
  task_over, insert_route, on_server, serve_all, Svc, serve_request,
}

-- The routes that messages add.
unfoldable pub added : {A R O E : Type 0} → List (ServerMessage A R O E) → List R
added [] = []
added (add_route r ∷ ms) = r ∷ added ms
added (started ∷ ms) = added ms
added (interrupted ∷ ms) = added ms
added (restart_listener ∷ ms) = added ms
added (about_address m ∷ ms) = added ms
added (task_over b res now ∷ ms) = added ms

module _ {A R Q O E : Type 0} (slab : Slab R Q) where
  open slab use {iter, iter-insert}

  -- The table lists the routes in the order in which they were added.
  pub iter-serve_all :
      (ms : List (ServerMessage A R O E)) (s : HttpServer A Q)
      → iter (serve_all slab ms s).routing_table ≡ iter s.routing_table ++ added ms
  unfolding serve_all on_server insert_route added
  iter-serve_all [] s = sym (append-nil _)
  iter-serve_all (add_route r ∷ ms) s =
      iter-serve_all ms (insert_route slab r s)
      ∙ ap (λ q. q ++ added ms) (iter-insert r s.routing_table)
      ∙ append_assoc (iter s.routing_table) (r ∷ []) (added ms)
  iter-serve_all (started ∷ ms) s = iter-serve_all ms s
  iter-serve_all (interrupted ∷ ms) s = iter-serve_all ms s
  iter-serve_all (restart_listener ∷ ms) s = iter-serve_all ms s
  iter-serve_all (about_address m ∷ ms) s = iter-serve_all ms _
  iter-serve_all (task_over b res now ∷ ms) s = iter-serve_all ms s

module _ {A P F T X : Type 0} (h : Http P F T X) where
  -- A route that has taken a request takes it also in a longer table.
  scan-append :
      (addr : A) (rs more : List (Route A P T X)) (req : Request P) (reply : Reply A P F T X)
      → scan h addr rs (some req) ≡ some reply
      → scan h addr (rs ++ more) (some req) ≡ some reply
  unfolding scan
  scan-append addr [] more req reply e = cc
  scan-append addr (r ∷ rs) more req reply e = elim (Result-cases (try_route h addr r req)) [
    | inl (taken, f) ↦ ground arith
    | inr (back, f) ↦ ground (arith, scan-append addr rs more back reply)
  ]

  -- Whatever messages the server handles, routes that are added among them, it answers a request that
  -- one of its routes takes as it did before, over the same connection: by the answer of that route.
  pub serve_request_stable :
      {Q O E : Type 0} (slab : Slab (Route A P T X) Q)
      (ms : List (ServerMessage A (Route A P T X) O E)) (s : HttpServer A Q) (c : Svc A)
      (req : Request P) (reply : Reply A P F T X)
      → scan h c.addr (slab.iter s.routing_table) (some req) ≡ some reply
      → (serve_request h slab c (serve_all slab ms s) req ≡ serve_request h slab c s req)
        × (serve_request h slab c (serve_all slab ms s) req ≡ respond h (some reply.response))
  unfolding serve_request call outcome
  serve_request_stable slab ms s c req reply e = (
    rw (
      iter-serve_all slab ms s,
      scan-append c.addr (slab.iter s.routing_table) (added ms) req reply e,
      e,
    ),
    rw (
      iter-serve_all slab ms s,
      scan-append c.addr (slab.iter s.routing_table) (added ms) req reply e,
    ),
  )
