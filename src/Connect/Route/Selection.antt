-- ===== src/Connect/Route/Selection.antt =====
-- Which route takes a request, and what the client gets.
use meio.Prelude.{
  ◌≡◌, refl, sym, ap, ◌∙◌, Bool, true, false, Option, none, some, List, [], ◌∷◌, Result, ok, err,
  arith, inl, inr, Bool-cases, Option-cases, if◌then◌else◌,
}
use meio.Connect.Route.{
  Request, Response, RouteError, Failure, route_error, Reply, Route, web, ws, Http, matches,
  query_of, parsed, from_request, answered, try_web, try_ws, first_response, switched, RouteResult,
  try_route, scan, respond, outcome, call,
}

module _ {D P F T E : Type 0} (h : Http P F T E) (addr : D) where
  -- The paths of a route.
  abbrev pub paths_of : Route D P T E → List P
  paths_of (web paths answer) = paths
  paths_of (ws paths) = paths

  -- The first route of the table that has the path.
  abbrev pub first_match : List (Route D P T E) → P → Option (Route D P T E)
  first_match [] path = none
  first_match (r ∷ rs) path = if matches h (paths_of r) path then some r else first_match rs path

  -- What `Sec-WebSocket-Accept` has to be for the key of the request.
  abbrev pub accept_for : Option P → Option P
  accept_for none = none
  accept_for (some key) = some (h.accept_of key)

  -- The error of a request whose query is not parsed.
  abbrev pub rejected : Request P → F → Failure P F E
  rejected req reason =
      route_error record { path = req.path; query = query_of h req.query; reason = reason }

  -- The response of a route whose path is that of the request, with the parsed query.
  abbrev pub respond_parsed : Route D P T E → Request P → Result T F → Response P
  respond_parsed r req (err reason) = respond h (some (err (rejected req reason)))
  respond_parsed (web paths answer) req (ok value) =
      respond h (some (answered h (answer record { addr = addr; data_ = value; body = req.body })))
  respond_parsed (ws paths) req (ok value) = record {
    status = 101;
    is_upgrade = true;
    accept = accept_for req.ws_key;
    body = none;
  }

  -- The response of the table, told by the first match.
  abbrev pub expected : Option (Route D P T E) → Request P → Response P
  expected none req = record { status = 404; is_upgrade = false; accept = none; body = none }
  expected (some r) req = respond_parsed r req (h.parse (query_of h req.query))

  -- A route with another path gives the request back.
  try_route_other :
      (r : Route D P T E) (req : Request P)
      → matches h (paths_of r) req.path ≡ false
      → try_route h addr r req ≡ err req
  unfolding try_route from_request try_web try_ws
  try_route_other (web paths answer) req e = ground arith
  try_route_other (ws paths) req e = ground arith

  -- What a route does with what its extractor gives.
  abbrev tried :
      Route D P T E → Request P → Option (Result T (RouteError P F)) → RouteResult D P F T E
  tried (web paths answer) req o = try_web h addr answer req o
  tried (ws paths) req o = try_ws h addr req o

  try_route-tried :
      (r : Route D P T E) (req : Request P)
      → try_route h addr r req ≡ tried r req (from_request h (paths_of r) req)
  unfolding try_route
  try_route-tried (web paths answer) req = refl
  try_route-tried (ws paths) req = refl

  from_request_own :
      (paths : List P) (req : Request P)
      → matches h paths req.path ≡ true
      → from_request h paths req
        ≡ some (parsed h req.path (query_of h req.query) (h.parse (query_of h req.query)))
  unfolding from_request
  from_request_own paths req e = ground arith

  -- A route takes the request for any result of the parser.
  abbrev Takes : Route D P T E → Request P → Result T F → Type 0
  Takes r req result =
      (reply : Reply D P F T E) × (tried r req
          (some (parsed h req.path (query_of h req.query) result))
        ≡ ok reply)
      × (respond h (some reply.response) ≡ respond_parsed r req result)

  switched_accept :
      (key : Option P) (res : Response P)
      → res.accept ≡ none
      → res.body ≡ none
      → respond h (some (ok (switched h key res)))
        ≡ record { status = 101; is_upgrade = true; accept = accept_for key; body = none }
  unfolding switched respond
  switched_accept none res b c = rw (b, c) refl
  switched_accept (some key) res b c = rw c refl

  tried-Takes : (r : Route D P T E) (req : Request P) (result : Result T F) → Takes r req result
  unfolding try_web try_ws parsed switched first_response
  tried-Takes (web paths answer) req (ok value) = (
    record {
      response = answered h (answer record { addr = addr; data_ = value; body = req.body });
      upgrading = none;
    },
    refl,
    refl,
  )
  tried-Takes (web paths answer) req (err reason) =
      (record { response = err (rejected req reason); upgrading = none }, refl, refl)
  tried-Takes (ws paths) req (ok value) = (
    record {
      response = ok (switched h req.ws_key (first_response h req));
      upgrading = some (addr, value);
    },
    refl,
    switched_accept req.ws_key (first_response h req) refl refl,
  )
  tried-Takes (ws paths) req (err reason) =
      (record { response = err (rejected req reason); upgrading = none }, refl, refl)

  -- The client gets the response of the first route that has the path of its request: of a
  -- `WebRoute` the answer of the actor or, for an error of it, the status 500; of a `WsRoute` the
  -- status 101; of either the status 500 if the query is not parsed. If no route has the path, it
  -- gets the status 404.
  pub call-first_match :
      (routes : List (Route D P T E)) (req : Request P)
      → call h addr routes req ≡ expected (first_match routes req.path) req
  unfolding call scan outcome respond
  call-first_match [] req = refl
  call-first_match (r ∷ rs) req = elim (Bool-cases (matches h (paths_of r) req.path)) [
    | inl e ↦
        let (reply, own, same) = tried-Takes r req (h.parse (query_of h req.query)) in
        rw (e, scan, try_route-tried r req, from_request_own (paths_of r) req e, own) same
    | inr e ↦ rw (e, scan, try_route_other r req e) (call-first_match rs req)
  ]

  -- The request with, or without, an `Upgrade` header.
  abbrev pub with_upgrade : Bool → Request P → Request P
  with_upgrade b req = record {
    path = req.path;
    query = req.query;
    has_upgrade = b;
    ws_key = req.ws_key;
    body = req.body;
  }

  ws_reply-with_upgrade :
      (req : Request P) (b : Bool) (parse : Result T (RouteError P F))
      → try_ws h addr (with_upgrade b req) (some parse) ≡ try_ws h addr req (some parse)
  unfolding try_ws switched first_response
  ws_reply-with_upgrade req b (ok value) = elim (Option-cases req.ws_key) [
    | inl e ↦ rw (e, switched) refl
    | inr (key, e) ↦ rw (e, switched) refl
  ]
  ws_reply-with_upgrade req b (err e) = refl

  try_route-with_upgrade :
      (paths : List P) (req : Request P) (b : Bool)
      → matches h paths req.path ≡ true
      → try_route h addr (ws paths) (with_upgrade b req) ≡ try_route h addr (ws paths) req
  try_route-with_upgrade paths req b e =
      try_route-tried (ws paths) (with_upgrade b req)
      ∙ ap (try_ws h addr (with_upgrade b req)) (from_request_own paths (with_upgrade b req) e)
      ∙ ws_reply-with_upgrade req b
          (parsed h req.path (query_of h req.query) (h.parse (query_of h req.query)))
      ∙ ap (try_ws h addr req) (sym (from_request_own paths req e))
      ∙ sym (try_route-tried (ws paths) req)

  -- Whether a request has an `Upgrade` header makes no difference to what a `WsRoute` does with it,
  -- to the response and to the upgrade that it starts: the status 400 is never sent.
  pub ws_ignores_upgrade :
      (paths : List P) (req : Request P) (b : Bool)
      → scan h addr (ws paths ∷ []) (some (with_upgrade b req))
        ≡ scan h addr (ws paths ∷ []) (some req)
  unfolding scan try_route from_request
  ws_ignores_upgrade paths req b = elim (Bool-cases (matches h paths req.path)) [
    | inl e ↦ rw (scan, try_route-with_upgrade paths req b e) refl
    | inr e ↦
        rw
          (
            scan,
            try_route_other (ws paths) req e,
            try_route_other (ws paths) (with_upgrade b req) e,
          )
          refl
  ]
