-- ===== src/Connect/Route.antt =====
-- meio-connect/src/server/route.rs, and of meio-connect/src/server/websocket.rs the route; with
-- `Svc::call` of meio-connect/src/server/routine.rs, which looks for the route of a request.
pub mod Selection
use meio.Prelude.{
  ℕ, ◌≡◌, Bool, true, false, ◌||◌, Option, none, some, List, [], ◌∷◌, Result, ok, err,
  if◌then◌else◌,
}

-- What the routes read of a `Request<Body>`: the path and the query of its address, whether it has
-- an `Upgrade` header, its `Sec-WebSocket-Key`, and its body. `P` is text.
pub record Request (P : Type 0) : Type 0 where
  pub path : P
  pub query : Option P
  pub has_upgrade : Bool
  pub ws_key : Option P
  pub body : P

-- What the code sets of a `Response<Body>`; `none` is the empty body.
pub record Response (P : Type 0) : Type 0 where
  pub status : ℕ
  pub is_upgrade : Bool
  pub accept : Option P
  pub body : Option P

-- `RouteError`; `F` is an error of the query parser.
pub record RouteError (P F : Type 0) : Type 0 where
  pub path : P
  pub query : P
  pub reason : F

-- The error of a response: that of a route, or of the actor.
pub data Failure (P F E : Type 0) : Type 0 where
  route_error : RouteError P F → Failure P F E
  actor_error : E → Failure P F E

-- `Req`; `D` is the `SocketAddr` of the client.
pub record Req (D P T : Type 0) : Type 0 where
  pub addr : D
  pub data_ : T
  pub body : P

-- What a route gives for a request that it takes: the outcome of the future of the response, and the
-- address and the value of the upgrade task that it has spawned.
pub record Reply (D P F T E : Type 0) : Type 0 where
  pub response : Result (Response P) (Failure P F E)
  pub upgrading : Option (D × T)

-- `RouteResult`: the reply, or the request back.
abbrev pub RouteResult : Type 0 → Type 0 → Type 0 → Type 0 → Type 0 → Type 0
RouteResult D P F T E = Result (Reply D P F T E) (Request P)

-- A route with its extractor, a `DirectPath` of the paths: a `WebRoute` with the answers of its
-- actor, or a `WsRoute`.
pub data Route (D P T E : Type 0) : Type 0 where
  web : List P → (Req D P T → Result (Response P) E) → Route D P T E
  ws : List P → Route D P T E

-- The text of the library, and of the third parties: the parser of queries (`serde_qs`), and the
-- value of `Sec-WebSocket-Accept` for a key (`headers`).
pub record Http (P F T E : Type 0) : Type 0 where
  pub same : P → P → Bool
  pub empty : P
  pub parse : P → Result T F
  pub accept_of : P → P
  pub show : Failure P F E → P

module _ {P F T E : Type 0} (h : Http P F T E) where
  -- `Self::paths().iter().any(|p| p == &path)`.
  unfoldable pub matches : List P → P → Bool
  matches [] path = false
  matches (p ∷ ps) path = h.same p path || matches ps path

  -- `uri.query().unwrap_or("")`.
  unfoldable pub query_of : Option P → P
  query_of none = h.empty
  query_of (some q) = q

  -- `serde_qs::from_str(query).map_err(..)`.
  unfoldable pub parsed : P → P → Result T F → Result T (RouteError P F)
  parsed path query (ok value) = ok value
  parsed path query (err reason) = err record { path = path; query = query; reason = reason }

  -- `from_request` of a `DirectPath`.
  unfoldable pub from_request : List P → Request P → Option (Result T (RouteError P F))
  unfolding matches query_of parsed
  from_request paths req =
      let query = query_of req.query in
      if matches paths req.path then some (parsed req.path query (h.parse query)) else none

  -- `WsFromRequest::from_request` of a `DirectPath`, which has the same text.
  unfoldable pub ws_from_request : List P → Request P → Option (Result T (RouteError P F))
  unfolding from_request
  ws_from_request paths req = from_request paths req

  -- The error that the actor's answer becomes.
  unfoldable pub answered : Result (Response P) E → Result (Response P) (Failure P F E)
  answered (ok res) = ok res
  answered (err e) = err (actor_error e)

  -- `res`, with the status that it has at first.
  unfoldable pub first_response : Request P → Response P
  first_response req = record {
    status = (if req.has_upgrade then 200 else 400);
    is_upgrade = false;
    accept = none;
    body = none;
  }

  -- `res` with the status and the headers of the upgrade.
  unfoldable pub switched : Option P → Response P → Response P
  switched none res = record {
    status = 101;
    is_upgrade = true;
    accept = res.accept;
    body = res.body;
  }
  switched (some key) res = record {
    status = 101;
    is_upgrade = true;
    accept = some (h.accept_of key);
    body = res.body;
  }

  -- The response for what the loop has found.
  unfoldable pub respond : Option (Result (Response P) (Failure P F E)) → Response P
  respond none = record { status = 404; is_upgrade = false; accept = none; body = none }
  respond (some (ok res)) = res
  respond (some (err e)) = record {
    status = 500;
    is_upgrade = false;
    accept = none;
    body = some (h.show e);
  }

  module _ {D : Type 0} (addr : D) where
    -- `try_route` of a `WebRoute`.
    unfoldable pub try_web :
        (Req D P T → Result (Response P) E)
        → Request P
        → Option (Result T (RouteError P F))
        → RouteResult D P F T E
    unfolding answered
    try_web answer req none = err req
    try_web answer req (some (ok value)) = ok record {
      response = answered (answer record { addr = addr; data_ = value; body = req.body });
      upgrading = none;
    }
    try_web answer req (some (err e)) =
        ok record { response = err (route_error e); upgrading = none }

    -- `try_route` of a `WsRoute`.
    unfoldable pub try_ws : Request P → Option (Result T (RouteError P F)) → RouteResult D P F T E
    unfolding first_response switched
    try_ws req none = err req
    try_ws req (some (ok value)) = ok record {
      response = ok (switched req.ws_key (first_response req));
      upgrading = some (addr, value);
    }
    try_ws req (some (err e)) = ok record { response = err (route_error e); upgrading = none }

    -- `Route::try_route`.
    unfoldable pub try_route : Route D P T E → Request P → RouteResult D P F T E
    unfolding from_request ws_from_request try_web try_ws
    try_route (web paths answer) req = try_web answer req (from_request paths req)
    try_route (ws paths) req = try_ws req (ws_from_request paths req)

    -- The loop of `Svc::call` over the table, with the request while no route has taken it.
    unfoldable pub scan : List (Route D P T E) → Option (Request P) → Option (Reply D P F T E)
    unfolding try_route
    scan [] opt_req = none
    scan (r ∷ rs) none = scan rs none
    scan (r ∷ rs) (some req) = elim (try_route r req) [
      | ok reply ↦ some reply
      | err back ↦ scan rs (some back)
    ]

    -- The response of a reply.
    unfoldable pub outcome : Option (Reply D P F T E) → Option (Result (Response P) (Failure P F E))
    outcome none = none
    outcome (some reply) = some reply.response

    -- `Svc::call`.
    unfoldable pub call : List (Route D P T E) → Request P → Response P
    unfolding scan respond outcome
    call routes req = respond (outcome (scan routes (some req)))
