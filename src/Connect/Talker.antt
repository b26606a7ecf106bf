-- ===== src/Connect/Talker.antt =====
-- meio-connect/src/talker.rs: the loop between an actor and a web socket.
pub mod Steps
pub mod Runs
pub mod Exchange
pub mod Streams
pub mod Duplex
use meio.Prelude.{
  ◌≡◌, Bool, true, false, not, ◌&&◌, ◌||◌, Option, none, some, List, [], ◌∷◌, ◌++◌, Result, ok, err,
  if◌then◌else◌,
}

-- `TermReason`.
pub data TermReason : Type 0 where
  interrupted closed : TermReason

unfoldable pub is_interrupted : TermReason → Bool
is_interrupted interrupted = true
is_interrupted closed = false

-- What the tests of `WsMessage` tell apart; `other` passes none of them.
pub data WsMessage (B : Type 0) : Type 0 where
  text binary : B → WsMessage B
  ping pong close other : WsMessage B

-- The branch of `select!` that is taken, with what its future gave. The order in which the branches
-- become ready is not ours: a run is any list of them.
pub data Ready (B T E : Type 0) : Type 0 where
  stop : Ready B T E
  request : Option (Result (WsMessage B) E) → Ready B T E
  response : Option T → Ready B T E

-- What goes out: a message for the actor, one for the socket, and the closing of the socket.
pub data Output (B I : Type 0) : Type 0 where
  to_actor : I → Output B I
  to_socket : B → Output B I
  close_socket : Output B I

-- The flags of `Talker`, with whether the channel of outgoing data was closed by us, and the outputs
-- so far.
pub record Talker (B I : Type 0) : Type 0 where
  pub rx_closed : Bool
  pub rx_drained : Bool
  pub connection_drained : Bool
  pub interrupted : Bool
  pub outputs : List (Output B I)

-- The codec, and whether the actor and the socket take what is sent to them.
pub record Peers (B I T E : Type 0) : Type 0 where
  pub decode : B → Result I E
  pub encode : T → Result B E
  pub send_error : Output B I → Option E

module _ {B I T E : Type 0} (peers : Peers B I T E) where
  open peers use {decode, encode, send_error}

  unfoldable pub new : Talker B I
  new = record {
    rx_closed = false;
    rx_drained = false;
    connection_drained = false;
    interrupted = false;
    outputs = [];
  }

  unfoldable pub is_done : Talker B I → Bool
  is_done t = t.rx_drained && t.connection_drained

  -- A send with `?`.
  unfoldable pub emit : Output B I → Talker B I → Result (Talker B I) E
  emit o t = elim (send_error o) [
    | some e ↦ err e
    | none ↦ ok (record t { outputs = t.outputs ++ o ∷ [] })
  ]

  unfoldable pub on_data : B → Talker B I → Result (Talker B I) E
  unfolding emit
  on_data bytes t = elim (decode bytes) [ err e ↦ err e | ok i ↦ emit (to_actor i) t ]

  unfoldable pub on_request : WsMessage B → Talker B I → Result (Talker B I) E
  unfolding on_data
  on_request (text bytes) t = on_data bytes t
  on_request (binary bytes) t = on_data bytes t
  on_request ping t = ok t
  on_request pong t = ok t
  on_request close t = ok (record t { rx_closed = true })
  on_request other t = ok t

  unfoldable pub on_response : T → Talker B I → Result (Talker B I) E
  unfolding emit
  on_response m t = elim (encode m) [ err e ↦ err e | ok bytes ↦ emit (to_socket bytes) t ]

  -- The end of the outgoing data: the socket is closed.
  unfoldable pub on_drained : Talker B I → Result (Talker B I) E
  unfolding emit
  on_drained t = elim (emit close_socket t) [
    | err e ↦ err e
    | ok t' ↦ ok (record t' { rx_drained = true })
  ]

  -- The body of one branch.
  unfoldable pub on_ready : Ready B T E → Talker B I → Result (Talker B I) E
  unfolding on_request on_response on_drained
  on_ready stop t = ok (record t { interrupted = true; rx_closed = true })
  on_ready (request (some (ok m))) t = on_request m t
  on_ready (request (some (err e))) t = err e
  on_ready (request none) t = ok (record t { connection_drained = true })
  on_ready (response (some m)) t = on_response m t
  on_ready (response none) t = on_drained t

  unfoldable pub reason : Talker B I → TermReason
  reason t = if t.interrupted then interrupted else closed

  -- The two branches that end with the test of `is_done`.
  unfoldable pub checks : Ready B T E → Bool
  checks stop = false
  checks (request none) = true
  checks (request (some r)) = false
  checks (response none) = true
  checks (response (some m)) = false

  -- `routine`, over the branches as they become ready; `none` while it goes on.
  unfoldable pub routine :
      List (Ready B T E) → Talker B I → Option (Result TermReason E) × Talker B I
  unfolding on_ready is_done reason checks
  routine [] t = (none, t)
  routine (r ∷ rs) t = elim (on_ready r t) [
    | err e ↦ (some (err e), t)
    | ok t' ↦ elim (checks r && is_done t') [
      | true ↦ (some (ok (reason t')), t')
      | false ↦ routine rs t'
    ]
  ]
