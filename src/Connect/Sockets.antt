-- ===== src/Connect/Sockets.antt =====
-- meio-connect/src/server/websocket.rs: the `WsHandler` of a connection, with its senders, which are
-- the `WsSender` of meio-connect/src/client.rs, and the task that makes it after the upgrade. The
-- unbounded channel of `futures` is the list of the messages that it has taken; the web socket `W` is
-- another crate's.
use meio.Prelude.{
  ℕ, zero, suc, Bool, true, false, ◌&&◌, Option, none, some, List, [], ◌∷◌, ◌++◌, Result, ok, err,
  if◌then◌else◌,
}
use meio.Connect.Client.{WsSender}
use meio.Connect.Talker.{TermReason, Ready, Talker, Peers, routine}
use meio.Connect.Talker

-- `WsInfo`; the receiving side of the channel, which it holds too, has no data of its own.
pub record WsInfo (W : Type 0) : Type 0 where
  pub connection : W

-- `WsHandler`, with the channel that it shares with its senders and its worker. `D` is `SocketAddr`,
-- `M` the messages to the client.
pub record WsHandler (D W M : Type 0) : Type 0 where
  pub addr : D
  pub info : Option (WsInfo W)
  pub channel : List M

-- `WsProcessor`: the task with the connection, for an actor with the address `T`.
pub record WsProcessor (W T : Type 0) : Type 0 where
  pub info : WsInfo W
  pub address : T

module _ {D W M : Type 0} where
  unfoldable pub new : D → W → WsHandler D W M
  new addr websocket = record {
    addr = addr;
    info = some record { connection = websocket };
    channel = [];
  }

  -- `worker`; `none` is the panic of `expect("already started")`.
  unfoldable pub worker :
      {T : Type 0} → T → WsHandler D W M → Option (WsProcessor W T × WsHandler D W M)
  worker address h = elim h.info [
    | none ↦ none
    | some info ↦ some (record { info = info; address = address }, record h { info = none })
  ]

  -- `sender`: a `WsSender` on the same channel.
  unfoldable pub sender : WsHandler D W M → WsSender M
  sender h = record { channel = h.channel }

  -- `send`, as `WsSender::send` of any `sender()`: while the receiver is there, the channel takes the
  -- message, and otherwise the error is only logged.
  unfoldable pub send : Bool → M → WsHandler D W M → WsHandler D W M
  send connected msg h = if connected then record h { channel = h.channel ++ msg ∷ [] } else h

-- `LiteTask::routine` of the worker: a new talker on its connection and its side of the channel, with
-- what these give at each poll.
unfoldable pub processor_routine :
    {B I T E : Type 0}
    → Peers B I T E
    → List (Ready B T E)
    → Option (Result TermReason E) × Talker B I
unfolding routine
processor_routine peers ready = routine peers ready (Talker.new peers)

-- `WsReq`.
pub record WsReq (X D W M : Type 0) : Type 0 where
  pub request : X
  pub stream : WsHandler D W M

-- The task that `try_route` of a `WsRoute` spawns, from what `hyper::upgrade::on` gives, and whether
-- the actor takes the request: what the actor is sent, and the result.
unfoldable pub upgrade :
    {X D W M E : Type 0}
    → E
    → Bool
    → D
    → X
    → Result W E
    → List (WsReq X D W M) × Result (Unit {0}) E
unfolding new
upgrade unsent taken addr value (ok websocket) = (
  record { request = value; stream = new addr websocket } ∷ [],
  (if taken then ok tt else err unsent),
)
upgrade unsent taken addr value (err e) = ([], err e)

-- What happens to a handler: the actor asks for a worker or sends a message, or the worker that it was
-- given is over, by its end or its drop, and with it the receiver of the channel.
pub data Use (M : Type 0) : Type 0 where
  ask_worker worker_over : Use M
  send_message : M → Use M

abbrev pub workers : {M : Type 0} → List (Use M) → ℕ
workers [] = 0
workers (ask_worker ∷ us) = suc (workers us)
workers (worker_over ∷ us) = workers us
workers (send_message m ∷ us) = workers us

-- The messages that are sent before the worker is over, from whether it was given.
abbrev pub messages : {M : Type 0} → Bool → List (Use M) → List M
messages given [] = []
messages given (ask_worker ∷ us) = messages true us
messages true (worker_over ∷ us) = []
messages false (worker_over ∷ us) = messages false us
messages given (send_message m ∷ us) = m ∷ messages given us

module _ {D W M : Type 0} where
  -- The receiver is in the handler, until a worker takes it.
  unfoldable pub holds_receiver : WsHandler D W M → Bool
  holds_receiver h = elim h.info [ none ↦ false | some info ↦ true ]

  -- The uses in turn, from whether there is a receiver; `none` if one of them panics.
  unfoldable pub use_all : List (Use M) → Bool → WsHandler D W M → Option (WsHandler D W M)
  unfolding worker send holds_receiver
  use_all [] connected h = some h
  use_all (ask_worker ∷ us) connected h = elim (worker tt h) [
    | none ↦ none
    | some (p, h') ↦ use_all us connected h'
  ]
  use_all (worker_over ∷ us) connected h = use_all us (connected && holds_receiver h) h
  use_all (send_message m ∷ us) connected h = use_all us connected (send connected m h)

  -- What is left of a handler after so many workers.
  abbrev left_of : ℕ → D → Option (WsInfo W) → List M → Option (WsHandler D W M)
  left_of zero addr info xs = some (record { addr = addr; info = info; channel = xs })
  left_of (suc n) addr none xs = none
  left_of (suc n) addr (some info) xs = left_of n addr none xs
