-- ===== src/Connect/Client.antt =====
-- meio-connect/src/client.rs: the connection loop of `WsClient`.
pub mod Statuses
use meio.Prelude.{
  ℕ, ◌≡◌, Bool, true, false, Option, none, some, List, [], ◌∷◌, ◌++◌, Result, ok, err, ltb,
  if◌then◌else◌,
}
use meio.Handlers.{Error, task_stopped, unsent, other, Outcome}
use meio.Connect.Talker.{TermReason, is_interrupted}

-- `WsFailReason`.
pub data WsFailReason : Type 0 where
  closed_by_server connection_failed server_not_available : WsFailReason

-- The errors that the loop returns as its own: a fail reason, or that of the socket.
pub data Cause (E : Type 0) : Type 0 where
  fail_reason : WsFailReason → Cause E
  socket_error : E → Cause E

-- `WsClientStatus`, without the sender.
pub data WsClientStatus : Type 0 where
  connected : WsClientStatus
  failed : WsFailReason → WsClientStatus

-- What the world answers in one round of the loop: whether the task is alive, the connection, how
-- the talker ends, the time since the last success, whether the stop comes during the sleep; and
-- whether the actor takes each of the two statuses.
pub record Round (E : Type 0) : Type 0 where
  pub is_alive : Bool
  pub connection : Result (Unit {0}) (Error (Cause E))
  pub takes_connected : Bool
  pub talk : Result TermReason (Error (Cause E))
  pub takes_failed : Bool
  pub elapsed : ℕ
  pub stopped_in_sleep : Bool

-- How the connection of a round goes: the loop returns, or it has failed.
pub data Connected (E : Type 0) : Type 0 where
  returns : Outcome (Cause E) → Connected E
  fails : WsFailReason → Error (Cause E) → Connected E

-- What the loop has come to: its result, or `none` while it goes on, and the statuses.
abbrev pub Progress : Type 0 → Type 0
Progress E = Option (Outcome (Cause E)) × List WsClientStatus

module _ {E : Type 0} where
  -- `match talker.routine().await`.
  unfoldable pub after_talk : Result TermReason (Error (Cause E)) → Connected E
  after_talk (ok reason) =
      if is_interrupted reason
      then returns (ok tt)
      else fails closed_by_server (other (fail_reason closed_by_server))
  after_talk (err e) = fails connection_failed e

  -- `match connect_async(..).await`, with the status that the actor gets.
  unfoldable pub connect : Round E → Connected E × List WsClientStatus
  unfolding after_talk
  connect r = elim r.connection [
    | err e ↦ (fails server_not_available e, [])
    | ok u ↦
        (if r.takes_connected
          then (after_talk r.talk, connected ∷ [])
          else (returns (err unsent), []))
  ]

  -- After a failure: whether to go on.
  unfoldable pub pause : Option ℕ → Error (Cause E) → Round E → Option (Outcome (Cause E))
  pause none original r = some (err original)
  pause (some dur) original r =
      if ltb r.elapsed dur
      then (if r.stopped_in_sleep then some (err task_stopped) else none)
      else none

  -- After the failure is reported.
  unfoldable pub resume :
      WsFailReason → List WsClientStatus → Option (Outcome (Cause E)) → Progress E → Progress E
  resume reason statuses (some out) next = (some out, statuses ++ failed reason ∷ [])
  resume reason statuses none next = (next.0, statuses ++ failed reason ∷ next.1)

  -- The part of the body that follows the connection.
  unfoldable pub settle :
      Connected E
      → List WsClientStatus
      → Bool
      → (Error (Cause E) → Option (Outcome (Cause E)))
      → Progress E
      → Progress E
  unfolding resume
  settle (returns out) statuses taken paused next = (some out, statuses)
  settle (fails reason original) statuses false paused next = (some (err unsent), statuses)
  settle (fails reason original) statuses true paused next =
      resume reason statuses (paused original) next

  -- `connection_routine`, over the rounds; `none` while it goes on.
  unfoldable pub connection_routine : Option ℕ → List (Round E) → Progress E
  unfolding connect pause settle
  connection_routine repeat_interval [] = (none, [])
  connection_routine repeat_interval (r ∷ rs) =
      let next = connection_routine repeat_interval rs in
      let (c, statuses) = connect r in
      let body = settle c statuses r.takes_failed (λ e. pause repeat_interval e r) next in
      if r.is_alive then body else (some (ok tt), [])

-- `WsSender`, by the messages that its channel holds.
pub record WsSender (M : Type 0) : Type 0 where
  pub channel : List M

-- `WsSender::send`: while the receiver is there, the channel takes the message, and otherwise the
-- error is only logged.
unfoldable pub sender_send : {M : Type 0} → Bool → M → WsSender M → WsSender M
sender_send is_open msg s = if is_open then record s { channel = s.channel ++ msg ∷ [] } else s

-- `WsClient`, without the address of its actor. `U` is the url.
pub record WsClient (U : Type 0) : Type 0 where
  pub url : U
  pub repeat_interval : Option ℕ

unfoldable pub new_client : {U : Type 0} → U → Option ℕ → WsClient U
new_client url repeat_interval = record { url = url; repeat_interval = repeat_interval }

-- `LiteTask::routine` of the client.
unfoldable pub client_routine : {U E : Type 0} → WsClient U → List (Round E) → Progress E
unfolding connection_routine
client_routine c rounds = connection_routine c.repeat_interval rounds
