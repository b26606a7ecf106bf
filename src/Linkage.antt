-- ===== src/Linkage.antt =====
-- meio/src/linkage/: the `Address` of an actor and its recipients, with the distributors over them.
-- The channels are tokio's. A send is listed with its queue, and whether the channel takes it, which
-- it does while its receiver is there, is an argument.
pub mod Interactions
pub mod Tracked
pub mod Recipients
pub mod Envelopes
pub mod Distributor
pub mod TaskDistributor
use meio.Prelude.{
  ℕ, ◌≡◌, Bool, true, false, Option, none, some, List, [], ◌∷◌, Result, ok, err, if◌then◌else◌,
  ◌==◌,
}
use meio.Ids.{Ident, eq}
use meio.Lifecycle.{Operation, forward, schedule}
use meio.Handlers.{
  Error, unsent, canceled, Message, awake, interruption, child_done, task_done, action, instant,
  interact, item, items_done, scheduled, terminate, tick, attach, Outcome,
}
use meio.Runtime.{Parcel}

-- `Priority` of meio/src/handlers.rs.
pub data Priority : Type 0 where
  normal instant_priority : Priority

-- `Handler::priority` of the envelope of each message.
unfoldable pub priority : {I O E : Type 0} → Message I O E → Priority
priority awake = instant_priority
priority interruption = instant_priority
priority (child_done id) = instant_priority
priority (task_done k id tag r) = instant_priority
priority (action i) = normal
priority (instant i) = instant_priority
priority (interact request responder) = normal
priority (item i) = normal
priority items_done = normal
priority (scheduled timestamp i) = instant_priority
priority terminate = normal
priority (tick now) = normal
priority (attach tag) = instant_priority

-- A send through one of the two channels of an address.
pub data Post (I O E : Type 0) : Type 0 where
  hp_msg : Ident → Parcel I O E → Post I O E
  msg : Ident → Message I O E → Post I O E

-- `Address`; `AddressPair::new` makes one with a new id and new channels.
pub record Address : Type 0 where
  pub id : Ident

-- `PartialEq for Address`, and for the boxed recipients.
unfoldable pub address_eq : Address → Address → Bool
unfolding eq
address_eq a b = eq a.id b.id

module _ {I O E : Type 0} where
  unfoldable pub new_parcel : Operation → Message I O E → Parcel I O E
  new_parcel operation input = record { operation = operation; envelope = input }

  -- `Parcel::pack`.
  unfoldable pub pack : I → Parcel I O E
  unfolding new_parcel
  pack input = new_parcel forward (instant input)

  unfoldable pub from_envelope : Message I O E → Parcel I O E
  from_envelope envelope = record { operation = forward; envelope = envelope }

  unfoldable pub high_priority_send : Address → Parcel I O E → Post I O E
  high_priority_send a parcel = hp_msg a.id parcel

  unfoldable pub normal_priority_send : Address → Message I O E → Post I O E
  normal_priority_send a envelope = msg a.id envelope

  -- The methods of `Address`.
  unfoldable pub act : Address → I → Post I O E
  unfolding normal_priority_send
  act a input = normal_priority_send a (action input)

  unfoldable pub send_instant : Address → I → Post I O E
  unfolding high_priority_send new_parcel
  send_instant a input = high_priority_send a (new_parcel forward (instant input))

  unfoldable pub send_scheduled : Address → I → ℕ → Post I O E
  unfolding high_priority_send new_parcel
  send_scheduled a input deadline =
      high_priority_send a (new_parcel (schedule deadline) (scheduled deadline input))

  unfoldable pub unpack_parcel : Address → Parcel I O E → Post I O E
  unfolding high_priority_send
  unpack_parcel a parcel = high_priority_send a parcel

  unfoldable pub interrupt_by : Address → Post I O E
  unfolding high_priority_send new_parcel
  interrupt_by a = high_priority_send a (new_parcel forward interruption)

  unfoldable pub terminate_by : Address → Post I O E
  unfolding normal_priority_send
  terminate_by a = normal_priority_send a terminate

  unfoldable pub attach_stream : Address → I → Post I O E
  unfolding send_instant high_priority_send new_parcel
  attach_stream a tag = high_priority_send a (new_parcel forward (attach tag))

  -- `send_event`, with the priority that the handler has of itself.
  unfoldable pub send_event : Address → Priority → Message I O E → Post I O E
  unfolding normal_priority_send high_priority_send from_envelope
  send_event a normal handler = normal_priority_send a handler
  send_event a instant_priority handler = high_priority_send a (from_envelope handler)

  -- `InteractionTask::recv`: the request with a responder, sent as an action.
  unfoldable pub send_interaction : Address → I → ℕ → Post I O E
  unfolding normal_priority_send
  send_interaction a request responder = normal_priority_send a (interact request responder)

-- The result of a send.
unfoldable pub sent : {E : Type 0} → Bool → Outcome E
sent taken = if taken then ok tt else err unsent

-- `InteractionTask::recv`, from the result of the send and what the response channel gives: a
-- response, or nothing if the responder was dropped.
unfoldable pub recv : {O E : Type 0} → Bool → Option (Result O (Error E)) → Result O (Error E)
recv false response = err unsent
recv true none = err canceled
recv true (some r) = r
