-- ===== src/Linkage/Recipients.antt =====
-- meio/src/linkage/recipient.rs, the boxed recipients of an address, and what meio/src/linkage/address.rs
-- has besides the sends. A `Box<dyn …>` over an address is that address: the methods of the trait
-- object call those of `Address`.
use meio.Prelude.{ℕ, ◌≡◌, refl, ap, ◌↔◌, Bool, true, Option, List, arith, Result}
use meio.Ids.{Ident, Heap, unique, eq, hash}
use meio.Task.{Watched, just_done}
use meio.Handlers.{Message, Error}
use meio.Linkage.{Address, Post, msg, act, send_interaction, recv}

-- `AddressPair::new`, with the uuid that its id gets; the channels of the pair are known by that id.
unfoldable pub new_pair : ℕ → Heap → Address × Heap
unfolding unique
new_pair uuid heap = let (id, heap') = unique uuid heap in (record { id = id }, heap')

unfoldable pub clone : Address → Address
clone a = record { id = a.id }

-- `Hash for Address`.
unfoldable pub address_hash : {S : Type 0} → (ℕ → S → S) → Heap → Address → S → Option S
unfolding hash
address_hash feed heap a state = hash feed heap a.id state

unfoldable pub raw_id : Address → Ident
raw_id a = a.id

-- `Address::link`.
unfoldable pub link : {T : Type 0} → (Address → T) → Address → T
unfolding clone
link from a = from (clone a)

-- `Address::join`, on what the status channel gives.
unfoldable pub join : List Watched → Bool
unfolding just_done
join ws = just_done ws

-- `Box<dyn ActionRecipient<T>>`.
pub record ActionRecipient : Type 0 where
  pub address : Address

-- `Box<dyn InteractionRecipient<T>>`.
pub record InteractionRecipient : Type 0 where
  pub address : Address

unfoldable pub action_recipient : Address → ActionRecipient
unfolding clone
action_recipient a = record { address = clone a }

unfoldable pub interaction_recipient : Address → InteractionRecipient
unfolding clone
interaction_recipient a = record { address = clone a }

-- `From<Address<A>>` for the two boxes.
unfoldable pub to_action_recipient : Address → ActionRecipient
to_action_recipient a = record { address = a }

unfoldable pub to_interaction_recipient : Address → InteractionRecipient
to_interaction_recipient a = record { address = a }

-- The trait `ActionRecipient` for an address, with `Clone`, `PartialEq` and `Hash` of the box.
unfoldable pub action_id_ref : ActionRecipient → Ident
unfolding raw_id
action_id_ref r = raw_id r.address

unfoldable pub action_clone : ActionRecipient → ActionRecipient
unfolding clone
action_clone r = record { address = clone r.address }

unfoldable pub action_eq : ActionRecipient → ActionRecipient → Bool
unfolding eq action_id_ref
action_eq r q = eq (action_id_ref r) (action_id_ref q)

unfoldable pub action_hash : {S : Type 0} → (ℕ → S → S) → Heap → ActionRecipient → S → Option S
unfolding hash action_id_ref
action_hash feed heap r state = hash feed heap (action_id_ref r) state

unfoldable pub recipient_act : {I O E : Type 0} → ActionRecipient → I → Post I O E
unfolding act
recipient_act r input = act r.address input

-- The trait `InteractionRecipient` for an address, with `Clone`, `PartialEq` and `Hash` of the box.
unfoldable pub interaction_id_ref : InteractionRecipient → Ident
unfolding raw_id
interaction_id_ref r = raw_id r.address

unfoldable pub interaction_clone : InteractionRecipient → InteractionRecipient
unfolding clone
interaction_clone r = record { address = clone r.address }

unfoldable pub interaction_eq : InteractionRecipient → InteractionRecipient → Bool
unfolding eq interaction_id_ref
interaction_eq r q = eq (interaction_id_ref r) (interaction_id_ref q)

unfoldable pub interaction_hash :
    {S : Type 0} → (ℕ → S → S) → Heap → InteractionRecipient → S → Option S
unfolding hash interaction_id_ref
interaction_hash feed heap r state = hash feed heap (interaction_id_ref r) state

-- `interact` makes an `InteractionTask`: the recipient and the request, sent by its `recv`.
pub record InteractionTask (I : Type 0) : Type 0 where
  pub recipient : ActionRecipient
  pub request : I

unfoldable pub interact : {I : Type 0} → Address → I → InteractionTask I
unfolding action_recipient
interact a request = record { recipient = action_recipient a; request = request }

unfoldable pub recipient_interact : {I : Type 0} → InteractionRecipient → I → InteractionTask I
unfolding interact
recipient_interact r request = interact r.address request

-- The send of `InteractionTask::recv`.
unfoldable pub recv_send : {I O E : Type 0} → InteractionTask I → ℕ → Post I O E
unfolding send_interaction
recv_send t responder = send_interaction t.recipient.address t.request responder

-- `LiteTask for InteractionTask`: its routine is `recv`, whose request has the responder. `taken` says
-- whether the channel takes the request, and `response` is what the responder gives.
unfoldable pub interaction_routine :
    {I O E : Type 0}
    → InteractionTask I
    → ℕ
    → Bool
    → Option (Result O (Error E))
    → Post I O E × Result O (Error E)
unfolding recv_send recv
interaction_routine t responder taken response = (recv_send t responder, recv taken response)

act-same :
    {I O E : Type 0} (a b : Address) (input : I)
    → a.id ≡ b.id
    → act {O = O} {E = E} a input ≡ act b input
act-same a b input e = ap (λ i. act (record { id = i }) input) e

addressee-eq : {I O E : Type 0} (a b : Ident) (m n : Message I O E) → msg a m ≡ msg b n → a ≡ b
addressee-eq a b m n e = cc

-- Two recipients that an address has given are equal exactly if each input reaches by both the same
-- queue, and then they have the same hash in every heap; and their clones are equal to them, send as
-- they do, and interact as their address.
pub action_eq_iff :
    {I O E S : Type 0} (a b : Address) (input : I) (feed : ℕ → S → S) (heap : Heap) (state : S)
    → let r = action_recipient a in
      let q = action_recipient b in
      ((action_eq r q ≡ true) ↔ (recipient_act {O = O} {E = E} r input ≡ recipient_act q input))
      × (action_eq r q ≡ true → action_hash feed heap r state ≡ action_hash feed heap q state)
      × (action_eq (action_clone r) r ≡ true)
      × (recipient_act {O = O} {E = E} (action_clone r) input ≡ act a input)
      × ((n : ℕ)
          → recv_send {O = O} {E = E}
              (recipient_interact (interaction_clone (interaction_recipient a)) input)
              n
            ≡ send_interaction a input n)
unfolding action_recipient action_eq action_hash action_clone recipient_act act recv_send
    recipient_interact interaction_clone interaction_recipient clone
action_eq_iff {I} {O} {E} a b input feed heap state = (
  (
    λ e. act-same a b input (ground arith),
    λ e. ground (arith, addressee-eq a.id b.id (Message.action input) (Message.action input) e),
  ),
  λ e. ground arith,
  ground arith,
  refl,
  λ n. refl,
)
