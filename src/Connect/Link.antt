-- ===== src/Connect/Link.antt =====
-- `HttpServerLink` of meio-connect/src/server/mod.rs: what its methods in link.rs and bind.rs send to
-- the server.
use meio.Prelude.{ℕ, ◌≡◌, refl}
use meio.Linkage.{Address, Post, act, send_interaction}
use meio.Linkage.Recipients.{InteractionTask, interact, recv_send, action_recipient}

pub record HttpServerLink : Type 0 where
  pub address : Address

-- `AddRoute` and `WaitForAddress`, with the type of the routes.
pub data LinkMessage (R : Type 0) : Type 0 where
  add_route : R → LinkMessage R
  wait_for_address : LinkMessage R

-- `HttpServerLink::add_route`.
unfoldable pub link_route : {R O E : Type 0} → HttpServerLink → R → Post (LinkMessage R) O E
unfolding act
link_route link route = act link.address (add_route route)

-- `HttpServerLink::wait_for_address`.
unfoldable pub link_wait : {R : Type 0} → HttpServerLink → InteractionTask (LinkMessage R)
unfolding interact
link_wait link = interact link.address wait_for_address

-- A link that awaits the address sends its request to the queue to which it sends its routes.
link_wait_send :
    {R O E : Type 0} (link : HttpServerLink) (responder : ℕ)
    → recv_send {O = O} {E = E} (link_wait {R = R} link) responder
      ≡ send_interaction link.address wait_for_address responder
unfolding recv_send link_wait action_recipient
link_wait_send link responder = refl
