-- ===== src/Linkage/Envelopes.antt =====
-- The boxed handlers of meio/src/handlers.rs: an envelope owns its message, and gives it to the actor
-- once.
use meio.Prelude.{◌≡◌, refl, Option, none, some}
use meio.Handlers.{Handlers, Script, Message, Outcome, handle}
use meio.Linkage.{Priority, normal, instant_priority}

-- `ActionHandlerImpl`, `InstantActionHandlerImpl`: the input is taken at the first call.
pub data HandlerImpl (M : Type 0) : Type 0 where
  action_handler : Option M → HandlerImpl M
  instant_handler : Option M → HandlerImpl M

-- `Envelope::new`, `Envelope::instant`.
unfoldable pub new : {M : Type 0} → M → HandlerImpl M
new input = action_handler (some input)

unfoldable pub new_instant : {M : Type 0} → M → HandlerImpl M
new_instant input = instant_handler (some input)

-- `Handler::priority`.
unfoldable pub impl_priority : {M : Type 0} → HandlerImpl M → Priority
impl_priority (action_handler input) = normal
impl_priority (instant_handler input) = instant_priority

-- `self.input.take()`.
unfoldable pub take_input : {M : Type 0} → HandlerImpl M → Option M × HandlerImpl M
take_input (action_handler input) = (input, action_handler none)
take_input (instant_handler input) = (input, instant_handler none)

module _ {S G I O E : Type 0} (handlers : Handlers S G I O E) where
  -- `Handler::handle`; `none` for the panic of a second call.
  unfoldable pub handle_impl :
      HandlerImpl (Message I O E)
      → S
      → Option (Script S G O E (Outcome E)) × HandlerImpl (Message I O E)
  unfolding take_input
  handle_impl h s =
      let (input, h') = take_input h in
      (elim input [ none ↦ none | some m ↦ some (handle handlers m s) ], h')

  -- An envelope hands its message to the actor at the first call, and panics at the next; its priority
  -- stays as it is.
  pub handle_impl_once :
      (h : HandlerImpl (Message I O E)) (m : Message I O E) (s s' : S)
      → (take_input h).0 ≡ some m
      → let (first, spent) = handle_impl h s in
        (first ≡ some (handle handlers m s))
        × ((handle_impl spent s').0 ≡ none)
        × (impl_priority spent ≡ impl_priority h)
  unfolding handle_impl take_input impl_priority
  handle_impl_once (action_handler input) m s s' e = (rw e refl, refl, refl)
  handle_impl_once (instant_handler input) m s s' e = (rw e refl, refl, refl)
