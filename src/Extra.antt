-- ===== src/Extra.antt =====
-- meio-extra/src: actions of one's own type, and the handler that takes such an action apart. They
-- are handlers of an actor, so they are scripts of `Handlers`.
use meio.Prelude.{ℕ, Option, none, some}
use meio.Handlers.{Script, Outcome}
use meio.Linkage.{Priority, normal}

-- `CustomActionHandlerImpl`: the envelope holds its input until it is handled.
pub record CustomActionHandlerImpl (I : Type 0) : Type 0 where
  pub input : Option I

-- `CustomActionHandler`.
pub record CustomActionHandler (S G I O E : Type 0) : Type 0 where
  pub handle : I → S → Script S G O E (Outcome E)

-- `ExtendedHandler`; a `u8` is a number.
pub record ExtendedHandler (S G O E : Type 0) : Type 0 where
  pub handle : ℕ → S → Script S G O E (Outcome E)
  pub done : S → Script S G O E (Outcome E)

-- `ExtendedAction`.
pub record ExtendedAction : Type 0 where
  pub inner_value : Option ℕ

unfoldable pub custom_priority : {I : Type 0} → CustomActionHandlerImpl I → Priority
custom_priority m = normal

module _ {S G I O E : Type 0} (a : CustomActionHandler S G I O E) where
  -- `Handler::handle` of the envelope, with what is left of it; `none` is the panic of
  -- `expect("action handler called twice")`.
  unfoldable pub custom_handle :
      CustomActionHandlerImpl I
      → S
      → Option (CustomActionHandlerImpl I × Script S G O E (Outcome E))
  custom_handle m s = elim m.input [
    | none ↦ none
    | some input ↦ some (record { input = none }, a.handle input s)
  ]

-- `CustomActionHandler<ExtendedAction>` of an `ExtendedHandler`.
unfoldable pub extended :
    {S G O E : Type 0} → ExtendedHandler S G O E → CustomActionHandler S G ExtendedAction O E
extended a = record {
  handle = λ input s. elim input.inner_value [ some value ↦ a.handle value s | none ↦ a.done s ];
}
