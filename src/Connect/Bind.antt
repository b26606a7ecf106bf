-- ===== src/Connect/Bind.antt =====
-- meio-connect/src/server/bind.rs: who waits for the address of an `HttpServer`; and when the server
-- is started again, of meio-connect/src/server/routine.rs.
pub mod Answers
use meio.Prelude.{
  ℕ, ◌+◌, ◌*◌, ◌≡◌, Bool, true, false, not, Option, none, some, List, [], ◌∷◌, ◌++◌, Result, ok,
  err, if◌then◌else◌,
}
use meio.Handlers.{TaskError}

-- `AddrState`; a responder is its number, and `A` is `SocketAddr`.
pub data AddrState (A : Type 0) : Type 0 where
  not_assigned_yet : List ℕ → AddrState A
  assigned : A → AddrState A

-- The two messages about the address: `Interact<WaitForAddress>` and `AddrReady`.
pub data BindMessage (A : Type 0) : Type 0 where
  wait_for_address : ℕ → BindMessage A
  addr_ready : A → BindMessage A

-- What a handler sends: a responder and the address that it is sent.
abbrev pub Answers : Type 0 → Type 0
Answers A = List (ℕ × A)

module _ {A : Type 0} where
  -- `AddrState::default`.
  unfoldable pub default : AddrState A
  default = not_assigned_yet []

  -- `ActionHandler<Interact<WaitForAddress>>`.
  unfoldable pub on_wait : ℕ → AddrState A → AddrState A × Answers A
  on_wait responder (not_assigned_yet listeners) =
      (not_assigned_yet (listeners ++ responder ∷ []), [])
  on_wait responder (assigned addr) = (assigned addr, (responder, addr) ∷ [])

  -- `for listener in listeners`.
  unfoldable pub answer_all : A → List ℕ → Answers A
  answer_all addr [] = []
  answer_all addr (l ∷ ls) = (l, addr) ∷ answer_all addr ls

  -- `ActionHandler<AddrReady>`.
  unfoldable pub on_ready : A → AddrState A → AddrState A × Answers A
  unfolding answer_all
  on_ready addr (not_assigned_yet listeners) = (assigned addr, answer_all addr listeners)
  on_ready addr (assigned old) = (assigned addr, [])

  -- The handler of either message.
  unfoldable pub on_message : BindMessage A → AddrState A → AddrState A × Answers A
  unfolding on_wait on_ready
  on_message (wait_for_address responder) s = on_wait responder s
  on_message (addr_ready addr) s = on_ready addr s

  -- The messages in turn, with all that is sent.
  unfoldable pub serve : List (BindMessage A) → AddrState A → AddrState A × Answers A
  unfolding on_message
  serve [] s = (s, [])
  serve (m ∷ ms) s =
      let (next, sent) = on_message m s in let (last, more) = serve ms next in (last, sent ++ more)

-- `TaskEliminated<HyperRoutine, ()>`: when `RestartListener` is scheduled, at the time `now`, if it
-- is.
unfoldable pub restart_at : {O E : Type 0} → Bool → Option ℕ → Result O (TaskError E) → ℕ → Option ℕ
restart_at is_terminating interval (ok res) now = none
restart_at is_terminating none (err e) now = none
restart_at is_terminating (some interval) (err e) now =
    if not is_terminating then some (now + interval) else none
