-- ===== src/Connect/Talker/Exchange.antt =====
-- What a talker of meio-connect/src/talker.rs passes on, and how it ends.
use meio.Prelude.{◌≡◌, true, some, List, ◌++◌, ok, if◌then◌else◌, refl}
use meio.Connect.Talker.{TermReason, interrupted, closed, Ready, Talker, Peers, new, routine}
use meio.Connect.Talker.Steps.{all_passed, any, is_stop, is_end, is_drain}
use meio.Connect.Talker.Runs.{routine-IsRun}

module _ {B I T E : Type 0} (peers : Peers B I T E) where
  -- A talker that comes back without an error has passed on, in order, all that it was given up to
  -- then: the decoded data to the actor, the encoded data to the socket, and the closing of the
  -- socket. It comes back only after both the socket and the outgoing channel are drained, and with
  -- `Interrupted` exactly if the stop came before that.
  pub routine_exchanges :
      (rs : List (Ready B T E)) (t : Talker B I) (why : TermReason)
      → routine peers rs (new peers) ≡ (some (ok why), t)
      → (used : List (Ready B T E)) × (rest : List (Ready B T E)) × (rs ≡ used ++ rest)
        × (t.outputs ≡ all_passed peers used)
        × (any peers (is_end peers) used ≡ true)
        × (any peers (is_drain peers) used ≡ true)
        × (why ≡ (if any peers (is_stop peers) used then interrupted else closed))
  unfolding new
  routine_exchanges rs t why e =
      let x = (rw e at (routine-IsRun peers rs (new peers))) in
      let (ended, drained, stopped) = x.finished why refl in
      (x.used, x.rest, x.split, x.outputs, ended, drained, stopped)
