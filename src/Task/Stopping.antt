-- ===== src/Task/Stopping.antt =====
-- When the stop future of a task is ready.
use meio.Prelude.{◌≡◌, refl, false, List, [], ◌∷◌, ◌↔◌, All}
use meio.Task.{alive, stop, Watched, changed, closed, just_done}

-- No stop, and no end of the senders.
abbrev pub IsWaiting : Watched → Type 0
IsWaiting (changed alive) = Unit {0}
IsWaiting (changed stop) = ⊥
IsWaiting closed = ⊥

-- The stop future of a task is pending exactly as long as the channel only told that the task is
-- alive: it ends with the signal, and with the last sender too.
pub just_done-pending_iff : (ws : List Watched) → (just_done ws ≡ false) ↔ All IsWaiting ws
unfolding just_done
just_done-pending_iff [] = (λ e. tt, λ a. refl)
just_done-pending_iff (closed ∷ ws) = (λ e. cc, λ a. absurd a.0)
just_done-pending_iff (changed alive ∷ ws) =
    let (to, from) = just_done-pending_iff ws in (λ e. (tt, to e), λ a. from a.1)
just_done-pending_iff (changed stop ∷ ws) = (λ e. cc, λ a. absurd a.0)
