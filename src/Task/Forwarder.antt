-- ===== src/Task/Forwarder.antt =====
-- meio/src/forwarders.rs: the task that sends the items of a stream to an actor.
use meio.Prelude.{
  ◌≡◌, Bool, true, Option, none, some, List, [], ◌∷◌, ◌++◌, map, ok, err, arith, All, if◌then◌else◌,
}
use meio.Handlers.{unsent, Outcome}

-- `StreamItem` of meio/src/handlers.rs.
pub data StreamItem (I : Type 0) : Type 0 where
  item : I → StreamItem I
  finished : StreamItem I

-- `StreamForwarder::interruptable_routine`, over what the stream gives: the result, or `none` while
-- it goes on, and the actions that the actor took.
unfoldable pub forward_all :
    {I E : Type 0}
    → (StreamItem I → Bool)
    → List (Option I)
    → Option (Outcome E) × List (StreamItem I)
forward_all takes [] = (none, [])
forward_all takes (none ∷ xs) =
    if takes finished then (some (ok tt), finished ∷ []) else (some (err unsent), [])
forward_all {I} {E} takes (some i ∷ xs) =
    let rest : Option (Outcome E) × List (StreamItem I) = forward_all takes xs in
    if takes (item i) then (rest.0, item i ∷ rest.1) else (some (err unsent), [])

-- `StreamForwarder`, by what its stream gives, and `AttachStream`, which asks for one.
pub record StreamForwarder (I : Type 0) : Type 0 where
  pub stream : List (Option I)

unfoldable pub new : {I : Type 0} → List (Option I) → StreamForwarder I
new stream = record { stream = stream }

pub record AttachStream (I M : Type 0) : Type 0 where
  pub stream : List (Option I)
  pub tag : M

-- `InstantActionHandler<AttachStream>`: the forwarder and the tag that the context attaches.
unfoldable pub attached : {I M : Type 0} → AttachStream I M → StreamForwarder I × M
unfolding new
attached msg = (new msg.stream, msg.tag)

-- The task of a forwarder.
unfoldable pub interruptable_routine :
    {I E : Type 0}
    → StreamForwarder I
    → (StreamItem I → Bool)
    → Option (Outcome E) × List (StreamItem I)
unfolding forward_all
interruptable_routine f takes = forward_all takes f.stream

module _ {I E : Type 0} (takes : StreamItem I → Bool) where
  -- A stream whose items are all taken reaches the actor in its order, followed by `Done` alone, and
  -- then the task ends with success.
  pub forward_all_in_order :
      (is : List I) (after : List (Option I))
      → All (λ i. takes (item i) ≡ true) is
      → takes finished ≡ true
      → forward_all {E = E} takes (map some is ++ none ∷ after)
        ≡ (some (ok tt), map item is ++ finished ∷ [])
  unfolding forward_all
  forward_all_in_order [] after h t = ground arith
  forward_all_in_order (i ∷ is) after h t = ground (arith, forward_all_in_order is after h.1 t)
