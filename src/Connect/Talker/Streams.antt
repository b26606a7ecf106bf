-- ===== src/Connect/Talker/Streams.antt =====
-- The four streams of a talker of meio-connect/src/talker.rs: what it is sent and what it writes, what
-- arrives and what it delivers.
use meio.Prelude.{
  ◌≡◌, refl, ap, Bool, true, false, ◌&&◌, ◌||◌, Option, none, some, List, [], ◌∷◌, ◌++◌, map,
  Result, ok, err, All,
}
use meio.Connect.Talker.{
  TermReason, text, binary, ping, pong, close, other, Ready, stop, request, response, Output,
  to_actor, to_socket, Peers,
}
use meio.Connect.Talker.Steps.{all_passed}
use meio.Connect.Talker.Runs.{Coded}

-- The messages that a talker takes from its channel of outgoing data.
abbrev pub sent : {B T E : Type 0} → List (Ready B T E) → List T
sent [] = []
sent (response (some m) ∷ rs) = m ∷ sent rs
sent (_ ∷ rs) = sent rs

-- The data messages that a talker takes from its socket.
abbrev pub arrived : {B T E : Type 0} → List (Ready B T E) → List B
arrived [] = []
arrived (request (some (ok (text b))) ∷ rs) = b ∷ arrived rs
arrived (request (some (ok (binary b))) ∷ rs) = b ∷ arrived rs
arrived (_ ∷ rs) = arrived rs

-- What a talker has written to its socket, and what it has given to its actor.
abbrev pub written : {B I : Type 0} → List (Output B I) → List B
written [] = []
written (to_socket b ∷ os) = b ∷ written os
written (_ ∷ os) = written os

abbrev pub delivered : {B I : Type 0} → List (Output B I) → List I
delivered [] = []
delivered (to_actor i ∷ os) = i ∷ delivered os
delivered (_ ∷ os) = delivered os

-- Streams and channels end once: nothing comes from them after their end.
abbrev pub is_data : {B T E : Type 0} → Ready B T E → Bool
is_data (request (some r)) = true
is_data _ = false

abbrev pub is_message : {B T E : Type 0} → Ready B T E → Bool
is_message (response (some m)) = true
is_message _ = false

-- The routine has not come back with an error.
abbrev pub Unfailed : {E : Type 0} → Option (Result TermReason E) → Type 0
Unfailed none = Unit
Unfailed (some (ok why)) = Unit
Unfailed (some (err e)) = ⊥

abbrev pub Fused : {A : Type 0} → (A → Bool) → (A → Bool) → Bool → List A → Type 0
Fused ends item ended [] = Unit
Fused ends item ended (r ∷ rs) = ((ended && item r) ≡ false) × Fused ends item (ended || ends r) rs

module _ {A C : Type 0} where
  pub map-append : (f : A → C) (xs ys : List A) → map f (xs ++ ys) ≡ map f xs ++ map f ys
  map-append f [] ys = refl
  map-append f (x ∷ xs) ys = ap (λ z. f x ∷ z) (map-append f xs ys)

-- The lists that the functions above read are made of what single branches give.
module _ {B T E : Type 0} where
  pub arrived-append : (rs ss : List (Ready B T E)) → arrived (rs ++ ss) ≡ arrived rs ++ arrived ss
  arrived-append [] ss = refl
  arrived-append (stop ∷ rs) ss = arrived-append rs ss
  arrived-append (request none ∷ rs) ss = arrived-append rs ss
  arrived-append (request (some (err e)) ∷ rs) ss = arrived-append rs ss
  arrived-append (request (some (ok (text b))) ∷ rs) ss = ap (λ z. b ∷ z) (arrived-append rs ss)
  arrived-append (request (some (ok (binary b))) ∷ rs) ss = ap (λ z. b ∷ z) (arrived-append rs ss)
  arrived-append (request (some (ok ping)) ∷ rs) ss = arrived-append rs ss
  arrived-append (request (some (ok pong)) ∷ rs) ss = arrived-append rs ss
  arrived-append (request (some (ok close)) ∷ rs) ss = arrived-append rs ss
  arrived-append (request (some (ok other)) ∷ rs) ss = arrived-append rs ss
  arrived-append (response r ∷ rs) ss = arrived-append rs ss

  pub sent-append : (rs ss : List (Ready B T E)) → sent (rs ++ ss) ≡ sent rs ++ sent ss
  sent-append [] ss = refl
  sent-append (stop ∷ rs) ss = sent-append rs ss
  sent-append (request r ∷ rs) ss = sent-append rs ss
  sent-append (response none ∷ rs) ss = sent-append rs ss
  sent-append (response (some m) ∷ rs) ss = ap (λ z. m ∷ z) (sent-append rs ss)

module _ {B I T E : Type 0} (peers : Peers B I T E) where
  open peers use {decode, encode}

  -- The outputs of a run, if all that it took could be coded.
  pub delivered-all_passed :
      (rs : List (Ready B T E))
      → All (Coded peers) rs
      → map decode (arrived rs) ≡ map ok (delivered (all_passed peers rs))
  delivered-all_passed [] h = refl
  delivered-all_passed (stop ∷ rs) h = delivered-all_passed rs h.1
  delivered-all_passed (request none ∷ rs) h = delivered-all_passed rs h.1
  delivered-all_passed (request (some (err e)) ∷ rs) h = delivered-all_passed rs h.1
  delivered-all_passed (request (some (ok (text b))) ∷ rs) h =
      rw (h.0.1) (ap (λ z. ok h.0.0 ∷ z) (delivered-all_passed rs h.1))
  delivered-all_passed (request (some (ok (binary b))) ∷ rs) h =
      rw (h.0.1) (ap (λ z. ok h.0.0 ∷ z) (delivered-all_passed rs h.1))
  delivered-all_passed (request (some (ok ping)) ∷ rs) h = delivered-all_passed rs h.1
  delivered-all_passed (request (some (ok pong)) ∷ rs) h = delivered-all_passed rs h.1
  delivered-all_passed (request (some (ok close)) ∷ rs) h = delivered-all_passed rs h.1
  delivered-all_passed (request (some (ok other)) ∷ rs) h = delivered-all_passed rs h.1
  delivered-all_passed (response none ∷ rs) h = delivered-all_passed rs h.1
  delivered-all_passed (response (some m) ∷ rs) h = rw (h.0.1) (delivered-all_passed rs h.1)

  -- What is written decodes to what was sent, by the decoder of the other end.
  pub written-all_passed :
      {F : Type 0} (decode_back : B → Result T F)
      → ((m : T) (b : B) → encode m ≡ ok b → decode_back b ≡ ok m)
      → (rs : List (Ready B T E)) → All (Coded peers) rs
      → map decode_back (written (all_passed peers rs)) ≡ map ok (sent rs)
  written-all_passed d law [] h = refl
  written-all_passed d law (stop ∷ rs) h = written-all_passed d law rs h.1
  written-all_passed d law (request none ∷ rs) h = written-all_passed d law rs h.1
  written-all_passed d law (request (some (err e)) ∷ rs) h = written-all_passed d law rs h.1
  written-all_passed d law (request (some (ok (text b))) ∷ rs) h =
      rw (h.0.1) (written-all_passed d law rs h.1)
  written-all_passed d law (request (some (ok (binary b))) ∷ rs) h =
      rw (h.0.1) (written-all_passed d law rs h.1)
  written-all_passed d law (request (some (ok ping)) ∷ rs) h = written-all_passed d law rs h.1
  written-all_passed d law (request (some (ok pong)) ∷ rs) h = written-all_passed d law rs h.1
  written-all_passed d law (request (some (ok close)) ∷ rs) h = written-all_passed d law rs h.1
  written-all_passed d law (request (some (ok other)) ∷ rs) h = written-all_passed d law rs h.1
  written-all_passed d law (response none ∷ rs) h = written-all_passed d law rs h.1
  written-all_passed d law (response (some m) ∷ rs) h =
      rw (h.0.1, law m h.0.0 h.0.1) (ap (λ z. ok m ∷ z) (written-all_passed d law rs h.1))
