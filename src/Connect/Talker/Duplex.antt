-- ===== src/Connect/Talker/Duplex.antt =====
-- Two talkers of meio-connect/src/talker.rs at the two ends of one socket: a message that one is
-- given is written to the socket, and the other decodes it for its actor.
use meio.Prelude.{
  ◌≡◌, refl, sym, ap, Bool, true, false, ◌||◌, Option, none, some, List, [], ◌∷◌, ◌++◌, map, Result,
  ok, err, All, arith, ◌∙◌, subst,
}
use mathlib.Core.List.{append-nil, append_assoc}
use meio.Connect.Talker.{TermReason, Ready, stop, request, response, Talker, Peers, new, routine}
use meio.Connect.Talker.Steps.{all_passed, any, is_end, is_drain}
use meio.Connect.Talker.Runs.{Coded, IsRun, routine-IsRun}
use meio.Connect.Talker.Streams.{
  sent, arrived, written, delivered, is_data, is_message, Unfailed, Fused, map-append,
  arrived-append, sent-append, delivered-all_passed, written-all_passed,
}

-- Nothing comes after the end.
module _ {B I T E : Type 0} (peers : Peers B I T E) where
  Fused-rest :
      (ends item : Ready B T E → Bool) (ended : Bool) (used rest : List (Ready B T E))
      → Fused ends item ended (used ++ rest)
      → (ended || any peers ends used) ≡ true
      → All (λ r. item r ≡ false) rest
  Fused-rest ends item ended [] [] h e = tt
  Fused-rest ends item ended [] (r ∷ rest) h e =
      (ground (arith, h.0), Fused-rest ends item (ended || ends r) [] rest h.1 (ground arith))
  Fused-rest ends item ended (r ∷ used) rest h e =
      Fused-rest ends item (ended || ends r) used rest h.1 (ground arith)

  arrived_none : (rs : List (Ready B T E)) → All (λ r. is_data r ≡ false) rs → arrived rs ≡ []
  arrived_none [] h = refl
  arrived_none (stop ∷ rs) h = arrived_none rs h.1
  arrived_none (request none ∷ rs) h = arrived_none rs h.1
  arrived_none (request (some r) ∷ rs) h = absurd (cc (h.0))
  arrived_none (response r ∷ rs) h = arrived_none rs h.1

  sent_none : (rs : List (Ready B T E)) → All (λ r. is_message r ≡ false) rs → sent rs ≡ []
  sent_none [] h = refl
  sent_none (stop ∷ rs) h = sent_none rs h.1
  sent_none (request r ∷ rs) h = sent_none rs h.1
  sent_none (response none ∷ rs) h = sent_none rs h.1
  sent_none (response (some m) ∷ rs) h = absurd (cc (h.0))

  -- A run that has not failed has used all the data that came, and all the messages.
  unused_data :
      (rs : List (Ready B T E)) (t : Talker B I) (o : Option (Result TermReason E))
      → (x : IsRun peers rs (new peers) t o) → Unfailed o
      → Fused (is_end peers) is_data false rs
      → arrived x.rest ≡ []
  unfolding new
  unused_data rs t none x u h = rw (x.all_used refl) refl
  unused_data rs t (some (ok why)) x u h = arrived_none x.rest (
      Fused-rest (is_end peers) is_data false x.used x.rest
        (subst (Fused (is_end peers) is_data false) x.split h) (x.finished why refl).0)
  unused_data rs t (some (err e)) x u h = absurd u

  unused_messages :
      (rs : List (Ready B T E)) (t : Talker B I) (o : Option (Result TermReason E))
      → (x : IsRun peers rs (new peers) t o) → Unfailed o
      → Fused (is_drain peers) is_message false rs
      → sent x.rest ≡ []
  unfolding new
  unused_messages rs t none x u h = rw (x.all_used refl) refl
  unused_messages rs t (some (ok why)) x u h = sent_none x.rest (
      Fused-rest (is_drain peers) is_message false x.used x.rest
        (subst (Fused (is_drain peers) is_message false) x.split h) (x.finished why refl).1)
  unused_messages rs t (some (err e)) x u h = absurd u

map_nil : {A C : Type 0} (f : A → C) (xs : List A) → map f xs ≡ [] → xs ≡ []
map_nil f [] e = refl
map_nil f (x ∷ xs) e = absurd cc

-- What is still to come, if one list of successes begins with another.
ok_prefix :
    {A E : Type 0} (xs ys : List A) (zs : List (Result A E))
    → map ok xs ++ zs ≡ map ok ys
    → (rest : List A) × (ys ≡ xs ++ rest) × (zs ≡ map ok rest)
ok_prefix [] ys zs e = (ys, refl, e)
ok_prefix (x ∷ xs) [] zs e = absurd (cc)
ok_prefix (x ∷ xs) (y ∷ ys) zs e = let (rest, f, g) = ok_prefix xs ys zs (cc) in (rest, cc, g)

-- The two ends of a socket: `near` sends, and `far` receives. What the codec is relied on for: what
-- was encoded is decoded to the same.
module _ {B I T E U F : Type 0} (near : Peers B I T E) (far : Peers B T U F)
    (codec : (m : T) (b : B) → near.encode m ≡ ok b → far.decode b ≡ ok m) where
  open far use {decode}

  used_in_order :
      (ss : List (Ready B T E)) (rs : List (Ready B U F)) (flight : List B)
      → All (Coded near) ss
      → All (Coded far) rs
      → written (all_passed near ss) ≡ arrived rs ++ flight
      → (rest : List T) × (sent ss ≡ delivered (all_passed far rs) ++ rest)
        × (map decode flight ≡ map ok rest)
  used_in_order ss rs flight hs hr e =
      ok_prefix (delivered (all_passed far rs)) (sent ss) (map decode flight) (
        rw (← delivered-all_passed far rs hr, ← written-all_passed near decode codec ss hs, e)
          (sym (map-append decode (arrived rs) flight)))

  -- The far end gets what the near end writes, in order, `flight` of it being on the way.
  module _ (ss : List (Ready B T E)) (rs : List (Ready B U F)) (flight : List B)
      (socket : written (routine near ss (new near)).1.outputs ≡ arrived rs ++ flight) where
    x : let (o, t) = routine near ss (new near) in IsRun near ss (new near) t o
    x = routine-IsRun near ss (new near)

    y : let (o, t) = routine far rs (new far) in IsRun far rs (new far) t o
    y = routine-IsRun far rs (new far)

    rest_on_the_way :
        (rest : List T) × (sent x.used ≡ delivered (all_passed far y.used) ++ rest)
        × (map decode (arrived y.rest ++ flight) ≡ map ok rest)
    unfolding new
    rest_on_the_way = used_in_order x.used y.used (arrived y.rest ++ flight) x.coded y.coded (
        ap written (sym x.outputs)
        ∙ socket
        ∙ rw (ap arrived y.split, arrived-append y.used y.rest, append_assoc) refl)

    -- At every moment the actor at the far end has been given a beginning of what the near end was
    -- sent, in order, nothing twice and nothing else.
    pub delivered_in_order :
        (rest : List T) × (sent ss ≡ delivered (routine far rs (new far)).1.outputs ++ rest)
    unfolding new
    delivered_in_order =
        let (rest, e, f) = rest_on_the_way in
        (
          rest ++ sent x.rest,
          ap sent x.split
              ∙ sent-append x.used x.rest
              ∙ (rw (e, ap delivered y.outputs)
                  (append_assoc (delivered (all_passed far y.used)) rest (sent x.rest))),
        )

    -- Once nothing is on the way, and while neither end has failed, the actor at the far end has been
    -- given exactly what the near end was sent, in order. This is relied on: nothing comes from a
    -- stream or a channel after its end.
    pub all_delivered :
        flight ≡ []
        → Unfailed (routine near ss (new near)).0
        → Unfailed (routine far rs (new far)).0
        → Fused (is_drain near) is_message false ss
        → Fused (is_end far) is_data false rs
        → delivered (routine far rs (new far)).1.outputs ≡ sent ss
    unfolding new
    all_delivered f u v hs hr =
        let (rest, e, g) = rest_on_the_way in
        let no_data = unused_data far rs _ _ y v hr in
        let no_more = unused_messages near ss _ _ x u hs in
        let none_left = map_nil ok rest (sym g ∙ rw (no_data, f) refl) in
        ap delivered y.outputs
        ∙ sym (
            ap sent x.split
            ∙ sent-append x.used x.rest
            ∙ (rw
                (
                  no_more,
                  e,
                  none_left,
                  append-nil (delivered (all_passed far y.used) ++ []),
                  append-nil,
                )
                refl))
