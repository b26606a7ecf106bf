-- ===== src/Connect/Talker/Runs.antt =====
-- A run of the loop of meio-connect/src/talker.rs, whatever its outcome: what it has used, what it has
-- put out, and that all it took could be coded.
use meio.Prelude.{
  ◌≡◌, refl, if◌then◌else◌, sym, true, ◌&&◌, ◌||◌, Option, none, some, List, [], ◌∷◌, ◌++◌, Result,
  ok, err, All, arith, Bool-cases, Result-cases, inl, inr, ◌∙◌,
}
use mathlib.Core.List.{append-nil, append_assoc}
use meio.Connect.Talker.{
  TermReason, interrupted, closed, text, binary, ping, pong, close, other, Ready, stop, request,
  response, Talker, Peers, is_done, checks, on_data, on_request, on_response, on_ready, reason,
  routine,
}
use meio.Connect.Talker.Steps.{
  passed, all_passed, any, is_stop, is_end, is_drain, IsStep, on_ready-IsStep,
}

module _ {B I T E : Type 0} (peers : Peers B I T E) where
  open peers use {decode, encode}

  -- What was taken could be encoded, or decoded.
  abbrev pub Coded : Ready B T E → Type 0
  Coded (request (some (ok (text b)))) = (i : I) × (decode b ≡ ok i)
  Coded (request (some (ok (binary b)))) = (i : I) × (decode b ≡ ok i)
  Coded (response (some m)) = (b : B) × (encode m ≡ ok b)
  Coded _ = Unit

  data-Coded : (b : B) (t t' : Talker B I) → on_data peers b t ≡ ok t' → (i : I) × (decode b ≡ ok i)
  unfolding on_data
  data-Coded b t t' e = elim (Result-cases (decode b)) [
    | inl x ↦ x
    | inr (x, f) ↦ let g = rw (f, on_data) at e in cc
  ]

  message-Coded :
      (m : T) (t t' : Talker B I) → on_response peers m t ≡ ok t' → (b : B) × (encode m ≡ ok b)
  unfolding on_response
  message-Coded m t t' e = elim (Result-cases (encode m)) [
    | inl x ↦ x
    | inr (x, f) ↦ let g = rw (f, on_response) at e in cc
  ]

  on_ready-Coded : (r : Ready B T E) (t t' : Talker B I) → on_ready peers r t ≡ ok t' → Coded r
  unfolding on_ready on_request
  on_ready-Coded stop t t' e = tt
  on_ready-Coded (request none) t t' e = tt
  on_ready-Coded (request (some (err x))) t t' e = tt
  on_ready-Coded (request (some (ok (text b)))) t t' e = data-Coded b t t' e
  on_ready-Coded (request (some (ok (binary b)))) t t' e = data-Coded b t t' e
  on_ready-Coded (request (some (ok ping))) t t' e = tt
  on_ready-Coded (request (some (ok pong))) t t' e = tt
  on_ready-Coded (request (some (ok close))) t t' e = tt
  on_ready-Coded (request (some (ok other))) t t' e = tt
  on_ready-Coded (response (some m)) t t' e = message-Coded m t t' e
  on_ready-Coded (response none) t t' e = tt

  -- A run of `routine` up to the outcome `o`.
  pub record IsRun (rs : List (Ready B T E)) (t t' : Talker B I) (o : Option (Result TermReason E))
      : Type 0 where
    pub used : List (Ready B T E)
    pub rest : List (Ready B T E)
    pub split : rs ≡ used ++ rest
    pub outputs : t'.outputs ≡ t.outputs ++ all_passed peers used
    pub coded : All Coded used
    pub all_used : o ≡ none → rest ≡ []
    pub finished :
        (why : TermReason)
        → o ≡ some (ok why)
        → ((t.connection_drained || any peers (is_end peers) used) ≡ true)
          × ((t.rx_drained || any peers (is_drain peers) used) ≡ true)
          × (why
              ≡ (if t.interrupted || any peers (is_stop peers) used then interrupted else closed))

  failed-IsRun :
      (r : Ready B T E) (rs : List (Ready B T E)) (t : Talker B I) (e : E)
      → IsRun (r ∷ rs) t t (some (err e))
  failed-IsRun r rs t e = record {
    used = [];
    rest = r ∷ rs;
    split = refl;
    outputs = sym (append-nil t.outputs);
    coded = tt;
    all_used = λ h. cc;
    finished = λ why h. cc;
  }

  last-IsRun :
      (r : Ready B T E) (rs : List (Ready B T E)) (t t' : Talker B I)
      → IsStep peers r t t'
      → Coded r
      → is_done peers t' ≡ true
      → IsRun (r ∷ rs) t t' (some (ok (reason peers t')))
  unfolding is_done reason
  last-IsRun r rs t t' s c f = record {
    used = r ∷ [];
    rest = rs;
    split = refl;
    outputs = ground (arith, s.outputs, append-nil (passed peers r));
    coded = (c, tt);
    all_used = λ h. cc;
    finished =
        λ w h. (ground (arith, s.ended), ground (arith, s.drained), ground (arith, s.stopped));
  }

  more-IsRun :
      (r : Ready B T E) (rs : List (Ready B T E)) (t t' u : Talker B I)
      (o : Option (Result TermReason E))
      → IsStep peers r t t'
      → Coded r
      → IsRun rs t' u o
      → IsRun (r ∷ rs) t u o
  more-IsRun r rs t t' u o s c x = record {
    used = r ∷ x.used;
    rest = x.rest;
    split = ground (arith, x.split);
    outputs =
        x.outputs
        ∙ rw s.outputs (append_assoc t.outputs (passed peers r) (all_passed peers x.used));
    coded = (c, x.coded);
    all_used = x.all_used;
    finished = λ why h.
        let (ended, drained, stopped) = x.finished why h in
        (
          ground (arith, ended, s.ended),
          ground (arith, drained, s.drained),
          ground (arith, stopped, s.stopped),
        );
  }

  pub routine-IsRun :
      (rs : List (Ready B T E)) (t : Talker B I)
      → let (o, t') = routine peers rs t in IsRun rs t t' o
  unfolding routine
  routine-IsRun [] t = record {
    used = [];
    rest = [];
    split = refl;
    outputs = sym (append-nil t.outputs);
    coded = tt;
    all_used = λ h. refl;
    finished = λ why h. cc;
  }
  routine-IsRun (r ∷ rs) t = elim (Result-cases (on_ready peers r t)) [
    | inr (x, f) ↦ rw (f, routine) (failed-IsRun r rs t x)
    | inl (u, f) ↦ elim (Bool-cases (checks peers r && is_done peers u)) [
      | inl g ↦
          rw (f, g, routine)
            (last-IsRun r rs t u (on_ready-IsStep peers r t u f) (on_ready-Coded r t u f)
              (ground arith))
      | inr g ↦
          rw (f, g, routine)
            (more-IsRun r rs t u _ _ (on_ready-IsStep peers r t u f) (on_ready-Coded r t u f)
              (routine-IsRun rs u))
    ]
  ]
