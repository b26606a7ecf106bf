-- ===== src/Connect/Talker/Steps.antt =====
-- What one branch of the loop of meio-connect/src/talker.rs passes on, and what it marks.
use meio.Prelude.{
  ◌≡◌, Bool, true, false, ◌||◌, none, some, List, [], ◌∷◌, ◌++◌, Result, ok, err, arith,
}
use mathlib.Core.List.{append-nil}
use meio.Connect.Talker.{
  text, binary, ping, pong, close, other, Ready, stop, request, response, Output, to_actor,
  to_socket, close_socket, Talker, Peers, on_ready,
}

module _ {B I T E : Type 0} (peers : Peers B I T E) where
  open peers use {decode, encode, send_error}

  -- What a branch should pass on: the decoded data of a text or binary message, the encoded form of
  -- an outgoing one, the closing of the socket at the end of the outgoing data.
  abbrev pub decoded : Result I E → List (Output B I)
  decoded (ok i) = to_actor i ∷ []
  decoded (err e) = []

  abbrev pub encoded : Result B E → List (Output B I)
  encoded (ok b) = to_socket b ∷ []
  encoded (err e) = []

  abbrev pub passed : Ready B T E → List (Output B I)
  passed (request (some (ok (text b)))) = decoded (decode b)
  passed (request (some (ok (binary b)))) = decoded (decode b)
  passed (response (some m)) = encoded (encode m)
  passed (response none) = close_socket ∷ []
  passed _ = []

  abbrev pub all_passed : List (Ready B T E) → List (Output B I)
  all_passed [] = []
  all_passed (r ∷ rs) = passed r ++ all_passed rs

  -- Whether a list of branches has the stop, the end of the socket, and the end of the channel.
  abbrev pub is_stop : Ready B T E → Bool
  is_stop stop = true
  is_stop (request r) = false
  is_stop (response r) = false

  abbrev pub is_end : Ready B T E → Bool
  is_end (request none) = true
  is_end (request (some r)) = false
  is_end stop = false
  is_end (response r) = false

  abbrev pub is_drain : Ready B T E → Bool
  is_drain (response none) = true
  is_drain (response (some r)) = false
  is_drain stop = false
  is_drain (request r) = false

  abbrev pub any : (Ready B T E → Bool) → List (Ready B T E) → Bool
  any p [] = false
  any p (r ∷ rs) = p r || any p rs

  -- One branch that is done without an error.
  pub record IsStep (r : Ready B T E) (t t' : Talker B I) : Type 0 where
    pub outputs : t'.outputs ≡ t.outputs ++ passed r
    pub stopped : t'.interrupted ≡ (t.interrupted || is_stop r)
    pub ended : t'.connection_drained ≡ (t.connection_drained || is_end r)
    pub drained : t'.rx_drained ≡ (t.rx_drained || is_drain r)

  pub on_ready-IsStep :
      (r : Ready B T E) (t t' : Talker B I) → on_ready peers r t ≡ ok t' → IsStep r t t'
  unfolding on_ready
  on_ready-IsStep stop t t' e = ground (arith, append-nil t.outputs)
  on_ready-IsStep (request none) t t' e = ground (arith, append-nil t.outputs)
  on_ready-IsStep (request (some (err x))) t t' e = cc
  on_ready-IsStep (request (some (ok (text b)))) t t' e = ground (arith)
  on_ready-IsStep (request (some (ok (binary b)))) t t' e = ground (arith)
  on_ready-IsStep (request (some (ok ping))) t t' e = ground (arith, append-nil t.outputs)
  on_ready-IsStep (request (some (ok pong))) t t' e = ground (arith, append-nil t.outputs)
  on_ready-IsStep (request (some (ok close))) t t' e = ground (arith, append-nil t.outputs)
  on_ready-IsStep (request (some (ok other))) t t' e = ground (arith, append-nil t.outputs)
  on_ready-IsStep (response (some m)) t t' e = ground arith
  on_ready-IsStep (response none) t t' e = ground arith
