-- ===== src/Tests/Streams.antt =====
-- Two talkers at the two ends of a socket.
use meio.Prelude.{ℕ, ◌+◌, ◌-◌, ◌≡◌, refl, none, some, List, [], ◌∷◌, ◌++◌, ok, arith}
use meio.Connect.Talker.{binary, ping, Ready, request, response, Peers, new, routine}
use meio.Connect.Talker.Streams.{sent, delivered, written, arrived}
use meio.Connect.Talker.Duplex.{delivered_in_order, all_delivered}

-- The server encodes a number by adding 2, and the client undoes it.
abbrev server : Peers ℕ ℕ ℕ ℕ
server = record { decode = λ b. ok b; encode = λ n. ok (n + 2); send_error = λ o. none }

abbrev client : Peers ℕ ℕ ℕ ℕ
client = record { decode = λ b. ok (b - 2); encode = λ n. ok n; send_error = λ o. none }

codec : (m b : ℕ) → server.encode m ≡ ok b → client.decode b ≡ ok m
codec m b e = ground arith

-- The server is sent two numbers, and then its channel is closed.
abbrev pushes : List (Ready ℕ ℕ ℕ)
pushes = response (some 5) ∷ response (some 8) ∷ response none ∷ request none ∷ []

-- What the client sees first, and all that it sees.
abbrev first_frame : List (Ready ℕ ℕ ℕ)
first_frame = request (some (ok ping)) ∷ request (some (ok (binary 7))) ∷ []

abbrev all_frames : List (Ready ℕ ℕ ℕ)
all_frames =
    request (some (ok (binary 7)))
    ∷ Ready.stop
    ∷ response none
    ∷ request (some (ok (binary 10)))
    ∷ request none
    ∷ []

pushed : written (routine server pushes (new server)).1.outputs ≡ arrived first_frame ++ 10 ∷ []
unfolding routine new
pushed = refl

pushed_all : written (routine server pushes (new server)).1.outputs ≡ arrived all_frames ++ []
unfolding routine new
pushed_all = refl

delivered_in_order_example :
    (rest : List ℕ) × (sent pushes
      ≡ delivered (routine client first_frame (new client)).1.outputs ++ rest)
delivered_in_order_example =
    delivered_in_order server client codec pushes first_frame (10 ∷ []) pushed

all_delivered_example : delivered (routine client all_frames (new client)).1.outputs ≡ sent pushes
unfolding routine new
all_delivered_example =
    all_delivered server client codec pushes all_frames [] pushed_all refl tt tt
      (refl, (refl, (refl, (refl, tt)))) (refl, (refl, (refl, (refl, (refl, tt)))))
