-- ===== src/Connect/Bind/Answers.antt =====
-- Who is told the address of an `HttpServer`.
use meio.Prelude.{ℕ, ◌+◌, ◌≡◌, refl, Bool, true, false, List, [], ◌∷◌, ◌++◌, arith, ℕ_discrete}
use meio.Prelude.Set.{count, count-append}
use meio.Connect.Bind.{
  AddrState, not_assigned_yet, assigned, BindMessage, wait_for_address, addr_ready, Answers,
  default, on_wait, answer_all, on_ready, on_message, serve,
}

module _ {A : Type 0} where
  -- Who has asked for the address.
  abbrev pub asking : List (BindMessage A) → List ℕ
  asking [] = []
  asking (wait_for_address responder ∷ ms) = responder ∷ asking ms
  asking (addr_ready addr ∷ ms) = asking ms

  -- Who has been sent it.
  abbrev pub told : Answers A → List ℕ
  told [] = []
  told ((responder, addr) ∷ more) = responder ∷ told more

  -- Who still waits.
  abbrev pub waiting : AddrState A → List ℕ
  waiting (not_assigned_yet listeners) = listeners
  waiting (assigned addr) = []

  -- Whether the server has ever been ready.
  abbrev pub was_ready : List (BindMessage A) → Bool
  was_ready [] = false
  was_ready (wait_for_address responder ∷ ms) = was_ready ms
  was_ready (addr_ready addr ∷ ms) = true

  told-append : (xs ys : Answers A) → told (xs ++ ys) ≡ told xs ++ told ys
  told-append [] ys = refl
  told-append ((responder, addr) ∷ xs) ys = rw (told-append xs ys) refl

  told-answer_all : (addr : A) (ls : List ℕ) → told (answer_all addr ls) ≡ ls
  unfolding answer_all
  told-answer_all addr [] = refl
  told-answer_all addr (l ∷ ls) = rw (told-answer_all addr ls) refl

  -- From any state, no request for the address is lost or answered twice.
  serve-count :
      (responder : ℕ) (ms : List (BindMessage A)) (s : AddrState A)
      → count ℕ_discrete responder (told (serve ms s).1)
          + count ℕ_discrete responder (waiting (serve ms s).0)
        ≡ count ℕ_discrete responder (asking ms) + count ℕ_discrete responder (waiting s)
  unfolding serve on_message on_wait on_ready count
  serve-count responder [] s = omega arith
  serve-count responder (wait_for_address x ∷ ms) (not_assigned_yet ls) = ground (
    arith,
    serve-count responder ms (not_assigned_yet (ls ++ x ∷ [])),
    count-append ℕ_discrete responder ls (x ∷ []),
  )
  serve-count responder (wait_for_address x ∷ ms) (assigned addr) =
      ground (arith, serve-count responder ms (assigned addr))
  serve-count responder (addr_ready addr ∷ ms) (not_assigned_yet ls) = ground (
    arith,
    serve-count responder ms (assigned addr),
    count-append ℕ_discrete responder (told (answer_all addr ls))
        (told (serve ms (assigned addr)).1),
    told-append (answer_all addr ls) (serve ms (assigned addr)).1,
    told-answer_all addr ls,
  )
  serve-count responder (addr_ready addr ∷ ms) (assigned old) =
      serve-count responder ms (assigned addr)

  serve-assigned :
      (ms : List (BindMessage A)) (addr : A) → waiting (serve ms (assigned addr)).0 ≡ []
  unfolding serve on_message on_wait on_ready
  serve-assigned [] addr = refl
  serve-assigned (wait_for_address x ∷ ms) addr = serve-assigned ms addr
  serve-assigned (addr_ready new ∷ ms) addr = serve-assigned ms new

  serve-ready :
      (ms : List (BindMessage A)) (s : AddrState A)
      → was_ready ms ≡ true
      → waiting (serve ms s).0 ≡ []
  unfolding serve on_message on_wait on_ready
  serve-ready [] s h = cc
  serve-ready (wait_for_address x ∷ ms) (not_assigned_yet ls) h =
      serve-ready ms (not_assigned_yet (ls ++ x ∷ [])) h
  serve-ready (wait_for_address x ∷ ms) (assigned addr) h = serve-assigned ms addr
  serve-ready (addr_ready addr ∷ ms) (not_assigned_yet ls) h = serve-assigned ms addr
  serve-ready (addr_ready addr ∷ ms) (assigned old) h = serve-assigned ms addr

  -- A server that has been ready, before, between or after the requests for its address, has
  -- answered each of them exactly once: every responder is sent the address as often as it asked.
  pub serve_answers :
      (ms : List (BindMessage A)) (responder : ℕ)
      → was_ready ms ≡ true
      → count ℕ_discrete responder (told (serve ms default).1)
        ≡ count ℕ_discrete responder (asking ms)
  unfolding default count
  serve_answers ms responder h =
      ground (arith, serve-count responder ms default, serve-ready ms default h)
