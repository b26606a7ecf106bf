-- ===== src/World/Spawns.antt =====
-- Which actors and tasks a log tells of.
use meio.Prelude.{
  ℕ, Result, ◌≡◌, refl, Bool, true, false, Option, none, some, List, [], ◌∷◌, ◌++◌, ◌||◌, map,
  arith, ◌⊎◌, ◌≢◌,
}
use meio.Ids.{Ident}
use meio.Lifecycle.{Send, Interrupt}
use meio.Handlers.{Error}
use meio.Context.{Effect, signal, spawned, task_spawned, response}
use meio.World.{same_supervisor, is_spawned, Report, is_pending, take_report}

module _ {O E : Type 0} where
  pub is_spawned-append :
      (b : Bool) (s : Option Ident) (id : Ident) (xs ys : List (Effect O E))
      → is_spawned b s id (xs ++ ys) ≡ is_spawned b s id xs || is_spawned b s id ys
  unfolding is_spawned
  is_spawned-append b s id [] ys = refl
  is_spawned-append b s id (x ∷ xs) ys = ground (arith, is_spawned-append b s id xs ys)

  -- Effects that are no spawns.
  abbrev pub IsSilent : List (Effect O E) → Type 0
  IsSilent es = (b : Bool) (s : Option Ident) (id : Ident) → is_spawned b s id es ≡ false

  pub is_spawned-silent :
      (b : Bool) (s : Option Ident) (id : Ident) (log es : List (Effect O E))
      → IsSilent es
      → is_spawned b s id (log ++ es) ≡ is_spawned b s id log
  is_spawned-silent b s id log es h = ground (arith, is_spawned-append b s id log es, h b s id)

pub signals-IsSilent :
    (O E : Type 0) (ss : List (Send Interrupt)) → IsSilent {O = O} {E = E} (map signal ss)
unfolding is_spawned
signals-IsSilent O E [] b s id = refl
signals-IsSilent O E (x ∷ ss) false s id = signals-IsSilent O E ss false s id
signals-IsSilent O E (x ∷ ss) true s id = signals-IsSilent O E ss true s id

pub same_supervisor_eq : (a b : Option Ident) → same_supervisor a b ≡ true → a ≡ b
same_supervisor_eq none none h = refl
same_supervisor_eq none (some b) h = cc
same_supervisor_eq (some a) none h = cc
same_supervisor_eq (some a) (some b) h = ground arith

pub same_supervisor_self : (a : Option Ident) → same_supervisor a a ≡ true
same_supervisor_self none = refl
same_supervisor_self (some a) = ground arith

pub is_pending-append :
    (s id : Ident) (xs ys : List Report)
    → is_pending s id (xs ++ ys) ≡ is_pending s id xs || is_pending s id ys
unfolding is_pending
is_pending-append s id [] ys = refl
is_pending-append s id (x ∷ xs) ys = ground (arith, is_pending-append s id xs ys)

pub is_pending-take :
    (s id t k : Ident) (rs : List Report)
    → is_pending t k (take_report s id rs) ≡ true
    → is_pending t k rs ≡ true
unfolding is_pending take_report
is_pending-take s id t k [] h = h
is_pending-take s id t k (r ∷ rs) h = ground (arith, is_pending-take s id t k rs)

-- Only the report that is read goes away.
pub is_pending-take_other :
    (s id t k : Ident) (rs : List Report)
    → k ≢ id ⊎ t ≢ s
    → is_pending t k rs ≡ true
    → is_pending t k (take_report s id rs) ≡ true
unfolding is_pending take_report
is_pending-take_other s id t k [] ne h = h
is_pending-take_other s id t k (r ∷ rs) ne h = ground (arith, is_pending-take_other s id t k rs ne)

pub signal-IsSilent : (O E : Type 0) (x : Send Interrupt) → IsSilent {O = O} {E = E} (signal x ∷ [])
unfolding is_spawned
signal-IsSilent O E x false s id = refl
signal-IsSilent O E x true s id = refl

pub response-IsSilent :
    (O E : Type 0) (n : ℕ) (r : Result O (Error E)) → IsSilent {O = O} {E = E} (response n r ∷ [])
unfolding is_spawned
response-IsSilent O E n r false s id = refl
response-IsSilent O E n r true s id = refl

-- The spawn of one actor, or of one task, with the interrupts that come with it.
pub spawned_only :
    {O E : Type 0} (k a : Ident) (es : List (Effect O E)) (b : Bool) (s : Option Ident) (id : Ident)
    → IsSilent es
    → is_spawned b s id (spawned k (some a) ∷ es) ≡ true
    → (s ≡ some a) × (id ≡ k)
unfolding is_spawned
spawned_only k a es false s id silent e =
    ground (arith, same_supervisor_eq s (some a), silent false s id)
spawned_only k a es true s id silent e = ground (arith, silent true s id)

pub task_spawned_only :
    {O E : Type 0} (k a : Ident) (es : List (Effect O E)) (b : Bool) (s : Option Ident) (id : Ident)
    → IsSilent es
    → is_spawned b s id (task_spawned k (some a) ∷ es) ≡ true
    → (s ≡ some a) × (id ≡ k)
unfolding is_spawned
task_spawned_only k a es true s id silent e =
    ground (arith, same_supervisor_eq s (some a), silent true s id)
task_spawned_only k a es false s id silent e = ground (arith, silent false s id)

pub spawned_there :
    {O E : Type 0} (k a : Ident) (es : List (Effect O E))
    → is_spawned false (some a) k (spawned k (some a) ∷ es) ≡ true
unfolding is_spawned
spawned_there k a es = ground arith

pub task_spawned_there :
    {O E : Type 0} (k a : Ident) (es : List (Effect O E))
    → is_spawned true (some a) k (task_spawned k (some a) ∷ es) ≡ true
unfolding is_spawned
task_spawned_there k a es = ground arith
