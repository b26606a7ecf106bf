-- ===== src/Prelude/Set.antt =====
-- `HashSet` and the other collections that are used as sets, as lists. The order of the list stands
-- for nothing: code that iterates over a set takes the order of iteration as a parameter.
use Prim.Native.Nat.{ℕ, suc, ◌+◌, ◌≤◌, ◌<◌}
use mathlib.Core.Path.{◌≡◌, refl}
use mathlib.Core.Logic.{ite, if_pos, if_neg}
use mathlib.Core.Bool.{Bool, true, false, ◌||◌}
use mathlib.Core.List.{List, [], ◌∷◌, ◌++◌}
use native.Mathlib.Omega.{arith}

module _ {ℓ} {A : Type ℓ} (dec : Discrete A) where
  unfoldable pub count : A → List A → ℕ
  count a [] = 0
  count a (x ∷ xs) = let rest = count a xs in ite (dec a x) (suc rest) rest

  unfoldable pub contains : A → List A → Bool
  contains a [] = false
  contains a (x ∷ xs) = let rest = contains a xs in ite (dec a x) true rest

  unfoldable pub insert : A → List A → List A
  unfolding contains
  insert a xs = elim (contains a xs) [ true ↦ xs | false ↦ a ∷ xs ]

  unfoldable pub remove : A → List A → List A
  remove a [] = []
  remove a (x ∷ xs) = let rest = remove a xs in ite (dec a x) rest (x ∷ rest)

  pub count-append : (a : A) (xs ys : List A) → count a (xs ++ ys) ≡ count a xs + count a ys
  unfolding count
  count-append a [] ys = omega arith
  count-append a (x ∷ xs) ys = ground (arith, count-append a xs ys)

  pub count_of_contains : (a : A) (xs : List A) → contains a xs ≡ true → 0 < count a xs
  unfolding count contains
  count_of_contains a [] h = cc
  count_of_contains a (x ∷ xs) h = ground (arith, count_of_contains a xs)

  pub contains_of_count : (a : A) (xs : List A) → 0 < count a xs → contains a xs ≡ true
  unfolding count contains
  contains_of_count a [] h = absurd (omega arith)
  contains_of_count a (x ∷ xs) h = ground (arith, contains_of_count a xs)

  pub contains-insert :
      (a b : A) (xs : List A) → contains a (insert b xs) ≡ ite (dec a b) true (contains a xs)
  unfolding insert contains
  contains-insert a b [] = ground arith
  contains-insert a b (x ∷ xs) = ground (arith, contains-insert a b xs)

  pub contains-remove :
      (a b : A) (xs : List A) → contains a (remove b xs) ≡ ite (dec a b) false (contains a xs)
  unfolding remove contains
  contains-remove a b [] = ground arith
  contains-remove a b (x ∷ xs) = elim (dec b x) [
    | yes p ↦ rw (if_pos (dec b x) p) (ground (arith, contains-remove a b xs))
    | no p ↦ rw (if_neg (dec b x) p) (ground (arith, contains-remove a b xs))
  ]

  pub contains-append :
      (a : A) (xs ys : List A) → contains a (xs ++ ys) ≡ contains a xs || contains a ys
  unfolding contains
  contains-append a [] ys = refl
  contains-append a (x ∷ xs) ys = ground (arith, contains-append a xs ys)

  pub contains_head : (x : A) (xs : List A) → contains x (x ∷ xs) ≡ true
  unfolding contains
  contains_head x xs = ground arith

  -- A set with no element is empty.
  pub eq-nil_of_contains : (xs : List A) → ((a : A) → contains a xs ≡ false) → xs ≡ []
  eq-nil_of_contains [] h = refl
  eq-nil_of_contains (x ∷ xs) h = cc (h x, contains_head x xs)

  pub count-remove-le : (a b : A) (xs : List A) → count a (remove b xs) ≤ count a xs
  unfolding count remove
  count-remove-le a b [] = omega arith
  count-remove-le a b (x ∷ xs) = elim (dec b x) [
    | yes p ↦ rw (if_pos (dec b x) p) (ground (arith, count-remove-le a b xs))
    | no p ↦ rw (if_neg (dec b x) p) (ground (arith, count-remove-le a b xs))
  ]

  -- Insertion does not repeat an element.
  pub count-insert-le : (a b : A) (xs : List A) → count a xs ≤ 1 → count a (insert b xs) ≤ 1
  unfolding count insert
  count-insert-le a b xs h = ground (arith, contains_of_count b xs)
