-- ===== src/Prelude/Map.antt =====
-- `HashMap`, as an association list. `IsMap` says that no key is listed twice.
use mathlib.Core.Path.{◌≡◌, refl, sym, ◌∙◌}
use mathlib.Core.Logic.{ite, if_pos, if_neg}
use mathlib.Core.Bool.{Bool, true, ◌&&◌}
use mathlib.Core.Option.{Option, none, some}
use mathlib.Core.List.{List, [], ◌∷◌}
use native.Mathlib.Omega.{arith}
use meio.Prelude.Set

module _ {ℓ} {K V : Type ℓ} where
  unfoldable pub keys : List (K × V) → List K
  keys [] = []
  keys ((k, v) ∷ m) = k ∷ keys m

  unfoldable pub values : List (K × V) → List V
  values [] = []
  values ((k, v) ∷ m) = v ∷ values m

module _ {ℓ} {K V : Type ℓ} (dec : Discrete K) where
  unfoldable pub lookup : K → List (K × V) → Option V
  lookup k [] = none
  lookup k ((j, v) ∷ m) = let rest = lookup k m in ite (dec k j) (some v) rest

  unfoldable pub insert : K → V → List (K × V) → List (K × V)
  insert k v [] = (k, v) ∷ []
  insert k v ((j, w) ∷ m) = let rest = insert k v m in ite (dec k j) ((k, v) ∷ m) ((j, w) ∷ rest)

  unfoldable pub remove : K → List (K × V) → List (K × V)
  remove k [] = []
  remove k ((j, w) ∷ m) = let rest = remove k m in ite (dec k j) rest ((j, w) ∷ rest)

  pub lookup-insert :
      (k j : K) (v : V) (m : List (K × V))
      → lookup j (insert k v m) ≡ ite (dec j k) (some v) (lookup j m)
  unfolding lookup insert
  lookup-insert k j v [] = refl
  lookup-insert k j v ((i, w) ∷ m) = ground (arith, lookup-insert k j v m)

  pub lookup-remove :
      (k j : K) (m : List (K × V)) → lookup j (remove k m) ≡ ite (dec j k) none (lookup j m)
  unfolding lookup remove
  lookup-remove k j [] = ground arith
  lookup-remove k j ((i, w) ∷ m) = ground (arith, lookup-remove k j m)

  abbrev pub IsMap : List (K × V) → Type ℓ
  IsMap [] = Unit
  IsMap ((k, v) ∷ m) = (lookup k m ≡ none) × IsMap m

  pub insert-IsMap : (k : K) (v : V) (m : List (K × V)) → IsMap m → IsMap (insert k v m)
  unfolding insert lookup
  insert-IsMap k v [] h = (refl, tt)
  insert-IsMap k v ((j, w) ∷ m) h = ground (arith, insert-IsMap k v m h.1, lookup-insert k j v m)

  pub remove-IsMap : (k : K) (m : List (K × V)) → IsMap m → IsMap (remove k m)
  unfolding remove lookup
  remove-IsMap k [] h = tt
  remove-IsMap k ((j, w) ∷ m) h = ground (arith, remove-IsMap k m h.1, lookup-remove k j m)

  pub contains-keys_of_lookup :
      (k : K) (v : V) (m : List (K × V)) → lookup k m ≡ some v → Set.contains dec k (keys m) ≡ true
  unfolding lookup keys Set.contains
  contains-keys_of_lookup k v [] h = cc
  contains-keys_of_lookup k v ((j, w) ∷ m) h = elim (dec k j) [
    | yes p ↦ if_pos (dec k j) p _ _
    | no p ↦
        if_neg (dec k j) p _ _ ∙ contains-keys_of_lookup k v m (sym (if_neg (dec k j) p _ _) ∙ h)
  ]

-- `values().all(p)`.
module _ {ℓ} {V : Type ℓ} where
  unfoldable pub all : (V → Bool) → List V → Bool
  all p [] = true
  all p (v ∷ vs) = let rest = all p vs in p v && rest

module _ {ℓ} {K V : Type ℓ} (dec : Discrete K) (p : V → Bool) where
  pub of_all :
      (k : K) (v : V) (m : List (K × V))
      → lookup dec k m ≡ some v
      → all p (values m) ≡ true
      → p v ≡ true
  unfolding lookup values all
  of_all k v [] h a = cc
  of_all k v ((j, w) ∷ m) h a = ground (arith, of_all k v m)

  pub all_of :
      (m : List (K × V))
      → IsMap dec m
      → ((k : K) (v : V) → lookup dec k m ≡ some v → p v ≡ true)
      → all p (values m) ≡ true
  unfolding lookup values all
  all_of [] d h = refl
  all_of ((j, w) ∷ m) d h =
      let rest = all_of m d.1 (λ k v e. h k v (ground (arith, d.0))) in ground (arith, rest, h j w)
