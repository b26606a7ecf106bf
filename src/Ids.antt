-- ===== src/Ids.antt =====
-- meio/src/ids.rs. An `Id` is an `Arc<Uuid>`: here the place of the `Arc` among the allocations of
-- the process, and `Heap` is what each of them holds. `IdOf` is an `Id` with a phantom type.
-- `Uuid::new_v4` is not code of the repository: the value that it returns is an argument.
use meio.Prelude.{ℕ, zero, suc, ◌<◌, ◌≡◌, Bool, true, List, [], ◌∷◌, ◌++◌, ◌==◌, arith, length}
use meio.Prelude.{Option, none, some, refl, ◌≢◌}

abbrev pub Ident : Type 0
Ident = ℕ

-- The value behind each `Arc`, in the order of allocation.
abbrev pub Heap : Type 0
Heap = List ℕ

-- `Id::unique`, with the uuid that `Uuid::new_v4` returned.
unfoldable pub unique : ℕ → Heap → Ident × Heap
unique uuid heap = (length heap, heap ++ uuid ∷ [])

unfoldable pub deref : Ident → Heap → Option ℕ
deref id [] = none
deref zero (u ∷ heap) = some u
deref (suc id) (u ∷ heap) = deref id heap

-- `Arc::ptr_eq`.
unfoldable pub eq : Ident → Ident → Bool
eq a b = a == b

-- `Hash for Id`: the hasher is fed the uuid.
unfoldable pub hash : {S : Type 0} → (ℕ → S → S) → Heap → Ident → S → Option S
hash feed heap id state = elim (deref id heap) [ none ↦ none | some u ↦ some (feed u state) ]

-- `IdOf`; its type parameter is a phantom.
pub record IdOf : Type 0 where
  pub id : Ident

-- `IdOf::new`.
unfoldable pub id_of : Ident → IdOf
id_of id = record { id = id }

unfoldable pub id_of_clone : IdOf → IdOf
unfolding id_of
id_of_clone i = id_of i.id

unfoldable pub id_of_eq : IdOf → IdOf → Bool
unfolding eq
id_of_eq a b = eq a.id b.id

unfoldable pub id_of_hash : {S : Type 0} → (ℕ → S → S) → Heap → IdOf → S → Option S
unfolding hash
id_of_hash feed heap i state = hash feed heap i.id state

-- `From<IdOf<T>> for Id`, and `AsRef<Id>`.
unfoldable pub into_id : IdOf → Ident
into_id i = i.id

deref-append :
    (heap : Heap) (u id : ℕ) → id < length heap → deref id (heap ++ u ∷ []) ≡ deref id heap
unfolding deref
deref-append [] u id h = absurd (omega arith)
deref-append (v ∷ heap) u zero h = refl
deref-append (v ∷ heap) u (suc id) h = deref-append heap u id (omega arith)

deref_fresh : (heap : Heap) (u : ℕ) → deref (length heap) (heap ++ u ∷ []) ≡ some u
unfolding deref
deref_fresh [] u = refl
deref_fresh (v ∷ heap) u = deref_fresh heap u

-- A new id equals no id that was allocated before, whatever uuid it got, and the ids that were
-- allocated before keep their uuids.
pub unique-fresh :
    (heap : Heap) (uuid id : ℕ)
    → id < length heap
    → let (new, after) = unique uuid heap in
      (eq id new ≢ true) × (deref new after ≡ some uuid) × (deref id after ≡ deref id heap)
unfolding unique eq
unique-fresh heap uuid id h =
    (λ e. ground arith, deref_fresh heap uuid, deref-append heap uuid id h)

-- Equal ids have equal hashes, in every heap, so ids can be keys of a hash map.
pub hash-eq :
    {S : Type 0} (feed : ℕ → S → S) (heap : Heap) (a b : Ident) (state : S)
    → eq a b ≡ true
    → hash feed heap a state ≡ hash feed heap b state
unfolding eq hash
hash-eq feed heap a b state h = ground arith
