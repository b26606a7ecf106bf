-- ===== src/Lifecycle/Replay.antt =====
-- What a `LifetimeTracker` of meio/src/lifecycle.rs promises to its user: a map from the children to
-- their groups, and a flag.
use meio.Prelude.{
  ◌≡◌, refl, Bool, true, false, Option, none, some, List, [], ◌∷◌, ite, ℕ_discrete, ap, ◌∙◌, sym,
  subst,
}
use meio.Prelude.Set
use meio.Prelude.Map
use meio.Ids.{Ident}
use meio.Lifecycle.{
  LifetimeTracker, Hashing, insert_record, insert, insert_task, remove, start_termination,
  termination_sequence, new, try_terminate_next, entry, once, stop, forward,
}
use meio.Lifecycle.Invariant.{
  IsConsistent, new-IsConsistent, insert_record-IsConsistent, group_in, group_in-insert,
}
use meio.Lifecycle.Kept.{try_terminate_next-IsConsistent, remove-IsConsistent}
use meio.Lifecycle.Interrupts.Group.{is_group, count_in}
use meio.Lifecycle.Interrupts.History.{sequenced-IsConsistent}
use meio.Lifecycle.Drain.{group_in-remove_child, remove_keeps}

-- The calls of the methods that change a tracker.
pub data Call (G : Type 0) : Type 0 where
  insert_call : Ident → G → Call G
  insert_task_call : Ident → G → Call G
  remove_call : Ident → Call G
  start_call : Call G
  sequence_call : List G → Call G

-- The children with their groups, and whether the termination has begun.
pub record Family (G : Type 0) : Type 0 where
  pub groups : Ident → Option G
  pub terminating : Bool

unfoldable pub nobody : {G : Type 0} → Family G
nobody = record { groups = λ k. none; terminating = false }

unfoldable pub promised : {G : Type 0} → Call G → Family G → Family G
promised (insert_call id g) f = record f {
  groups = λ k. ite (ℕ_discrete k id) (some g) (f.groups k);
}
promised (insert_task_call id g) f = record f {
  groups = λ k. ite (ℕ_discrete k id) (some g) (f.groups k);
}
promised (remove_call id) f = record f { groups = λ k. ite (ℕ_discrete k id) none (f.groups k) }
promised start_call f = record f { terminating = true }
promised (sequence_call groups) f = f

unfoldable pub promised_all : {G : Type 0} → List (Call G) → Family G → Family G
promised_all [] f = f
promised_all (c ∷ cs) f = promised_all cs (promised c f)

-- A child is inserted only when it is not held: each has an id of its own.
abbrev pub AreFresh : {G : Type 0} → List (Call G) → Family G → Type 0
AreFresh [] f = Unit {0}
AreFresh (insert_call id g ∷ cs) f =
    (f.groups id ≡ none) × AreFresh cs (promised (insert_call id g) f)
AreFresh (insert_task_call id g ∷ cs) f =
    (f.groups id ≡ none) × AreFresh cs (promised (insert_task_call id g) f)
AreFresh (remove_call id ∷ cs) f = AreFresh cs (promised (remove_call id) f)
AreFresh (start_call ∷ cs) f = AreFresh cs (promised start_call f)
AreFresh (sequence_call groups ∷ cs) f = AreFresh cs (promised (sequence_call groups) f)

module _ {G : Type 0} (h : Hashing G) where
  unfoldable pub perform : Call G → LifetimeTracker G → LifetimeTracker G
  perform (insert_call id g) t = (insert h t id g).0
  perform (insert_task_call id g) t = (insert_task h t id g).0
  perform (remove_call id) t = (remove h t id).0
  perform start_call t = (start_termination h t).0
  perform (sequence_call groups) t = termination_sequence h t groups

  unfoldable pub perform_all : List (Call G) → LifetimeTracker G → LifetimeTracker G
  perform_all [] t = t
  perform_all (c ∷ cs) t = perform_all cs (perform c t)

  -- What a user sees of a tracker.
  unfoldable pub family : LifetimeTracker G → Family G
  family t = record { groups = group_in t.records; terminating = t.terminating }

  family-eq :
      (t : LifetimeTracker G) (f : Family G)
      → ((k : Ident) → group_in t.records k ≡ f.groups k)
      → t.terminating ≡ f.terminating
      → family t ≡ f
  unfolding family
  family-eq t f same flag = λ i. record { groups = λ k. same k i; terminating = flag i }

  family-perform :
      (c : Call G) (t : LifetimeTracker G) → family (perform c t) ≡ promised c (family t)
  unfolding perform promised family insert insert_task insert_record start_termination
      try_terminate_next termination_sequence
  family-perform (insert_call id g) t =
      family-eq (perform (insert_call id g) t) (promised (insert_call id g) (family t))
        (λ k. group_in-insert id k _ t.records) refl
  family-perform (insert_task_call id g) t =
      family-eq (perform (insert_task_call id g) t) (promised (insert_task_call id g) (family t))
        (λ k. group_in-insert id k _ t.records) refl
  family-perform (remove_call id) t =
      family-eq (perform (remove_call id) t) (promised (remove_call id) (family t))
        (λ k. group_in-remove_child h t id k) (remove_keeps h t id)
  family-perform start_call t =
      family-eq (perform start_call t) (promised start_call (family t)) (λ k. refl) refl
  family-perform (sequence_call groups) t =
      family-eq (perform (sequence_call groups) t) (promised (sequence_call groups) (family t))
        (λ k. refl) refl

  performed :
      (cs : List (Call G)) (t : LifetimeTracker G)
      → family (perform_all cs t) ≡ promised_all cs (family t)
  unfolding perform_all promised_all
  performed [] t = refl
  performed (c ∷ cs) t = performed cs (perform c t) ∙ ap (promised_all cs) (family-perform c t)

  performed-IsConsistent :
      (cs : List (Call G)) (t : LifetimeTracker G)
      → AreFresh cs (family t)
      → IsConsistent h t
      → IsConsistent h (perform_all cs t)
  unfolding perform_all perform family insert insert_task start_termination
  performed-IsConsistent [] t fresh c = c
  performed-IsConsistent (insert_call id g ∷ cs) t (unused, fresh) c =
      performed-IsConsistent cs (insert h t id g).0
        (subst (AreFresh cs) (sym (family-perform (insert_call id g) t)) fresh)
        (insert_record-IsConsistent h t id (once id forward) g unused c)
  performed-IsConsistent (insert_task_call id g ∷ cs) t (unused, fresh) c =
      performed-IsConsistent cs (insert_task h t id g).0
        (subst (AreFresh cs) (sym (family-perform (insert_task_call id g) t)) fresh)
        (insert_record-IsConsistent h t id (stop id) g unused c)
  performed-IsConsistent (remove_call id ∷ cs) t fresh c =
      performed-IsConsistent cs (remove h t id).0
        (subst (AreFresh cs) (sym (family-perform (remove_call id) t)) fresh)
        (remove-IsConsistent h t id c)
  performed-IsConsistent (start_call ∷ cs) t fresh c =
      performed-IsConsistent cs (start_termination h t).0
        (subst (AreFresh cs) (sym (family-perform start_call t)) fresh)
        (try_terminate_next-IsConsistent h t c)
  performed-IsConsistent (sequence_call groups ∷ cs) t fresh c =
      performed-IsConsistent cs (termination_sequence h t groups)
        (subst (AreFresh cs) (sym (family-perform (sequence_call groups) t)) fresh)
        (sequenced-IsConsistent h t groups c)

  -- What a tracker holds is what the abstract view has: the group of each child in its records, the
  -- children of each group in its stages, each once, and the flag. A stage is in termination only if
  -- the flag is set.
  abbrev pub IsFamily : LifetimeTracker G → Family G → Type 0
  IsFamily t f =
      (family t ≡ f)
      × ((g : G) (k : Ident)
          → Set.count ℕ_discrete k (entry h g t.stages).ids ≡ is_group h g (f.groups k))
      × ((g : G) → (entry h g t.stages).terminating ≡ true → f.terminating ≡ true)

  consistent-IsFamily :
      (t : LifetimeTracker G) (f : Family G) → IsConsistent h t → family t ≡ f → IsFamily t f
  unfolding family
  consistent-IsFamily t f c same = (
    same,
    λ g k. count_in h t g k c ∙ ap (λ x. is_group h g (x.groups k)) same,
    λ g e. sym (ap Family.terminating same) ∙ c.flagged g e,
  )

  family-new : family new ≡ nobody
  unfolding family nobody new group_in Map.lookup
  family-new = refl

  -- After every sequence of calls in which a child is inserted only when it is not held, a new tracker
  -- holds the family that the calls promise: each child in the one stage of the group under which it
  -- was inserted, once, until it is removed, and no other in any stage, the same in the records; and
  -- the termination has begun exactly if it was started, and otherwise in no stage.
  pub perform_all-IsFamily :
      (cs : List (Call G))
      → AreFresh cs nobody
      → IsFamily (perform_all cs new) (promised_all cs nobody)
  perform_all-IsFamily cs fresh =
      consistent-IsFamily (perform_all cs new) (promised_all cs nobody)
        (performed-IsConsistent cs new (subst (AreFresh cs) (sym family-new) fresh)
          (new-IsConsistent h))
        (performed cs new ∙ ap (promised_all cs) family-new)
