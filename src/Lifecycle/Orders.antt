-- ===== src/Lifecycle/Orders.antt =====
-- What does not depend on the order in which the hash tables of meio/src/lifecycle.rs list their
-- elements.
use meio.Prelude.{
  ◌≡◌, refl, true, false, some, List, [], ◌∷◌, arith, ℕ_discrete, ap, ◌∙◌, sym, Option-cases,
  Bool-cases, inl, inr,
}
use mathlib.Core.List.{append-nil}
use meio.Prelude.Set
use meio.Prelude.Map
use meio.Ids.{Ident}
use meio.Lifecycle.{
  Stage, Record, LifetimeTracker, Hashing, entry, difference, stage_sequence, terminate_stages,
  try_terminate_next, begin_stage, stage_is_finished,
}
use meio.Lifecycle.Invariant.{IsConsistent}
use meio.Lifecycle.Kept.{loop_none, loop_next, loop_break, begun_stages}
use meio.Lifecycle.Sequence.{contains-difference}
use meio.Lifecycle.Interrupts.{AreOwn, sends_to, newly, try_terminate_next_interrupts}

nothing_in :
    {A : Type 0} (dec : Discrete A) (xs : List A)
    → ((a : A) → Set.contains dec a xs ≡ false)
    → xs ≡ []
unfolding Set.contains
nothing_in dec [] none_in = refl
nothing_in dec (x ∷ xs) none_in = absurd (ground (arith, none_in x))

module _ {G : Type 0} (h : Hashing G) where
  open h use {group_eq, group_order, group_order_lem}

  -- The hash tables of another run, or of another build: they compare as those of `h`.
  module _ (group_order' : List G → List G)
      (group_order_lem' : (g : G) (gs : List G)
        → Set.count group_eq g (group_order' gs) ≡ Set.count group_eq g gs)
      (id_order : List Ident → List Ident)
      (id_order_lem : (id : Ident) (ids : List Ident)
        → Set.count ℕ_discrete id (id_order ids) ≡ Set.count ℕ_discrete id ids) where
    abbrev pub other : Hashing G
    other = record {
      group_eq = group_eq;
      group_order = group_order';
      group_order_lem = group_order_lem';
      id_order = id_order;
      id_order_lem = id_order_lem;
    }

    begun_same :
        (records : List (Ident × Record G)) (stage : Stage)
        → (begin_stage other records stage).0 ≡ (begin_stage h records stage).0
    unfolding begin_stage
    begun_same records stage = ground arith

    stages_same :
        (records : List (Ident × Record G)) (gs : List G) (stages : List (G × Stage))
        → (terminate_stages other records gs stages).0 ≡ (terminate_stages h records gs stages).0
    unfolding terminate_stages
    stages_same records [] stages = refl
    stages_same records (g ∷ gs) stages = elim (Option-cases (Map.lookup group_eq g stages)) [
      | inl e ↦
          ap (λ x. x.0) (loop_none other records g gs stages e)
          ∙ stages_same records gs stages
          ∙ sym (ap (λ x. x.0) (loop_none h records g gs stages e))
      | inr (stage, e) ↦ elim (Bool-cases (stage_is_finished (begin_stage h records stage).0)) [
        | inl f ↦
            ap (λ x. x.0)
              (loop_next other records g gs stages stage e
                (ap stage_is_finished (begun_same records stage) ∙ f))
            ∙ stages_same records gs (begun_stages other records g gs stages stage)
            ∙ ap (λ b. (terminate_stages h records gs (Map.insert group_eq g b stages)).0)
                (begun_same records stage)
            ∙ sym (ap (λ x. x.0) (loop_next h records g gs stages stage e f))
        | inr f ↦
            ap (λ x. x.0)
              (loop_break other records g gs stages stage e
                (ap stage_is_finished (begun_same records stage) ∙ f))
            ∙ ap (λ b. Map.insert group_eq g b stages) (begun_same records stage)
            ∙ sym (ap (λ x. x.0) (loop_break h records g gs stages stage e f))
      ]
    ]

    other-IsConsistent : (t : LifetimeTracker G) → IsConsistent h t → IsConsistent other t
    unfolding entry
    other-IsConsistent t c = record {
      stages_map = c.stages_map;
      owned = c.owned;
      staged = c.staged;
      distinct = c.distinct;
      flagged = c.flagged;
    }

  -- Every group that has a stage is prioritized.
  abbrev pub IsPrioritized : LifetimeTracker G → Type 0
  IsPrioritized t =
      (g : G)
      → Set.contains group_eq g (Map.keys t.stages) ≡ true
      → Set.contains group_eq g t.prioritized ≡ true

  no_rest :
      (t : LifetimeTracker G)
      → IsPrioritized t
      → difference h (Map.keys t.stages) t.prioritized ≡ []
  no_rest t prioritized = nothing_in group_eq (difference h (Map.keys t.stages) t.prioritized) (λ g.
      ground (arith, contains-difference h g (Map.keys t.stages) t.prioritized, prioritized g))

  -- An order of nothing is nothing.
  nothing_ordered : group_order [] ≡ []
  nothing_ordered = nothing_in group_eq (group_order []) (λ g.
      elim (Bool-cases (Set.contains group_eq g (group_order []))) [
        | inl there ↦ absurd (
            omega (
              arith,
              Set.count_of_contains group_eq g (group_order []) there,
              group_order_lem g [],
              nothing_counted g,
            ))
        | inr gone ↦ gone
      ])
    where
      nothing_counted : (g : G) → Set.count group_eq g [] ≡ 0
      nothing_counted g = unfold Set.count in refl

  pub prioritized_sequence :
      (t : LifetimeTracker G) → IsPrioritized t → stage_sequence h t ≡ t.prioritized
  unfolding stage_sequence
  prioritized_sequence t prioritized = rw (no_rest t prioritized, nothing_ordered, append-nil)

module _ {G : Type 0} (h : Hashing G) where
  open h use {group_eq}

  -- If every group that has a stage is prioritized, then a termination brings a consistent tracker
  -- into the same state in whatever order the hash tables list their elements, and each child whose
  -- notifiers are the children's own is sent as many interrupts.
  pub try_terminate_next_any_order :
      (group_order : List G → List G)
      (group_order_lem : (g : G) (gs : List G)
        → Set.count group_eq g (group_order gs) ≡ Set.count group_eq g gs)
      (id_order : List Ident → List Ident)
      (id_order_lem : (id : Ident) (ids : List Ident)
        → Set.count ℕ_discrete id (id_order ids) ≡ Set.count ℕ_discrete id ids)
      (t : LifetimeTracker G)
      → IsConsistent h t
      → AreOwn t.records
      → IsPrioritized h t
      → let k = other h group_order group_order_lem id_order id_order_lem in
        ((try_terminate_next k t).0 ≡ (try_terminate_next h t).0)
        × ((id : Ident) (r : Record G)
            → Map.lookup ℕ_discrete id t.records ≡ some r
            → sends_to id (try_terminate_next k t).1 ≡ sends_to id (try_terminate_next h t).1)
  unfolding entry try_terminate_next sends_to
  try_terminate_next_any_order group_order group_order_lem id_order id_order_lem t c own
        prioritized =
      (
        same,
        λ id r held.
            try_terminate_next_interrupts k t id r
              (other-IsConsistent h group_order group_order_lem id_order id_order_lem t c) own held
            ∙ ap
                (λ t'.
                  newly (entry h r.group t.stages) (entry h r.group (LifetimeTracker.stages t')))
                same
            ∙ sym (try_terminate_next_interrupts h t id r c own held),
      )
    where
      k : Hashing G
      k = other h group_order group_order_lem id_order id_order_lem

      same : (try_terminate_next k t).0 ≡ (try_terminate_next h t).0
      same =
          ap (λ stages. record t { terminating = true; stages = stages })
            (ap (λ gs. (terminate_stages k t.records gs t.stages).0)
                (prioritized_sequence k t prioritized ∙ sym (prioritized_sequence h t prioritized))
              ∙ stages_same h group_order group_order_lem id_order id_order_lem t.records
                  (stage_sequence h t) t.stages)
