-- ===== src/Lifecycle/Drain.antt =====
-- A termination comes to its end: once the children are gone, the tracker is finished.
use meio.Prelude.{
  ◌≡◌, ◌≢◌, refl, true, false, none, some, List, [], ◌∷◌, arith, Option-cases, inl, inr, ℕ_discrete,
  ite, ◌∙◌,
}
use meio.Prelude.Set
use meio.Prelude.Map
use meio.Ids.{Ident}
use meio.Lifecycle.{
  Stage, Record, LifetimeTracker, Hashing, entry, begin_stage, stage_is_finished, terminate_stages,
  stage_sequence, try_terminate_next, start_termination, forget, remove, is_finished,
}
use meio.Lifecycle.Invariant.{
  IsConsistent, group_in, group_in-remove, group_in-none, entry-insert, entry_of_lookup,
  entry_of_none, forget-IsConsistent,
}
use meio.Lifecycle.Kept.{
  begin_stage_fields, begin-IsKept, terminate_stages-IsKept, begun_stages, loop_none, loop_next,
  try_terminate_next-IsConsistent, remove-IsConsistent,
}
use meio.Lifecycle.Sequence.{stage_sequence_complete}

contains-nil : (id : Ident) → Set.contains ℕ_discrete id [] ≡ false
unfolding Set.contains
contains-nil id = refl

module _ {G : Type 0} (h : Hashing G) where
  open h use {group_eq}

  -- No stage has a child left.
  abbrev IsDrained : List (G × Stage) → Type 0
  IsDrained stages = (g : G) → (entry h g stages).ids ≡ []

  begun_finished :
      (records : List (Ident × Record G)) (stage : Stage)
      → stage.ids ≡ []
      → stage_is_finished (begin_stage h records stage).0 ≡ true
  unfolding stage_is_finished
  begun_finished records stage e = ground (arith, begin_stage_fields h records stage)

  -- With no child left, the loop reaches every stage of the sequence.
  terminate_stages-drained :
      (records : List (Ident × Record G)) (gs : List G) (stages : List (G × Stage)) (g : G)
      → IsDrained stages
      → Set.contains group_eq g gs ≡ true
      → Map.lookup group_eq g stages ≢ none
      → (entry h g (terminate_stages h records gs stages).0).terminating ≡ true
  unfolding Set.contains
  terminate_stages-drained records [] stages g d m there = cc
  terminate_stages-drained records (x ∷ xs) stages g d m there =
      elim (Option-cases (Map.lookup group_eq x stages)) [
        | inl e ↦
            rw (loop_none h records x xs stages e)
              (terminate_stages-drained records xs stages g d (ground arith) there)
        | inr (stage, e) ↦
            let stages' = begun_stages h records x [] stages stage in
            let here = begin-IsKept h records x stage stages e in
            let empty : stage.ids ≡ [] = ground (arith, d x, entry_of_lookup h x stage stages e) in
            rw (loop_next h records x xs stages stage e (begun_finished records stage empty))
              (elim (group_eq g x) [
                | yes same ↦ (terminate_stages-IsKept h records xs stages').still_flagged g (
                    ground (
                      arith,
                      entry-insert h g x (begin_stage h records stage).0 stages,
                      begin_stage_fields h records stage,
                    ))
                | no other ↦
                    terminate_stages-drained records xs stages' g (λ k. here.same_ids k ∙ d k)
                      (ground arith)
                      (ground (
                        arith,
                        Map.lookup-insert group_eq x g (begin_stage h records stage).0 stages,
                      ))
              ])
      ]

  childless-IsDrained :
      (t : LifetimeTracker G)
      → IsConsistent h t
      → ((id : Ident) → group_in t.records id ≡ none)
      → IsDrained t.stages
  childless-IsDrained t c gone g =
      Set.eq-nil_of_contains ℕ_discrete (entry h g t.stages).ids
        (λ id. ground (arith, c.owned g id, gone id))

  finished_value :
      (t : LifetimeTracker G) (g : G) (s : Stage)
      → IsDrained t.stages
      → Map.lookup group_eq g (try_terminate_next h t).0.stages ≡ some s
      → stage_is_finished s ≡ true
  unfolding try_terminate_next stage_is_finished
  finished_value t g s d e =
      let kept = terminate_stages-IsKept h t.records (stage_sequence h t) t.stages in
      let there : Map.lookup group_eq g t.stages ≢ none = λ n. cc (kept.same_keys g n) in
      elim (Option-cases (Map.lookup group_eq g t.stages)) [
        | inl n ↦ absurd (there n)
        | inr (s', e') ↦ ground (
          arith,
          terminate_stages-drained t.records (stage_sequence h t) t.stages g d
              (stage_sequence_complete h t g s' e') there,
          entry_of_lookup h g s (terminate_stages h t.records (stage_sequence h t) t.stages).0 e,
          kept.same_ids g,
          d g,
        )
      ]

  -- A consistent tracker that holds no child is finished by `start_termination`.
  pub start_termination-finished :
      (t : LifetimeTracker G)
      → IsConsistent h t
      → ((id : Ident) → group_in t.records id ≡ none)
      → is_finished h (start_termination h t).0 ≡ true
  unfolding is_finished start_termination
  start_termination-finished t c gone =
      Map.all_of group_eq stage_is_finished (try_terminate_next h t).0.stages
        (try_terminate_next-IsConsistent h t c).stages_map
        (λ g s e. finished_value t g s (childless-IsDrained t c gone) e)

  pub group_in-forget :
      (t : LifetimeTracker G) (id k : Ident)
      → group_in (forget h t id).records k ≡ ite (ℕ_discrete k id) none (group_in t.records k)
  unfolding forget
  group_in-forget t id k =
      ground (arith, group_in-remove id k t.records, group_in-none id t.records)

  -- `remove` takes away the id that it is given, and no other.
  pub group_in-remove_child :
      (t : LifetimeTracker G) (id k : Ident)
      → group_in (remove h t id).0.records k ≡ ite (ℕ_discrete k id) none (group_in t.records k)
  unfolding remove try_terminate_next
  group_in-remove_child t id k = ground (arith, group_in-forget t id k)

  pub forget_keeps :
      (t : LifetimeTracker G) (id : Ident) → (forget h t id).terminating ≡ t.terminating
  unfolding forget
  forget_keeps t id = ground arith

  pub remove_keeps :
      (t : LifetimeTracker G) (id : Ident) → (remove h t id).0.terminating ≡ t.terminating
  unfolding remove try_terminate_next
  remove_keeps t id = ground (arith, forget_keeps t id)

  -- The `remove` calls that answer the `Done` events of the children in `ids`.
  unfoldable pub remove_all : LifetimeTracker G → List Ident → LifetimeTracker G
  remove_all t [] = t
  remove_all t (id ∷ ids) = remove_all (remove h t id).0 ids

  pub remove_last :
      (t : LifetimeTracker G) (id : Ident)
      → IsConsistent h t
      → t.terminating ≡ true
      → ((k : Ident) → group_in (remove h t id).0.records k ≡ none)
      → is_finished h (remove h t id).0 ≡ true
  unfolding remove
  remove_last t id c on gone =
      let t' = forget h t id in
      let e = forget_keeps t id ∙ on in
      rw (e, remove)
        (unfold start_termination in
          start_termination-finished t' (forget-IsConsistent h t id c)
            (λ k. unfold try_terminate_next in rw (e, remove) at (gone k)))

  -- If a consistent tracker is in termination, and holds no child but those of a list that is not
  -- empty, then it is finished once these are removed one after the other, in whatever order the
  -- list has.
  pub remove_all-finished :
      (t : LifetimeTracker G) (id : Ident) (ids : List Ident)
      → IsConsistent h t
      → t.terminating ≡ true
      → ((k : Ident) → Set.contains ℕ_discrete k (id ∷ ids) ≡ false → group_in t.records k ≡ none)
      → is_finished h (remove_all t (id ∷ ids)) ≡ true
  unfolding remove_all Set.contains
  remove_all-finished t id [] c on covers =
      remove_last t id c on (λ k. ground (arith, group_in-remove_child t id k, covers k))
  remove_all-finished t id (x ∷ xs) c on covers =
      remove_all-finished (remove h t id).0 x xs (remove-IsConsistent h t id c)
        (remove_keeps t id ∙ on) (λ k m. ground (arith, group_in-remove_child t id k, covers k))

  -- A consistent tracker that is finished holds no child.
  pub is_finished-childless :
      (t : LifetimeTracker G)
      → IsConsistent h t
      → is_finished h t ≡ true
      → (id : Ident) → group_in t.records id ≡ none
  unfolding is_finished stage_is_finished
  is_finished-childless t c f id = elim (Option-cases (group_in t.records id)) [
    | inl e ↦ e
    | inr (g, e) ↦ absurd (held g e)
  ]
    where
      held : (g : G) → group_in t.records id ≢ some g
      held g e = elim (Option-cases (Map.lookup group_eq g t.stages)) [
        | inl n ↦ ground (arith, c.staged g id e, entry_of_none h g t.stages n, contains-nil id)
        | inr (s, l) ↦ ground (
          arith,
          c.staged g id e,
          entry_of_lookup h g s t.stages l,
          Map.of_all group_eq stage_is_finished g s t.stages l f,
          contains-nil id,
        )
      ]
