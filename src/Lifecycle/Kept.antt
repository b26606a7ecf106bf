-- ===== src/Lifecycle/Kept.antt =====
-- What the loop of `try_terminate_next` keeps, and so the whole termination.
use meio.Prelude.{
  ◌≡◌, refl, true, false, none, some, List, [], ◌∷◌, ◌++◌, arith, Option-cases, Bool-cases, inl,
  inr,
}
use meio.Prelude.Map
use meio.Ids.{Ident}
use meio.Lifecycle.{
  Stage, Record, LifetimeTracker, Hashing, entry, begin_stage, stage_is_finished, terminate_stages,
  stage_sequence, try_terminate_next, remove, forget,
}
use meio.Lifecycle.Invariant.{IsConsistent, entry-insert, entry_of_lookup, forget-IsConsistent}

module _ {G : Type 0} (h : Hashing G) where
  open h use {group_eq}

  module _ (records : List (Ident × Record G)) (g : G) (gs : List G)
      (stages : List (G × Stage)) where
    -- A group of the sequence that has no stage is passed over.
    pub loop_none :
        Map.lookup group_eq g stages ≡ none
        → terminate_stages h records (g ∷ gs) stages ≡ terminate_stages h records gs stages
    unfolding terminate_stages
    loop_none e = ground arith

    abbrev pub begun_stages : Stage → List (G × Stage)
    begun_stages stage = Map.insert group_eq g (begin_stage h records stage).0 stages

    -- A stage with nothing to wait for lets the loop go on.
    pub loop_next :
        (stage : Stage)
        → Map.lookup group_eq g stages ≡ some stage
        → stage_is_finished (begin_stage h records stage).0 ≡ true
        → terminate_stages h records (g ∷ gs) stages ≡ (
          (terminate_stages h records gs (begun_stages stage)).0,
          (begin_stage h records stage).1 ++ (terminate_stages h records gs (begun_stages stage)).1,
        )
    unfolding terminate_stages
    loop_next stage e f = rw (e, f, terminate_stages)

    -- A stage with children left ends the loop.
    pub loop_break :
        (stage : Stage)
        → Map.lookup group_eq g stages ≡ some stage
        → stage_is_finished (begin_stage h records stage).0 ≡ false
        → terminate_stages h records (g ∷ gs) stages
          ≡ (begun_stages stage, (begin_stage h records stage).1)
    unfolding terminate_stages
    loop_break stage e f = rw (e, f, terminate_stages)

  -- What the loop of a termination keeps of the stages.
  pub record IsKept (stages stages' : List (G × Stage)) : Type 0 where
    pub same_ids : (g : G) → (entry h g stages').ids ≡ (entry h g stages).ids
    pub still_map : Map.IsMap group_eq stages → Map.IsMap group_eq stages'
    pub same_keys :
        (g : G) → Map.lookup group_eq g stages ≡ none → Map.lookup group_eq g stages' ≡ none
    pub still_flagged :
        (g : G) → (entry h g stages).terminating ≡ true → (entry h g stages').terminating ≡ true

  pub IsKept-refl : (stages : List (G × Stage)) → IsKept stages stages
  IsKept-refl stages = record {
    same_ids = λ g. refl;
    still_map = λ m. m;
    same_keys = λ g e. e;
    still_flagged = λ g e. e;
  }

  pub IsKept-trans : {a b c : List (G × Stage)} → IsKept a b → IsKept b c → IsKept a c
  IsKept-trans p q = record {
    same_ids = λ g. cc (p.same_ids g, q.same_ids g);
    still_map = λ m. q.still_map (p.still_map m);
    same_keys = λ g e. q.same_keys g (p.same_keys g e);
    still_flagged = λ g e. q.still_flagged g (p.still_flagged g e);
  }

  pub begin_stage_fields :
      (records : List (Ident × Record G)) (stage : Stage)
      → ((begin_stage h records stage).0.terminating ≡ true)
        × ((begin_stage h records stage).0.ids ≡ stage.ids)
  unfolding begin_stage
  begin_stage_fields records stage = ground arith

  pub begin-IsKept :
      (records : List (Ident × Record G)) (g : G) (stage : Stage) (stages : List (G × Stage))
      → Map.lookup group_eq g stages ≡ some stage
      → IsKept stages (Map.insert group_eq g (begin_stage h records stage).0 stages)
  begin-IsKept records g stage stages e = record {
    same_ids = λ k. ground (
      arith,
      entry-insert h k g (begin_stage h records stage).0 stages,
      entry_of_lookup h g stage stages e,
      begin_stage_fields records stage,
    );
    still_map = Map.insert-IsMap group_eq g _ stages;
    same_keys = λ k f.
        ground (arith, Map.lookup-insert group_eq g k (begin_stage h records stage).0 stages);
    still_flagged = λ k f. ground (
      arith,
      entry-insert h k g (begin_stage h records stage).0 stages,
      begin_stage_fields records stage,
    );
  }

  pub terminate_stages-IsKept :
      (records : List (Ident × Record G)) (gs : List G) (stages : List (G × Stage))
      → IsKept stages (terminate_stages h records gs stages).0
  unfolding terminate_stages
  terminate_stages-IsKept records [] stages = IsKept-refl stages
  terminate_stages-IsKept records (g ∷ gs) stages =
      elim (Option-cases (Map.lookup group_eq g stages)) [
        | inl e ↦ rw (e, terminate_stages) (terminate_stages-IsKept records gs stages)
        | inr (stage, e) ↦
            let here = begin-IsKept records g stage stages e in
            let rest =
              terminate_stages-IsKept records gs
                (Map.insert group_eq g (begin_stage h records stage).0 stages) in
            elim (Bool-cases (stage_is_finished (begin_stage h records stage).0)) [
              | inl f ↦ rw (e, f, terminate_stages) (IsKept-trans here rest)
              | inr f ↦ rw (e, f, terminate_stages) here
            ]
      ]

  pub try_terminate_next-IsKept :
      (t : LifetimeTracker G) → IsKept t.stages (try_terminate_next h t).0.stages
  unfolding try_terminate_next
  try_terminate_next-IsKept t = terminate_stages-IsKept t.records (stage_sequence h t) t.stages

  -- A termination keeps the tracker consistent.
  pub try_terminate_next-IsConsistent :
      (t : LifetimeTracker G) → IsConsistent h t → IsConsistent h (try_terminate_next h t).0
  unfolding try_terminate_next
  try_terminate_next-IsConsistent t c = record {
    stages_map = kept.still_map c.stages_map;
    owned = λ g id e. ground (arith, kept.same_ids g, c.owned g id);
    staged = λ g id e. ground (arith, kept.same_ids g, c.staged g id);
    distinct = λ g id. ground (arith, kept.same_ids g, c.distinct g id);
    flagged = λ g e. refl;
  }
    where
      kept : IsKept t.stages (terminate_stages h t.records (stage_sequence h t) t.stages).0
      kept = terminate_stages-IsKept t.records (stage_sequence h t) t.stages

  pub remove-IsConsistent :
      (t : LifetimeTracker G) (id : Ident) → IsConsistent h t → IsConsistent h (remove h t id).0
  unfolding remove
  remove-IsConsistent t id c =
      let c' = forget-IsConsistent h t id c in
      elim (Bool-cases (forget h t id).terminating) [
        | inl e ↦ rw (e, remove) (try_terminate_next-IsConsistent (forget h t id) c')
        | inr e ↦ rw (e, remove) c'
      ]
