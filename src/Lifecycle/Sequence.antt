-- ===== src/Lifecycle/Sequence.antt =====
-- The order in which the stages of an actor terminate.
use meio.Prelude.{
  ◌≡◌, ◌≢◌, refl, true, false, not, ◌&&◌, none, some, List, [], ◌∷◌, ◌++◌, arith, Option-cases,
  Bool-cases, inl, inr,
}
use meio.Prelude.Set
use meio.Prelude.Map
use meio.Ids.{Ident}
use meio.Lifecycle.{
  Stage, Record, LifetimeTracker, Hashing, entry, begin_stage, stage_is_finished, terminate_stages,
  difference, stage_sequence, try_terminate_next,
}
use meio.Lifecycle.Invariant.{entry-insert}
use meio.Lifecycle.Kept.{
  IsKept, terminate_stages-IsKept, begun_stages, loop_none, loop_next, loop_break,
}

module _ {G : Type 0} (h : Hashing G) where
  open h use {group_eq, group_order, group_order_lem}

  pub contains-difference :
      (g : G) (as' bs : List G)
      → Set.contains group_eq g (difference h as' bs)
        ≡ (Set.contains group_eq g as' && not (Set.contains group_eq g bs))
  unfolding difference Set.contains
  contains-difference g [] bs = refl
  contains-difference g (a ∷ as') bs = ground (arith, contains-difference g as' bs)

  contains-group_order :
      (g : G) (gs : List G)
      → Set.contains group_eq g gs ≡ true
      → Set.contains group_eq g (group_order gs) ≡ true
  contains-group_order g gs e =
      Set.contains_of_count group_eq g (group_order gs)
        (omega (arith, group_order_lem g gs, Set.count_of_contains group_eq g gs e))

  -- Every stage of the tracker stands in its sequence, prioritized or not.
  pub stage_sequence_complete :
      (t : LifetimeTracker G) (g : G) (s : Stage)
      → Map.lookup group_eq g t.stages ≡ some s
      → Set.contains group_eq g (stage_sequence h t) ≡ true
  unfolding stage_sequence
  stage_sequence_complete t g s e = ground (
    arith,
    Set.contains-append group_eq g t.prioritized
        (group_order (difference h (Map.keys t.stages) t.prioritized)),
    contains-group_order g (difference h (Map.keys t.stages) t.prioritized),
    contains-difference g (Map.keys t.stages) t.prioritized,
    Map.contains-keys_of_lookup group_eq g s t.stages e,
  )

  finished-IsKept :
      (g : G) (a b : List (G × Stage))
      → IsKept h a b
      → stage_is_finished (entry h g a) ≡ true
      → stage_is_finished (entry h g b) ≡ true
  unfolding stage_is_finished
  finished-IsKept g a b k f = ground (arith, k.same_ids g, k.still_flagged g)

  entry-begun :
      (records : List (Ident × Record G)) (g x : G) (stage : Stage) (stages : List (G × Stage))
      → g ≢ x
      → entry h g (begun_stages h records x [] stages stage) ≡ entry h g stages
  entry-begun records g x stage stages n =
      ground (arith, entry-insert h g x (begin_stage h records stage).0 stages)

  terminate_stages_in_order :
      (records : List (Ident × Record G)) (xs ys : List G) (g k : G) (stages : List (G × Stage))
      → Set.contains group_eq g xs ≡ false
      → (entry h g stages).terminating ≡ false
      → (entry h g (terminate_stages h records (xs ++ g ∷ ys) stages).0).terminating ≡ true
      → Set.contains group_eq k xs ≡ true
      → Map.lookup group_eq k stages ≢ none
      → stage_is_finished (entry h k (terminate_stages h records (xs ++ g ∷ ys) stages).0) ≡ true
  unfolding Set.contains
  terminate_stages_in_order records [] ys g k stages new off on m there = cc
  terminate_stages_in_order records (x ∷ xs) ys g k stages new off on m there =
      elim (Option-cases (Map.lookup group_eq x stages)) [
        | inl e ↦
            let skip = loop_none h records x (xs ++ g ∷ ys) stages e in
            rw skip (
              terminate_stages_in_order records xs ys g k stages (ground arith) off (rw skip at on)
                (ground arith) there)
        | inr (stage, e) ↦ elim (Bool-cases (stage_is_finished (begin_stage h records stage).0)) [
          | inl f ↦
              let next = loop_next h records x (xs ++ g ∷ ys) stages stage e f in
              let stages' = begun_stages h records x [] stages stage in
              rw next (elim (group_eq k x) [
                | yes same ↦
                    finished-IsKept k stages' _
                      (terminate_stages-IsKept h records (xs ++ g ∷ ys) stages')
                      (ground (arith, entry-insert h k x (begin_stage h records stage).0 stages))
                | no other ↦
                    terminate_stages_in_order records xs ys g k stages' (ground arith)
                      (ground (arith, entry-begun records g x stage stages)) (rw next at on)
                      (ground arith)
                      (ground (
                        arith,
                        Map.lookup-insert group_eq x k (begin_stage h records stage).0 stages,
                      ))
              ])
          | inr f ↦
              let stop = loop_break h records x (xs ++ g ∷ ys) stages stage e f in
              let on' = rw stop at on in
              absurd (ground (arith, entry-begun records g x stage stages))
        ]
      ]

  -- If `try_terminate_next` puts a stage into termination, then each stage of the tracker that
  -- stands before it in the sequence is finished: in termination, and without a child.
  pub try_terminate_next_in_order :
      (t : LifetimeTracker G) (xs ys : List G) (g k : G)
      → stage_sequence h t ≡ xs ++ g ∷ ys
      → Set.contains group_eq g xs ≡ false
      → (entry h g t.stages).terminating ≡ false
      → (entry h g (try_terminate_next h t).0.stages).terminating ≡ true
      → Set.contains group_eq k xs ≡ true
      → Map.lookup group_eq k t.stages ≢ none
      → stage_is_finished (entry h k (try_terminate_next h t).0.stages) ≡ true
  unfolding try_terminate_next
  try_terminate_next_in_order t xs ys g k split new off on m there =
      rw (split, try_terminate_next)
        (terminate_stages_in_order t.records xs ys g k t.stages new off
          (rw (split, try_terminate_next) at on) m there)
