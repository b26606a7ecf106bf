-- ===== src/Lifecycle/Invariant.antt =====
-- The stages and the records of a tracker agree, and every operation keeps it so.
use meio.Prelude.{
  ◌≤◌, ◌≡◌, true, ◌≢◌, Option, none, some, List, [], ite, ℕ_discrete, arith, Option-cases, inl, inr,
}
use meio.Prelude.Set
use meio.Prelude.Map
use meio.Ids.{Ident}
use meio.Lifecycle.{
  LifecycleNotifier, Stage, Record, LifetimeTracker, Hashing, new, entry, insert_record, forget,
}

-- The group under which the tracker holds an id.
unfoldable pub group_in : {G : Type 0} → List (Ident × Record G) → Ident → Option G
group_in records id = elim (Map.lookup ℕ_discrete id records) [
  | none ↦ none
  | some r ↦ some r.group
]

module _ {G : Type 0} (h : Hashing G) where
  open h use {group_eq}

  -- An id stands in the stage of a group, once, exactly if its record names that group; and no stage
  -- is in termination before the tracker is.
  pub record IsConsistent (t : LifetimeTracker G) : Type 0 where
    pub stages_map : Map.IsMap group_eq t.stages
    pub owned :
        (g : G) (id : Ident)
        → Set.contains ℕ_discrete id (entry h g t.stages).ids ≡ true
        → group_in t.records id ≡ some g
    pub staged :
        (g : G) (id : Ident)
        → group_in t.records id ≡ some g
        → Set.contains ℕ_discrete id (entry h g t.stages).ids ≡ true
    pub distinct : (g : G) (id : Ident) → Set.count ℕ_discrete id (entry h g t.stages).ids ≤ 1
    pub flagged : (g : G) → (entry h g t.stages).terminating ≡ true → t.terminating ≡ true

  pub entry-insert :
      (g k : G) (s : Stage) (stages : List (G × Stage))
      → entry h g (Map.insert group_eq k s stages) ≡ ite (group_eq g k) s (entry h g stages)
  unfolding entry
  entry-insert g k s stages = ground (arith, Map.lookup-insert group_eq k g s stages)

  pub new-IsConsistent : IsConsistent (new {G = G})
  unfolding new entry group_in Map.lookup Set.contains Set.count
  new-IsConsistent = record {
    stages_map = tt;
    owned = λ g id e. cc;
    staged = λ g id e. cc;
    distinct = λ g id. omega arith;
    flagged = λ g e. cc;
  }

module _ {G : Type 0} where
  pub group_in-insert :
      (k id : Ident) (r : Record G) (records : List (Ident × Record G))
      → group_in (Map.insert ℕ_discrete k r records) id
        ≡ ite (ℕ_discrete id k) (some r.group) (group_in records id)
  unfolding group_in
  group_in-insert k id r records = ground (arith, Map.lookup-insert ℕ_discrete k id r records)

  pub group_in-remove :
      (k id : Ident) (records : List (Ident × Record G))
      → group_in (Map.remove ℕ_discrete k records) id
        ≡ ite (ℕ_discrete id k) none (group_in records id)
  unfolding group_in
  group_in-remove k id records = ground (arith, Map.lookup-remove ℕ_discrete k id records)

  pub group_in-eq :
      (id : Ident) (r : Record G) (records : List (Ident × Record G))
      → Map.lookup ℕ_discrete id records ≡ some r
      → group_in records id ≡ some r.group
  unfolding group_in
  group_in-eq id r records e = ground arith

  pub group_in-none :
      (id : Ident) (records : List (Ident × Record G))
      → Map.lookup ℕ_discrete id records ≡ none
      → group_in records id ≡ none
  unfolding group_in
  group_in-none id records e = ground arith

module _ {G : Type 0} (h : Hashing G) where
  open h use {group_eq}

  -- A new child, under an id that the tracker does not hold.
  pub insert_record-IsConsistent :
      (t : LifetimeTracker G) (id : Ident) (notifier : LifecycleNotifier) (group : G)
      → group_in t.records id ≡ none
      → IsConsistent h t
      → IsConsistent h (insert_record h t id notifier group).0
  unfolding insert_record
  insert_record-IsConsistent t id notifier group fresh c = record {
    stages_map = Map.insert-IsMap group_eq group _ t.stages c.stages_map;
    owned = λ g i e. ground (
      arith,
      entry-insert h g group (record stage { ids = Set.insert ℕ_discrete id stage.ids }) t.stages,
      group_in-insert id i (record { group = group; notifier = notifier }) t.records,
      Set.contains-insert ℕ_discrete i id stage.ids,
      c.owned g i,
    );
    staged = λ g i e. ground (
      arith,
      entry-insert h g group (record stage { ids = Set.insert ℕ_discrete id stage.ids }) t.stages,
      group_in-insert id i (record { group = group; notifier = notifier }) t.records,
      Set.contains-insert ℕ_discrete i id stage.ids,
      c.staged g i,
    );
    distinct = λ g i. ground (
      arith,
      entry-insert h g group (record stage { ids = Set.insert ℕ_discrete id stage.ids }) t.stages,
      Set.count-insert-le ℕ_discrete i id stage.ids (c.distinct group i),
      c.distinct g i,
    );
    flagged = λ g e. ground (
      arith,
      entry-insert h g group (record stage { ids = Set.insert ℕ_discrete id stage.ids }) t.stages,
      c.flagged g,
      c.flagged group,
    );
  }
    where
      stage : Stage
      stage = entry h group t.stages

  pub entry_of_lookup :
      (g : G) (s : Stage) (stages : List (G × Stage))
      → Map.lookup group_eq g stages ≡ some s
      → entry h g stages ≡ s
  unfolding entry
  entry_of_lookup g s stages e = ground arith

  pub entry_of_none :
      (g : G) (stages : List (G × Stage))
      → Map.lookup group_eq g stages ≡ none
      → (entry h g stages).ids ≡ []
  unfolding entry
  entry_of_none g stages e = ground arith

  module _ (t : LifetimeTracker G) (id : Ident) (r : Record G) (c : IsConsistent h t)
      (held : group_in t.records id ≡ some r.group) where
    forget_staged :
        (stage : Stage)
        → entry h r.group t.stages ≡ stage
        → IsConsistent h (record t {
          records = Map.remove ℕ_discrete id t.records;
          stages =
              Map.insert group_eq r.group
                (record stage { ids = Set.remove ℕ_discrete id stage.ids })
                t.stages;
        })
    forget_staged stage f = record {
      stages_map = Map.insert-IsMap group_eq r.group _ t.stages c.stages_map;
      owned = λ g i e. ground (
        arith,
        entry-insert h g r.group left t.stages,
        group_in-remove id i t.records,
        Set.contains-remove ℕ_discrete i id stage.ids,
        c.owned g i,
      );
      staged = λ g i e. ground (
        arith,
        entry-insert h g r.group left t.stages,
        group_in-remove id i t.records,
        Set.contains-remove ℕ_discrete i id stage.ids,
        c.staged g i,
      );
      distinct = λ g i. ground (
        arith,
        entry-insert h g r.group left t.stages,
        Set.count-remove-le ℕ_discrete i id stage.ids,
        c.distinct r.group i,
        c.distinct g i,
      );
      flagged = λ g e.
          ground (arith, entry-insert h g r.group left t.stages, c.flagged g, c.flagged r.group);
    }
      where
        left : Stage
        left = record stage { ids = Set.remove ℕ_discrete id stage.ids }

    stage_is_there : Map.lookup group_eq r.group t.stages ≢ none
    unfolding Set.contains
    stage_is_there f = ground (arith, c.staged r.group id held, entry_of_none r.group t.stages f)

  pub forget-IsConsistent :
      (t : LifetimeTracker G) (id : Ident) → IsConsistent h t → IsConsistent h (forget h t id)
  unfolding forget
  forget-IsConsistent t id c = elim (Option-cases (Map.lookup ℕ_discrete id t.records)) [
    | inl e ↦ rw (e, forget) c
    | inr (r, e) ↦ elim (Option-cases (Map.lookup group_eq r.group t.stages)) [
      | inl f ↦ absurd (stage_is_there t id r c (group_in-eq id r t.records e) f)
      | inr (stage, f) ↦
          rw (e, f, forget)
            (forget_staged t id r c (group_in-eq id r t.records e) stage
              (entry_of_lookup r.group stage t.stages f))
    ]
  ]
