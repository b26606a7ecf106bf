-- ===== src/Lifecycle/Interrupts/Group.antt =====
-- Whom `terminate_group` interrupts.
use meio.Prelude.{
  ℕ, ◌≤◌, ◌≡◌, refl, Option, none, some, ite, ℕ_discrete, arith, Option-cases, inl, inr,
}
use meio.Prelude.Set
use meio.Prelude.Map
use meio.Ids.{Ident}
use meio.Lifecycle.{Record, LifetimeTracker, Hashing, entry, terminate_group}
use meio.Lifecycle.Invariant.{IsConsistent, group_in, group_in-none, entry_of_lookup}
use meio.Lifecycle.Interrupts.{AreOwn, sends_to, interrupt_all-sends}

module _ {G : Type 0} (h : Hashing G) where
  open h use {group_eq, id_order, id_order_lem}

  -- 1 if the tracker holds the child under the group.
  unfoldable pub is_group : G → Option G → ℕ
  is_group g none = 0
  is_group g (some g') = ite (group_eq g' g) 1 0

  abbrev pub asks : LifetimeTracker G → G → Ident → ℕ
  asks t g k = is_group g (group_in t.records k)

  no_stage :
      (t : LifetimeTracker G) (g : G) (id : Ident)
      → Map.lookup group_eq g t.stages ≡ none
      → Set.count ℕ_discrete id (entry h g t.stages).ids ≡ 0
  unfolding entry Set.count
  no_stage t g id e = rw (e, entry, Set.count) refl

  -- In a consistent tracker, a child stands once in the stage of its group, and in no other.
  pub count_in :
      (t : LifetimeTracker G) (g : G) (id : Ident)
      → IsConsistent h t
      → Set.count ℕ_discrete id (entry h g t.stages).ids ≡ asks t g id
  unfolding is_group
  count_in t g id c = elim (Option-cases (group_in t.records id)) [
    | inl e ↦
        rw e (
          ground
            (arith, Set.contains_of_count ℕ_discrete id (entry h g t.stages).ids, c.owned g id))
    | inr (g', e) ↦ rw e (
        ground (
          arith,
          Set.count_of_contains ℕ_discrete id (entry h g t.stages).ids,
          Set.contains_of_count ℕ_discrete id (entry h g t.stages).ids,
          c.owned g id,
          c.staged g id,
          c.distinct g id,
        ))
  ]

  -- In a consistent tracker whose notifiers are those of their own children, `terminate_group` sends
  -- one interrupt to a child that it holds under the group, and none to one under another group.
  pub terminate_group-sends :
      (t : LifetimeTracker G) (g : G) (id : Ident) (r : Record G)
      → IsConsistent h t
      → AreOwn t.records
      → Map.lookup ℕ_discrete id t.records ≡ some r
      → sends_to id (terminate_group h t g) ≡ asks t g id
  unfolding terminate_group sends_to
  terminate_group-sends t g id r c own held = elim (Option-cases (Map.lookup group_eq g t.stages)) [
    | inl e ↦ ground (arith, no_stage t g id e, count_in t g id c)
    | inr (stage, e) ↦ ground (
      arith,
      interrupt_all-sends (id_order stage.ids) t.records id r own held,
      id_order_lem id stage.ids,
      entry_of_lookup h g stage t.stages e,
      count_in t g id c,
    )
  ]

  -- A child that is interrupted on demand is held.
  pub asks-sends :
      (t : LifetimeTracker G) (g : G) (id : Ident)
      → IsConsistent h t
      → AreOwn t.records
      → asks t g id ≤ sends_to id (terminate_group h t g)
  unfolding is_group
  asks-sends t g id c own = elim (Option-cases (Map.lookup ℕ_discrete id t.records)) [
    | inl e ↦ rw (group_in-none id t.records e, is_group) (omega arith)
    | inr (r, e) ↦ omega (arith, terminate_group-sends t g id r c own e)
  ]
