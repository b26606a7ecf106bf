-- ===== src/Lifecycle.antt =====
-- meio/src/lifecycle.rs: the `LifetimeTracker` of an actor's children, with the notifiers.
-- A notifier is a closure of the source: here it is the data that the closure captured, and a call
-- of it returns the send that it makes. The sends of one call of the tracker are listed in order;
-- a send that fails is only logged by the tracker, so its result is not an input here.
use meio.Prelude.{
  ℕ, ◌≤◌, ◌≡◌, Bool, true, false, not, ◌&&◌, Option, none, some, List, [], ◌∷◌, ◌++◌, if◌then◌else◌,
  ite, ℕ_discrete,
}
use meio.Prelude.Set
use meio.Prelude.Map
use meio.Ids.{Ident}
pub mod Invariant
pub mod Kept
pub mod Sequence
pub mod Interrupts
pub mod Drain
pub mod Orders
pub mod Replay

-- `Operation` of meio/src/handlers.rs. An `Instant` is a number.
pub data Operation : Type 0 where
  done : Ident → Operation
  forward : Operation
  schedule : ℕ → Operation

-- What a call of a notifier does: `once` sends a parcel to the captured address, `stop` sets the
-- stop signal of the captured task.
pub data Send (P : Type 0) : Type 0 where
  parcel : Ident → Operation → P → Send P
  stop_signal : Ident → Send P

pub data LifecycleNotifier : Type 0 where
  ignore : LifecycleNotifier
  once : Ident → Operation → LifecycleNotifier
  stop : Ident → LifecycleNotifier

unfoldable pub notify : {P : Type 0} → LifecycleNotifier → P → List (Send P)
notify ignore p = []
notify (once address operation) p = parcel address operation p ∷ []
notify (stop stopper) p = stop_signal stopper ∷ []

pub data Interrupt : Type 0 where
  interrupt : Interrupt

pub record Stage : Type 0 where
  pub terminating : Bool
  pub ids : List Ident

-- `Stage::default()`.
abbrev pub new_stage : Stage
new_stage = record { terminating = false; ids = [] }

abbrev is_empty {ℓ} : {A : Type ℓ} → List A → Bool
is_empty [] = true
is_empty (x ∷ xs) = false

unfoldable pub stage_is_finished : Stage → Bool
stage_is_finished s = s.terminating && is_empty s.ids

pub record Record (G : Type 0) : Type 0 where
  pub group : G
  pub notifier : LifecycleNotifier

unfoldable pub interrupt_record : {G : Type 0} → Record G → List (Send Interrupt)
unfolding notify
interrupt_record r = notify r.notifier interrupt

pub record LifetimeTracker (G : Type 0) : Type 0 where
  pub terminating : Bool
  pub prioritized : List G
  pub stages : List (G × Stage)
  pub records : List (Ident × Record G)

unfoldable pub new : {G : Type 0} → LifetimeTracker G
new = record { terminating = false; prioritized = []; stages = []; records = [] }

unfoldable pub is_terminating : {G : Type 0} → LifetimeTracker G → Bool
is_terminating t = t.terminating

-- What the program relies on in `HashMap` and `HashSet`: keys are compared by `group_eq`, and an
-- iteration visits each element as often as the collection holds it, in an order of its own.
pub record Hashing (G : Type 0) : Type 0 where
  pub group_eq : Discrete G
  pub group_order : List G → List G
  pub group_order_lem :
      (g : G) (gs : List G) → Set.count group_eq g (group_order gs) ≡ Set.count group_eq g gs
  pub id_order : List Ident → List Ident
  pub id_order_lem :
      (id : Ident) (ids : List Ident)
      → Set.count ℕ_discrete id (id_order ids) ≡ Set.count ℕ_discrete id ids

-- `for id in ids { if let Some(record) = records.get_mut(id) { record.interrupt() } }`.
unfoldable pub interrupt_all :
    {G : Type 0} → List Ident → List (Ident × Record G) → List (Send Interrupt)
interrupt_all [] records = []
interrupt_all (id ∷ ids) records = elim (Map.lookup ℕ_discrete id records) [
  | none ↦ interrupt_all ids records
  | some r ↦ interrupt_record r ++ interrupt_all ids records
]

module _ {G : Type 0} (h : Hashing G) where
  open h use {group_eq, group_order, id_order}

  -- `self.stages.entry(group).or_default()`.
  unfoldable pub entry : G → List (G × Stage) → Stage
  entry g stages = elim (Map.lookup group_eq g stages) [ none ↦ new_stage | some s ↦ s ]

  -- The common text of `insert` and `insert_task`: the notifier is the difference.
  unfoldable pub insert_record :
      LifetimeTracker G → Ident → LifecycleNotifier → G → LifetimeTracker G × List (Send Interrupt)
  unfolding entry
  insert_record t id notifier group =
      let stage = entry group t.stages in
      let r : Record G = record { group = group; notifier = notifier } in
      (
        record t {
          stages =
              Map.insert group_eq group (record stage { ids = Set.insert ℕ_discrete id stage.ids })
                t.stages;
          records = Map.insert ℕ_discrete id r t.records;
        },
        (if stage.terminating then interrupt_record r else []),
      )

  unfoldable pub insert : LifetimeTracker G → Ident → G → LifetimeTracker G × List (Send Interrupt)
  unfolding insert_record
  insert t address group = insert_record t address (once address forward) group

  unfoldable pub insert_task :
      LifetimeTracker G → Ident → G → LifetimeTracker G × List (Send Interrupt)
  unfolding insert_record
  insert_task t stopper group = insert_record t stopper (stop stopper) group

  -- The removal of an id from the stage of its record.
  unfoldable pub forget : LifetimeTracker G → Ident → LifetimeTracker G
  forget t id = elim (Map.lookup ℕ_discrete id t.records) [
    | none ↦ t
    | some r ↦ elim (Map.lookup group_eq r.group t.stages) [
      | none ↦ record t { records = Map.remove ℕ_discrete id t.records }
      | some stage ↦ record t {
        records = Map.remove ℕ_discrete id t.records;
        stages =
            Map.insert group_eq r.group (record stage { ids = Set.remove ℕ_discrete id stage.ids })
              t.stages;
      }
    ]
  ]

  unfoldable pub termination_sequence : LifetimeTracker G → List G → LifetimeTracker G
  termination_sequence t groups = record t { prioritized = groups }

  unfoldable pub is_finished : LifetimeTracker G → Bool
  is_finished t = Map.all stage_is_finished (Map.values t.stages)

  -- `a.difference(&b)`, before the order of iteration.
  unfoldable pub difference : List G → List G → List G
  difference [] bs = []
  difference (a ∷ as') bs =
      let rest = difference as' bs in if Set.contains group_eq a bs then rest else a ∷ rest

  unfoldable pub stage_sequence : LifetimeTracker G → List G
  stage_sequence t = t.prioritized ++ group_order (difference (Map.keys t.stages) t.prioritized)

  unfoldable pub terminate_group : LifetimeTracker G → G → List (Send Interrupt)
  terminate_group t group = elim (Map.lookup group_eq group t.stages) [
    | none ↦ []
    | some stage ↦ interrupt_all (id_order stage.ids) t.records
  ]

  -- `if !stage.terminating { … }`: the flag is set, and the children of the stage are interrupted.
  unfoldable pub begin_stage : List (Ident × Record G) → Stage → Stage × List (Send Interrupt)
  begin_stage records stage =
      if not stage.terminating
      then (record stage { terminating = true }, interrupt_all (id_order stage.ids) records)
      else (stage, [])

  -- The loop of `try_terminate_next` over the sequence, with its `break`.
  unfoldable pub terminate_stages :
      List (Ident × Record G) → List G → List (G × Stage) → List (G × Stage) × List (Send Interrupt)
  unfolding begin_stage
  terminate_stages records [] stages = (stages, [])
  terminate_stages records (g ∷ gs) stages = elim (Map.lookup group_eq g stages) [
    | none ↦ terminate_stages records gs stages
    | some stage ↦
        let begun = begin_stage records stage in
        let stages' = Map.insert group_eq g begun.0 stages in
        elim (stage_is_finished begun.0) [
          | false ↦ (stages', begun.1)
          | true ↦ let rest = terminate_stages records gs stages' in (rest.0, begun.1 ++ rest.1)
        ]
  ]

  unfoldable pub try_terminate_next : LifetimeTracker G → LifetimeTracker G × List (Send Interrupt)
  unfolding terminate_stages
  try_terminate_next t =
      let (stages, sends) = terminate_stages t.records (stage_sequence t) t.stages in
      (record t { terminating = true; stages = stages }, sends)

  unfoldable pub start_termination : LifetimeTracker G → LifetimeTracker G × List (Send Interrupt)
  unfolding try_terminate_next
  start_termination t = try_terminate_next t

  unfoldable pub remove : LifetimeTracker G → Ident → LifetimeTracker G × List (Send Interrupt)
  unfolding forget
  remove t id =
      let t' = forget t id in
      let next = try_terminate_next t' in if t'.terminating then next else (t', [])
