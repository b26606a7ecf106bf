-- ===== src/Lifecycle/Interrupts.antt =====
-- Whom a termination interrupts, and how often.
pub mod History
pub mod Group
use meio.Prelude.{
  ℕ, ◌+◌, ◌≡◌, refl, Bool, true, false, not, ◌&&◌, none, some, List, [], ◌∷◌, ◌++◌, ite, ℕ_discrete,
  if◌then◌else◌, arith, Option-cases, Bool-cases, inl, inr,
}
use meio.Prelude.Set
use meio.Prelude.Map
use meio.Ids.{Ident}
use meio.Lifecycle.{
  Send, parcel, stop_signal, Interrupt, LifecycleNotifier, ignore, once, stop, notify, Stage,
  Record, interrupt_record, LifetimeTracker, Hashing, interrupt_all, entry, begin_stage,
  stage_is_finished, terminate_stages, stage_sequence, try_terminate_next, insert_record, forget,
  remove,
}
use meio.Lifecycle.Invariant.{IsConsistent, group_in-eq, entry-insert, entry_of_lookup}
use meio.Lifecycle.Kept.{
  begin_stage_fields, begin-IsKept, terminate_stages-IsKept, begun_stages, loop_none, loop_next,
  loop_break,
}

abbrev pub addressee : {P : Type 0} → Send P → Ident
addressee (parcel a op p) = a
addressee (stop_signal a) = a

-- How many of the sends go to `id`.
unfoldable pub sends_to : {P : Type 0} → Ident → List (Send P) → ℕ
sends_to id [] = 0
sends_to id (s ∷ ss) =
    let rest = sends_to id ss in ite (ℕ_discrete id (addressee s)) (1 + rest) rest

pub sends_to-append :
    {P : Type 0} (id : Ident) (xs ys : List (Send P))
    → sends_to id (xs ++ ys) ≡ sends_to id xs + sends_to id ys
unfolding sends_to
sends_to-append id [] ys = omega arith
sends_to-append id (x ∷ xs) ys = ground (arith, sends_to-append id xs ys)

-- The notifier of a child speaks to that child.
abbrev pub IsOwn : Ident → LifecycleNotifier → Type 0
IsOwn id ignore = ⊥
IsOwn id (once a op) = a ≡ id
IsOwn id (stop a) = a ≡ id

abbrev pub AreOwn : {G : Type 0} → List (Ident × Record G) → Type 0
AreOwn {G} records =
    (id : Ident) (r : Record G) → Map.lookup ℕ_discrete id records ≡ some r → IsOwn id r.notifier

own_sends :
    (n : LifecycleNotifier) (id k : Ident)
    → IsOwn k n
    → sends_to id (notify n Interrupt.interrupt) ≡ ite (ℕ_discrete id k) 1 0
unfolding sends_to notify
own_sends ignore id k o = absurd o
own_sends (once a op) id k o = ground arith
own_sends (stop a) id k o = ground arith

pub interrupt_record-sends :
    {G : Type 0} (r : Record G) (id k : Ident)
    → IsOwn k r.notifier
    → sends_to id (interrupt_record r) ≡ ite (ℕ_discrete id k) 1 0
unfolding interrupt_record
interrupt_record-sends r id k o = own_sends r.notifier id k o

pub interrupt_all-sends :
    {G : Type 0} (ids : List Ident) (records : List (Ident × Record G)) (id : Ident) (r : Record G)
    → AreOwn records
    → Map.lookup ℕ_discrete id records ≡ some r
    → sends_to id (interrupt_all ids records) ≡ Set.count ℕ_discrete id ids
unfolding interrupt_all Set.count sends_to
interrupt_all-sends [] records id r own held = refl
interrupt_all-sends (k ∷ ks) records id r own held =
    elim (Option-cases (Map.lookup ℕ_discrete k records)) [
      | inl e ↦ rw (e, interrupt_all) (ground (arith, interrupt_all-sends ks records id r own held))
      | inr (r', e) ↦
          rw (e, interrupt_all)
            (ground (
              arith,
              sends_to-append id (interrupt_record r') (interrupt_all ks records),
              interrupt_record-sends r' id k (own k r' e),
              interrupt_all-sends ks records id r own held,
            ))
    ]

pub insert_record-AreOwn :
    {G : Type 0} (h : Hashing G) (t : LifetimeTracker G) (id : Ident) (n : LifecycleNotifier)
    (group : G)
    → IsOwn id n
    → AreOwn t.records
    → AreOwn (insert_record h t id n group).0.records
unfolding insert_record
insert_record-AreOwn h t id n group o own i r e = ground (
  arith,
  Map.lookup-insert ℕ_discrete id i (record { group = group; notifier = n }) t.records,
  own i r,
)

pub forget-lookup :
    {G : Type 0} (h : Hashing G) (t : LifetimeTracker G) (id i : Ident) (r : Record G)
    → Map.lookup ℕ_discrete i (forget h t id).records ≡ some r
    → Map.lookup ℕ_discrete i t.records ≡ some r
unfolding forget
forget-lookup h t id i r e = ground (arith, Map.lookup-remove ℕ_discrete id i t.records)

-- 1 if the step put the stage into termination.
abbrev pub newly : Stage → Stage → ℕ
newly before after = if after.terminating && not before.terminating then 1 else 0

module _ {G : Type 0} (h : Hashing G) (records : List (Ident × Record G)) (own : AreOwn records)
    (id : Ident) (r : Record G) (held : Map.lookup ℕ_discrete id records ≡ some r) where
  open h use {group_eq, id_order, id_order_lem}

  -- The child stands once, in the stage of its group.
  abbrev IsPlaced : List (G × Stage) → Type 0
  IsPlaced stages =
      (k : G) → Set.count ℕ_discrete id (entry h k stages).ids ≡ ite (group_eq k r.group) 1 0

  begin_stage-sends :
      (stage : Stage)
      → sends_to id (begin_stage h records stage).1
        ≡ (if stage.terminating then 0 else Set.count ℕ_discrete id stage.ids)
  unfolding begin_stage sends_to
  begin_stage-sends stage = ground (
    arith,
    interrupt_all-sends (id_order stage.ids) records id r own held,
    id_order_lem id stage.ids,
  )

  no_stages-sends :
      (stages : List (G × Stage))
      → sends_to id (terminate_stages h records [] stages).1
        ≡ newly (entry h r.group stages) (entry h r.group (terminate_stages h records [] stages).0)
  unfolding terminate_stages sends_to
  no_stages-sends stages = ground arith

  module _ (x : G) (stage : Stage) (stages : List (G × Stage))
      (e : Map.lookup group_eq x stages ≡ some stage) (placed : IsPlaced stages) where
    begun-IsPlaced : IsPlaced (begun_stages h records x [] stages stage)
    begun-IsPlaced k =
        ground (arith, (begin-IsKept h records x stage stages e).same_ids k, placed k)

    -- The first stage of the sequence sends what it newly interrupts.
    begun-sends :
        sends_to id (begin_stage h records stage).1
        ≡ newly
            (entry h r.group stages)
            (entry h r.group (begun_stages h records x [] stages stage))
    begun-sends = ground (
      arith,
      begin_stage-sends stage,
      placed x,
      entry_of_lookup h x stage stages e,
      entry-insert h r.group x (begin_stage h records stage).0 stages,
      begin_stage_fields h records stage,
    )

  -- Two steps, none of which clears the flag.
  newly_trans :
      (a b c : Stage)
      → (a.terminating ≡ true → b.terminating ≡ true)
      → (b.terminating ≡ true → c.terminating ≡ true)
      → newly a b + newly b c ≡ newly a c
  newly_trans a b c f g = ground arith

  pub terminate_stages-sends :
      (gs : List G) (stages : List (G × Stage))
      → IsPlaced stages
      → sends_to id (terminate_stages h records gs stages).1
        ≡ newly (entry h r.group stages) (entry h r.group (terminate_stages h records gs stages).0)
  terminate_stages-sends [] stages placed = no_stages-sends stages
  terminate_stages-sends (x ∷ xs) stages placed =
      elim (Option-cases (Map.lookup group_eq x stages)) [
        | inl e ↦ rw (loop_none h records x xs stages e) (terminate_stages-sends xs stages placed)
        | inr (stage, e) ↦ elim (Bool-cases (stage_is_finished (begin_stage h records stage).0)) [
          | inl f ↦
              let stages' = begun_stages h records x [] stages stage in
              rw (loop_next h records x xs stages stage e f) (
                ground (
                  arith,
                  sends_to-append id (begin_stage h records stage).1
                      (terminate_stages h records xs stages').1,
                  begun-sends x stage stages e placed,
                  terminate_stages-sends xs stages' (begun-IsPlaced x stage stages e placed),
                  newly_trans (entry h r.group stages) (entry h r.group stages')
                      (entry h r.group (terminate_stages h records xs stages').0)
                      ((begin-IsKept h records x stage stages e).still_flagged r.group)
                      ((terminate_stages-IsKept h records xs stages').still_flagged r.group),
                ))
          | inr f ↦
              rw (loop_break h records x xs stages stage e f) (begun-sends x stage stages e placed)
        ]
      ]

-- In a consistent tracker whose notifiers are those of their own children, `try_terminate_next`
-- interrupts a child once if it puts the stage of the child into termination, and otherwise not.
pub try_terminate_next_interrupts :
    {G : Type 0} (h : Hashing G) (t : LifetimeTracker G) (id : Ident) (r : Record G)
    → IsConsistent h t
    → AreOwn t.records
    → Map.lookup ℕ_discrete id t.records ≡ some r
    → sends_to id (try_terminate_next h t).1
      ≡ newly (entry h r.group t.stages) (entry h r.group (try_terminate_next h t).0.stages)
unfolding try_terminate_next
try_terminate_next_interrupts h t id r c own held =
    terminate_stages-sends h t.records own id r held (stage_sequence h t) t.stages (λ k. ground (
      arith,
      Set.count_of_contains ℕ_discrete id (entry h k t.stages).ids,
      Set.contains_of_count ℕ_discrete id (entry h k t.stages).ids,
      c.owned k id,
      c.staged k id,
      c.distinct k id,
      group_in-eq id r t.records held,
    ))

pub remove-AreOwn :
    {G : Type 0} (h : Hashing G) (t : LifetimeTracker G) (id : Ident)
    → AreOwn t.records
    → AreOwn (remove h t id).0.records
unfolding remove try_terminate_next
remove-AreOwn h t id own i r e = own i r (forget-lookup h t id i r (ground arith))
