-- ===== src/Lifecycle/Interrupts/History.antt =====
-- All that a tracker went through since it was made, with everything that it sent.
use meio.Prelude.{
  ℕ, ◌+◌, ◌≤◌, ◌≡◌, refl, none, some, List, [], ◌++◌, ℕ_discrete, if◌then◌else◌, arith,
  Option-cases, Bool-cases, inl, inr,
}
use mathlib.Core.List.{append-nil}
use meio.Prelude.Set
use meio.Prelude.Map
use meio.Ids.{Ident}
use meio.Lifecycle.{
  Send, Interrupt, LifecycleNotifier, once, stop, forward, Stage, Record, LifetimeTracker, Hashing,
  interrupt_record, entry, new, insert, insert_task, insert_record, forget, remove,
  try_terminate_next, start_termination, termination_sequence, terminate_group,
}
use meio.Lifecycle.Invariant.{
  IsConsistent, new-IsConsistent, insert_record-IsConsistent, forget-IsConsistent, group_in,
  entry-insert, entry_of_lookup,
}
use meio.Lifecycle.Kept.{try_terminate_next-IsConsistent, try_terminate_next-IsKept}
use meio.Lifecycle.Interrupts.{
  IsOwn, AreOwn, sends_to, sends_to-append, interrupt_record-sends, insert_record-AreOwn,
  forget-lookup, try_terminate_next_interrupts,
}
use meio.Lifecycle.Interrupts.Group.{asks, terminate_group-sends, asks-sends}

module _ {G : Type 0} (h : Hashing G) where
  open h use {group_eq}

  pub sequenced-IsConsistent :
      (t : LifetimeTracker G) (groups : List G)
      → IsConsistent h t
      → IsConsistent h (termination_sequence h t groups)
  unfolding termination_sequence
  sequenced-IsConsistent t groups c = record {
    stages_map = c.stages_map;
    owned = c.owned;
    staged = c.staged;
    distinct = c.distinct;
    flagged = c.flagged;
  }

  -- Each id is used once: `AddressPair::new` and `lite_runtime::spawn` make a new one.
  abbrev pub IsUnused : LifetimeTracker G → List (Send Interrupt) → Ident → Type 0
  IsUnused t log id = (group_in t.records id ≡ none) × (sends_to id log ≡ 0)

  -- The trackers that the code can reach, with all that they sent, and for each id with the number of
  -- the calls of `terminate_group` for the group under which it was held then.
  pub data History : LifetimeTracker G → List (Send Interrupt) → (Ident → ℕ) → Type 0 where
    created : History new [] (λ k. 0)
    inserted :
        {t : LifetimeTracker G} {log : List (Send Interrupt)} {asked : Ident → ℕ} (id : Ident)
        (group : G)
        → History t log asked
        → IsUnused t log id
        → History (insert h t id group).0 (log ++ (insert h t id group).1) asked
    task_inserted :
        {t : LifetimeTracker G} {log : List (Send Interrupt)} {asked : Ident → ℕ} (id : Ident)
        (group : G)
        → History t log asked
        → IsUnused t log id
        → History (insert_task h t id group).0 (log ++ (insert_task h t id group).1) asked
    removed :
        {t : LifetimeTracker G} {log : List (Send Interrupt)} {asked : Ident → ℕ} (id : Ident)
        → History t log asked
        → History (remove h t id).0 (log ++ (remove h t id).1) asked
    terminated :
        {t : LifetimeTracker G} {log : List (Send Interrupt)} {asked : Ident → ℕ}
        → History t log asked
        → History (start_termination h t).0 (log ++ (start_termination h t).1) asked
    sequenced :
        {t : LifetimeTracker G} {log : List (Send Interrupt)} {asked : Ident → ℕ} (groups : List G)
        → History t log asked
        → History (termination_sequence h t groups) log asked
    group_terminated :
        {t : LifetimeTracker G} {log : List (Send Interrupt)} {asked : Ident → ℕ} (group : G)
        → History t log asked
        → History t (log ++ terminate_group h t group) (λ k. asked k + asks h t group k)

  -- What every reachable tracker satisfies.
  pub record IsGood (t : LifetimeTracker G) (log : List (Send Interrupt)) (asked : Ident → ℕ)
      : Type 0 where
    pub consistent : IsConsistent h t
    pub own : AreOwn t.records
    pub exact :
        (id : Ident) (r : Record G)
        → Map.lookup ℕ_discrete id t.records ≡ some r
        → sends_to id log ≡ (if (entry h r.group t.stages).terminating then 1 else 0) + asked id
    pub answered : (id : Ident) → asked id ≤ sends_to id log

  insert_record-IsGood :
      (t : LifetimeTracker G) (log : List (Send Interrupt)) (asked : Ident → ℕ) (id : Ident)
      (n : LifecycleNotifier) (group : G)
      → IsOwn id n
      → IsUnused t log id
      → IsGood t log asked
      → IsGood (insert_record h t id n group).0 (log ++ (insert_record h t id n group).1) asked
  unfolding insert_record sends_to
  insert_record-IsGood t log asked id n group o unused good = record {
    consistent = insert_record-IsConsistent h t id n group unused.0 good.consistent;
    own = insert_record-AreOwn h t id n group o good.own;
    exact = λ i r e. ground (
      arith,
      Map.lookup-insert ℕ_discrete id i new_record t.records,
      entry-insert h r.group group (record stage { ids = Set.insert ℕ_discrete id stage.ids })
          t.stages,
      sends_to-append i log (if stage.terminating then interrupt_record new_record else []),
      interrupt_record-sends new_record i id o,
      good.exact i r,
      good.answered i,
    );
    answered = λ i.
        ground (arith, sends_to-append i log (insert_record h t id n group).1, good.answered i);
  }
    where
      stage : Stage
      stage = entry h group t.stages

      new_record : Record G
      new_record = record { group = group; notifier = n }

  try_terminate_next-IsGood :
      (t : LifetimeTracker G) (log : List (Send Interrupt)) (asked : Ident → ℕ)
      → IsGood t log asked
      → IsGood (try_terminate_next h t).0 (log ++ (try_terminate_next h t).1) asked
  try_terminate_next-IsGood t log asked good = record {
    consistent = try_terminate_next-IsConsistent h t good.consistent;
    own = unfold try_terminate_next in good.own;
    exact = λ i r e.
        let e' : Map.lookup ℕ_discrete i t.records ≡ some r = unfold try_terminate_next in e in
        ground (
          arith,
          sends_to-append i log (try_terminate_next h t).1,
          good.exact i r e',
          try_terminate_next_interrupts h t i r good.consistent good.own e',
          (try_terminate_next-IsKept h t).still_flagged r.group,
        );
    answered =
        λ i. omega (arith, sends_to-append i log (try_terminate_next h t).1, good.answered i);
  }

  forget-entry :
      (t : LifetimeTracker G) (id : Ident) (g : G)
      → (entry h g (forget h t id).stages).terminating ≡ (entry h g t.stages).terminating
  unfolding forget
  forget-entry t id g = elim (Option-cases (Map.lookup ℕ_discrete id t.records)) [
    | inl e ↦ rw (e, forget)
    | inr (r, e) ↦ elim (Option-cases (Map.lookup group_eq r.group t.stages)) [
      | inl f ↦ rw (e, f, forget)
      | inr (stage, f) ↦
          rw (e, f, forget)
            (ground (
              arith,
              entry-insert h g r.group (record stage { ids = Set.remove ℕ_discrete id stage.ids })
                  t.stages,
              entry_of_lookup h r.group stage t.stages f,
            ))
    ]
  ]

  forget-IsGood :
      (t : LifetimeTracker G) (log : List (Send Interrupt)) (asked : Ident → ℕ) (id : Ident)
      → IsGood t log asked
      → IsGood (forget h t id) log asked
  forget-IsGood t log asked id good = record {
    consistent = forget-IsConsistent h t id good.consistent;
    own = λ i r e. good.own i r (forget-lookup h t id i r e);
    exact = λ i r e. rw (forget-entry t id r.group) (good.exact i r (forget-lookup h t id i r e));
    answered = good.answered;
  }

  remove-IsGood :
      (t : LifetimeTracker G) (log : List (Send Interrupt)) (asked : Ident → ℕ) (id : Ident)
      → IsGood t log asked
      → IsGood (remove h t id).0 (log ++ (remove h t id).1) asked
  unfolding remove
  remove-IsGood t log asked id good =
      let good' = forget-IsGood t log asked id good in
      elim (Bool-cases (forget h t id).terminating) [
        | inl e ↦ rw (e, remove) (try_terminate_next-IsGood (forget h t id) log asked good')
        | inr e ↦ rw (e, remove, append-nil) good'
      ]

  group-IsGood :
      (t : LifetimeTracker G) (log : List (Send Interrupt)) (asked : Ident → ℕ) (g : G)
      → IsGood t log asked
      → IsGood t (log ++ terminate_group h t g) (λ k. asked k + asks h t g k)
  group-IsGood t log asked g good = record {
    consistent = good.consistent;
    own = good.own;
    exact = λ i r e. omega (
      arith,
      sends_to-append i log (terminate_group h t g),
      terminate_group-sends h t g i r good.consistent good.own e,
      good.exact i r e,
    );
    answered = λ i. omega (
      arith,
      sends_to-append i log (terminate_group h t g),
      asks-sends h t g i good.consistent good.own,
      good.answered i,
    );
  }

  new-IsGood : IsGood new [] (λ k. 0)
  unfolding new sends_to Map.lookup
  new-IsGood = record {
    consistent = new-IsConsistent h;
    own = λ i r e. cc;
    exact = λ i r e. cc;
    answered = λ i. omega arith;
  }

  pub History-IsGood :
      {t : LifetimeTracker G} {log : List (Send Interrupt)} {asked : Ident → ℕ}
      → History t log asked
      → IsGood t log asked
  unfolding insert insert_task start_termination termination_sequence
  History-IsGood created = new-IsGood
  History-IsGood (inserted {t} {log} {asked} id group past unused) =
      insert_record-IsGood t log asked id (once id forward) group refl unused (History-IsGood past)
  History-IsGood (task_inserted {t} {log} {asked} id group past unused) =
      insert_record-IsGood t log asked id (stop id) group refl unused (History-IsGood past)
  History-IsGood (removed {t} {log} {asked} id past) =
      remove-IsGood t log asked id (History-IsGood past)
  History-IsGood (terminated {t} {log} {asked} past) =
      try_terminate_next-IsGood t log asked (History-IsGood past)
  History-IsGood (sequenced {t} groups past) =
      let good = History-IsGood past in
      record {
        consistent = sequenced-IsConsistent t groups good.consistent;
        own = good.own;
        exact = good.exact;
        answered = good.answered;
      }
  History-IsGood (group_terminated {t} {log} {asked} group past) =
      group-IsGood t log asked group (History-IsGood past)

  -- Over any calls of `insert`, `insert_task`, `remove`, `start_termination`, `terminate_group` and
  -- `termination_sequence` on a new tracker, where an id is inserted only if it was not used
  -- before: a child that the tracker holds was interrupted once for each call of `terminate_group`
  -- with its group while it was held, once more if its stage is in termination, and not otherwise.
  pub History-interrupts :
      {t : LifetimeTracker G} {log : List (Send Interrupt)} {asked : Ident → ℕ} (id : Ident)
      (r : Record G)
      → History t log asked
      → Map.lookup ℕ_discrete id t.records ≡ some r
      → sends_to id log ≡ (if (entry h r.group t.stages).terminating then 1 else 0) + asked id
  History-interrupts id r past held = (History-IsGood past).exact id r held
