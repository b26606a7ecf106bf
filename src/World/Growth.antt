-- ===== src/World/Growth.antt =====
-- How a runtime changes the state that it shares: what it adds are its own children.
use meio.Prelude.{
  ◌+◌, ◌≤◌, ◌<◌, ◌≡◌, ◌≢◌, refl, Bool, true, false, Option, none, some, List, [], ◌∷◌, ◌++◌, ◌||◌,
  map, arith, ap, ◌⊎◌, inl, inr, length, ℕ_discrete, Bool-cases, ◌∙◌,
}
use meio.Ids.{Ident}
use meio.Lifecycle.{
  LifecycleNotifier, LifetimeTracker, insert_record, once, forward, parcel, Interrupt, Record,
}
use meio.Lifecycle
use meio.Lifecycle.Invariant.{group_in, group_in-insert}
use meio.Lifecycle.Drain.{start_termination-finished}
use meio.Context.{Effect, signal, Environment, Process, stop, shut, terminate_group, send}
use meio.Context.Laws.{IsSound}
use meio.World.{is_spawned}
use meio.World.Spawns.{IsSilent, is_spawned-append, is_spawned-silent, signals-IsSilent}

-- Whether the log has a child of a supervisor, an actor or a task.
abbrev pub is_child : {O E : Type 0} → Ident → Ident → List (Effect O E) → Bool
is_child s id log = is_spawned false (some s) id log || is_spawned true (some s) id log

pub is_child_of_task :
    {O E : Type 0} (s id : Ident) (log : List (Effect O E))
    → is_spawned true (some s) id log ≡ true
    → is_child s id log ≡ true
is_child_of_task s id log h = ground arith

module _ {G O E : Type 0} (env : Environment G O E) where
  open env use {hashing}

  abbrev pub holds : Process G O E → Ident → Option G
  holds p id = group_in p.ctx.lifetime_tracker.records id

  -- An actor in termination is alive only while its tracker holds a child.
  abbrev pub IsWaiting : Process G O E → Type 0
  IsWaiting p =
      p.ctx.lifetime_tracker.terminating ≡ true
      → p.ctx.alive ≡ true
      → ¬ ((id : Ident) → holds p id ≡ none)

  -- From `p` to `q` an actor has spawned children, under new ids and with itself as the supervisor,
  -- which its tracker holds; it has lost none.
  pub record Grows (p q : Process G O E) : Type 0 where
    pub address : q.ctx.address ≡ p.ctx.address
    pub heap : length p.heap ≤ length q.heap
    pub kept : (id : Ident) → holds p id ≢ none → holds q id ≢ none
    pub noted :
        (b : Bool) (s : Option Ident) (id : Ident)
        → is_spawned b s id p.log ≡ true
        → is_spawned b s id q.log ≡ true
    pub registered :
        (b : Bool) (s : Option Ident) (id : Ident)
        → is_spawned b s id q.log ≡ true
        → (is_spawned b s id p.log ≡ true)
          ⊎ ((s ≡ some p.ctx.address)
              × (holds q id ≢ none)
              × (length p.heap ≤ id)
              × (id < length q.heap))
    pub known :
        (id : Ident)
        → holds q id ≢ none
        → (holds p id ≢ none) ⊎ ((is_child p.ctx.address id q.log ≡ true) × (length p.heap ≤ id))
    pub waiting : IsWaiting p → IsWaiting q

  pub Grows-refl : (p : Process G O E) → Grows p p
  Grows-refl p = record {
    address = refl;
    heap = omega arith;
    kept = λ id h. h;
    noted = λ b s id h. h;
    registered = λ b s id h. inl h;
    known = λ id h. inl h;
    waiting = λ h. h;
  }

  pub Grows-trans : {p q r : Process G O E} → Grows p q → Grows q r → Grows p r
  Grows-trans {p} {q} {r} f g = record {
    address = g.address ∙ f.address;
    heap = omega (arith, f.heap, g.heap);
    kept = λ id h. g.kept id (f.kept id h);
    noted = λ b s id h. g.noted b s id (f.noted b s id h);
    registered = λ b s id h. elim (g.registered b s id h) [
      | inl old ↦ elim (f.registered b s id old) [
        | inl older ↦ inl older
        | inr (e, held, low, high) ↦ inr (e, g.kept id held, low, omega (arith, g.heap))
      ]
      | inr (e, held, low, high) ↦ inr (e ∙ (rw f.address), held, omega (arith, f.heap), high)
    ];
    known = λ id h. elim (g.known id h) [
      | inl old ↦ elim (f.known id old) [
        | inl older ↦ inl older
        | inr (e, low) ↦ inr (
          ground
              (arith, g.noted false (some p.ctx.address) id, g.noted true (some p.ctx.address) id),
          low,
        )
      ]
      | inr (e, low) ↦ inr (rw (← f.address) e, omega (arith, f.heap))
    ];
    waiting = λ h. g.waiting (f.waiting h);
  }

  -- What leaves the children and the ids alone, and tells of no spawn.
  pub silent-Grows :
      (p q : Process G O E) (es : List (Effect O E))
      → q.ctx.address ≡ p.ctx.address
      → q.heap ≡ p.heap
      → q.ctx.lifetime_tracker.records ≡ p.ctx.lifetime_tracker.records
      → q.log ≡ p.log ++ es
      → IsSilent es
      → (IsWaiting p → IsWaiting q)
      → Grows p q
  silent-Grows p q es a h r l silent w = record {
    address = a;
    heap = rw h (omega arith);
    kept = λ id held. rw r held;
    noted = λ b s id e. rw (l, is_spawned-silent b s id p.log es silent) e;
    registered = λ b s id e. inl (rw (l, is_spawned-silent b s id p.log es silent) at e);
    known = λ id held. inl (rw r at held);
    waiting = w;
  }

  pub stop-Grows : (p : Process G O E) → Grows p (record p { ctx = stop p.ctx })
  unfolding stop
  stop-Grows p = record {
    address = refl;
    heap = omega arith;
    kept = λ id h. h;
    noted = λ b s id h. h;
    registered = λ b s id h. inl h;
    known = λ id h. inl h;
    waiting = λ w t on gone. cc;
  }

  pub shut-Grows : (p : Process G O E) → IsSound env p → Grows p (shut env p)
  unfolding shut Lifecycle.start_termination Lifecycle.try_terminate_next
  shut-Grows p sound =
      silent-Grows p (shut env p)
        (map signal (Lifecycle.start_termination hashing p.ctx.lifetime_tracker).1) (ground arith)
        refl (ground arith) refl (signals-IsSilent O E _)
        (λ w t on gone. ground (
          arith,
          start_termination-finished hashing p.ctx.lifetime_tracker sound.consistent
              (λ id. ground (arith, gone id)),
        ))

  pub terminate_group-Grows : (g : G) (p : Process G O E) → Grows p (terminate_group env g p)
  unfolding terminate_group
  terminate_group-Grows g p =
      silent-Grows p (terminate_group env g p) _ refl refl refl refl (signals-IsSilent O E _)
        (λ w. w)

  pub send-Grows :
      (e : Effect O E) (p : Process G O E) → IsSilent (e ∷ []) → Grows p (send env e p).1
  unfolding send
  send-Grows e p silent = elim (Bool-cases (env.accepts p.log e)) [
    | inl on ↦ rw (on, send) (silent-Grows p _ (e ∷ []) refl refl refl refl silent (λ w. w))
    | inr off ↦ rw (off, send) (Grows-refl p)
  ]

  -- A new child under the next id.
  pub spawn-Grows :
      (p q : Process G O E) (n : LifecycleNotifier) (group : G) (es : List (Effect O E))
      → IsSound env p
      → q.ctx.address ≡ p.ctx.address
      → q.ctx.lifetime_tracker
        ≡ (insert_record hashing p.ctx.lifetime_tracker (length p.heap) n group).0
      → length q.heap ≡ length p.heap + 1
      → q.log ≡ p.log ++ es
      → ((b : Bool) (s : Option Ident) (id : Ident)
          → is_spawned b s id es ≡ true
          → (s ≡ some p.ctx.address) × (id ≡ length p.heap))
      → is_child p.ctx.address (length p.heap) es ≡ true
      → Grows p q
  unfolding insert_record
  spawn-Grows p q n group es sound a t h l born mine = record {
    address = a;
    heap = omega (arith, h);
    kept = λ id held. rw t (ground (arith, group_in-insert (length p.heap) id new_record records));
    noted = λ b s id e. rw (l, is_spawned-append b s id p.log es, e);
    registered = λ b s id e. elim (Bool-cases (is_spawned b s id p.log)) [
      | inl old ↦ inl old
      | inr fresh ↦
          let (mine', same) = born b s id (ground (arith, is_spawned-append b s id p.log es)) in
          inr (
            mine',
            rw (t, same)
                (ground
                  (arith, group_in-insert (length p.heap) (length p.heap) new_record records)),
            omega (arith, same),
            omega (arith, same, h),
          )
    ];
    known = λ id held. elim (ℕ_discrete id (length p.heap)) [
      | yes same ↦ inr (
        rw (same, l)
            (ground (
              arith,
              is_spawned-append false (some p.ctx.address) (length p.heap) p.log es,
              is_spawned-append true (some p.ctx.address) (length p.heap) p.log es,
            )),
        omega (arith, same),
      )
      | no ne ↦
          inl (λ e.
            held (rw t (ground (arith, group_in-insert (length p.heap) id new_record records))))
    ];
    waiting = λ w on alive gone. ground (
      arith,
      gone (length p.heap),
      ap (λ l. group_in l (length p.heap)) (ap LifetimeTracker.records t),
      group_in-insert (length p.heap) (length p.heap) new_record records,
    );
  }
    where
      records : List (Ident × Record G)
      records = p.ctx.lifetime_tracker.records

      new_record : Record G
      new_record = record { group = group; notifier = n }
