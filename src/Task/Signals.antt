-- ===== src/Task/Signals.antt =====
-- The senders of a task's signals: the stop channel of meio/src/lite_runtime.rs, and the durations of
-- meio/src/tasks/heartbeat.rs. The `watch` channel is tokio's, and a parameter.
use meio.Prelude.{ℕ, zero, suc, ◌+◌, ◌<◌, ◌≡◌, refl, ◌∙◌, Bool, true, false, not, Option, arith}
use meio.Ids.{Ident, Heap, eq, hash}
use meio.Task.{Status, alive, stop, is_done}

-- What the code relies on in `tokio::sync::watch`: the channel holds a value, which all its receivers
-- read; a send fails while there is no receiver, and then the value stays as it is.
pub record Watch (A C : Type 0) : Type 0 where
  pub channel : A → C
  pub borrow : C → A
  pub receivers : C → ℕ
  pub subscribe : C → C
  pub drop_receiver : C → C
  pub send : A → C → Bool × C
  pub borrow-channel : (a : A) → borrow (channel a) ≡ a
  pub receivers-channel : (a : A) → receivers (channel a) ≡ 1
  pub borrow-subscribe : (c : C) → borrow (subscribe c) ≡ borrow c
  pub receivers-subscribe : (c : C) → receivers (subscribe c) ≡ suc (receivers c)
  pub borrow-drop_receiver : (c : C) → borrow (drop_receiver c) ≡ borrow c
  pub receivers-drop_receiver : (c : C) → receivers (drop_receiver c) + 1 ≡ receivers c
  pub send-closed : (a : A) (c : C) → receivers c ≡ 0 → send a c ≡ (false, c)
  pub send-open :
      (a : A) (c : C)
      → 0 < receivers c
      → ((send a c).0 ≡ true) × (borrow (send a c).1 ≡ a) × (receivers (send a c).1 ≡ receivers c)

-- `TaskAddress`, whose stop sender is known by the channel of the task.
pub record TaskAddress : Type 0 where
  pub id : Ident

unfoldable pub clone : TaskAddress → TaskAddress
clone a = record { id = a.id }

unfoldable pub address_eq : TaskAddress → TaskAddress → Bool
unfolding eq
address_eq a b = eq a.id b.id

unfoldable pub address_hash : {S : Type 0} → (ℕ → S → S) → Heap → TaskAddress → S → Option S
unfolding hash
address_hash feed heap a state = hash feed heap a.id state

module _ {C : Type 0} (w : Watch Status C) where
  open w use {channel, borrow}

  -- `make_stop_channel`.
  unfoldable pub make_stop_channel : Ident → TaskAddress × C
  make_stop_channel id = (record { id = id }, channel alive)

  -- `StopSender::stop`, and `TaskAddress::stop`: whether it succeeds.
  unfoldable pub send_stop : C → Bool × C
  send_stop c = w.send stop c

  -- `StopReceiver::is_alive`.
  unfoldable pub is_alive : C → Bool
  unfolding is_done
  is_alive c = not (is_done (borrow c))

  -- `stop` through several senders, one after the other.
  unfoldable pub stop_times : ℕ → C → C
  unfolding send_stop
  stop_times zero c = c
  stop_times (suc n) c = stop_times n (send_stop c).1

  stopped_stays :
      (n : ℕ) (c : C) → 0 < w.receivers c → borrow c ≡ stop → is_alive (stop_times n c) ≡ false
  unfolding stop_times is_alive send_stop
  stopped_stays zero c open_ e = rw e refl
  stopped_stays (suc n) c open_ e =
      let (taken, holds, same) = w.send-open stop c open_ in
      stopped_stays n (w.send stop c).1 (omega (arith, same)) holds

  -- While the task is there to receive it, the first `stop` of any of its senders succeeds and reaches
  -- it, and it keeps reading the signal however often it is stopped; before that it reads that it is
  -- alive.
  pub send_stop-is_alive :
      (id : Ident) (n : ℕ)
      → let (address, c) = make_stop_channel id in
        (is_alive c ≡ true) × ((send_stop c).0 ≡ true) × (is_alive (stop_times (suc n) c) ≡ false)
  unfolding make_stop_channel send_stop is_alive stop_times
  send_stop-is_alive id n =
      let (taken, holds, same) =
        w.send-open stop (channel alive) (omega (arith, w.receivers-channel alive)) in
      (
        rw (w.borrow-channel alive) refl,
        taken,
        stopped_stays n (w.send stop (channel alive)).1
            (omega (arith, same, w.receivers-channel alive)) holds,
      )

module _ {C : Type 0} (w : Watch ℕ C) where
  open w use {channel, borrow, send, subscribe, drop_receiver}

  -- `HeartBeatHandle::new`: the first receiver is dropped at once.
  unfoldable pub new_handle : ℕ → C
  new_handle duration = drop_receiver (channel duration)

  -- `HeartBeatHandle::update`: whether it succeeds.
  unfoldable pub update : ℕ → C → Bool × C
  update duration c = send duration c

  -- `HeartBeat::new_with_handle`, on the channel.
  unfoldable pub new_with_handle : C → C
  new_with_handle c = subscribe c

  -- `HeartBeat::new`.
  unfoldable pub new_heart_beat : ℕ → C
  unfolding new_handle new_with_handle
  new_heart_beat duration = new_with_handle (new_handle duration)

  -- The update of a handle fails and changes nothing as long as no heartbeat was made with it, and
  -- succeeds after that, and then the heartbeat reads the new duration.
  pub new_handle-update :
      (d e : ℕ)
      → (update e (new_handle d) ≡ (false, new_handle d))
        × (borrow (new_handle d) ≡ d)
        × ((update e (new_with_handle (new_handle d))).0 ≡ true)
        × (borrow (update e (new_with_handle (new_handle d))).1 ≡ e)
  unfolding new_handle update new_with_handle
  new_handle-update d e =
      let c = drop_receiver (channel d) in
      let alone : w.receivers (drop_receiver (channel d)) ≡ 0 =
        omega (arith, w.receivers-drop_receiver (channel d), w.receivers-channel d) in
      let (taken, holds, same) =
        w.send-open e (subscribe c) (omega (arith, w.receivers-subscribe c)) in
      (
        w.send-closed e c alone,
        w.borrow-drop_receiver (channel d) ∙ w.borrow-channel d,
        taken,
        holds,
      )
