-- ===== src/Sync/Queue/Rounds.antt =====
-- `JRT_QueueSend`, `JRT_QueueReceive` and `JRT_QueueSendFromISR` of sync.c keep every queue valid.
use just_rt.Common.{
  ℕ, ◌+◌, ◌<◌, ◌≡◌, ◌⊎◌, inl, inr, arith, ◌==◌, ◌!=◌, ◌&&◌, ◌||◌, ltb, if_intro, add32, not,
  ==_refl,
}
use just_rt.Kernel.{Kernel}
use just_rt.Kernel.Objects
use just_rt.Kernel.WaitKind
use just_rt.Wait.{Deadline, Outcome, outcome_kernel, block_until_locked, wait_end}
use just_rt.Wait.Select.{IsBest, NoWaiter}
use just_rt.Wait.Wake.{wake_lem}
use just_rt.Wait.Waiters.{block_until_locked_lem}
use just_rt.Sync.{count_context_misuse}
use just_rt.Sync.Queue.{
  set_queue, pushed, popped, push_item, pop_item, wake_receiver, wake_sender, send_round,
  receive_round, send_from_isr, count_accepted,
}
use just_rt.Sync.Queue.Valid.{
  QueueOk, MaySend, MayReceive, pushed-QueueOk, popped-QueueOk, promise, reserve, promise-QueueOk,
  reserve-QueueOk,
}

-- A woken receiver is promised an item.
pub wake_receiver_lem :
    (k : Kernel) (q : ℕ)
    → k.task_count < 4294967296
    → ((s : ℕ) × IsBest k.tasks q WaitKind.queue_receive k.task_count s
        × (wake_receiver k q ≡ set_queue (wait_end k s 1) q (promise (k.queues q))))
      ⊎ (NoWaiter k.tasks q WaitKind.queue_receive k.task_count × (wake_receiver k q ≡ k))
unfolding wake_receiver
wake_receiver_lem k q h = elim (wake_lem k q WaitKind.queue_receive h) [
  | inl (e, quiet) ↦ inr (quiet, rw e)
  | inr (s, e, best) ↦ inl (s, best, rw e)
]

-- A woken sender has a slot reserved.
pub wake_sender_lem :
    (k : Kernel) (q : ℕ)
    → k.task_count < 4294967296
    → ((s : ℕ) × IsBest k.tasks q WaitKind.queue_send k.task_count s
        × (wake_sender k q ≡ set_queue (wait_end k s 1) q (reserve (k.queues q))))
      ⊎ (NoWaiter k.tasks q WaitKind.queue_send k.task_count × (wake_sender k q ≡ k))
unfolding wake_sender
wake_sender_lem k q h = elim (wake_lem k q WaitKind.queue_send h) [
  | inl (e, quiet) ↦ inr (quiet, rw e)
  | inr (s, e, best) ↦ inl (s, best, rw e)
]

abbrev pub AllQueuesOk : Kernel → ℕ → ℕ → Type 0
AllQueuesOk k q p = QueueOk (k.queues q) × QueueOk (k.queues p)

set_queue-QueueOk :
    (k : Kernel) (q p : ℕ) (v : Objects.Queue)
    → QueueOk v
    → QueueOk (k.queues p)
    → QueueOk ((set_queue k q v).queues p)
set_queue-QueueOk k q p v new old = if_intro QueueOk (p == q) (λ _. new) (λ _. old)

wake_receiver-QueueOk :
    (k : Kernel) (q p : ℕ)
    → k.task_count < 4294967296
    → QueueOk (k.queues q)
    → (k.queues q).receive_reservations < (k.queues q).count
    → QueueOk (k.queues p)
    → QueueOk ((wake_receiver k q).queues p)
wake_receiver-QueueOk k q p h v more old = elim (wake_receiver_lem k q h) [
  | inl (s, best, e) ↦ rw e (set_queue-QueueOk k q p _ (promise-QueueOk (k.queues q) v more) old)
  | inr (quiet, e) ↦ rw e old
]

wake_sender-QueueOk :
    (k : Kernel) (q p : ℕ)
    → k.task_count < 4294967296
    → QueueOk (k.queues q)
    → (k.queues q).count + (k.queues q).send_reservations < (k.queues q).capacity
    → QueueOk (k.queues p)
    → QueueOk ((wake_sender k q).queues p)
wake_sender-QueueOk k q p h v more old = elim (wake_sender_lem k q h) [
  | inl (s, best, e) ↦ rw e (set_queue-QueueOk k q p _ (reserve-QueueOk (k.queues q) v more) old)
  | inr (quiet, e) ↦ rw e old
]

-- Storing an item and waking a receiver.
pub push-QueueOk :
    (k : Kernel) (q item reserved p : ℕ)
    → k.task_count < 4294967296
    → MaySend (k.queues q) reserved
    → QueueOk (k.queues q)
    → QueueOk (k.queues p)
    → QueueOk ((wake_receiver (push_item k q item reserved) q).queues p)
unfolding push_item
push-QueueOk k q item reserved p h may v old =
    let (kept, more) = pushed-QueueOk (k.queues q) reserved v may in
    wake_receiver-QueueOk (push_item k q item reserved) q p h (rw (==_refl q) kept)
      (rw (==_refl q) more) (set_queue-QueueOk k q p (pushed (k.queues q) reserved) kept old)

pub pop-QueueOk :
    (k : Kernel) (q item reserved p : ℕ)
    → k.task_count < 4294967296
    → MayReceive (k.queues q) reserved
    → QueueOk (k.queues q)
    → QueueOk (k.queues p)
    → QueueOk ((wake_sender (pop_item k q item reserved) q).queues p)
unfolding pop_item
pop-QueueOk k q item reserved p h may v old =
    let (kept, more) = popped-QueueOk (k.queues q) reserved v may in
    wake_sender-QueueOk (pop_item k q item reserved) q p h (rw (==_refl q) kept)
      (rw (==_refl q) more) (set_queue-QueueOk k q p (popped (k.queues q) reserved) kept old)

block-QueueOk :
    (k : Kernel) (o w : ℕ) (d : Deadline) (p : ℕ)
    → QueueOk (k.queues p)
    → QueueOk ((outcome_kernel (block_until_locked k o w d)).queues p)
block-QueueOk k o w d p v = elim (block_until_locked_lem k o w d) [
  | inl e ↦ rw e v
  | inr e ↦ rw e v
]

-- A round of `JRT_QueueSend` keeps every queue valid, if a slot is reserved for a sender that was
-- woken for one.
pub send_round-QueueOk :
    (k : Kernel) (q item timeout : ℕ) (d : Deadline) (reserved p : ℕ)
    → k.task_count < 4294967296
    → (reserved ≡ 0) ⊎ (0 < (k.queues q).send_reservations)
    → QueueOk (k.queues q)
    → QueueOk (k.queues p)
    → QueueOk ((outcome_kernel (send_round k q item timeout d reserved)).queues p)
unfolding send_round
send_round-QueueOk k q item timeout d reserved p h r v old =
    if_intro P
      ((queue.capacity != 0)
        && (queue.item_size != 0)
        && ((reserved != 0) || ltb (add32 queue.count queue.send_reservations) queue.capacity))
      (λ go. push-QueueOk k q item reserved p h (ground (arith, v.fits, v.small)) v old)
      (λ _.
        if_intro P (timeout == 0) (λ _. old) (λ _. block-QueueOk k q WaitKind.queue_send d p old))
  where
    P : Outcome → Type 0
    P o = QueueOk ((outcome_kernel o).queues p)

    queue : Objects.Queue
    queue = k.queues q

-- A round of `JRT_QueueReceive` keeps every queue valid, if an item is promised to a receiver that
-- was woken for one.
pub receive_round-QueueOk :
    (k : Kernel) (q item timeout : ℕ) (d : Deadline) (reserved p : ℕ)
    → k.task_count < 4294967296
    → (reserved ≡ 0) ⊎ (0 < (k.queues q).receive_reservations)
    → QueueOk (k.queues q)
    → QueueOk (k.queues p)
    → QueueOk ((outcome_kernel (receive_round k q item timeout d reserved)).queues p)
unfolding receive_round
receive_round-QueueOk k q item timeout d reserved p h r v old =
    if_intro P
      ((queue.item_size != 0) && ((reserved != 0) || ltb queue.receive_reservations queue.count))
      (λ go. pop-QueueOk k q item reserved p h (ground arith) v old)
      (λ _.
        if_intro P (timeout == 0) (λ _. old)
          (λ _. block-QueueOk k q WaitKind.queue_receive d p old))
  where
    P : Outcome → Type 0
    P o = QueueOk ((outcome_kernel o).queues p)

    queue : Objects.Queue
    queue = k.queues q

-- `JRT_QueueSendFromISR` keeps every queue valid, in every context and whether it accepts the item.
pub send_from_isr-QueueOk :
    (k : Kernel) (q item p : ℕ)
    → k.task_count < 4294967296
    → QueueOk (k.queues q)
    → QueueOk (k.queues p)
    → QueueOk ((send_from_isr k q item).0.queues p)
unfolding send_from_isr count_context_misuse push_item count_accepted
send_from_isr-QueueOk k q item p h v old =
    if_intro P (not k.in_isr) (λ _. old)
      (λ _.
        if_intro P
          ((queue.capacity != 0)
            && (queue.item_size != 0)
            && ltb (add32 queue.count queue.send_reservations) queue.capacity)
          (λ go.
            push-QueueOk (count_accepted attempted ((push_item attempted q item 0).queues q).count)
              q item 0 p h (ground (arith, v.fits, v.small)) v old)
          (λ _. old))
  where
    P : Kernel × ℕ → Type 0
    P o = QueueOk (o.0.queues p)

    queue : Objects.Queue
    queue = k.queues q

    attempted : Kernel
    attempted = record k {
      counters = record k.counters {
        isr_queue_send_attempted = add32 k.counters.isr_queue_send_attempted 1;
      };
    }
