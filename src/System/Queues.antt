-- ===== src/System/Queues.antt =====
-- The calls of queues of sync.c keep the state of the whole kernel.
use just_rt.Common.{ℕ, ◌≢◌, ◌&&◌, ◌||◌, not, ltb, ◌==◌, ◌!=◌, if_intro, add32, arith}
use just_rt.Kernel.{Kernel}
use just_rt.Kernel.WaitKind
use just_rt.Wait.{Deadline, wake, wait_result}
use just_rt.Sync.{count_context_misuse}
use just_rt.Sync.Queue.{
  push_item, pop_item, wake_receiver, wake_sender, send_round, receive_round, send, send_resume,
  receive, receive_resume, count_accepted, send_from_isr,
}
use just_rt.System.State.{idle_index, Plain, PlainOutcome, Plain-refl, Plain-trans, others-Plain}
use just_rt.System.Waits.{counted-Plain, request_switch-Plain, wake-Plain, block_until_locked-Plain}

push_item-Plain : (k : Kernel) (q item reserved : ℕ) → Plain k (push_item k q item reserved)
unfolding push_item
push_item-Plain k q item reserved =
    others-Plain k k.switch_pending _ k.semaphores _ k.event_groups k.counters

pop_item-Plain : (k : Kernel) (q item reserved : ℕ) → Plain k (pop_item k q item reserved)
unfolding pop_item
pop_item-Plain k q item reserved =
    others-Plain k k.switch_pending _ k.semaphores _ k.event_groups k.counters

wake_receiver-Plain : (k : Kernel) (q : ℕ) → Plain k (wake_receiver k q)
unfolding wake_receiver
wake_receiver-Plain k q =
    let woken = (wake k q WaitKind.queue_receive).0 in
    if_intro (Plain k) ((wake k q WaitKind.queue_receive).1 != 0)
      (λ _. Plain-trans (wake-Plain k q WaitKind.queue_receive) (
        others-Plain woken woken.switch_pending woken.bytes woken.semaphores _ woken.event_groups
          woken.counters))
      (λ _. wake-Plain k q WaitKind.queue_receive)

wake_sender-Plain : (k : Kernel) (q : ℕ) → Plain k (wake_sender k q)
unfolding wake_sender
wake_sender-Plain k q =
    let woken = (wake k q WaitKind.queue_send).0 in
    if_intro (Plain k) ((wake k q WaitKind.queue_send).1 != 0)
      (λ _. Plain-trans (wake-Plain k q WaitKind.queue_send) (
        others-Plain woken woken.switch_pending woken.bytes woken.semaphores _ woken.event_groups
          woken.counters))
      (λ _. wake-Plain k q WaitKind.queue_send)

pub send_from_isr-Plain : (k : Kernel) (q item : ℕ) → Plain k (send_from_isr k q item).0
unfolding send_from_isr count_context_misuse count_accepted
send_from_isr-Plain k q item =
    let queue = k.queues q in
    let attempted = record k {
      counters = record k.counters {
        isr_queue_send_attempted = add32 k.counters.isr_queue_send_attempted 1;
      };
    } in
    let stored = push_item attempted q item 0 in
    let accepted = count_accepted stored (stored.queues q).count in
    if_intro (λ (o : Kernel × ℕ). Plain k o.0) (not k.in_isr) (λ _. counted-Plain k _)
      (λ _.
        if_intro (λ (o : Kernel × ℕ). Plain k o.0)
          ((queue.capacity != 0)
            && (queue.item_size != 0)
            && ltb (add32 queue.count queue.send_reservations) queue.capacity)
          (λ _.
            Plain-trans
              (Plain-trans (counted-Plain k attempted.counters)
                (Plain-trans (push_item-Plain attempted q item 0) (counted-Plain stored _)))
              (Plain-trans (wake_receiver-Plain accepted q)
                (request_switch-Plain (wake_receiver accepted q))))
          (λ _. counted-Plain k _))

-- The calls that can block the current task, which is not the idle task.
module _ (k : Kernel) (q item timeout : ℕ) (d : Deadline) (hi : k.current ≢ idle_index k)
    (hq : q ≢ 0) where
  send_round-Plain : (reserved : ℕ) → PlainOutcome k (send_round k q item timeout d reserved)
  unfolding send_round
  send_round-Plain reserved =
      let queue = k.queues q in
      if_intro (PlainOutcome k)
        ((queue.capacity != 0)
          && (queue.item_size != 0)
          && ((reserved != 0) || ltb (add32 queue.count queue.send_reservations) queue.capacity))
        (λ _.
          Plain-trans (push_item-Plain k q item reserved)
            (wake_receiver-Plain (push_item k q item reserved) q))
        (λ _.
          if_intro (PlainOutcome k) (timeout == 0) (λ _. Plain-refl k)
            (λ _.
              block_until_locked-Plain k q WaitKind.queue_send d hi hq (omega arith) (omega arith)))

  receive_round-Plain : (reserved : ℕ) → PlainOutcome k (receive_round k q item timeout d reserved)
  unfolding receive_round
  receive_round-Plain reserved =
      let queue = k.queues q in
      if_intro (PlainOutcome k)
        ((queue.item_size != 0) && ((reserved != 0) || ltb queue.receive_reservations queue.count))
        (λ _.
          Plain-trans (pop_item-Plain k q item reserved)
            (wake_sender-Plain (pop_item k q item reserved) q))
        (λ _.
          if_intro (PlainOutcome k) (timeout == 0) (λ _. Plain-refl k)
            (λ _.
              block_until_locked-Plain k q WaitKind.queue_receive d hi hq (omega arith)
                (omega arith)))

  pub send-Plain : PlainOutcome k (send k q item timeout d)
  unfolding send count_context_misuse
  send-Plain = if_intro (PlainOutcome k) k.in_isr (λ _. counted-Plain k _) (λ _. send_round-Plain 0)

  pub receive-Plain : PlainOutcome k (receive k q item timeout d)
  unfolding receive count_context_misuse
  receive-Plain =
      if_intro (PlainOutcome k) k.in_isr (λ _. counted-Plain k _) (λ _. receive_round-Plain 0)

  pub send_resume-Plain : PlainOutcome k (send_resume k q item timeout d)
  unfolding send_resume
  send_resume-Plain =
      if_intro (PlainOutcome k) (wait_result k == 0) (λ _. Plain-refl k) (λ _. send_round-Plain 1)

  pub receive_resume-Plain : PlainOutcome k (receive_resume k q item timeout d)
  unfolding receive_resume
  receive_resume-Plain =
      if_intro (PlainOutcome k) (wait_result k == 0) (λ _. Plain-refl k)
        (λ _. receive_round-Plain 1)
